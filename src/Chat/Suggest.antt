-- ===== src/Chat/Suggest.antt =====
-- crates/ar-chat/src/handler.rs: the commands that propose patches and tests.
use auto_review.Prelude.{
  ℕ, Bool, true, false, not, ◌&&◌, List, [], ◌∷◌, ◌++◌, map, Option, none, some, Result, ok, err,
  retain, take, leb, ◌==◌, if◌then◌else◌, is_empty, length,
}
use auto_review.Prelude.Text.{Text, codes, text_eq, trim}
use auto_review.Prelude.Keys.{member, text_key}
use auto_review.Prelude.Search.{show_nat}
use auto_review.Forge.{HostError, PullRequestSummary, ReviewComment, CreateReviewRequest, comment}
use auto_review.Llm.{
  LlmState, LlmError, Router, cheap, CompleteRequest, CompleteResponse, complete, has_provider,
}
use auto_review.Review.Host.{ReviewHost}
use auto_review.Chat.Fence.{
  AutofixPatch, TestScaffold, truncate_for_chat, format_suggestion_body, format_test_scaffolds_body,
}
use auto_review.Chat.DiffPaths.{paths_in_diff}
use auto_review.Chat.State.{
  ChatError, host, llm, ChatContext, SuggestionKind, autofix, docstrings, reviewed, ChatState,
  ChatParts, of_host, post,
}
pub mod Posted

unfoldable pub label : SuggestionKind → Text
label autofix = codes "Autofix"
label docstrings = codes "Docstrings"

unfoldable pub lowercase_label : SuggestionKind → Text
lowercase_label autofix = codes "autofix"
lowercase_label docstrings = codes "docstring generation"

unfoldable pub unit_plural : SuggestionKind → ℕ → Text
unit_plural autofix n = if n == 1 then codes "patch" else codes "patches"
unit_plural docstrings n = if n == 1 then codes "docstring" else codes "docstrings"

abbrev pub autofix_diff_cap : ℕ
autofix_diff_cap = 40000

abbrev pub autofix_max_patches : ℕ
autofix_max_patches = 5

unfoldable pub is_usable_patch : List Text → AutofixPatch → Bool
is_usable_patch diff_paths p =
    not (is_empty p.path)
    && leb 1 p.line
    && not (is_empty p.replacement)
    && member p.path diff_paths

unfoldable pub select_patches : Text → List AutofixPatch → List AutofixPatch
select_patches diff patches =
    take autofix_max_patches (retain (is_usable_patch (paths_in_diff diff)) patches)

unfoldable pub suggestion_comment : AutofixPatch → ReviewComment
suggestion_comment p = record {
  path = p.path;
  body = format_suggestion_body p;
  old_position = none;
  new_position = some p.line;
}

unfoldable pub is_usable_scaffold : TestScaffold → Bool
is_usable_scaffold s = not (is_empty s.item_name) && not (is_empty s.source)

-- The replies that end a command early.
pub record Refusals : Type 0 where
  pub unconfigured : Text
  pub draft : Text
  pub closed : Text
  pub no_diff : Text
  pub malformed : Text

unfoldable pub suggest_refusals : SuggestionKind → Refusals
suggest_refusals kind = record {
  unconfigured =
      label kind
      ++ codes
          " needs an LLM_CHEAP_MODEL configured. Try `@auto-review help` for the structured commands.";
  draft = codes "Skipping " ++ lowercase_label kind ++ codes ": this PR is a draft.";
  closed =
      codes "Skipping "
      ++ lowercase_label kind
      ++ codes ": this PR is closed/merged. Reopen it first.";
  no_diff = label kind ++ codes " can't run without a diff (none returned by Forgejo).";
  malformed = label kind ++ codes " didn't return well-formed suggestions; nothing posted.";
}

unfoldable pub test_refusals : Refusals
test_refusals = record {
  unconfigured =
      codes
        "Test scaffolding needs an LLM_CHEAP_MODEL configured. Try `@auto-review help` for the structured commands.";
  draft = codes "Skipping test scaffolds: this PR is a draft.";
  closed = codes "Skipping test scaffolds: this PR is closed/merged. Reopen it first.";
  no_diff = codes "Test scaffolding can't run without a diff (none returned by Forgejo).";
  malformed = codes "Test scaffolding didn't return well-formed output; nothing posted.";
}

unfoldable pub no_patches : SuggestionKind → ℕ → Text
no_patches kind raw_patch_count =
    if raw_patch_count == 0
    then label kind ++ codes " found nothing to suggest."
    else label kind
      ++ codes " proposed "
      ++ show_nat raw_patch_count
      ++ codes " patch"
      ++ (if raw_patch_count == 1 then [] else codes "es")
      ++ codes " but none referenced a file in this PR's diff (all dropped as hallucinated paths)."

unfoldable pub no_scaffolds : ℕ → Text
no_scaffolds raw_scaffold_count =
    if raw_scaffold_count == 0
    then codes "Test scaffolding found nothing in the diff that needs new coverage."
    else codes "Test scaffolding proposed "
      ++ show_nat raw_scaffold_count
      ++ codes " scaffold"
      ++ (if raw_scaffold_count == 1 then [] else codes "s")
      ++ codes " but none had both an item name and source code (all dropped as malformed)."

unfoldable pub posted_body : SuggestionKind → ℕ → Text
posted_body kind n =
    label kind
    ++ codes " posted "
    ++ show_nat n
    ++ codes " suggested "
    ++ unit_plural kind n
    ++ codes
        ". Each is applicable inline; review and click 'Apply suggestion' on the ones you want."

-- `unwrap_or_else(|e| String::new())`
unfoldable pub or_no_text : Result HostError Text → Text
or_no_text (ok t) = t
or_no_text (err e) = []

unfoldable pub suggestion_review :
    SuggestionKind → PullRequestSummary → List AutofixPatch → CreateReviewRequest
suggestion_review kind pr patches = record {
  body = posted_body kind (length (map suggestion_comment patches));
  commit_id = pr.head.sha;
  event = comment;
  comments = map suggestion_comment patches;
}

module _ {H W : Type 0} (review_host : ReviewHost H) (router : Router W)
    (chat_parts : ChatParts H W) where
  abbrev pub Step : Type 0
  Step = ChatState H W × Result ChatError (Unit {0})

  -- What both commands do with the diff of an open pull request: ask the model and read its JSON.
  unfoldable pub with_answer :
      {A : Type 0}
      → Refusals
      → ChatContext
      → (Text → Option A)
      → (A → ChatState H W → Step)
      → ChatState H W
      → LlmState W × Result LlmError CompleteResponse
      → Step
  with_answer texts ctx decode k s (l, err e) = (record s { llm_state = l }, err (llm e))
  with_answer texts ctx decode k s (l, ok resp) = elim (decode resp.content) [
    | none ↦ post review_host router chat_parts ctx texts.malformed (record s { llm_state = l })
    | some a ↦ k a (record s { llm_state = l })
  ]

  unfoldable pub with_diff :
      {A : Type 0}
      → Refusals
      → ChatContext
      → (Text → CompleteRequest)
      → (Text → Option A)
      → (Text → A → ChatState H W → Step)
      → ChatState H W
      → H × Result HostError Text
      → Step
  with_diff texts ctx request decode k s (h, answer) =
      let diff = or_no_text answer in
      let s' = record s { host_state = h } in
      if is_empty (trim diff)
      then post review_host router chat_parts ctx texts.no_diff s'
      else with_answer texts ctx decode (k diff) s'
          (complete router cheap (request (truncate_for_chat diff autofix_diff_cap)) s'.llm_state)

  unfoldable pub with_pull_request :
      {A : Type 0}
      → Refusals
      → ChatContext
      → (Text → CompleteRequest)
      → (Text → Option A)
      → (PullRequestSummary → Text → A → ChatState H W → Step)
      → ChatState H W
      → H × Result HostError PullRequestSummary
      → Step
  with_pull_request texts ctx request decode k s (h, err e) =
      (record s { host_state = h }, err (host e))
  with_pull_request texts ctx request decode k s (h, ok pr) =
      let s' = record s { host_state = h } in
      if pr.draft
      then post review_host router chat_parts ctx texts.draft s'
      else if not (text_eq pr.state (codes "open"))
      then post review_host router chat_parts ctx texts.closed s'
      else with_diff texts ctx request decode (k pr) s' (review_host.get_pr_diff ctx.pr h)

  unfoldable pub ask_about_diff :
      {A : Type 0}
      → Refusals
      → ChatContext
      → (Text → CompleteRequest)
      → (Text → Option A)
      → (PullRequestSummary → Text → A → ChatState H W → Step)
      → ChatState H W
      → Step
  ask_about_diff texts ctx request decode k s =
      if not (has_provider router cheap)
      then post review_host router chat_parts ctx texts.unconfigured s
      else with_pull_request texts ctx request decode k s
          (chat_parts.get_pull_request ctx.pr s.host_state)

  unfoldable pub post_suggestions :
      SuggestionKind
      → ChatContext
      → PullRequestSummary
      → Text
      → List AutofixPatch
      → ChatState H W
      → Step
  post_suggestions kind ctx pr diff raw s =
      let patches = select_patches diff raw in
      if is_empty patches
      then post review_host router chat_parts ctx (no_patches kind (length raw)) s
      else let request = suggestion_review kind pr patches in
        let (h, answer) = review_host.create_review ctx.pr request s.host_state in
        (
          record s { host_state = h; asked = s.asked ++ reviewed request ∷ [] },
          of_host review_host router chat_parts answer,
        )

  unfoldable pub handle_suggest : ChatContext → SuggestionKind → ChatState H W → Step
  handle_suggest ctx kind s =
      ask_about_diff (suggest_refusals kind) ctx (chat_parts.suggestion_request kind)
        chat_parts.decode_patches (post_suggestions kind ctx) s

  unfoldable pub post_scaffolds :
      ChatContext → PullRequestSummary → Text → List TestScaffold → ChatState H W → Step
  post_scaffolds ctx pr diff raw s =
      let scaffolds = take autofix_max_patches (retain is_usable_scaffold raw) in
      if is_empty scaffolds
      then post review_host router chat_parts ctx (no_scaffolds (length raw)) s
      else post review_host router chat_parts ctx (format_test_scaffolds_body scaffolds) s

  unfoldable pub handle_test_scaffolds : ChatContext → ChatState H W → Step
  handle_test_scaffolds ctx s =
      ask_about_diff test_refusals ctx chat_parts.tests_request chat_parts.decode_scaffolds
        (post_scaffolds ctx) s
