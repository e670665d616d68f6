-- ===== src/Chat/Handler.antt =====
-- crates/ar-chat/src/handler.rs, `ChatHandler::handle`: every chat command.
use auto_review.Prelude.{
  ℕ, Bool, true, false, not, List, [], ◌∷◌, ◌++◌, Option, none, some, Result, ok, err, leb,
  if◌then◌else◌, is_empty,
}
use auto_review.Prelude.Text.{Text, codes, text_eq, trim}
use auto_review.Prelude.Boundary.{byte_len}
use auto_review.Prelude.Search.{show_nat}
use auto_review.Forge.{HostError, PullRequestSummary}
use auto_review.Llm.{LlmState, LlmError, Router, cheap, CompleteResponse, complete, has_provider}
use auto_review.Index.Learnings.{LearningsError, not_found}
use auto_review.Orchestrator.Jobs.{ReviewJob}
use auto_review.Review.Host.{ReviewHost}
use auto_review.Chat.Command.{
  ChatCommand, remember, forget, review_correction, test_scaffolds, help, freeform, not_mentioned,
}
use auto_review.Chat.Fence.{truncate_with_marker, truncate_for_chat}
use auto_review.Chat.State.{
  ChatError, host, llm, learnings, ChatContext, SuggestionKind, learned, forgot, dispatched,
  ChatState, ChatParts, and_then, post,
}
use auto_review.Chat.Override.{handle_override_approval}
use auto_review.Chat.Suggest.{or_no_text, handle_suggest, handle_test_scaffolds, Step}
pub mod Commands

pub data DirectedIntent : Type 0 where
  approval_request re_review question : DirectedIntent

unfoldable pub intent_of : Text → DirectedIntent
intent_of intent =
    if text_eq intent (codes "approval_request")
    then DirectedIntent.approval_request
    else if text_eq intent (codes "re_review")
    then DirectedIntent.re_review
    else question

unfoldable pub parse_directed_intent : Option Text → DirectedIntent
parse_directed_intent none = question
parse_directed_intent (some intent) = intent_of intent

abbrev pub freeform_diff_cap : ℕ
freeform_diff_cap = 40000

abbrev pub freeform_reply_cap : ℕ
freeform_reply_cap = 32000

abbrev pub question_max_bytes : ℕ
question_max_bytes = 4096

abbrev pub remember_max_bytes : ℕ
remember_max_bytes = 4096

unfoldable pub freeform_reply : Text → Text
freeform_reply content =
    if is_empty (trim content)
    then codes "(no response from the chat model)"
    else truncate_with_marker content freeform_reply_cap (codes "[reply truncated]")

unfoldable pub forced_job : ChatContext → PullRequestSummary → ReviewJob
forced_job ctx pr = record {
  owner = ctx.pr.owner;
  repo = ctx.pr.repo;
  pr_number = pr.number;
  head_sha = pr.head.sha;
  pr_title = pr.title;
  pr_body = pr.body;
  force = true;
}

module _ {H W : Type 0} (review_host : ReviewHost H) (router : Router W)
    (chat_parts : ChatParts H W) where
  abbrev reply : ChatContext → Text → ChatState H W → ChatState H W × Result ChatError (Unit {0})
  reply = post review_host router chat_parts

  unfoldable pub on_re_review :
      ChatContext
      → ChatState H W
      → H × Result HostError PullRequestSummary
      → ChatState H W × Result ChatError (Unit {0})
  on_re_review ctx s (h, err e) = (record s { host_state = h }, err (host e))
  on_re_review ctx s (h, ok pr) =
      let s' = record s { host_state = h } in
      if pr.draft
      then reply ctx (codes "Skipping re-review: this PR is a draft. Mark it ready first.") s'
      else if not (text_eq pr.state (codes "open"))
      then reply ctx
          (codes
            "Skipping re-review: this PR is closed/merged. Reopen it first if you want a fresh review.")
          s'
      else reply ctx
          (codes "Queued a forced review at "
            ++ pr.head.sha
            ++ codes
                ". This intentionally bypasses CI gating; watch the commit-status badge for progress.")
          (record s' { asked = s'.asked ++ dispatched (forced_job ctx pr) ∷ [] })

  unfoldable pub handle_re_review :
      ChatContext → ChatState H W → ChatState H W × Result ChatError (Unit {0})
  handle_re_review ctx s =
      if not chat_parts.has_dispatcher
      then reply ctx
          (codes
            "Re-review isn't wired up here (no dispatcher configured). The next review on this PR will run when the next webhook fires.")
          s
      else on_re_review ctx s (chat_parts.get_pull_request ctx.pr s.host_state)

  unfoldable pub read_intent :
      LlmState W × Result LlmError CompleteResponse → LlmState W × DirectedIntent
  read_intent (l, ok resp) = (l, parse_directed_intent (chat_parts.decode_intent resp.content))
  read_intent (l, err e) = (l, question)

  unfoldable pub classify_intent : Text → LlmState W → LlmState W × DirectedIntent
  classify_intent text l =
      if not (has_provider router cheap)
      then (l, question)
      else read_intent (complete router cheap (chat_parts.intent_request text) l)

  unfoldable pub on_freeform :
      ChatContext
      → ChatState H W
      → LlmState W × Result LlmError CompleteResponse
      → ChatState H W × Result ChatError (Unit {0})
  on_freeform ctx s (l, err e) = (record s { llm_state = l }, err (llm e))
  on_freeform ctx s (l, ok resp) =
      reply ctx (freeform_reply resp.content) (record s { llm_state = l })

  unfoldable pub handle_freeform :
      ChatContext → Text → ChatState H W → ChatState H W × Result ChatError (Unit {0})
  handle_freeform ctx text s =
      if not (has_provider router cheap)
      then reply ctx
          (codes
            "Conversational replies need an LLM_CHEAP_MODEL configured. Try `@auto-review help` for the structured commands.")
          s
      else let asked_text =
          truncate_with_marker text question_max_bytes (codes "[question truncated]") in
        let (h, answer) = review_host.get_pr_diff ctx.pr s.host_state in
        let diff = truncate_for_chat (or_no_text answer) freeform_diff_cap in
        on_freeform ctx (record s { host_state = h })
          (complete router cheap (chat_parts.freeform_request asked_text diff) s.llm_state)

  unfoldable pub on_intent :
      ChatContext
      → Text
      → ChatState H W
      → LlmState W × DirectedIntent
      → ChatState H W × Result ChatError (Unit {0})
  on_intent ctx text s (l, DirectedIntent.re_review) =
      handle_re_review ctx (record s { llm_state = l })
  on_intent ctx text s (l, DirectedIntent.approval_request) =
      handle_override_approval review_host router chat_parts ctx text (record s { llm_state = l })
  on_intent ctx text s (l, question) = handle_freeform ctx text (record s { llm_state = l })

  unfoldable pub handle_directed :
      ChatContext → Text → ChatState H W → ChatState H W × Result ChatError (Unit {0})
  handle_directed ctx text s = on_intent ctx text s (classify_intent text s.llm_state)

  unfoldable pub on_remembered :
      ChatContext
      → ChatState H W
      → LlmState W × Result ChatError ℕ
      → ChatState H W × Result ChatError (Unit {0})
  on_remembered ctx s (l, err e) = (record s { llm_state = l }, err e)
  on_remembered ctx s (l, ok id) =
      reply ctx
        (codes "Remembered as learning #"
          ++ show_nat id
          ++ codes ". To revoke later: `@auto-review forget "
          ++ show_nat id
          ++ codes "`.")
        (record s { llm_state = l })

  unfoldable pub handle_remember :
      ChatContext → Text → ChatState H W → ChatState H W × Result ChatError (Unit {0})
  handle_remember ctx text s =
      if not (leb (byte_len text) remember_max_bytes)
      then reply ctx
          (codes "That's "
            ++ show_nat (byte_len text)
            ++ codes " bytes — capped at "
            ++ show_nat remember_max_bytes
            ++ codes
                " bytes per learning. Re-issue with a shorter snippet or break it into multiple `remember` calls.")
          s
      else on_remembered ctx (record s { asked = s.asked ++ learned text ∷ [] })
          (chat_parts.add_learning text s.llm_state)

  unfoldable pub on_forgotten :
      ChatContext
      → ℕ
      → ChatState H W
      → LlmState W × Result LearningsError (Unit {0})
      → ChatState H W × Result ChatError (Unit {0})
  on_forgotten ctx id s (l, ok u) =
      reply ctx (codes "Forgotten learning #" ++ show_nat id ++ codes ".")
        (record s { llm_state = l })
  on_forgotten ctx id s (l, err (not_found missing)) =
      reply ctx (codes "No learning with id " ++ show_nat id ++ codes "; nothing to forget.")
        (record s { llm_state = l })
  on_forgotten ctx id s (l, err e) = (record s { llm_state = l }, err (learnings e))

  unfoldable pub handle_forget :
      ChatContext → ℕ → ChatState H W → ChatState H W × Result ChatError (Unit {0})
  handle_forget ctx id s =
      on_forgotten ctx id (record s { asked = s.asked ++ forgot id ∷ [] })
        (chat_parts.remove_learning id s.llm_state)

  unfoldable pub handle :
      ChatContext → ChatCommand → ChatState H W → ChatState H W × Result ChatError (Unit {0})
  handle ctx help s = reply ctx chat_parts.help_text s
  handle ctx (remember text) s = handle_remember ctx text s
  handle ctx (forget id) s = handle_forget ctx id s
  handle ctx ChatCommand.re_review s = handle_re_review ctx s
  handle ctx (review_correction text) s = handle_directed ctx text s
  handle ctx ChatCommand.autofix s =
      handle_suggest review_host router chat_parts ctx SuggestionKind.autofix s
  handle ctx ChatCommand.docstrings s =
      handle_suggest review_host router chat_parts ctx SuggestionKind.docstrings s
  handle ctx test_scaffolds s = handle_test_scaffolds review_host router chat_parts ctx s
  handle ctx (freeform text) s = handle_directed ctx text s
  handle ctx not_mentioned s = (s, ok tt)
