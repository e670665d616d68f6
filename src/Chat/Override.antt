-- ===== src/Chat/Override.antt =====
-- crates/ar-chat/src/handler.rs, `handle_override_approval` and what it calls, and
-- `RepoConfig::is_override_approver` of crates/ar-review/src/config.rs.
use auto_review.Prelude.{
  ℕ, Bool, true, false, not, ◌&&◌, List, [], ◌∷◌, ◌++◌, Option, none, some, Result, ok, err, any,
  retain, map, ltb, leb, ◌==◌, if◌then◌else◌, is_empty, length,
}
use auto_review.Prelude.Text.{Text, codes, text_eq, trim, eq_ignore_ascii_case}
use auto_review.Prelude.Search.{contains, split_whitespace}
use auto_review.Forge.{
  HostError, PullRequestSummary, PullReviewSummary, PrReviewComment, CreateReviewRequest, approved,
}
use auto_review.Llm.{
  LlmError, LlmState, Router, cheap, CompleteRequest, complete, has_provider, user_message,
}
use auto_review.Review.Host.{PrRef, ReviewHost}
use auto_review.Review.Marker.{apply_title_marker, apply_body_section}
use auto_review.Chat.Caveat.{
  summarize_finding, render_override_review_body, render_override_pr_section,
}
use auto_review.Chat.State.{
  ChatError, host, ChatContext, RepoConfig, is_override_approver, default_config, reviewed, updated,
  learned, ChatState, ChatParts, and_then, of_host, post,
}
pub mod Authorized

pub record OutstandingFindings : Type 0 where
  pub blocked : Bool
  pub error_findings : List Text

abbrev pub clear : OutstandingFindings
clear = record { blocked = false; error_findings = [] }

-- The later of two reviews with the same id, as `max_by_key` takes it.
unfoldable pub latest_review : List PullReviewSummary → Option PullReviewSummary
latest_review [] = none
latest_review (r ∷ rs) = elim (latest_review rs) [
  | none ↦ some r
  | some s ↦ if ltb s.id r.id then some r else some s
]

unfoldable pub bot_reviews : Text → List PullReviewSummary → List PullReviewSummary
bot_reviews bot_login reviews = retain (λ r. eq_ignore_ascii_case r.user.login bot_login) reviews

unfoldable pub heuristic : Text → Option Text
heuristic correction =
    if leb 4 (length (split_whitespace (trim correction))) then some (trim correction) else none

unfoldable pub parse_override_reason : Option (Bool × Text) → Option Text
parse_override_reason none = none
parse_override_reason (some (has_explanation, explanation)) =
    if has_explanation && not (is_empty (trim explanation)) then some (trim explanation) else none

-- `unwrap_or_default`
unfoldable pub or_empty : {A : Type 0} → Result HostError (List A) → List A
or_empty (ok xs) = xs
or_empty (err e) = []

-- The record of a learning is not used.
unfoldable pub stored : Result ChatError ℕ → Result ChatError (Unit {0})
stored (ok id) = ok tt
stored (err e) = err e

module _ {H W : Type 0} (review_host : ReviewHost H) (router : Router W)
    (chat_parts : ChatParts H W) where
  unfoldable pub approve :
      ChatContext → Text → Text → ChatState H W → ChatState H W × Result ChatError (Unit {0})
  approve ctx head_sha body s =
      let request : CreateReviewRequest = record {
        body = body;
        commit_id = head_sha;
        event = approved;
        comments = [];
      } in
      let (h, answer) = review_host.create_review ctx.pr request s.host_state in
      (
        record s { host_state = h; asked = s.asked ++ reviewed request ∷ [] },
        of_host review_host router chat_parts answer,
      )

  unfoldable pub remember_correction :
      ChatContext → Text → ChatState H W → ChatState H W × Result ChatError (Unit {0})
  remember_correction ctx correction s =
      let embedding_text =
        codes "Repository "
        ++ ctx.pr.owner
        ++ codes "/"
        ++ ctx.pr.repo
        ++ codes
            " only. Review correction from PR feedback: treat the user's explanation as repository-specific guidance for future reviews. User feedback: "
        ++ correction in
      let (l, answer) = chat_parts.add_learning embedding_text s.llm_state in
      (record s { llm_state = l; asked = s.asked ++ learned embedding_text ∷ [] }, stored answer)

  unfoldable pub outstanding_findings : ChatContext → H → H × OutstandingFindings
  outstanding_findings ctx h =
      let (h', reviews) = review_host.list_pull_reviews ctx.pr h in
      elim (latest_review (bot_reviews ctx.bot_login (or_empty reviews))) [
        | none ↦ (h', clear)
        | some review ↦
            if not (eq_ignore_ascii_case review.state (codes "REQUEST_CHANGES"))
            then (h', clear)
            else let (h'', comments) = review_host.list_pull_review_comments ctx.pr review.id h' in
              (
                h'',
                record {
                  blocked = true;
                  error_findings =
                      map (λ (c : PrReviewComment). summarize_finding c.body)
                        (retain (λ (c : PrReviewComment). contains (codes "Error:") c.body)
                          (or_empty comments));
                },
              )
      ]

  -- The files by their names in order; the first one that is there decides.
  unfoldable pub load_config : ChatContext → Text → List Text → H → H × RepoConfig
  load_config ctx base [] h = (h, default_config)
  load_config ctx base (name ∷ names) h =
      let (h', answer) = chat_parts.get_file_content ctx.pr name base h in
      elim answer [
        | err e ↦ (h', default_config)
        | ok none ↦ load_config ctx base names h'
        | ok (some contents) ↦ elim (chat_parts.parse_repo_config contents) [
          | ok config ↦ (h', config)
          | err e ↦ (h', default_config)
        ]
      ]

  unfoldable pub load_repo_config_for_chat : ChatContext → PullRequestSummary → H → H × RepoConfig
  load_repo_config_for_chat ctx pr h =
      load_config ctx pr.base.ref_name (codes ".auto_review.yaml" ∷ codes ".auto_review.yml" ∷ []) h

  unfoldable pub judge_override_reason : Text → LlmState W → LlmState W × Option Text
  judge_override_reason correction l =
      if not (has_provider router cheap)
      then (l, heuristic correction)
      else let (l', answer) =
          complete router cheap (chat_parts.override_reason_request correction) l in
        elim answer [
          | ok resp ↦ (l', parse_override_reason (chat_parts.decode_override_reason resp.content))
          | err e ↦ (l', heuristic correction)
        ]

  -- The mark on the pull request; a failure of the host is only logged.
  unfoldable pub stamp :
      ChatContext
      → PullRequestSummary
      → Text
      → List Text
      → ChatState H W
      → ChatState H W × Result ChatError (Unit {0})
  stamp ctx pr reason findings s =
      let title = apply_title_marker pr.title in
      let body =
        apply_body_section pr.body
          (render_override_pr_section ctx.commenter_login reason findings) in
      let (h, answer) = review_host.update_pull_request ctx.pr title body s.host_state in
      (record s { host_state = h; asked = s.asked ++ updated title body ∷ [] }, ok tt)

  unfoldable pub on_reason :
      ChatContext
      → PullRequestSummary
      → Text
      → List Text
      → ChatState H W
      → LlmState W × Option Text
      → ChatState H W × Result ChatError (Unit {0})
  on_reason ctx pr correction findings s (l, none) =
      post review_host router chat_parts ctx
        (codes
          "To override my outstanding finding(s) I need to record *why*. Please reply explaining why the finding(s) are acceptable, and I'll approve and note the reason on the PR so it lands in the merge commit.")
        (record s { llm_state = l })
  on_reason ctx pr correction findings s (l, some reason) =
      and_then review_host router chat_parts
        (remember_correction ctx correction (record s { llm_state = l }))
        (λ t.
          and_then review_host router chat_parts
            (approve ctx pr.head.sha
              (render_override_review_body ctx.commenter_login reason findings) t)
            (stamp ctx pr reason findings))

  -- An override by a commenter who may do so.
  unfoldable pub force_approval :
      ChatContext
      → PullRequestSummary
      → Text
      → List Text
      → ChatState H W
      → ChatState H W × Result ChatError (Unit {0})
  force_approval ctx pr correction findings s =
      on_reason ctx pr correction findings s (judge_override_reason correction s.llm_state)

  unfoldable pub decline :
      ChatContext → Text → ChatState H W → ChatState H W × Result ChatError (Unit {0})
  decline ctx correction s =
      and_then review_host router chat_parts (remember_correction ctx correction s) (
        post review_host router chat_parts ctx (
          codes "I can't override my outstanding findings on request, @"
          ++ ctx.commenter_login
          ++ codes
              ". Only users listed under `override_approvers` in this repo's `.auto_review.yaml` may force an approval over open findings. I've noted your feedback for future reviews."))

  -- The request about an open pull request that is not a draft.
  unfoldable pub answer_approval :
      ChatContext
      → PullRequestSummary
      → Text
      → ChatState H W
      → ChatState H W × Result ChatError (Unit {0})
  answer_approval ctx pr correction s =
      let (h, outstanding) = outstanding_findings ctx s.host_state in
      if not outstanding.blocked
      then and_then review_host router chat_parts
          (remember_correction ctx correction (record s { host_state = h }))
          (approve ctx pr.head.sha
            (codes "Approved — there were no outstanding findings to override."))
      else let (h', config) = load_repo_config_for_chat ctx pr h in
        let s' = record s { host_state = h' } in
        if not (is_override_approver config ctx.commenter_login)
        then decline ctx correction s'
        else force_approval ctx pr correction outstanding.error_findings s'

  unfoldable pub on_pull_request :
      ChatContext
      → Text
      → ChatState H W
      → H × Result HostError PullRequestSummary
      → ChatState H W × Result ChatError (Unit {0})
  on_pull_request ctx correction s (h, err e) = (record s { host_state = h }, err (host e))
  on_pull_request ctx correction s (h, ok pr) =
      let s' = record s { host_state = h } in
      if pr.draft
      then post review_host router chat_parts ctx
          (codes "I can't approve while this PR is a draft.") s'
      else if not (text_eq pr.state (codes "open"))
      then post review_host router chat_parts ctx (codes "I can't approve a closed or merged PR.")
          s'
      else answer_approval ctx pr correction s'

  unfoldable pub handle_override_approval :
      ChatContext → Text → ChatState H W → ChatState H W × Result ChatError (Unit {0})
  handle_override_approval ctx correction s =
      on_pull_request ctx correction s (chat_parts.get_pull_request ctx.pr s.host_state)
