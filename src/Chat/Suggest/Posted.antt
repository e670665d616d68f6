-- ===== src/Chat/Suggest/Posted.antt =====
-- crates/ar-chat/src/handler.rs: what the proposing commands post.
use auto_review.Prelude.{
  ℕ, zero, suc, ◌≤◌, ◌≡◌, refl, ◌⊎◌, inl, inr, true, false, List, [], ◌∷◌, ◌++◌, map, Option, none,
  some, Result, ok, err, arith, retain, take, length, is_empty, Bool-cases,
}
use auto_review.Prelude.Text.{Text, codes, text_eq, trim}
use auto_review.Prelude.Keys.{member, text_key}
use auto_review.Forge.{HostError, PullRequestSummary, ReviewComment, CreateReviewRequest, comment}
use auto_review.Llm.{
  LlmState, LlmError, Router, cheap, CompleteRequest, CompleteResponse, has_provider,
}
use auto_review.Review.Host.{ReviewHost}
use auto_review.Chat.Fence.{AutofixPatch, TestScaffold}
use auto_review.Chat.DiffPaths.{paths_in_diff}
use auto_review.Chat.State.{
  ChatContext, SuggestionKind, replied, reviewed, ChatState, ChatParts, post,
}
use auto_review.Chat.Suggest.{
  autofix_max_patches, is_usable_patch, select_patches, suggestion_comment, suggestion_review,
  Refusals, suggest_refusals, test_refusals, is_usable_scaffold, or_no_text, Step, with_answer,
  with_diff, with_pull_request, ask_about_diff, post_suggestions, handle_suggest, post_scaffolds,
  handle_test_scaffolds,
}

length-take-le {ℓ} : {A : Type ℓ} (n : ℕ) (xs : List A) → length (take n xs) ≤ n
length-take-le zero xs = omega arith
length-take-le (suc n) [] = omega arith
length-take-le (suc n) (x ∷ xs) = omega (arith, length-take-le n xs)

length-map {ℓ κ} :
    {A : Type ℓ} {B : Type κ} (f : A → B) (xs : List A) → length (map f xs) ≡ length xs
length-map f [] = refl
length-map f (x ∷ xs) = omega (arith, length-map f xs)

-- The test that a comment passes.
abbrev pub IsPlaced : List Text → ReviewComment → Type 0
IsPlaced paths c =
    (member c.path paths ≡ true) × ((line : ℕ) × (c.new_position ≡ some line) × (1 ≤ line))

usable-IsPlaced :
    (paths : List Text) (p : AutofixPatch)
    → is_usable_patch paths p ≡ true
    → IsPlaced paths (suggestion_comment p)
unfolding is_usable_patch suggestion_comment
usable-IsPlaced paths p h = (ground arith, (p.line, refl, ground arith))

abbrev pub AllPlaced : List Text → List ReviewComment → Type 0
AllPlaced paths [] = Unit {0}
AllPlaced paths (c ∷ cs) = IsPlaced paths c × AllPlaced paths cs

selected-AllPlaced :
    (paths : List Text) (n : ℕ) (raw : List AutofixPatch)
    → AllPlaced paths (map suggestion_comment (take n (retain (is_usable_patch paths) raw)))
selected-AllPlaced paths zero raw = tt
selected-AllPlaced paths (suc n) [] = tt
selected-AllPlaced paths (suc n) (p ∷ raw) = elim (Bool-cases (is_usable_patch paths p)) [
  | inl good ↦ rw good (usable-IsPlaced paths p good, selected-AllPlaced paths n raw)
  | inr bad ↦ rw bad (selected-AllPlaced paths (suc n) raw)
]

module _ {H W : Type 0} (review_host : ReviewHost H) (router : Router W)
    (chat_parts : ChatParts H W) where
  -- A review that proposes patches.
  abbrev pub IsSuggestion : ChatContext → ChatState H W → CreateReviewRequest → Type 0
  IsSuggestion ctx s request =
      (pr : PullRequestSummary) × (h : H) × (chat_parts.get_pull_request ctx.pr s.host_state
        ≡ (h, ok pr))
      × (pr.draft ≡ false)
      × (text_eq pr.state (codes "open") ≡ true)
      × (request.commit_id ≡ pr.head.sha)
      × (request.event ≡ comment)
      × (1 ≤ length request.comments)
      × (length request.comments ≤ 5)
      × AllPlaced (paths_in_diff (or_no_text (review_host.get_pr_diff ctx.pr h).1)) request.comments

  -- The state asks for nothing more, for one reply, or for one review of which `P` holds.
  abbrev pub AtMost :
      (CreateReviewRequest → Type 0) → ChatState H W → Step review_host router chat_parts → Type 0
  AtMost P s r =
      (r.0.asked ≡ s.asked)
      ⊎ ((t : Text) × (r.0.asked ≡ s.asked ++ replied t ∷ []))
      ⊎ ((q : CreateReviewRequest) × (r.0.asked ≡ s.asked ++ reviewed q ∷ []) × P q)

  module _ (P : CreateReviewRequest → Type 0) where
    post-AtMost :
        (ctx : ChatContext) (t : Text) (s : ChatState H W)
        → AtMost P s (post review_host router chat_parts ctx t s)
    unfolding post
    post-AtMost ctx t s = inr (inl (t, refl))

    module _ {A : Type 0} (texts : Refusals) (ctx : ChatContext) (request : Text → CompleteRequest)
        (decode : Text → Option A) where
      with_answer-AtMost :
          (k : A → ChatState H W → Step review_host router chat_parts) (s : ChatState H W)
          (r : LlmState W × Result LlmError CompleteResponse)
          → ((a : A) (s' : ChatState H W) → AtMost P s' (k a s'))
          → AtMost P s (with_answer review_host router chat_parts texts ctx decode k s r)
      unfolding with_answer
      with_answer-AtMost k s (l, err e) next = inl refl
      with_answer-AtMost k s (l, ok resp) next =
          elim (decode resp.content)
            as (λ d. AtMost P s (elim d [
              | none ↦
                  post review_host router chat_parts ctx texts.malformed
                    (record s { llm_state = l })
              | some a ↦ k a (record s { llm_state = l })
            ])) [
              | none ↦ post-AtMost ctx texts.malformed (record s { llm_state = l })
              | some a ↦ next a (record s { llm_state = l })
            ]

      with_diff-AtMost :
          (k : Text → A → ChatState H W → Step review_host router chat_parts) (s : ChatState H W)
          (r : H × Result HostError Text)
          → ((a : A) (s' : ChatState H W) → AtMost P s' (k (or_no_text r.1) a s'))
          → AtMost P s (with_diff review_host router chat_parts texts ctx request decode k s r)
      unfolding with_diff
      with_diff-AtMost k s (h, answer) next =
          elim (Bool-cases (is_empty (trim (or_no_text answer)))) [
            | inl nothing ↦
                rw (nothing, with_diff)
                  (post-AtMost ctx texts.no_diff (record s { host_state = h }))
            | inr something ↦
                rw (something, with_diff)
                  (with_answer-AtMost (k (or_no_text answer)) (record s { host_state = h }) _ next)
          ]

      with_pull_request-AtMost :
          (k : PullRequestSummary → Text → A → ChatState H W → Step review_host router chat_parts)
          (s : ChatState H W) (r : H × Result HostError PullRequestSummary)
          → ((pr : PullRequestSummary) (h : H) (a : A) (s' : ChatState H W)
              → r ≡ (h, ok pr)
              → pr.draft ≡ false
              → text_eq pr.state (codes "open") ≡ true
              → AtMost P s' (k pr (or_no_text (review_host.get_pr_diff ctx.pr h).1) a s'))
          → AtMost P s
              (with_pull_request review_host router chat_parts texts ctx request decode k s r)
      unfolding with_pull_request
      with_pull_request-AtMost k s (h, err e) next = inl refl
      with_pull_request-AtMost k s (h, ok pr) next =
          let s' : ChatState H W = record s { host_state = h } in
          elim (Bool-cases pr.draft) [
            | inl draft ↦ simp (draft, with_pull_request) (post-AtMost ctx texts.draft s')
            | inr ready ↦ elim (Bool-cases (text_eq pr.state (codes "open"))) [
              | inr closed ↦
                  simp (ready, closed, with_pull_request) (post-AtMost ctx texts.closed s')
              | inl is_open ↦
                  simp (ready, is_open, with_pull_request)
                    (with_diff-AtMost (k pr) s' (review_host.get_pr_diff ctx.pr h)
                      (λ a t. next pr h a t refl ready is_open))
            ]
          ]

      ask_about_diff-AtMost :
          (k : PullRequestSummary → Text → A → ChatState H W → Step review_host router chat_parts)
          (s : ChatState H W)
          → ((pr : PullRequestSummary) (h : H) (a : A) (s' : ChatState H W)
              → chat_parts.get_pull_request ctx.pr s.host_state ≡ (h, ok pr)
              → pr.draft ≡ false
              → text_eq pr.state (codes "open") ≡ true
              → AtMost P s' (k pr (or_no_text (review_host.get_pr_diff ctx.pr h).1) a s'))
          → AtMost P s (ask_about_diff review_host router chat_parts texts ctx request decode k s)
      unfolding ask_about_diff
      ask_about_diff-AtMost k s next = elim (Bool-cases (has_provider router cheap)) [
        | inr missing ↦ rw (missing, ask_about_diff) (post-AtMost ctx texts.unconfigured s)
        | inl there ↦
            rw (there, ask_about_diff)
              (with_pull_request-AtMost k s (chat_parts.get_pull_request ctx.pr s.host_state) next)
      ]

  post_suggestions-AtMost :
      (kind : SuggestionKind) (ctx : ChatContext) (pr : PullRequestSummary) (h : H)
      (raw : List AutofixPatch) (first s : ChatState H W)
      → chat_parts.get_pull_request ctx.pr first.host_state ≡ (h, ok pr)
      → pr.draft ≡ false
      → text_eq pr.state (codes "open") ≡ true
      → AtMost (IsSuggestion ctx first) s (
          post_suggestions review_host router chat_parts kind ctx pr
            (or_no_text (review_host.get_pr_diff ctx.pr h).1)
            raw
            s)
  unfolding post_suggestions suggestion_review select_patches
  post_suggestions-AtMost kind ctx pr h raw first s found ready is_open =
      let diff = or_no_text (review_host.get_pr_diff ctx.pr h).1 in
      let patches = select_patches diff raw in
      elim (Bool-cases (is_empty patches)) [
        | inl none_left ↦
            rw (none_left, post_suggestions) (post-AtMost (IsSuggestion ctx first) ctx _ s)
        | inr some_left ↦
            rw (some_left, post_suggestions)
              (inr (
                inr (
                  suggestion_review kind pr patches,
                  refl,
                  (
                    pr,
                    h,
                    found,
                    ready,
                    is_open,
                    refl,
                    refl,
                    omega
                        (arith, length-map suggestion_comment patches, not_empty patches some_left),
                    omega (
                      arith,
                      length-map suggestion_comment patches,
                      length-take-le 5 (retain (is_usable_patch (paths_in_diff diff)) raw),
                    ),
                    selected-AllPlaced (paths_in_diff diff) 5 raw,
                  ),
                )))
      ]
    where
      not_empty : (ps : List AutofixPatch) → is_empty ps ≡ false → 1 ≤ length ps
      not_empty [] e = cc
      not_empty (x ∷ ps) e = omega arith

  -- A command that proposes patches posts at most one thing: a reply, or a comment review of the
  -- head of a pull request that was read as open and no draft, with one to five comments, each on
  -- a line, counted from one, of a file that the diff of the pull request names.
  pub handle_suggest-AtMost :
      (ctx : ChatContext) (kind : SuggestionKind) (s : ChatState H W)
      → AtMost (IsSuggestion ctx s) s (handle_suggest review_host router chat_parts ctx kind s)
  unfolding handle_suggest
  handle_suggest-AtMost ctx kind s =
      ask_about_diff-AtMost (IsSuggestion ctx s) (suggest_refusals kind) ctx
        (chat_parts.suggestion_request kind) chat_parts.decode_patches
        (post_suggestions review_host router chat_parts kind ctx) s
        (λ pr h a t found ready is_open.
          post_suggestions-AtMost kind ctx pr h a s t found ready is_open)

  -- The command that proposes tests posts a reply at most.
  pub handle_test_scaffolds-AtMost :
      (ctx : ChatContext) (s : ChatState H W)
      → AtMost (λ q. ⊥) s (handle_test_scaffolds review_host router chat_parts ctx s)
  unfolding handle_test_scaffolds
  handle_test_scaffolds-AtMost ctx s =
      ask_about_diff-AtMost (λ q. ⊥) test_refusals ctx chat_parts.tests_request
        chat_parts.decode_scaffolds (post_scaffolds review_host router chat_parts ctx) s
        (λ pr h a t found ready is_open.
          scaffolds pr (or_no_text (review_host.get_pr_diff ctx.pr h).1) a t)
    where
      scaffolds :
          (pr : PullRequestSummary) (diff : Text) (a : List TestScaffold) (t : ChatState H W)
          → AtMost (λ q. ⊥) t (post_scaffolds review_host router chat_parts ctx pr diff a t)
      scaffolds pr diff a t =
          unfold post_scaffolds in
          elim (Bool-cases (is_empty (take autofix_max_patches (retain is_usable_scaffold a)))) [
            | inl e ↦ rw (e, post_scaffolds) (post-AtMost (λ q. ⊥) ctx _ t)
            | inr e ↦ rw (e, post_scaffolds) (post-AtMost (λ q. ⊥) ctx _ t)
          ]
