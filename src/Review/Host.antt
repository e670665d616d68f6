-- ===== src/Review/Host.antt =====
-- crates/ar-forge/src/lib.rs, the trait `ReviewHost`, as the review pipeline uses it, and
-- crates/ar-review/src/pipeline.rs, the reading of the earlier discussion of a pull request.
-- A host is a service: `H` is whatever state decides its answers.
use auto_review.Prelude.{ℕ, List, [], ◌∷◌, ◌++◌, Result, ok, err, if◌then◌else◌, is_empty}
use auto_review.Prelude.Text.{Text, codes}
use auto_review.Prelude.Search.{split_whitespace, join}
use auto_review.Forge.{
  HostError, ChangedFile, PrReviewComment, PullReviewSummary, CreateReviewRequest, CreatedReview,
}

pub record PrRef : Type 0 where
  pub owner : Text
  pub repo : Text
  pub pr_number : ℕ

pub record ReviewHost (H : Type 0) : Type 0 where
  pub get_pr_diff : PrRef → H → H × Result HostError Text
  pub list_changed_files : PrRef → H → H × Result HostError (List ChangedFile)
  pub list_pr_review_comments : PrRef → H → H × Result HostError (List PrReviewComment)
  pub list_pull_reviews : PrRef → H → H × Result HostError (List PullReviewSummary)
  pub list_pull_review_comments : PrRef → ℕ → H → H × Result HostError (List PrReviewComment)
  pub update_pull_request : PrRef → Text → Text → H → H × Result HostError (Unit {0})
  pub create_review : PrRef → CreateReviewRequest → H → H × Result HostError CreatedReview

module _ {H : Type 0} (host : ReviewHost H) (pr : PrRef) where
  -- The comments of each review, behind those there are.
  unfoldable pub extend_with_reviews :
      List PullReviewSummary
      → List PrReviewComment
      → H
      → H × Result HostError (List PrReviewComment)
  extend_with_reviews [] comments h = (h, ok comments)
  extend_with_reviews (review ∷ reviews) comments h =
      let (h', answer) = host.list_pull_review_comments pr review.id h in
      elim answer [
        | err e ↦ (h', err e)
        | ok more ↦ extend_with_reviews reviews (comments ++ more) h'
      ]

  unfoldable pub load_prior_pr_discussion : H → H × Result HostError (List PrReviewComment)
  load_prior_pr_discussion h =
      let (h', answer) = host.list_pr_review_comments pr h in
      elim answer [
        | err e ↦ (h', err e)
        | ok comments ↦
            let (h'', reviews_answer) = host.list_pull_reviews pr h' in
            elim reviews_answer [
              | err e ↦ (h'', err e)
              | ok reviews ↦ extend_with_reviews reviews comments h''
            ]
      ]

unfoldable pub render_prior_pr_discussion : List PrReviewComment → Text
render_prior_pr_discussion [] = []
render_prior_pr_discussion (comment ∷ comments) =
    let body = join (codes " ") (split_whitespace comment.body) in
    let login = comment.user.login in
    let rest = render_prior_pr_discussion comments in
    if is_empty body
    then rest
    else codes "- "
      ++ (if is_empty login then codes "unknown" else login)
      ++ codes ": "
      ++ body
      ++ codes "\n"
      ++ rest
