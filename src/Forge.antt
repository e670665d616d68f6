-- ===== src/Forge.antt =====
-- crates/ar-forge/src/lib.rs: the provider-neutral data of a repository host.
use auto_review.Prelude.{ℕ, Bool, Option, List}
use auto_review.Prelude.Text.{Text}

-- `HostError` with its message.
pub record HostError : Type 0 where
  pub message : Text

pub record ReviewComment : Type 0 where
  pub path : Text
  pub body : Text
  pub old_position : Option ℕ
  pub new_position : Option ℕ

pub data ReviewEvent : Type 0 where
  approved request_changes comment pending : ReviewEvent

pub record CreateReviewRequest : Type 0 where
  pub body : Text
  pub commit_id : Text
  pub event : ReviewEvent
  pub comments : List ReviewComment

pub record CreatedReview : Type 0 where
  pub id : ℕ
  pub state : Text

pub record ChangedFile : Type 0 where
  pub filename : Text
  pub status : Text
  pub additions : ℕ
  pub deletions : ℕ
  pub changes : ℕ
  pub patch : Option Text

pub data CommitStatusState : Type 0 where
  pending success error failure warning : CommitStatusState

pub record CommitStatus : Type 0 where
  pub state : CommitStatusState
  pub target_url : Text
  pub description : Text
  pub context : Text

pub record PullRequestRefSummary : Type 0 where
  pub ref_name : Text
  pub sha : Text

pub record PullRequestSummary : Type 0 where
  pub number : ℕ
  pub title : Text
  pub body : Text
  pub draft : Bool
  pub state : Text
  pub head : PullRequestRefSummary
  pub base : PullRequestRefSummary

pub record PrReviewCommentUser : Type 0 where
  pub login : Text

pub record PullReviewSummary : Type 0 where
  pub id : ℕ
  pub state : Text
  pub user : PrReviewCommentUser

pub record PrReviewComment : Type 0 where
  pub id : ℕ
  pub body : Text
  pub user : PrReviewCommentUser
