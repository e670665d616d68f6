-- ===== src/Forgejo.antt =====
-- crates/ar-forgejo/src/webhook.rs: the webhook payloads.
use auto_review.Prelude.{ℕ, Bool, Option, is_some}
use auto_review.Prelude.Text.{Text}
pub mod Client

pub data PullRequestAction : Type 0 where
  opened synchronized reopened closed edited labeled unlabeled assigned unassigned review_requested
        review_request_removed ready_for_review milestoned demilestoned other :
      PullRequestAction

pub record User : Type 0 where
  pub login : Text
  pub id : ℕ

pub record Repository : Type 0 where
  pub name : Text
  pub full_name : Text
  pub owner : User
  pub default_branch : Text

pub record PullRequestRef : Type 0 where
  pub ref_name : Text
  pub sha : Text

pub record PullRequest : Type 0 where
  pub number : ℕ
  pub title : Text
  pub body : Text
  pub head : PullRequestRef
  pub base : PullRequestRef
  pub user : User
  pub draft : Bool
  pub state : Option Text

pub record PullRequestEvent : Type 0 where
  pub action : PullRequestAction
  pub number : ℕ
  pub pull_request : PullRequest
  pub requested_reviewer : Option User
  pub repository : Repository
  pub sender : User

pub data IssueCommentAction : Type 0 where
  created edited deleted other : IssueCommentAction

pub record Comment : Type 0 where
  pub id : ℕ
  pub body : Text
  pub user : User

pub record IssuePullRequestRef : Type 0 where
  pub html_url : Text

pub record Issue : Type 0 where
  pub number : ℕ
  pub title : Text
  pub pull_request : Option IssuePullRequestRef

pub record IssueCommentEvent : Type 0 where
  pub action : IssueCommentAction
  pub comment : Comment
  pub issue : Issue
  pub repository : Repository
  pub sender : User

unfoldable pub is_pull_request_comment : IssueCommentEvent → Bool
is_pull_request_comment evt = is_some evt.issue.pull_request
