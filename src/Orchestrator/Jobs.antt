-- ===== src/Orchestrator/Jobs.antt =====
-- crates/ar-orchestrator/src/dispatcher.rs: the job that a webhook or a command hands over.
use auto_review.Prelude.{ℕ, Bool, false}
use auto_review.Prelude.Text.{Text}
use auto_review.Forgejo.{PullRequestEvent}
use auto_review.Orchestrator.History.{PrKey}

pub record ReviewJob : Type 0 where
  pub owner : Text
  pub repo : Text
  pub pr_number : ℕ
  pub head_sha : Text
  pub pr_title : Text
  pub pr_body : Text
  pub force : Bool

-- `From<&PullRequestEvent>`
unfoldable pub from_event : PullRequestEvent → ReviewJob
from_event evt = record {
  owner = evt.repository.owner.login;
  repo = evt.repository.name;
  pr_number = evt.pull_request.number;
  head_sha = evt.pull_request.head.sha;
  pr_title = evt.pull_request.title;
  pr_body = evt.pull_request.body;
  force = false;
}

unfoldable pub pr_key_of : ReviewJob → PrKey
pr_key_of job = record { owner = job.owner; repo = job.repo; pr_number = job.pr_number }
