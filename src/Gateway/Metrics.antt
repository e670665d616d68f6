-- ===== src/Gateway/Metrics.antt =====
-- crates/ar-gateway/src/metrics.rs: the counters, in three groups of the source's one struct.
-- A counter is an unbounded number: wrapping at 2^64 is not modelled.
use auto_review.Prelude.{ℕ, ◌+◌, if◌then◌else◌}
use auto_review.Prelude.Text.{Text, codes, text_eq}

pub record WebhookCounters : Type 0 where
  pub pull_request : ℕ
  pub issue_comment : ℕ
  pub ping : ℕ
  pub other : ℕ
  pub signature_failures : ℕ
  pub payload_failures : ℕ
  pub rate_limited : ℕ
  pub duplicates : ℕ
  pub jobs_dispatched : ℕ
  pub chat_commands_received : ℕ
  pub chat_handler_unconfigured : ℕ

unfoldable pub record_event : Text → WebhookCounters → WebhookCounters
unfolding text_eq
record_event event m =
    if text_eq event (codes "pull_request")
    then record m { pull_request = m.pull_request + 1 }
    else if text_eq event (codes "issue_comment")
    then record m { issue_comment = m.issue_comment + 1 }
    else if text_eq event (codes "ping")
    then record m { ping = m.ping + 1 }
    else record m { other = m.other + 1 }

unfoldable pub record_signature_failure : WebhookCounters → WebhookCounters
record_signature_failure m = record m { signature_failures = m.signature_failures + 1 }

unfoldable pub record_payload_failure : WebhookCounters → WebhookCounters
record_payload_failure m = record m { payload_failures = m.payload_failures + 1 }

unfoldable pub record_rate_limited : WebhookCounters → WebhookCounters
record_rate_limited m = record m { rate_limited = m.rate_limited + 1 }

unfoldable pub record_duplicate : WebhookCounters → WebhookCounters
record_duplicate m = record m { duplicates = m.duplicates + 1 }

unfoldable pub record_job_dispatched : WebhookCounters → WebhookCounters
record_job_dispatched m = record m { jobs_dispatched = m.jobs_dispatched + 1 }

unfoldable pub record_chat_command : WebhookCounters → WebhookCounters
record_chat_command m = record m { chat_commands_received = m.chat_commands_received + 1 }

unfoldable pub record_chat_unconfigured : WebhookCounters → WebhookCounters
record_chat_unconfigured m = record m {
  chat_handler_unconfigured = m.chat_handler_unconfigured + 1;
}

pub record PollCounters : Type 0 where
  pub cycles : ℕ
  pub history_failures : ℕ
  pub pr_failures : ℕ
  pub mentions_dispatched : ℕ
  pub chat_failures : ℕ

unfoldable pub record_poll_cycle : PollCounters → PollCounters
record_poll_cycle m = record m { cycles = m.cycles + 1 }

unfoldable pub record_poll_history_failure : PollCounters → PollCounters
record_poll_history_failure m = record m { history_failures = m.history_failures + 1 }

unfoldable pub record_poll_pr_failure : PollCounters → PollCounters
record_poll_pr_failure m = record m { pr_failures = m.pr_failures + 1 }

unfoldable pub record_poll_mention_dispatched : PollCounters → PollCounters
record_poll_mention_dispatched m = record m { mentions_dispatched = m.mentions_dispatched + 1 }

unfoldable pub record_poll_chat_failure : PollCounters → PollCounters
record_poll_chat_failure m = record m { chat_failures = m.chat_failures + 1 }
