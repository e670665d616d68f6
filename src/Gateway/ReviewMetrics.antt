-- ===== src/Gateway/ReviewMetrics.antt =====
-- crates/ar-gateway/src/metrics.rs: the counters of reviews, and the observer that feeds them.
-- Durations are milliseconds; `secs <= bound` is compared in them.
pub mod Balance
use auto_review.Prelude.{ℕ, ◌+◌, ◌*◌, List, [], ◌∷◌, leb, if◌then◌else◌}
use auto_review.Prelude.Text.{Text, codes, text_eq}
use auto_review.Orchestrator.Report.{
  ReviewObservation, started, succeeded, failed, skipped, queue_wait,
}

abbrev pub duration_buckets_secs : List ℕ
duration_buckets_secs = 1 ∷ 5 ∷ 15 ∷ 30 ∷ 60 ∷ 120 ∷ 300 ∷ 600 ∷ []

pub record ReviewCounters : Type 0 where
  pub reviews_started : ℕ
  pub reviews_succeeded : ℕ
  pub reviews_failed_forgejo : ℕ
  pub reviews_failed_workspace : ℕ
  pub reviews_failed_llm : ℕ
  pub reviews_failed_unhealable : ℕ
  pub reviews_failed_panic : ℕ
  pub reviews_failed_unknown : ℕ
  pub reviews_skipped_same_sha : ℕ
  pub reviews_skipped_trivial : ℕ
  pub reviews_skipped_disabled : ℕ
  pub reviews_skipped_unknown : ℕ
  pub review_duration_ms_sum : ℕ
  pub reviews_completed_count : ℕ
  pub review_findings_sum : ℕ
  pub verifier_findings_dropped : ℕ
  pub review_queue_waits : ℕ
  pub duration_buckets : List ℕ

-- `Metrics::default()`
abbrev pub zeros : ReviewCounters
zeros = record {
  reviews_started = 0;
  reviews_succeeded = 0;
  reviews_failed_forgejo = 0;
  reviews_failed_workspace = 0;
  reviews_failed_llm = 0;
  reviews_failed_unhealable = 0;
  reviews_failed_panic = 0;
  reviews_failed_unknown = 0;
  reviews_skipped_same_sha = 0;
  reviews_skipped_trivial = 0;
  reviews_skipped_disabled = 0;
  reviews_skipped_unknown = 0;
  review_duration_ms_sum = 0;
  reviews_completed_count = 0;
  review_findings_sum = 0;
  verifier_findings_dropped = 0;
  review_queue_waits = 0;
  duration_buckets = 0 ∷ 0 ∷ 0 ∷ 0 ∷ 0 ∷ 0 ∷ 0 ∷ 0 ∷ [];
}

-- The buckets whose bound is not below the duration count it.
unfoldable pub bucket_duration : ℕ → List ℕ → List ℕ → List ℕ
bucket_duration duration_ms [] counts = counts
bucket_duration duration_ms (bound ∷ bounds) [] = []
bucket_duration duration_ms (bound ∷ bounds) (n ∷ counts) =
    (if leb duration_ms (bound * 1000) then n + 1 else n)
    ∷ bucket_duration duration_ms bounds counts

unfoldable pub record_review_started : ReviewCounters → ReviewCounters
record_review_started m = record m { reviews_started = m.reviews_started + 1 }

-- What both ends of a review count.
unfoldable pub complete_review : ℕ → ReviewCounters → ReviewCounters
complete_review duration_ms m = record m {
  reviews_completed_count = m.reviews_completed_count + 1;
  review_duration_ms_sum = m.review_duration_ms_sum + duration_ms;
  duration_buckets = bucket_duration duration_ms duration_buckets_secs m.duration_buckets;
}

unfoldable pub record_review_succeeded : ℕ → ℕ → ℕ → ReviewCounters → ReviewCounters
record_review_succeeded duration_ms findings_count verifier_dropped m =
    complete_review duration_ms (record m {
      reviews_succeeded = m.reviews_succeeded + 1;
      review_findings_sum = m.review_findings_sum + findings_count;
      verifier_findings_dropped = m.verifier_findings_dropped + verifier_dropped;
    })

unfoldable pub count_failure_class : Text → ReviewCounters → ReviewCounters
count_failure_class class m =
    if text_eq class (codes "forgejo")
    then record m { reviews_failed_forgejo = m.reviews_failed_forgejo + 1 }
    else if text_eq class (codes "workspace")
    then record m { reviews_failed_workspace = m.reviews_failed_workspace + 1 }
    else if text_eq class (codes "llm")
    then record m { reviews_failed_llm = m.reviews_failed_llm + 1 }
    else if text_eq class (codes "unhealable")
    then record m { reviews_failed_unhealable = m.reviews_failed_unhealable + 1 }
    else if text_eq class (codes "panic")
    then record m { reviews_failed_panic = m.reviews_failed_panic + 1 }
    else record m { reviews_failed_unknown = m.reviews_failed_unknown + 1 }

unfoldable pub record_review_failed : ℕ → Text → ReviewCounters → ReviewCounters
record_review_failed duration_ms error_class m =
    complete_review duration_ms (count_failure_class error_class m)

unfoldable pub record_review_queue_wait : ReviewCounters → ReviewCounters
record_review_queue_wait m = record m { review_queue_waits = m.review_queue_waits + 1 }

unfoldable pub record_review_skipped : Text → ReviewCounters → ReviewCounters
record_review_skipped reason m =
    if text_eq reason (codes "same_sha")
    then record m { reviews_skipped_same_sha = m.reviews_skipped_same_sha + 1 }
    else if text_eq reason (codes "trivial_files")
    then record m { reviews_skipped_trivial = m.reviews_skipped_trivial + 1 }
    else if text_eq reason (codes "disabled_by_config")
    then record m { reviews_skipped_disabled = m.reviews_skipped_disabled + 1 }
    else record m { reviews_skipped_unknown = m.reviews_skipped_unknown + 1 }

-- `MetricsObserver::record`, with the duration that the source's observation carries.
unfoldable pub record_observation : ℕ → ReviewObservation → ReviewCounters → ReviewCounters
record_observation duration_ms started m = record_review_started m
record_observation duration_ms (succeeded findings dropped) m =
    record_review_succeeded duration_ms findings dropped m
record_observation duration_ms (failed class) m = record_review_failed duration_ms class m
record_observation duration_ms (skipped reason) m = record_review_skipped reason m
record_observation duration_ms queue_wait m = record_review_queue_wait m

-- Observations in order. The duration of each is given by a function of the observations that are
-- left, since the model of a job keeps no clock.
unfoldable pub record_all :
    (List ReviewObservation → ℕ) → List ReviewObservation → ReviewCounters → ReviewCounters
record_all duration [] m = m
record_all duration (o ∷ os) m = record_all duration os (record_observation (duration (o ∷ os)) o m)
