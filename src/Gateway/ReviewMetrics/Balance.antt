-- ===== src/Gateway/ReviewMetrics/Balance.antt =====
-- crates/ar-gateway/src/metrics.rs with crates/ar-orchestrator/src/dispatcher.rs: the counters add up.
use auto_review.Prelude.{ℕ, ◌+◌, ◌≡◌, refl, inl, inr, true, List, [], ◌∷◌, ◌++◌, arith}
use auto_review.Prelude.Text.{Text, codes, text_eq}
use auto_review.Prelude.Keys.{member, text_key}
use auto_review.Llm.{Router}
use auto_review.Orchestrator.Jobs.{ReviewJob}
use auto_review.Orchestrator.Dispatcher.{JobState, JobParts, dispatch}
use auto_review.Orchestrator.Report.{ReviewObservation, started, succeeded, failed, skipped}
use auto_review.Orchestrator.Dispatcher.Endings.{known_reasons, known_classes}
use auto_review.Orchestrator.Dispatcher.Protocol.{dispatch-IsEnded}
use auto_review.Review.Host.{ReviewHost}
use auto_review.Review.Args.{Parts}
use auto_review.Gateway.ReviewMetrics.{
  ReviewCounters, zeros, record_observation, record_review_started, record_review_succeeded,
  record_review_failed, record_review_skipped, complete_review, count_failure_class, record_all,
}

abbrev pub all_failed : ReviewCounters → ℕ
all_failed m =
    m.reviews_failed_forgejo + m.reviews_failed_workspace + m.reviews_failed_llm
    + m.reviews_failed_unhealable + m.reviews_failed_panic

-- Every review that was started succeeded or failed, every one that did is counted as completed,
-- and nothing fell among the unknown.
abbrev pub IsBalanced : ReviewCounters → Type 0
IsBalanced m =
    (m.reviews_started ≡ m.reviews_succeeded + all_failed m)
    × (m.reviews_completed_count ≡ m.reviews_started)
    × (m.reviews_failed_unknown ≡ 0)
    × (m.reviews_skipped_unknown ≡ 0)

skip-IsBalanced :
    (reason : Text) (m : ReviewCounters)
    → member reason known_reasons ≡ true
    → IsBalanced m
    → IsBalanced (record_review_skipped reason m)
unfolding record_review_skipped
skip-IsBalanced reason m k b = ground arith

failure-IsBalanced :
    (d : ℕ) (class : Text) (m : ReviewCounters)
    → member class known_classes ≡ true
    → IsBalanced m
    → IsBalanced (record_review_failed d class (record_review_started m))
unfolding record_review_failed count_failure_class complete_review record_review_started
failure-IsBalanced d class m k b = ground arith

success-IsBalanced :
    (d f v : ℕ) (m : ReviewCounters)
    → IsBalanced m
    → IsBalanced (record_review_succeeded d f v (record_review_started m))
unfolding record_review_succeeded complete_review record_review_started
success-IsBalanced d f v m b = ground arith

record_all-append :
    (d : List ReviewObservation → ℕ) (xs ys : List ReviewObservation) (m : ReviewCounters)
    → record_all d (xs ++ ys) m ≡ record_all d ys (record_all (λ l. d (l ++ ys)) xs m)
unfolding record_all
record_all-append d [] ys m = refl
record_all-append d (x ∷ xs) ys m =
    record_all-append d xs ys (record_observation (d (x ∷ xs ++ ys)) x m)

-- Observations that keep the counters balanced, however long each review took.
abbrev KeepsBalance : List ReviewObservation → Type 0
KeepsBalance os =
    (d : List ReviewObservation → ℕ) (m : ReviewCounters)
    → IsBalanced m
    → IsBalanced (record_all d os m)

append-KeepsBalance :
    (xs ys zs : List ReviewObservation)
    → zs ≡ xs ++ ys
    → KeepsBalance xs
    → KeepsBalance ys
    → KeepsBalance zs
append-KeepsBalance xs ys zs e kx ky d m b =
    rw (e, record_all-append d xs ys m) (ky d _ (kx (λ l. d (l ++ ys)) m b))

skipped-KeepsBalance :
    (reason : Text) → member reason known_reasons ≡ true → KeepsBalance (skipped reason ∷ [])
unfolding record_all record_observation
skipped-KeepsBalance reason k d m b = skip-IsBalanced reason m k b

failed-KeepsBalance :
    (class : Text) → member class known_classes ≡ true → KeepsBalance (started ∷ failed class ∷ [])
unfolding record_all record_observation
failed-KeepsBalance class k d m b = failure-IsBalanced _ class m k b

succeeded-KeepsBalance : (f v : ℕ) → KeepsBalance (started ∷ succeeded f v ∷ [])
unfolding record_all record_observation
succeeded-KeepsBalance f v d m b = success-IsBalanced _ f v m b

module _ {H W : Type 0} (review_host : ReviewHost H) (router : Router W) (parts : Parts)
    (job_parts : JobParts H W) where
  -- The jobs of a queue, one after the other.
  unfoldable pub run_jobs : List ReviewJob → JobState H W → JobState H W
  run_jobs [] s = s
  run_jobs (job ∷ jobs) s = run_jobs jobs (dispatch review_host router parts job_parts job s)

  dispatch-KeepsBalance :
      (job : ReviewJob) (s : JobState H W)
      → KeepsBalance s.observations
      → KeepsBalance (dispatch review_host router parts job_parts job s).observations
  dispatch-KeepsBalance job s k = elim (dispatch-IsEnded review_host router parts job_parts job s) [
    | inl (same, (statuses, o, h)) ↦
        append-KeepsBalance _ _ _ o k (skipped-KeepsBalance (codes "same_sha") same_known)
    | inr (new, inl (description, reason, known, statuses, o, h)) ↦
        append-KeepsBalance _ _ _ o k (skipped-KeepsBalance reason known)
    | inr (new, inr (inl (outcome, made, statuses, o, h))) ↦
        append-KeepsBalance _ _ _ o k
          (succeeded-KeepsBalance outcome.findings_count outcome.verifier_dropped)
    | inr
          (
            new,
            inr (inr (e, state, description, class, made, shown, known, fits, statuses, o, h)),
          ) ↦
        append-KeepsBalance _ _ _ o k (failed-KeepsBalance class known)
  ]
    where
      same_known : member (codes "same_sha") known_reasons ≡ true
      same_known = unfold text_eq in refl

  jobs-KeepsBalance :
      (jobs : List ReviewJob) (s : JobState H W)
      → KeepsBalance s.observations
      → KeepsBalance (run_jobs jobs s).observations
  unfolding run_jobs
  jobs-KeepsBalance [] s k = k
  jobs-KeepsBalance (job ∷ jobs) s k =
      jobs-KeepsBalance jobs (dispatch review_host router parts job_parts job s)
        (dispatch-KeepsBalance job s k)

  -- Whatever jobs run one after the other from a state without observations, and however long
  -- each review takes, the counters fed with their observations add up: the reviews started are
  -- those that succeeded plus those that failed with one of the five known classes, as many are
  -- counted as completed, and no failure and no skip is counted as unknown.
  pub jobs-IsBalanced :
      (jobs : List ReviewJob) (s : JobState H W) (d : List ReviewObservation → ℕ)
      → s.observations ≡ []
      → IsBalanced (record_all d (run_jobs jobs s).observations zeros)
  jobs-IsBalanced jobs s d e =
      jobs-KeepsBalance jobs s (rw e in_balance) d zeros (refl, refl, refl, refl)
    where
      in_balance : KeepsBalance []
      in_balance e m b = unfold record_all in b
