-- ===== src/Orchestrator/Dispatcher/Endings.antt =====
-- crates/ar-orchestrator/src/dispatcher.rs: the ways in which a job can end, and its last status.
use auto_review.Prelude.{
  ◌<◌, ◌⊎◌, inl, inr, ◌≤◌, ◌≡◌, refl, ◌⊎◌, inl, inr, true, List, [], ◌∷◌, ◌++◌, leb, arith,
  Bool-cases, Result, ok, err, append_assoc,
}
use auto_review.Prelude.Keys.{member, text_key}
use auto_review.Prelude.Text.{Text, codes}
use auto_review.Prelude.Boundary.{
  byte_len, byte_len-append, truncate_at, byte_len-truncate_at, len_utf8,
}
use auto_review.Forge.{CommitStatusState, CommitStatus}
use auto_review.Orchestrator.History.{record_review}
use auto_review.Orchestrator.Jobs.{ReviewJob, pr_key_of}
use auto_review.Review.Args.{ReviewOutcome}
use auto_review.Review.Heal.{ReviewError, llm, host, unhealable, workspace, panicked}
use auto_review.Orchestrator.Dispatcher.{JobState}
use auto_review.Orchestrator.Report.{
  status_context, max_status_description, started, succeeded, failed, skipped, review_summary,
  truncate_status_description,
}

-- A shortened description fits the limit, and one that fits is not changed.
pub truncate_status_description-le :
    (s : Text)
    → (byte_len (truncate_status_description s) ≤ max_status_description)
      × ((max_status_description < byte_len s) ⊎ (truncate_status_description s ≡ s))
unfolding truncate_status_description
truncate_status_description-le s = elim (Bool-cases (leb (byte_len s) max_status_description)) [
  | inl fits ↦ rw (fits, truncate_status_description) (ground arith, inr refl)
  | inr long ↦
      let cut = byte_len-truncate_at s 237 in
      let whole = byte_len-append (truncate_at s 237) (codes "…") in
      rw (long, truncate_status_description)
        (omega (arith, cut, whole, ellipsis), inl (ground arith))
]
  where
    ellipsis : byte_len (codes "…") ≡ 3
    ellipsis = unfold byte_len in unfold len_utf8 in refl

abbrev pub status : CommitStatusState → Text → CommitStatus
status state description = record {
  state = state;
  target_url = [];
  description = description;
  context = status_context;
}

abbrev pub pending_status : CommitStatus
pending_status = status CommitStatusState.pending (codes "auto_review running")

pub snoc_snoc {ℓ} :
    {A : Type ℓ} (xs ys : List A) (x y : A) → xs ≡ ys ++ x ∷ [] → xs ++ y ∷ [] ≡ ys ++ x ∷ y ∷ []
snoc_snoc xs ys x y e = rw e (append_assoc ys (x ∷ []) (y ∷ []))

-- The reasons and the classes of errors that the metrics know.
abbrev pub known_reasons : List Text
known_reasons = codes "same_sha" ∷ codes "trivial_files" ∷ codes "disabled_by_config" ∷ []

abbrev pub known_classes : List Text
known_classes =
    codes "forgejo" ∷ codes "workspace" ∷ codes "llm" ∷ codes "unhealable" ∷ codes "panic" ∷ []

-- The state of the status and the class of the observation that an error is to have.
abbrev pub Shows : ReviewError → CommitStatusState → Text → Type 0
Shows (llm x) state class = (state ≡ CommitStatusState.failure) × (class ≡ codes "llm")
Shows (host x) state class = (state ≡ CommitStatusState.error) × (class ≡ codes "forgejo")
Shows (unhealable k x) state class =
    (state ≡ CommitStatusState.failure) × (class ≡ codes "unhealable")
Shows (workspace x) state class = (state ≡ CommitStatusState.error) × (class ≡ codes "workspace")
Shows panicked state class = (state ≡ CommitStatusState.error) × (class ≡ codes "panic")

module _ {H W : Type 0} where
  -- Nothing but an observation.
  abbrev pub IsIdle : JobState H W → JobState H W → Type 0
  IsIdle s s' =
      (s'.statuses ≡ s.statuses)
      × (s'.observations ≡ s.observations ++ skipped (codes "same_sha") ∷ [])
      × (s'.history ≡ s.history)

  abbrev pub IsSkipped : JobState H W → JobState H W → Type 0
  IsSkipped s s' =
      (description reason : Text) × (member reason known_reasons ≡ true)
      × (s'.statuses
          ≡ s.statuses ++ pending_status ∷ status CommitStatusState.success description ∷ [])
      × (s'.observations ≡ s.observations ++ skipped reason ∷ [])
      × (s'.history ≡ s.history)

  -- The review gave an outcome, which `reviewed` says.
  abbrev pub IsSucceeded :
      (Result ReviewError ReviewOutcome → Type 0) → ReviewJob → JobState H W → JobState H W → Type 0
  IsSucceeded reviewed job s s' =
      (outcome : ReviewOutcome) × reviewed (ok outcome)
      × (s'.statuses
          ≡ s.statuses
            ++ pending_status ∷ status CommitStatusState.success (review_summary outcome) ∷ [])
      × (s'.observations
          ≡ s.observations
            ++ started ∷ succeeded outcome.findings_count outcome.verifier_dropped ∷ [])
      × (s'.history ≡ record_review s.history (pr_key_of job) job.head_sha)

  -- The review failed, which `reviewed` says, with an error of that state and class.
  abbrev pub IsFailed :
      (Result ReviewError ReviewOutcome → Type 0) → JobState H W → JobState H W → Type 0
  IsFailed reviewed s s' =
      (e : ReviewError) × (state : CommitStatusState) × (description class : Text) × reviewed
        (err e)
      × Shows e state class
      × (member class known_classes ≡ true)
      × (byte_len description ≤ max_status_description)
      × (s'.statuses ≡ s.statuses ++ pending_status ∷ status state description ∷ [])
      × (s'.observations ≡ s.observations ++ started ∷ failed class ∷ [])
      × (s'.history ≡ s.history)

  -- A job that is not idle ends so.
  abbrev pub IsEnded :
      (Result ReviewError ReviewOutcome → Type 0) → ReviewJob → JobState H W → JobState H W → Type 0
  IsEnded reviewed job s s' =
      IsSkipped s s' ⊎ IsSucceeded reviewed job s s' ⊎ IsFailed reviewed s s'
