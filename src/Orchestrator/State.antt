-- ===== src/Orchestrator/State.antt =====
-- crates/ar-orchestrator/src/state.rs: the states of a run.
use auto_review.Prelude.{
  ℕ, zero, suc, ◌≡◌, refl, ◌↔◌, ◌⊎◌, inl, inr, Bool, true, false, Option, none, some,
}

pub data PrRunState : Type 0 where
  intake clone_repo triage summarize static_analysis index_delta context_curate review_fanout verify
        self_heal walkthrough pre_merge_checks post_review post_status done failed :
      PrRunState

unfoldable pub next : PrRunState → Option PrRunState
next intake = some clone_repo
next clone_repo = some triage
next triage = some summarize
next summarize = some static_analysis
next static_analysis = some index_delta
next index_delta = some context_curate
next context_curate = some review_fanout
next review_fanout = some verify
next verify = some self_heal
next self_heal = some walkthrough
next walkthrough = some pre_merge_checks
next pre_merge_checks = some post_review
next post_review = some post_status
next post_status = some done
next done = none
next failed = none

unfoldable pub is_terminal : PrRunState → Bool
is_terminal done = true
is_terminal failed = true
is_terminal _ = false

-- The loop `while let Some(next) = s.next() { s = next; }`, with fuel; `none` if it runs out.
unfoldable pub drive : ℕ → PrRunState → Option PrRunState
unfolding next
drive zero s = none
drive (suc fuel) s = elim (next s) [ none ↦ some s | some s' ↦ drive fuel s' ]

-- Every run that has not failed ends in `Done`, within the fourteen steps there are; and the
-- states where it ends are the terminal ones.
drive-done :
    (s : PrRunState)
    → ((s ≡ failed) ⊎ (drive 15 s ≡ some done)) × ((next s ≡ none) ↔ (is_terminal s ≡ true))
unfolding drive is_terminal
drive-done failed = (inl refl, (λ e. refl, λ e. refl))
drive-done done = (inr refl, (λ e. refl, λ e. refl))
drive-done _ = (inr refl, (λ e. cc, λ e. cc))
