-- ===== src/Tests/Bench.antt =====
-- crates/ar-cli/src/bench.rs: its theorem at a concrete input.
use auto_review.Prelude.{ℕ, ◌+◌, ◌-◌, ◌≡◌, Bool, List, [], ◌∷◌, length}
use auto_review.Prelude.Text.{Text, codes}
use auto_review.Bench.{ExpectedFinding, count_unclaimed, score_against_labels}
use auto_review.Bench.Scores.{found_at, expected_at, open_at, score_against_labels_lem}
use auto_review.Tests.Fixtures.{output}

abbrev label : ℕ → ExpectedFinding
label line = record { path = codes "a.rs"; line = line; note = [] }

abbrev labels : List ExpectedFinding
labels = label 3 ∷ label 9 ∷ []

score_against_labels_lem_example :
    let score = score_against_labels output labels in
    (score.matched + score.missed ≡ length labels)
    × (score.matched + score.spurious ≡ length output.findings)
    × ((claimed : List Bool) × (length claimed ≡ length labels)
        × (score.missed ≡ count_unclaimed claimed)
        × ((p : Text) (n : ℕ)
            → open_at p n labels claimed ≡ expected_at p n labels - found_at p n output.findings))
score_against_labels_lem_example = score_against_labels_lem output labels
