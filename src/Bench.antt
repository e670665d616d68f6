-- ===== src/Bench.antt =====
-- crates/ar-cli/src/bench.rs: the score of a review against the findings that are expected of it.
use auto_review.Prelude.{
  ℕ, ◌+◌, Bool, true, false, not, ◌&&◌, List, [], ◌∷◌, map, Option, none, some, retain, length,
  ◌==◌, if◌then◌else◌,
}
use auto_review.Prelude.Text.{Text, text_eq}
use auto_review.Review.Types.{ReviewFinding, ReviewOutput}
pub mod Scores

pub record ExpectedFinding : Type 0 where
  pub path : Text
  pub line : ℕ
  pub note : Text

pub record LabelMatch : Type 0 where
  pub expected : ℕ
  pub matched : ℕ
  pub missed : ℕ
  pub spurious : ℕ

unfoldable pub is_at : ExpectedFinding → ReviewFinding → Bool
is_at e f = text_eq e.path f.path && e.line == f.line_start

-- `vec![false; expected.len()]`
unfoldable pub unclaimed : List ExpectedFinding → List Bool
unclaimed = map (λ e. false)

-- The inner loop: the claims with the first one that fits, if there is one.
unfoldable pub claim_first : ReviewFinding → List ExpectedFinding → List Bool → Option (List Bool)
claim_first f (e ∷ es) (c ∷ cs) =
    let rest : Option (List Bool) = elim (claim_first f es cs) [
      | none ↦ none
      | some cs' ↦ some (c ∷ cs')
    ] in
    if not c && is_at e f then some (true ∷ cs) else rest
claim_first f _ _ = none

-- The state of the outer loop.
pub record Score : Type 0 where
  pub claimed : List Bool
  pub matched : ℕ
  pub spurious : ℕ

unfoldable pub score_one : List ExpectedFinding → ReviewFinding → Score → Score
score_one expected f s = elim (claim_first f expected s.claimed) [
  | none ↦ record s { spurious = s.spurious + 1 }
  | some claimed ↦ record s { claimed = claimed; matched = s.matched + 1 }
]

unfoldable pub score_all : List ExpectedFinding → List ReviewFinding → Score → Score
score_all expected [] s = s
score_all expected (f ∷ fs) s = score_all expected fs (score_one expected f s)

unfoldable pub count_unclaimed : List Bool → ℕ
count_unclaimed claimed = length (retain not claimed)

unfoldable pub score_against_labels : ReviewOutput → List ExpectedFinding → LabelMatch
score_against_labels output expected =
    let s =
      score_all expected output.findings
        (record { claimed = unclaimed expected; matched = 0; spurious = 0 }) in
    record {
      expected = length expected;
      matched = s.matched;
      missed = count_unclaimed s.claimed;
      spurious = s.spurious;
    }
