-- ===== src/Bench/Scores.antt =====
-- crates/ar-cli/src/bench.rs: what the score counts, whatever the order of the findings.
use auto_review.Prelude.{
  ℕ, ◌+◌, ◌-◌, ◌≡◌, refl, inl, inr, Bool, true, not, ◌&&◌, List, [], ◌∷◌, Option, none, some,
  Option-cases, length, arith, ◌==◌, if◌then◌else◌, Bool-cases,
}
use auto_review.Prelude.Text.{Text, text_eq, text_eq_iff}
use auto_review.Review.Types.{ReviewFinding, ReviewOutput}
use auto_review.Bench.{
  ExpectedFinding, is_at, unclaimed, claim_first, Score, score_one, score_all, count_unclaimed,
  score_against_labels,
}

-- Whether a path and a line are another path and line.
unfoldable pub is_same : Text → ℕ → Text → ℕ → Bool
is_same p n path line = text_eq path p && line == n

unfoldable pub found_at : Text → ℕ → List ReviewFinding → ℕ
found_at p n [] = 0
found_at p n (f ∷ fs) = (if is_same p n f.path f.line_start then 1 else 0) + found_at p n fs

unfoldable pub expected_at : Text → ℕ → List ExpectedFinding → ℕ
expected_at p n [] = 0
expected_at p n (e ∷ es) = (if is_same p n e.path e.line then 1 else 0) + expected_at p n es

-- The expected findings at a place that nothing claimed.
unfoldable pub open_at : Text → ℕ → List ExpectedFinding → List Bool → ℕ
open_at p n (e ∷ es) (c ∷ cs) =
    (if not c && is_same p n e.path e.line then 1 else 0) + open_at p n es cs
open_at p n _ _ = 0

-- What one claim changes.
abbrev Claims : ReviewFinding → List ExpectedFinding → List Bool → Option (List Bool) → Type 0
Claims f es cs none = open_at f.path f.line_start es cs ≡ 0
Claims f es cs (some cs') =
    (count_unclaimed cs ≡ count_unclaimed cs' + 1)
    × ((p : Text) (n : ℕ)
        → open_at p n es cs
          ≡ open_at p n es cs' + (if is_same p n f.path f.line_start then 1 else 0))

same_trans :
    (p path path' : Text) (n line line' : ℕ)
    → is_same path' line' path line ≡ true
    → is_same p n path line ≡ is_same p n path' line'
unfolding is_same
same_trans p path path' n line line' h =
    ground
      (arith, text_eq_iff path path', text_eq_iff path p, text_eq_iff path' p, text_eq_iff p path)

is_at-is_same :
    (e : ExpectedFinding) (f : ReviewFinding)
    → is_at e f ≡ is_same f.path f.line_start e.path e.line
unfolding is_at is_same
is_at-is_same e f = refl

is_at-same :
    (e : ExpectedFinding) (f : ReviewFinding)
    → is_at e f ≡ true
    → is_same f.path f.line_start e.path e.line ≡ true
unfolding is_at is_same
is_at-same e f h = h

claim_first-Claims :
    (f : ReviewFinding) (es : List ExpectedFinding) (cs : List Bool)
    → Claims f es cs (claim_first f es cs)
unfolding claim_first open_at count_unclaimed is_at
claim_first-Claims f [] cs = refl
claim_first-Claims f (e ∷ es) [] = refl
claim_first-Claims f (e ∷ es) (c ∷ cs) =
    let ih = claim_first-Claims f es cs in
    let here : (p : Text) (n : ℕ)
        → is_at e f ≡ true
        → is_same p n e.path e.line ≡ is_same p n f.path f.line_start =
      λ p n h. same_trans p e.path f.path n e.line f.line_start (is_at-same e f h) in
    elim (Bool-cases (not c && is_at e f)) [
      | inl hit ↦ rw (hit) (ground arith, λ p n. ground (arith, here p n))
      | inr miss ↦ elim (Option-cases (claim_first f es cs)) [
        | inl nothing ↦ rw (miss, nothing) (ground (arith, rw nothing at ih, is_at-is_same e f))
        | inr (cs', claimed) ↦
            let claim : Claims f es cs (some cs') = rw claimed at ih in
            rw (miss, claimed) (ground (arith, claim.0), λ p n. ground (arith, claim.1 p n))
      ]
    ]

-- What a score keeps, and what it takes off, over some findings.
abbrev Scores : List ExpectedFinding → List ReviewFinding → Score → Score → Type 0
Scores es fs s s' =
    (s'.matched + count_unclaimed s'.claimed ≡ s.matched + count_unclaimed s.claimed)
    × (s'.matched + s'.spurious ≡ s.matched + s.spurious + length fs)
    × ((p : Text) (n : ℕ) → open_at p n es s'.claimed ≡ open_at p n es s.claimed - found_at p n fs)

open_at_same :
    (p path : Text) (n line : ℕ) (es : List ExpectedFinding) (cs : List Bool)
    → is_same p n path line ≡ true
    → open_at p n es cs ≡ open_at path line es cs
unfolding is_same
open_at_same p path n line es cs h =
    let same_path : path ≡ p = (text_eq_iff path p).0 (ground arith) in
    let same_line : line ≡ n = ground arith in rw (same_path, same_line) refl

score_one-Scores :
    (es : List ExpectedFinding) (f : ReviewFinding) (s : Score)
    → Scores es (f ∷ []) s (score_one es f s)
unfolding score_one found_at
score_one-Scores es f s =
    let claim = claim_first-Claims f es s.claimed in
    elim (Option-cases (claim_first f es s.claimed)) [
      | inl nothing ↦
          let none_open : Claims f es s.claimed none = rw nothing at claim in
          rw (nothing, score_one)
            (
              refl,
              omega arith,
              λ p n. ground (arith, none_open, open_at_same p f.path n f.line_start es s.claimed),
            )
      | inr (cs, claimed) ↦
          let found : Claims f es s.claimed (some cs) = rw claimed at claim in
          rw (claimed, score_one)
            (omega (arith, found.0), omega arith, λ p n. ground (arith, found.1 p n))
    ]

found_at-cons :
    (p : Text) (n : ℕ) (f : ReviewFinding) (fs : List ReviewFinding)
    → found_at p n (f ∷ fs) ≡ found_at p n (f ∷ []) + found_at p n fs
unfolding found_at
found_at-cons p n f fs = omega arith

score_all-Scores :
    (es : List ExpectedFinding) (fs : List ReviewFinding) (s : Score)
    → Scores es fs s (score_all es fs s)
unfolding score_all
score_all-Scores es [] s = (refl, omega arith, λ p n. nothing_found p n (open_at p n es s.claimed))
  where
    nothing_found : (p : Text) (n a : ℕ) → a ≡ a - found_at p n []
    nothing_found p n a = unfold found_at in omega arith
score_all-Scores es (f ∷ fs) s =
    let (kept, counted, opened) = score_one-Scores es f s in
    let (kept', counted', opened') = score_all-Scores es fs (score_one es f s) in
    (
      omega (arith, kept, kept'),
      omega (arith, counted, counted'),
      λ p n. omega (arith, opened p n, opened' p n, found_at-cons p n f fs),
    )

open_at-unclaimed :
    (p : Text) (n : ℕ) (es : List ExpectedFinding)
    → open_at p n es (unclaimed es) ≡ expected_at p n es
unfolding open_at unclaimed expected_at
open_at-unclaimed p n [] = refl
open_at-unclaimed p n (e ∷ es) = ground (arith, open_at-unclaimed p n es)

count_unclaimed-unclaimed : (es : List ExpectedFinding) → count_unclaimed (unclaimed es) ≡ length es
unfolding count_unclaimed unclaimed
count_unclaimed-unclaimed [] = refl
count_unclaimed-unclaimed (e ∷ es) = omega (arith, count_unclaimed-unclaimed es)

length-claim_first :
    (f : ReviewFinding) (es : List ExpectedFinding) (cs cs' : List Bool)
    → claim_first f es cs ≡ some cs'
    → length cs' ≡ length cs
unfolding claim_first
length-claim_first f [] cs cs' h = cc
length-claim_first f (e ∷ es) [] cs' h = cc
length-claim_first f (e ∷ es) (c ∷ cs) cs' h = elim (Bool-cases (not c && is_at e f)) [
  | inl hit ↦ let same : true ∷ cs ≡ cs' = ground arith in rw (← same) refl
  | inr miss ↦ elim (Option-cases (claim_first f es cs)) [
    | inl nothing ↦ let h' = rw (miss, nothing) at h in cc
    | inr (ds, later) ↦
        let h' = rw (miss, later) at h in
        let same : c ∷ ds ≡ cs' = cc in
        rw (← same) (omega (arith, length-claim_first f es cs ds later))
  ]
]

length-score_one :
    (es : List ExpectedFinding) (f : ReviewFinding) (s : Score)
    → length (score_one es f s).claimed ≡ length s.claimed
unfolding score_one
length-score_one es f s = elim (Option-cases (claim_first f es s.claimed)) [
  | inl nothing ↦ rw (nothing, score_one) refl
  | inr (cs, claimed) ↦ rw (claimed, score_one) (length-claim_first f es s.claimed cs claimed)
]

length-score_all :
    (es : List ExpectedFinding) (fs : List ReviewFinding) (s : Score)
    → length s.claimed ≡ length es
    → length (score_all es fs s).claimed ≡ length es
unfolding score_all
length-score_all es [] s h = h
length-score_all es (f ∷ fs) s h =
    length-score_all es fs (score_one es f s) (omega (arith, h, length-score_one es f s))

length-unclaimed : (es : List ExpectedFinding) → length (unclaimed es) ≡ length es
unfolding unclaimed
length-unclaimed [] = refl
length-unclaimed (e ∷ es) = omega (arith, length-unclaimed es)

-- A score splits the expected findings into the matched and the missed ones and the findings of
-- the review into matched and spurious ones. The missed ones are those that are left when the
-- expected findings are marked, one mark for each, so that at each path and line as many stay
-- unmarked as there are more expected findings there than findings: whatever the order of either.
pub score_against_labels_lem :
    (output : ReviewOutput) (expected : List ExpectedFinding)
    → let score = score_against_labels output expected in
      (score.matched + score.missed ≡ length expected)
      × (score.matched + score.spurious ≡ length output.findings)
      × ((claimed : List Bool) × (length claimed ≡ length expected)
          × (score.missed ≡ count_unclaimed claimed)
          × ((p : Text) (n : ℕ)
              → open_at p n expected claimed
                ≡ expected_at p n expected - found_at p n output.findings))
unfolding score_against_labels
score_against_labels_lem output expected =
    let start : Score = record { claimed = unclaimed expected; matched = 0; spurious = 0 } in
    let (kept, counted, opened) = score_all-Scores expected output.findings start in
    (
      omega (arith, kept, count_unclaimed-unclaimed expected),
      omega (arith, counted),
      (
        (score_all expected output.findings start).claimed,
        length-score_all expected output.findings start (length-unclaimed expected),
        refl,
        λ p n. omega (arith, opened p n, open_at-unclaimed p n expected),
      ),
    )
