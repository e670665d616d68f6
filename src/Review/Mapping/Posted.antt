-- ===== src/Review/Mapping/Posted.antt =====
-- crates/ar-review/src/mapping.rs: what the posted review says of the findings.
use auto_review.Prelude.{
  ℕ, Option, some, Bool, ◌==◌, true, false, List, [], ◌∷◌, map, ◌≡◌, refl, ap, any, arith,
}
use auto_review.Prelude.Text.{Text, text_eq_iff}
use auto_review.Prelude.Keys.{Eq}
use auto_review.Review.Types.{ReviewSeverity, note, warning, error, ReviewFinding}
use auto_review.Review.Filters.{severity_rank}
use auto_review.Review.Mapping.{FindingKey, finding_key_eq, key_of}

severity_rank-inj : (s t : ReviewSeverity) → severity_rank s ≡ severity_rank t → s ≡ t
unfolding severity_rank
severity_rank-inj note note e = refl
severity_rank-inj warning warning e = refl
severity_rank-inj error error e = refl
severity_rank-inj note warning e = ground arith
severity_rank-inj note error e = ground arith
severity_rank-inj warning note e = ground arith
severity_rank-inj warning error e = ground arith
severity_rank-inj error note e = ground arith
severity_rank-inj error warning e = ground arith

pub finding_key_eq-eq : (j k : FindingKey) → finding_key_eq j k ≡ true → j ≡ k
unfolding finding_key_eq
finding_key_eq-eq (s, m) (t, n) h = ground (arith, severity_rank-inj s t, text_eq_iff m n)

pub finding_key_self : (k : FindingKey) → finding_key_eq k k ≡ true
unfolding finding_key_eq
finding_key_self (s, m) = ground (arith, text_eq_iff m m)

instance abbrev pub finding_key : Eq FindingKey
finding_key = record {
  beq = finding_key_eq;
  beq_iff = λ j k. (
    finding_key_eq-eq j k,
    λ e. cc (finding_key_self j, ap (λ (x : FindingKey). finding_key_eq j x) e),
  );
}

-- No key stands twice.
abbrev pub IsDistinct : List ReviewFinding → Type 0
IsDistinct [] = Unit {0}
IsDistinct (f ∷ fs) = (any (λ g. finding_key_eq (key_of f) (key_of g)) fs ≡ false) × IsDistinct fs

-- Some of the findings, in their order.
pub data IsPart : List ReviewFinding → List ReviewFinding → Type 0 where
  nothing : IsPart [] []
  leaves : (f : ReviewFinding) (ks fs : List ReviewFinding) → IsPart ks fs → IsPart ks (f ∷ fs)
  keeps : (f : ReviewFinding) (ks fs : List ReviewFinding) → IsPart ks fs → IsPart (f ∷ ks) (f ∷ fs)

-- A key that an error has.
abbrev is_error_key : FindingKey → Bool
is_error_key k = severity_rank k.0 == 2

-- Where the comments are to stand.
abbrev pub places : List ReviewFinding → List (Text × Option ℕ)
places = map (λ f. (f.path, some f.line_start))
