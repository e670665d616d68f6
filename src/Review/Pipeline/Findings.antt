-- ===== src/Review/Pipeline/Findings.antt =====
-- crates/ar-review/src/pipeline.rs and mapping.rs: the findings that the last filters leave, and their
-- comments.
use auto_review.Prelude.{
  ◌+◌, ◌≡◌, refl, Bool, true, ◌&&◌, ◌||◌, List, [], ◌∷◌, map, leb, is_empty, length, retain, all,
  any, arith,
}
use auto_review.Prelude.Keys.{member, text_key}
use auto_review.Prelude.Text.{Text}
use auto_review.Forge.{request_changes, ReviewComment}
use auto_review.Review.Types.{ReviewSeverity, note, warning, error, ReviewFinding, ReviewOutput}
use auto_review.Review.Filters.{
  severity_rank, drop_findings_outside_changed_paths, apply_severity_floor,
}
use auto_review.Review.Mapping.{
  FindingKey, key_of, is_error, dedup_findings, finding_to_comment, output_to_review_request,
}
use auto_review.Review.Pipeline.{count_severity, last_filters}

-- The three severities count every finding once.
pub count_severity-sum :
    (fs : List ReviewFinding)
    → count_severity error fs + count_severity warning fs + count_severity note fs ≡ length fs
unfolding count_severity severity_rank
count_severity-sum [] = omega arith
count_severity-sum (f ∷ fs) = ground (arith, count_severity-sum fs)

-- At or above the floor.
abbrev pub is_above : ReviewSeverity → ReviewFinding → Bool
is_above min f = leb (severity_rank min) (severity_rank f.severity)

-- In one of the changed files, if any are known.
abbrev pub is_inside : List Text → ReviewFinding → Bool
is_inside changed f = is_empty changed || member f.path changed

all-retain-retain :
    (p q : ReviewFinding → Bool) (fs : List ReviewFinding)
    → all (λ f. p f && q f) (retain q (retain p fs)) ≡ true
all-retain-retain p q [] = refl
all-retain-retain p q (f ∷ fs) = ground (arith, all-retain-retain p q fs)

all-retain-true :
    (p : ReviewFinding → Bool) (fs : List ReviewFinding)
    → all (λ f. p f && true) (retain p fs) ≡ true
all-retain-true p [] = refl
all-retain-true p (f ∷ fs) = ground (arith, all-retain-true p fs)

pub last_filters-good :
    (min : ReviewSeverity) (changed : List Text) (output : ReviewOutput)
    → all (λ f. is_above min f && is_inside changed f) (last_filters min changed output).findings
      ≡ true
unfolding last_filters drop_findings_outside_changed_paths apply_severity_floor
last_filters-good min [] output = all-retain-true (is_above min) output.findings
last_filters-good min (p ∷ ps) output =
    all-retain-retain (is_above min) (is_inside (p ∷ ps)) output.findings

pub all-dedup_findings :
    (q : ReviewFinding → Bool) (seen : List FindingKey) (fs : List ReviewFinding)
    → all q fs ≡ true
    → all q (dedup_findings seen fs) ≡ true
unfolding dedup_findings
all-dedup_findings q seen [] h = refl
all-dedup_findings q seen (f ∷ fs) h =
    ground (arith, all-dedup_findings q seen fs, all-dedup_findings q (key_of f ∷ seen) fs)

-- A comment in one of the changed files, if any are known.
abbrev pub is_inside_comment : List Text → ReviewComment → Bool
is_inside_comment changed c = is_empty changed || member c.path changed

pub comments-inside :
    (min : ReviewSeverity) (changed : List Text) (fs : List ReviewFinding)
    → all (λ f. is_above min f && is_inside changed f) fs ≡ true
    → all (is_inside_comment changed) (map finding_to_comment fs) ≡ true
unfolding finding_to_comment
comments-inside min changed [] h = refl
comments-inside min changed (f ∷ fs) h = ground (arith, comments-inside min changed fs)

pub all-left :
    (p q : ReviewFinding → Bool) (fs : List ReviewFinding)
    → all (λ f. p f && q f) fs ≡ true
    → all p fs ≡ true
all-left p q [] h = refl
all-left p q (f ∷ fs) h = ground (arith, all-left p q fs)

pub mapped :
    (out : ReviewOutput) (head_sha : Text)
    → ((output_to_review_request out head_sha).commit_id ≡ head_sha)
      × ((output_to_review_request out head_sha).comments
          ≡ map finding_to_comment (dedup_findings [] out.findings))
      × (any is_error out.findings ≡ true
          → (output_to_review_request out head_sha).event ≡ request_changes)
unfolding output_to_review_request
mapped out head_sha = (refl, refl, λ k. rw k refl)
