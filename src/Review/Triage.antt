-- ===== src/Review/Triage.antt =====
-- crates/ar-review/src/triage.rs: pull requests that need no review.
use auto_review.Prelude.{
  ◌≡◌, refl, Bool, true, false, not, ◌||◌, List, [], ◌∷◌, ◌↔◌, ◌==◌, if◌then◌else◌, arith, is_empty,
  retain, all, any,
}
use auto_review.Prelude.Keys.{member, text_key}
use auto_review.Prelude.Text.{Text, codes, text_eq, starts_with, ends_with, to_ascii_lowercase}
use auto_review.Prelude.Search.{contains}
use auto_review.Forge.{ChangedFile}

pub data FileClass : Type 0 where
  trivial reviewable : FileClass

-- `s.rsplit('/').next()`: what stands behind the last slash.
unfoldable pub basename_of : Text → Text
basename_of s = last_segment s s
  where
    last_segment : Text → Text → Text
    last_segment segment [] = segment
    last_segment segment (c ∷ s) = if c == b'/' then last_segment s s else last_segment segment s

unfoldable pub is_lockfile : Text → Bool
is_lockfile basename = member basename (
    codes "cargo.lock"
    ∷ codes "package-lock.json"
    ∷ codes "yarn.lock"
    ∷ codes "pnpm-lock.yaml"
    ∷ codes "poetry.lock"
    ∷ codes "uv.lock"
    ∷ codes "gemfile.lock"
    ∷ codes "go.sum"
    ∷ codes "composer.lock"
    ∷ codes "mix.lock"
    ∷ codes "bun.lockb"
    ∷ codes "podfile.lock"
    ∷ codes "flake.lock"
    ∷ [])

unfoldable pub is_generated_path : Text → Bool
is_generated_path lower =
    contains (codes "/generated/") lower
    || starts_with (codes "generated/") lower
    || contains (codes ".pb.go") lower
    || contains (codes ".pb.rs") lower
    || ends_with (codes ".min.js") lower
    || ends_with (codes ".min.css") lower
    || ends_with (codes ".map") lower

unfoldable pub is_vendored : Text → Bool
is_vendored lower =
    contains (codes "/vendor/") lower
    || starts_with (codes "vendor/") lower
    || contains (codes "/node_modules/") lower
    || starts_with (codes "node_modules/") lower
    || contains (codes "/third_party/") lower
    || starts_with (codes "third_party/") lower

unfoldable pub classify : Text → FileClass
classify filename =
    let lower = to_ascii_lowercase filename in
    let basename = basename_of lower in
    if is_lockfile basename || is_generated_path lower || is_vendored lower
    then trivial
    else reviewable

unfoldable pub is_trivial : FileClass → Bool
is_trivial trivial = true
is_trivial reviewable = false

unfoldable pub is_removed : ChangedFile → Bool
is_removed f = text_eq f.status (codes "removed")

unfoldable pub pr_is_skippable : List ChangedFile → Bool
pr_is_skippable files =
    if is_empty files
    then false
    else let surviving = retain (λ f. not (is_removed f)) files in
      if is_empty surviving then false else all (λ f. is_trivial (classify f.filename)) surviving

-- A pull request is skipped exactly when some file of it is not removed and every file that is
-- not removed is trivial.
pr_is_skippable_lem :
    (files : List ChangedFile)
    → (pr_is_skippable files ≡ true) ↔ (
        (any (λ f. not (is_removed f)) files ≡ true)
        × (all (λ f. is_removed f || is_trivial (classify f.filename)) files ≡ true))
unfolding pr_is_skippable
pr_is_skippable_lem files =
    ground (arith, empty-retain-any files, all-retain-or files, nonempty files)
  where
    empty-retain-any :
        (fs : List ChangedFile)
        → is_empty (retain (λ f. not (is_removed f)) fs) ≡ not (any (λ f. not (is_removed f)) fs)
    empty-retain-any [] = refl
    empty-retain-any (f ∷ fs) = ground (arith, empty-retain-any fs)

    all-retain-or :
        (fs : List ChangedFile)
        → all (λ f. is_trivial (classify f.filename)) (retain (λ f. not (is_removed f)) fs)
          ≡ all (λ f. is_removed f || is_trivial (classify f.filename)) fs
    all-retain-or [] = refl
    all-retain-or (f ∷ fs) = ground (arith, all-retain-or fs)

    nonempty :
        (fs : List ChangedFile) → is_empty fs ≡ true → any (λ f. not (is_removed f)) fs ≡ false
    nonempty [] e = refl
    nonempty (f ∷ fs) e = cc
