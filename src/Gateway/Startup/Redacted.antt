-- ===== src/Gateway/Startup/Redacted.antt =====
-- crates/ar-gateway/src/startup.rs, `sanitize_oci_setup_detail`: what a diagnostic cannot show.
use mathlib.Core.Path.{subst}
use auto_review.Prelude.{
  ℕ, zero, suc, ◌≤◌, ◌<◌, ◌≡◌, refl, sym, ap, ◌∙◌, not, ◌==◌, Bool, drop, any, all, ◌++◌,
  Option-cases, length-append, true, false, [], ◌∷◌, arith, length, is_empty, Bool-cases, inl, inr,
}
use auto_review.Prelude.Text.{Text, codes, starts_with}
use auto_review.Prelude.Search.{find, contains, append-find}
use auto_review.Prelude.Replace.{
  replace, replace_from, length-behind, lacks, Skips, skip_nothing, contains-drop, redacted-IsWall,
  replace_from-absent, replace_from-keeps, IsWall,
}
use auto_review.Gateway.Startup.{
  ends_path, skip_path, secret_path_prefix, redact_run_secrets_path_suffix,
  sanitize_oci_setup_detail,
}

length-skip_path-le : (s : Text) → length (skip_path s) ≤ length s
unfolding skip_path
length-skip_path-le [] = omega arith
length-skip_path-le (c ∷ s) = ground (arith, length-skip_path-le s)

contains-skip_path : (pat s : Text) → contains pat s ≡ false → contains pat (skip_path s) ≡ false
unfolding skip_path
contains-skip_path pat [] h = h
contains-skip_path pat (c ∷ s) h =
    let rest = contains-skip_path pat s (contains-drop pat 1 (c ∷ s) h) in
    elim (Bool-cases (ends_path c)) [ inl stop ↦ rw stop h | inr more ↦ rw more rest ]

skip_path-Skips : Skips skip_path
skip_path-Skips = record { shorter = length-skip_path-le; absent = contains-skip_path }

-- A pattern that no `[redacted]` can be part of.
abbrev IsApart : Text → Type 0
IsApart pat =
    (lacks b'[' pat ≡ true)
    × (lacks b']' pat ≡ true)
    × (is_empty pat ≡ false)
    × (contains pat (codes "redacted") ≡ false)

wall : (pat : Text) → IsApart pat → IsWall pat (codes "[redacted]")
wall pat (opening, closing, full, absent) = redacted-IsWall pat opening closing full absent

path-IsApart : IsApart secret_path_prefix
path-IsApart = (refl, refl, refl, unfold contains in unfold find in unfold starts_with in refl)

bearing-IsApart : IsApart (codes "secret-bearing")
bearing-IsApart = (refl, refl, refl, unfold contains in unfold find in unfold starts_with in refl)

token-IsApart : IsApart (codes "ar-token")
token-IsApart = (refl, refl, refl, unfold contains in unfold find in unfold starts_with in refl)

replaced : (pat s : Text) → IsApart pat → contains pat (replace pat (codes "[redacted]") s) ≡ false
unfolding replace
replaced pat s apart =
    replace_from-absent (λ t. t) skip_nothing pat (codes "[redacted]") (suc (length s)) s apart.2
      (wall pat apart) (omega arith)

kept :
    (pat other s : Text)
    → IsApart other
    → contains other s ≡ false
    → contains other (replace pat (codes "[redacted]") s) ≡ false
unfolding replace
kept pat other s apart h =
    replace_from-keeps (λ t. t) skip_nothing pat (codes "[redacted]") other (suc (length s)) s
      apart.2 (wall other apart) h

-- What ends a path: white space or closing punctuation.
abbrev pub ends_name : ℕ → Bool
ends_name c = any (λ t. t == c) (9 ∷ 10 ∷ 12 ∷ 13 ∷ codes " ;,)]}")

ends_name_iff : (c : ℕ) → ends_path c ≡ ends_name c
unfolding ends_path
ends_name_iff c = ground arith

-- No name goes on at the front of the text.
abbrev pub is_ended : Text → Bool
is_ended [] = true
is_ended (c ∷ s) = ends_name c

-- `[redacted]` stands for every path below `/run/secrets/`, up to the end of the path, and the text
-- between the paths is kept.
pub data Redacts : Text → Text → Type 0 where
  clean : (s : Text) → contains (codes "/run/secrets/") s ≡ false → Redacts s s
  hidden :
      (before name s t : Text)
      → all (λ c. not (ends_name c)) name ≡ true
      → is_ended s ≡ true
      → Redacts s t
      → Redacts
          (before ++ (codes "/run/secrets/" ++ (name ++ s)))
          (before ++ (codes "[redacted]" ++ t))

skip_path_lem :
    (s : Text)
    → (name : Text) × (s ≡ name ++ skip_path s)
      × (all (λ c. not (ends_name c)) name ≡ true)
      × (is_ended (skip_path s) ≡ true)
unfolding skip_path
skip_path_lem [] = ([], refl, refl, refl)
skip_path_lem (c ∷ s) = elim (Bool-cases (ends_path c)) [
  | inl stop ↦ rw (stop, skip_path) ([], refl, refl, ground (arith, ends_name_iff c))
  | inr more ↦
      let (name, split, plain, ended) = skip_path_lem s in
      rw (more, skip_path)
        (c ∷ name, ap (λ (t : Text). c ∷ t) split, ground (arith, ends_name_iff c), ended)
]

starts_with-split : (pat s : Text) → starts_with pat s ≡ true → s ≡ pat ++ drop (length pat) s
unfolding starts_with
starts_with-split [] s h = refl
starts_with-split (p ∷ pat) [] h = cc
starts_with-split (p ∷ pat) (c ∷ s) h =
    let rest = starts_with-split pat s (ground arith) in
    let same : p ≡ c = ground arith in rw same (ap (λ (t : Text). c ∷ t) rest)

replace_from-Redacts :
    (f : ℕ) (s : Text)
    → length s < f
    → Redacts s (replace_from f skip_path secret_path_prefix (codes "[redacted]") s)
unfolding replace_from
replace_from-Redacts zero s h = absurd (omega (arith, h))
replace_from-Redacts (suc f) s h = elim (Option-cases (find secret_path_prefix s)) [
  | inl e ↦ rw (e, replace_from) (clean s (unfold contains in rw e refl))
  | inr ((before, from), e) ↦
      let (split, matched) = append-find secret_path_prefix s before from e in
      let tail = drop (length secret_path_prefix) from in
      let (name, named, plain, ended) = skip_path_lem tail in
      let whole : s ≡ before ++ (codes "/run/secrets/" ++ (name ++ skip_path tail)) =
        split
        ∙ ap (λ (t : Text). before ++ t)
            (starts_with-split secret_path_prefix from matched
              ∙ ap (λ (t : Text). codes "/run/secrets/" ++ t) named) in
      let shorter : length (skip_path tail) < f = omega (
        arith,
        length-skip_path-le tail,
        length-behind secret_path_prefix from refl matched,
        ap length split,
        length-append before from,
        h,
      ) in
      let rest = replace_from-Redacts f (skip_path tail) shorter in
      rw (e, replace_from)
        (subst
          (λ t. Redacts t (
            before
            ++ (codes "[redacted]"
                ++ replace_from f skip_path secret_path_prefix (codes "[redacted]")
                    (skip_path tail))))
          (sym whole) (hidden before name (skip_path tail) _ plain ended rest))
]

-- What is shown of a diagnostic is the diagnostic with `[redacted]` in place of every path below
-- `/run/secrets/`, the name of the file included, in which then the words `secret-bearing` and
-- `ar-token` are replaced in the same way. Neither these nor the directory are left in it.
pub sanitize_oci_setup_detail_lem :
    (detail : Text)
    → ((t : Text) × Redacts detail t
        × (sanitize_oci_setup_detail detail
            ≡ replace
                (codes "ar-token")
                (codes "[redacted]")
                (replace (codes "secret-bearing") (codes "[redacted]") t)))
      × (contains (codes "/run/secrets/") (sanitize_oci_setup_detail detail) ≡ false)
      × (contains (codes "secret-bearing") (sanitize_oci_setup_detail detail) ≡ false)
      × (contains (codes "ar-token") (sanitize_oci_setup_detail detail) ≡ false)
unfolding sanitize_oci_setup_detail redact_run_secrets_path_suffix
sanitize_oci_setup_detail_lem detail =
    let first = redact_run_secrets_path_suffix detail in
    let second = replace (codes "secret-bearing") (codes "[redacted]") first in
    (
      (first, replace_from-Redacts (suc (length detail)) detail (omega arith), refl),
      kept (codes "ar-token") secret_path_prefix second path-IsApart (
          kept (codes "secret-bearing") secret_path_prefix first path-IsApart (
            replace_from-absent skip_path skip_path-Skips secret_path_prefix (codes "[redacted]")
              (suc (length detail)) detail refl (wall secret_path_prefix path-IsApart)
              (omega arith))),
      kept (codes "ar-token") (codes "secret-bearing") second bearing-IsApart
          (replaced (codes "secret-bearing") first bearing-IsApart),
      replaced (codes "ar-token") second token-IsApart,
    )
