-- ===== src/Review/Metadata.antt =====
-- crates/ar-review/src/pipeline.rs, the checks of a pull request's title and body.
-- A slice that is not at a character boundary panics in Rust: `none` is a panic here.
use auto_review.Prelude.{
  ℕ, zero, suc, ◌+◌, ◌≤◌, ◌≡◌, refl, Bool, true, false, not, ◌&&◌, ◌||◌, Option, none, some, List,
  [], ◌∷◌, ◌++◌, leb, ltb, ◌==◌, if◌then◌else◌, is_empty, all, any, drop, length, take, is_some,
}
use auto_review.Prelude.Text.{
  Text, codes, text_eq, starts_with, ends_with, strip_prefix, trim, trim_end, trim_start_matches,
  to_ascii_lowercase, eq_ignore_ascii_case,
}
use auto_review.Prelude.Boundary.{is_char_boundary, byte_len}
use auto_review.Prelude.Search.{contains, split_once, split_whitespace, lines}
use auto_review.Review.Marker.{strip_title_marker}
pub mod Panics

pub record PrMetadataValidation : Type 0 where
  pub passed : Bool
  pub rationale : Text
  pub offending_text : Text

abbrev is_ascii_digit : ℕ → Bool
is_ascii_digit c = leb b'0' c && leb c b'9'

abbrev pub is_ascii_lowercase : ℕ → Bool
is_ascii_lowercase c = leb b'a' c && leb c b'z'

abbrev pub is_ascii_uppercase : ℕ → Bool
is_ascii_uppercase c = leb b'A' c && leb c b'Z'

unfoldable pub validate_pr_metadata_title_length : Text → Option PrMetadataValidation
validate_pr_metadata_title_length title =
    if leb (length title) 72
    then none
    else some (record {
      passed = false;
      rationale = codes "PR title exceeds the 72 character limit.";
      offending_text = title;
    })

-- Whether the lines from here on fill the section; the Boolean says that it has begun.
unfoldable pub section_has_content : Text → Bool → List Text → Bool
section_has_content target in_section [] = false
section_has_content target in_section (l ∷ ls) =
    let trimmed = trim l in
    let header = starts_with (codes "## ") trimmed in
    let rest =
      section_has_content target (if header then text_eq trimmed target else in_section) ls in
    if header
    then (if in_section then false else rest)
    else if in_section && not (is_empty trimmed)
    then true
    else rest

unfoldable pub markdown_section_has_content : Text → Text → Bool
markdown_section_has_content body heading =
    section_has_content (codes "## " ++ heading) false (lines body)

unfoldable pub strip_suffix_paren : Text → Option Text
strip_suffix_paren [] = none
strip_suffix_paren (c ∷ []) = if c == b')' then some [] else none
strip_suffix_paren (c ∷ d ∷ s) = elim (strip_suffix_paren (d ∷ s)) [
  | some r ↦ some (c ∷ r)
  | none ↦ none
]

-- `token.split('.')`: whether every segment is a non-empty run of digits.
unfoldable pub digit_segments : Bool → Text → Bool
digit_segments filled [] = filled
digit_segments filled (c ∷ s) =
    let rest = digit_segments (not (c == b'.')) s in
    if c == b'.' then filled && rest else is_ascii_digit c && rest

unfoldable pub looks_like_release_version : Text → Bool
looks_like_release_version token =
    let token' = trim_start_matches (λ c. c == b'v' || c == b'V') token in
    contains (codes ".") token' && digit_segments false token'

unfoldable pub is_release_kind : Text → Option Text → Text → Bool
is_release_kind kind scope rest =
    let kind' = to_ascii_lowercase (trim kind) in
    let scope_is_release : Bool = elim scope [
      | some s ↦ eq_ignore_ascii_case (trim s) (codes "release")
      | none ↦ false
    ] in
    let rest_lower = to_ascii_lowercase rest in
    text_eq kind' (codes "release")
    || (text_eq kind' (codes "chore")
        && (scope_is_release
            || text_eq rest_lower (codes "release")
            || starts_with (codes "release ") rest_lower))

unfoldable pub is_release_prefix : Text → Text → Bool
is_release_prefix prefix rest = elim (split_once (codes "(") prefix) [
  | none ↦ is_release_kind prefix none rest
  | some (kind, scope) ↦ elim (strip_suffix_paren scope) [
    | none ↦ false
    | some s ↦ is_release_kind kind (some s) rest
  ]
]

unfoldable pub is_release_pr_title : Text → Bool
is_release_pr_title title =
    elim (split_once (codes ": ") (trim (strip_title_marker (trim title)))) [
      | none ↦ false
      | some (prefix, rest) ↦
          is_release_prefix prefix (trim rest)
          && any looks_like_release_version (split_whitespace (trim rest))
    ]

unfoldable pub has_clearly_acceptable_release_pr_metadata : Text → Text → Bool
has_clearly_acceptable_release_pr_metadata title body =
    elim (strip_prefix (codes "chore: release ") title) [
      | none ↦ false
      | some version ↦
          starts_with (codes "v") version
          && all (λ c. is_ascii_digit c || c == b'.') (drop 1 version)
          && starts_with (codes "Prepare release " ++ version ++ codes " from branch ") body
          && (contains
                (codes
                  "binary package links on the PR; final release entries are created only after merge to main.")
                body
              || contains
                  (codes
                    "CI builds release PR artifacts for review; final release assets are rebuilt and published only after merge to main.")
                  body
              || contains
                  (codes
                    "updates Cargo.toml, Cargo.lock, and CHANGELOG.md with semver-selected release metadata before merge to main.")
                  body)
    ]

-- `(first, &word[1..])` for the first character of a word: a panic unless the character is one
-- byte long.
unfoldable pub split_first : Text → Option (Option (ℕ × Text))
split_first [] = some none
split_first (c ∷ s) = if is_char_boundary (c ∷ s) 1 then some (some (c, s)) else none

unfoldable pub is_capitalized : ℕ × Text → Bool
is_capitalized (first, rest) =
    is_ascii_uppercase first && not (is_empty rest) && all is_ascii_lowercase rest

-- The test of a title that has no colon, and whether it panics.
unfoldable pub first_word_capitalized : List Text → Option Bool
first_word_capitalized [] = some false
first_word_capitalized (word ∷ ws) = elim (split_first word) [
  | none ↦ none
  | some none ↦ some false
  | some (some p) ↦ some (is_capitalized p)
]

unfoldable pub is_conventional : Text → Bool → Bool
is_conventional title has_substantive_body = elim (split_once (codes ": ") title) [
  | none ↦ false
  | some (prefix, description) ↦
      let kind : Text = elim (split_once (codes "(") prefix) [
        | some (k, scope) ↦ k
        | none ↦ prefix
      ] in
      let scope_is_valid : Bool = elim (split_once (codes "(") prefix) [
        | some (k, scope) ↦ ends_with (codes ")") scope && ltb 1 (byte_len scope)
        | none ↦ true
      ] in
      leb (length title) 72
      && not (is_empty kind)
      && all is_ascii_lowercase kind
      && scope_is_valid
      && any is_ascii_lowercase (take 1 description)
      && has_substantive_body
]

unfoldable pub has_substantive_body : Text → Bool
has_substantive_body body =
    markdown_section_has_content body (codes "Summary")
    && (markdown_section_has_content body (codes "Why")
        || markdown_section_has_content body (codes "Verification"))

unfoldable pub has_clearly_acceptable_pr_metadata : Text → Text → Option Bool
has_clearly_acceptable_pr_metadata title body =
    if has_clearly_acceptable_release_pr_metadata title body || is_release_pr_title title
    then some true
    else let substantive = has_substantive_body body in
      if leb (length title) 72 && not (contains (codes ":") title)
      then elim (first_word_capitalized (split_whitespace title)) [
        | none ↦ none
        | some good ↦
            if good && substantive then some true else some (is_conventional title substantive)
      ]
      else some (is_conventional title substantive)

unfoldable pub is_empty_body_specific_metadata_failure : PrMetadataValidation → Bool
is_empty_body_specific_metadata_failure validation =
    let rationale = to_ascii_lowercase validation.rationale in
    is_empty (trim validation.offending_text)
    && (contains (codes "body is required") rationale
        || contains (codes "description is required") rationale)
    && not (contains (codes "title") rationale)

unfoldable pub append_pre_merge_checks : Text → PrMetadataValidation → Text
append_pre_merge_checks body validation =
    (if is_empty body then body else body ++ codes "\n\n")
    ++ codes "## Pre-merge checks\n\n- PR metadata quality: failed\n- Rationale: "
    ++ trim validation.rationale
    ++ codes "\n- Offending text: "
    ++ trim validation.offending_text
