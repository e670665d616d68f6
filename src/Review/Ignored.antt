-- ===== src/Review/Ignored.antt =====
-- crates/ar-review/src/ignored.rs: files and diff sections that a repository asks to leave out.
-- The compiled glob set is globset's: `GlobSet` names what is asked of it.
use auto_review.Prelude.{
  ℕ, suc, Bool, false, not, Option, none, some, List, [], ◌∷◌, ◌++◌, ltb, if◌then◌else◌, ◌>>=◌,
  is_empty, drop, length, retain,
}
use auto_review.Prelude.Text.{Text, codes, strip_prefix, trim_end}
use auto_review.Prelude.Search.{find, lines, show_nat}
use auto_review.Forge.{ChangedFile}
use auto_review.Review.Diff.{split_files}

pub record GlobSet : Type 0 where
  pub no_globs : Bool
  pub is_match : Text → Bool

unfoldable pub filter_changed_files : List ChangedFile → GlobSet → List ChangedFile
filter_changed_files files ignored =
    if ignored.no_globs then files else retain (λ f. not (ignored.is_match f.filename)) files

-- The loop of diff.rs once more, written out a second time in the source.
unfoldable pub split_diff_sections : Text → List Text
split_diff_sections diff = split_files diff

-- The text behind the first match of `pat`.
unfoldable pub behind : Text → Text → Option Text
behind pat s = do (before, from) ← find pat s; some (drop (length pat) from)

-- `"b/<path>"`
unfoldable pub quoted_path : Text → Option Text
quoted_path rest = do
  after ← behind (codes "\"b/") rest
  (path, from) ← find (codes "\"") after
  some path

unfoldable pub first_line : List Text → Option Text
first_line [] = none
first_line (l ∷ ls) = some l

unfoldable pub or_else : {A : Type 0} → Option A → Option A → Option A
or_else (some a) other = some a
or_else none other = other

unfoldable pub extract_diff_path : Text → Option Text
extract_diff_path section = do
  line ← first_line (lines section)
  rest ← strip_prefix (codes "diff --git ") line
  or_else (quoted_path rest) (do b_path ← behind (codes " b/") rest; some (trim_end b_path))

unfoldable pub diff_changed_paths : Text → List Text
diff_changed_paths diff = filter_map (split_diff_sections diff)
  where
    filter_map : List Text → List Text
    filter_map [] = []
    filter_map (s ∷ ss) = elim (extract_diff_path s) [
      | some p ↦ p ∷ filter_map ss
      | none ↦ filter_map ss
    ]

unfoldable pub is_ignored : GlobSet → Text → Bool
is_ignored ignored s = elim (extract_diff_path s) [
  | some path ↦ ignored.is_match path
  | none ↦ false
]

-- The loop over the sections: what is kept, and how many are not.
unfoldable pub keep_sections : GlobSet → List Text → Text × ℕ
keep_sections ignored [] = ([], 0)
keep_sections ignored (s ∷ ss) =
    let rest = keep_sections ignored ss in
    if is_ignored ignored s then (rest.0, suc rest.1) else (s ++ rest.0, rest.1)

unfoldable pub filter_diff_paths : Text → GlobSet → Text
filter_diff_paths diff ignored =
    if ignored.no_globs
    then diff
    else let sections = split_diff_sections diff in
      if is_empty sections
      then diff
      else let (out, omitted) = keep_sections ignored sections in
        if ltb 0 omitted
        then out
          ++ codes "\n[auto_review: omitted "
          ++ show_nat omitted
          ++ codes " file section(s) matching ignored_paths]\n"
        else out
