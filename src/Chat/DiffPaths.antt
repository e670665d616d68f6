-- ===== src/Chat/DiffPaths.antt =====
-- crates/ar-chat/src/handler.rs, `paths_in_diff`: the files that a unified diff names. The hash set
-- is a list that may name a file more than once.
use auto_review.Prelude.{List, [], ◌∷◌, Option, none, some, map, concat, if◌then◌else◌, is_empty}
use auto_review.Prelude.Text.{Text, codes, strip_prefix}
use auto_review.Prelude.Search.{split_once, split_whitespace, lines}
use mathlib.Core.Option

-- `s.split(pat).nth(1)`
unfoldable pub second_part : Text → Text → Option Text
second_part pat s = elim (split_once pat s) [
  | none ↦ none
  | some (_, after) ↦ elim (split_once pat after) [ none ↦ some after | some (part, _) ↦ some part ]
]

unfoldable pub until_quote : Text → Option Text
until_quote s = Option.map (λ m. m.0) (split_once (codes "\"") s)

unfoldable pub first_word : Text → Text
first_word s = elim (split_whitespace s) [ [] ↦ [] | w ∷ ws ↦ w ]

unfoldable pub unless_empty : Text → List Text
unless_empty path = if is_empty path then [] else path ∷ []

unfoldable pub quoted_path : Option Text → List Text
quoted_path none = []
quoted_path (some s) = elim (until_quote s) [ none ↦ [] | some path ↦ unless_empty path ]

unfoldable pub bare_path : Option Text → List Text
bare_path none = []
bare_path (some s) = unless_empty (first_word s)

-- `a/<old> b/<new>`, quoted or not: the new path.
unfoldable pub git_paths : Text → List Text
git_paths rest =
    let quoted = quoted_path (second_part (codes "\"b/") rest) in
    if is_empty quoted then bare_path (second_part (codes " b/") rest) else quoted

unfoldable pub line_paths : Text → List Text
line_paths line = elim (strip_prefix (codes "+++ \"b/") line) [
  | some rest ↦ quoted_path (some rest)
  | none ↦ elim (strip_prefix (codes "+++ b/") line) [
    | some rest ↦ bare_path (some rest)
    | none ↦ elim (strip_prefix (codes "diff --git ") line) [
      | some rest ↦ git_paths rest
      | none ↦ []
    ]
  ]
]

unfoldable pub paths_in_diff : Text → List Text
paths_in_diff diff = concat (map line_paths (lines diff))
