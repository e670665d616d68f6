-- ===== src/Index/CoChange.antt =====
-- crates/ar-index/src/co_change.rs: which files change in the same commits, from a `git log`.
-- A hash map is an association list. Counts are not cut to 32 bits.
use auto_review.Prelude.{
  ℕ, ◌+◌, Bool, List, [], ◌∷◌, ◌++◌, Option, none, some, leb, if◌then◌else◌, is_empty, length,
  is_some,
}
use auto_review.Prelude.Text.{Text, codes, strip_prefix, trim_end}
use auto_review.Prelude.Keys.{lookup, insert, text_key}
use auto_review.Prelude.Search.{lines}
pub mod Counts

abbrev pub Neighbors : Type 0
Neighbors = List (Text × ℕ)

pub record CoChangeGraph : Type 0 where
  pub edges : List (Text × Neighbors)

abbrev pub empty : CoChangeGraph
empty = record { edges = [] }

-- `entry(..).or_default()`
unfoldable pub neighbors_of : Text → CoChangeGraph → Neighbors
neighbors_of a g = elim (lookup a g.edges) [ none ↦ [] | some m ↦ m ]

-- `entry(..).or_insert(0)`
unfoldable pub count_in : Text → Neighbors → ℕ
count_in b m = elim (lookup b m) [ none ↦ 0 | some n ↦ n ]

-- `*graph.edges.entry(a).or_default().entry(b).or_insert(0) += 1`
unfoldable pub bump : Text → Text → CoChangeGraph → CoChangeGraph
bump a b g =
    let m = neighbors_of a g in record { edges = insert a (insert b (count_in b m + 1) m) g.edges }

-- The inner loop, over the files behind `a`.
unfoldable pub pair_with : Text → List Text → CoChangeGraph → CoChangeGraph
pair_with a [] g = g
pair_with a (b ∷ bs) g = pair_with a bs (bump b a (bump a b g))

unfoldable pub pair_all : List Text → CoChangeGraph → CoChangeGraph
pair_all [] g = g
pair_all (a ∷ fs) g = pair_all fs (pair_with a fs g)

unfoldable pub flush : List Text → CoChangeGraph → CoChangeGraph
flush files g = if leb 2 (length files) then pair_all files g else g

-- The loop over the lines, with the files of the commit so far.
unfoldable pub parse_from : List Text → List Text → CoChangeGraph → CoChangeGraph
parse_from [] files g = flush files g
parse_from (raw ∷ ls) files g =
    let line = trim_end raw in
    let boundary = is_some (strip_prefix (codes "COMMIT ") line) in
    if is_empty line
    then parse_from ls files g
    else parse_from ls (if boundary then [] else files ++ line ∷ [])
        (if boundary then flush files g else g)

unfoldable pub parse_git_log_co_change : Text → CoChangeGraph
parse_git_log_co_change log = parse_from (lines log) [] empty
