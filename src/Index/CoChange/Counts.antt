-- ===== src/Index/CoChange/Counts.antt =====
-- crates/ar-index/src/co_change.rs: what the counts of the graph are, against the commits of the
-- log.
use auto_review.Prelude.{
  ℕ, ◌+◌, ◌*◌, ◌≡◌, refl, true, false, ◌&&◌, List, [], ◌∷◌, ◌++◌, if◌then◌else◌, leb, is_empty,
  length, is_some, arith, Bool-cases, inl, inr, append_assoc, append-nil, ap, ◌∙◌, sym,
}
use auto_review.Prelude.Text.{Text, codes, strip_prefix, trim_end, text_eq, text_eq_iff}
use auto_review.Prelude.Keys.{lookup, insert, lookup-insert, text_key, beq_sym}
use auto_review.Prelude.Search.{lines}
use auto_review.Index.CoChange.{
  Neighbors, CoChangeGraph, empty, neighbors_of, count_in, bump, pair_with, pair_all, flush,
  parse_from, parse_git_log_co_change,
}

-- `graph.edges[x][y]`, 0 where there is no entry.
abbrev pub count : Text → Text → CoChangeGraph → ℕ
count x y g = count_in y (neighbors_of x g)

-- How often a commit lists a file.
unfoldable pub occurrences : Text → List Text → ℕ
occurrences x [] = 0
occurrences x (f ∷ fs) = (if text_eq x f then 1 else 0) + occurrences x fs

-- The files of the first commit, those before any `COMMIT` line, and of the later ones.
unfoldable pub commits_of : List Text → List Text × List (List Text)
commits_of [] = ([], [])
commits_of (raw ∷ ls) =
    let line = trim_end raw in
    let rest = commits_of ls in
    if is_empty line
    then rest
    else if is_some (strip_prefix (codes "COMMIT ") line)
    then ([], rest.0 ∷ rest.1)
    else (line ∷ rest.0, rest.1)

-- In how many ways the commits list the two files together.
unfoldable pub together : Text → Text → List (List Text) → ℕ
together x y [] = 0
together x y (c ∷ cs) = occurrences x c * occurrences y c + together x y cs

neighbors_of-bump :
    (x a b : Text) (g : CoChangeGraph)
    → neighbors_of x (bump a b g) ≡ (
        if text_eq a x
        then insert b (count_in b (neighbors_of a g) + 1) (neighbors_of a g)
        else neighbors_of x g)
unfolding bump neighbors_of
neighbors_of-bump x a b g =
    let e =
      lookup-insert a x (insert b (count_in b (neighbors_of a g) + 1) (neighbors_of a g)) g.edges in
    elim (Bool-cases (text_eq a x)) [
      | inl same ↦ rw (neighbors_of, bump, e, same) refl
      | inr other ↦ rw (neighbors_of, bump, e, other) refl
    ]

count_in-insert :
    (y b : Text) (n : ℕ) (m : Neighbors)
    → count_in y (insert b n m) ≡ (if text_eq b y then n else count_in y m)
unfolding count_in
count_in-insert y b n m = elim (Bool-cases (text_eq b y)) [
  | inl same ↦ rw (count_in, lookup-insert b y n m, same) refl
  | inr other ↦ rw (count_in, lookup-insert b y n m, other) refl
]

count-bump :
    (x y a b : Text) (g : CoChangeGraph)
    → count x y (bump a b g) ≡ count x y g + (if text_eq x a && text_eq y b then 1 else 0)
count-bump x y a b g =
    let m = neighbors_of a g in
    let e = neighbors_of-bump x a b g in
    let i = count_in-insert y b (count_in b m + 1) m in
    elim (Bool-cases (text_eq a x)) [
      | inl same ↦
          let p : a ≡ x = (text_eq_iff a x).0 same in
          let q : count_in y m ≡ count x y g = ap (λ z. count_in y (neighbors_of z g)) p in
          let r : text_eq b y ≡ true → count_in b m ≡ count_in y m =
            λ h. ap (λ z. count_in z m) ((text_eq_iff b y).0 h) in
          rw (e, same, i)
            (ground
              (arith, q, r, text_eq_iff a x, text_eq_iff x a, text_eq_iff b y, text_eq_iff y b))
      | inr other ↦ rw (e, other) (ground (arith, text_eq_iff a x, text_eq_iff x a))
    ]

not_both : (x y a : Text) → text_eq x y ≡ false → (text_eq x a && text_eq y a) ≡ false
not_both x y a d = ground (arith, text_eq_iff x a, text_eq_iff y a, text_eq_iff x y)

occurrences-append :
    (x : Text) (xs ys : List Text) → occurrences x (xs ++ ys) ≡ occurrences x xs + occurrences x ys
unfolding occurrences
occurrences-append x [] ys = omega arith
occurrences-append x (f ∷ fs) ys = ground (arith, occurrences-append x fs ys)

count-pair_with :
    (x y a : Text) (fs : List Text) (g : CoChangeGraph)
    → text_eq x y ≡ false
    → count x y (pair_with a fs g)
      ≡ count x y g
        + (if text_eq x a then occurrences y fs else 0)
        + (if text_eq y a then occurrences x fs else 0)
unfolding pair_with occurrences
count-pair_with x y a [] g d = ground arith
count-pair_with x y a (b ∷ fs) g d =
    let one = count-bump x y a b g in
    let two = count-bump x y b a (bump a b g) in
    let rest = count-pair_with x y a fs (bump b a (bump a b g)) d in
    let apart = not_both x y a d in ground (arith, one, two, rest, apart)

count-pair_all :
    (x y : Text) (fs : List Text) (g : CoChangeGraph)
    → text_eq x y ≡ false
    → count x y (pair_all fs g) ≡ count x y g + occurrences x fs * occurrences y fs
unfolding pair_all occurrences
count-pair_all x y [] g d = omega arith
count-pair_all x y (a ∷ fs) g d =
    let here = count-pair_with x y a fs g d in
    let rest = count-pair_all x y fs (pair_with a fs g) d in
    let apart = not_both x y a d in ground (arith, here, rest, apart)

flush_lem : (fs : List Text) (g : CoChangeGraph) → flush fs g ≡ pair_all fs g
unfolding flush pair_all pair_with
flush_lem [] g = refl
flush_lem (a ∷ []) g = refl
flush_lem (a ∷ b ∷ fs) g =
    let two : leb 2 (length (a ∷ b ∷ fs)) ≡ true = ground arith in rw (two) refl

count-flush :
    (x y : Text) (fs : List Text) (g : CoChangeGraph)
    → text_eq x y ≡ false
    → count x y (flush fs g) ≡ count x y g + occurrences x fs * occurrences y fs
count-flush x y fs g d = ap (count x y) (flush_lem fs g) ∙ count-pair_all x y fs g d

-- The files of the commit so far go before those of the first commit that is left.
count-parse_from :
    (x y : Text) (ls files : List Text) (g : CoChangeGraph)
    → text_eq x y ≡ false
    → count x y (parse_from ls files g)
      ≡ count x y g
        + occurrences x (files ++ (commits_of ls).0) * occurrences y (files ++ (commits_of ls).0)
        + together x y (commits_of ls).1
unfolding parse_from commits_of together
count-parse_from x y [] files g d = rw (append-nil files) (omega (arith, count-flush x y files g d))
count-parse_from x y (raw ∷ ls) files g d =
    let line = trim_end raw in
    elim (Bool-cases (is_empty line)) [
      | inl blank ↦ rw (blank) (count-parse_from x y ls files g d)
      | inr filled ↦ elim (Bool-cases (is_some (strip_prefix (codes "COMMIT ") line))) [
        | inl boundary ↦
            let rest = count-parse_from x y ls [] (flush files g) d in
            let here = count-flush x y files g d in
            rw (filled, boundary, append-nil files) (omega (arith, rest, here))
        | inr inside ↦
            rw (filled, inside, sym (append_assoc files (line ∷ []) (commits_of ls).0))
              (count-parse_from x y ls (files ++ line ∷ []) g d)
      ]
    ]

together_comm : (x y : Text) (cs : List (List Text)) → together y x cs ≡ together x y cs
unfolding together
together_comm x y [] = refl
together_comm x y (c ∷ cs) = omega (arith, together_comm x y cs)

count-log :
    (x y log : Text)
    → text_eq x y ≡ false
    → count x y (parse_git_log_co_change log)
      ≡ together x y ((commits_of (lines log)).0 ∷ (commits_of (lines log)).1)
unfolding parse_git_log_co_change together
count-log x y log d =
    let none_yet : count x y empty ≡ 0 = unfold neighbors_of count_in lookup in refl in
    omega (arith, count-parse_from x y (lines log) [] empty d, none_yet)

-- For two different files the graph that is read from a log counts, in either direction, in how
-- many ways the commits of the log list both: the sum over the commits of the product of how often
-- each of the two is listed, which is the number of commits with both where no commit lists a file
-- twice.
pub count-parse_git_log_co_change :
    (x y log : Text)
    → text_eq x y ≡ false
    → let commits = (commits_of (lines log)).0 ∷ (commits_of (lines log)).1 in
      (count x y (parse_git_log_co_change log) ≡ together x y commits)
      × (count y x (parse_git_log_co_change log) ≡ together x y commits)
count-parse_git_log_co_change x y log d =
    let commits = (commits_of (lines log)).0 ∷ (commits_of (lines log)).1 in
    (count-log x y log d, count-log y x log (beq_sym y x ∙ d) ∙ together_comm x y commits)
