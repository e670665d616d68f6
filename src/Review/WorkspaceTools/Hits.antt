-- ===== src/Review/WorkspaceTools/Hits.antt =====
-- crates/ar-review/src/workspace_tools.rs: what a search can find.
use auto_review.Prelude.{
  ℕ, zero, suc, ◌+◌, ◌≤◌, ◌≡◌, refl, inl, inr, Bool, true, List, [], ◌∷◌, ◌++◌, Option, none, some,
  Result, ok, err, Result-cases, arith, all, leb, length, length-append, Bool-cases,
}
use auto_review.Prelude.Text.{Text, codes}
use auto_review.Prelude.Search.{lines, join}
use auto_review.Review.WorkspaceTools.{
  FilePath, FileSystem, IoError, FileKind, plain_file, directory, symlink, other_kind, DirEntry,
  WorkspaceToolError, SearchHit, resolve_inside, is_oversized, is_skipped_dirname, relative_to,
  scan_lines, scan_content, scan_file, visit_kind, walk_entries, walk_dir_at_depth, walk_dir,
  search_target, search_in, search,
}

module _ (fs : FileSystem) (root : FilePath) (is_match : Text → Bool) (max_hits : ℕ) where
  -- At most as many hits as asked for, each on a line that matches.
  abbrev pub IsSound : List SearchHit → Type 0
  IsSound hits =
      (length hits ≤ max_hits) × (all (λ (h : SearchHit). is_match h.line_text) hits ≡ true)

  all-snoc :
      (hits : List SearchHit) (h : SearchHit)
      → all (λ (x : SearchHit). is_match x.line_text) hits ≡ true
      → is_match h.line_text ≡ true
      → all (λ (x : SearchHit). is_match x.line_text) (hits ++ h ∷ []) ≡ true
  all-snoc [] h a m = ground arith
  all-snoc (x ∷ hits) h a m = ground (arith, all-snoc hits h)

  scan_lines-IsSound :
      (rel : Text) (n : ℕ) (ls : List Text) (hits : List SearchHit)
      → IsSound hits
      → IsSound (scan_lines fs root is_match max_hits rel n ls hits)
  unfolding scan_lines
  scan_lines-IsSound rel n [] hits h = h
  scan_lines-IsSound rel n (l ∷ ls) hits h = elim (Bool-cases (leb max_hits (length hits))) [
    | inl full ↦ rw (full, scan_lines) h
    | inr free ↦ elim (Bool-cases (is_match l)) [
      | inr no_hit ↦ rw (free, no_hit, scan_lines) (scan_lines-IsSound rel (n + 1) ls hits h)
      | inl hit ↦
          let found : SearchHit = record { path = rel; line = n; line_text = l } in
          rw (free, hit, scan_lines)
            (scan_lines-IsSound rel (n + 1) ls (hits ++ found ∷ [])
              (ground (arith, length-append hits (found ∷ [])), all-snoc hits found h.1 hit))
    ]
  ]

  scan_content-IsSound :
      (path : FilePath) (r : Result IoError Text) (hits : List SearchHit)
      → IsSound hits
      → IsSound (scan_content fs root is_match max_hits path r hits)
  unfolding scan_content
  scan_content-IsSound path (err e) hits h = h
  scan_content-IsSound path (ok content) hits h =
      scan_lines-IsSound (join (codes "/") (relative_to root path)) 1 (lines content) hits h

  scan_file-IsSound :
      (path : FilePath) (hits : List SearchHit)
      → IsSound hits
      → IsSound (scan_file fs root is_match max_hits path hits)
  unfolding scan_file
  scan_file-IsSound path hits h = elim (Bool-cases (leb max_hits (length hits))) [
    | inl full ↦ rw (full, scan_file) h
    | inr free ↦ elim (Bool-cases (is_oversized (fs.metadata_len path))) [
      | inl large ↦ rw (free, large, scan_file) h
      | inr small ↦
          rw (free, small, scan_file) (scan_content-IsSound path (fs.read_to_string path) hits h)
    ]
  ]

  module _ (descend : FilePath → List SearchHit → List SearchHit)
      (sound : (p : FilePath) (hits : List SearchHit)
        → IsSound hits
        → IsSound (descend p hits)) where
    visit_kind-IsSound :
        (path : FilePath) (kind : Option FileKind) (hits : List SearchHit)
        → IsSound hits
        → IsSound (visit_kind fs root is_match max_hits descend path kind hits)
    unfolding visit_kind
    visit_kind-IsSound path none hits h = h
    visit_kind-IsSound path (some directory) hits h = sound path hits h
    visit_kind-IsSound path (some plain_file) hits h = scan_file-IsSound path hits h
    visit_kind-IsSound path (some symlink) hits h = h
    visit_kind-IsSound path (some other_kind) hits h = h

    walk_entries-IsSound :
        (dir : FilePath) (es : List DirEntry) (hits : List SearchHit)
        → IsSound hits
        → IsSound (walk_entries fs root is_match max_hits descend dir es hits)
    unfolding walk_entries
    walk_entries-IsSound dir [] hits h = h
    walk_entries-IsSound dir (e ∷ es) hits h = elim (Bool-cases (leb max_hits (length hits))) [
      | inl full ↦ rw (full, walk_entries) h
      | inr free ↦ elim (Bool-cases (is_skipped_dirname e.name)) [
        | inl skipped ↦ rw (free, skipped, walk_entries) (walk_entries-IsSound dir es hits h)
        | inr visited ↦
            rw (free, visited, walk_entries)
              (walk_entries-IsSound dir es _
                (visit_kind-IsSound (dir ++ e.name ∷ []) e.kind hits h))
      ]
    ]

  walk_dir_at_depth-IsSound :
      (left : ℕ) (dir : FilePath) (hits : List SearchHit)
      → IsSound hits
      → IsSound (walk_dir_at_depth fs root is_match max_hits left dir hits)
  unfolding walk_dir_at_depth
  walk_dir_at_depth-IsSound zero dir hits h = h
  walk_dir_at_depth-IsSound (suc left) dir hits h =
      let recur = walk_dir_at_depth-IsSound left in
      elim (Bool-cases (leb max_hits (length hits))) [
        | inl full ↦ rw (full, walk_dir_at_depth) h
        | inr free ↦ rw (free, walk_dir_at_depth) (go (fs.read_dir dir) recur)
      ]
    where
      go :
          (r : Option (List DirEntry))
          → ((p : FilePath) (hs : List SearchHit)
              → IsSound hs
              → IsSound (walk_dir_at_depth fs root is_match max_hits left p hs))
          → IsSound (elim r [
            | none ↦ hits
            | some entries ↦
                walk_entries fs root is_match max_hits
                  (walk_dir_at_depth fs root is_match max_hits left)
                  dir
                  entries
                  hits
          ])
      go none recur = h
      go (some entries) recur =
          walk_entries-IsSound (walk_dir_at_depth fs root is_match max_hits left) recur dir entries
            hits h

  result-IsSound :
      (found hits : List SearchHit)
      → ◌≡◌ {A = Result WorkspaceToolError (List SearchHit)} (ok found) (ok hits)
      → IsSound found
      → IsSound hits
  result-IsSound found hits e h = let same : found ≡ hits = cc in rw (← same) h

  empty-IsSound : IsSound []
  empty-IsSound = (ground arith, refl)

  search_target-IsSound :
      (rel_path : Text) (r : Result WorkspaceToolError FilePath) (hits : List SearchHit)
      → search_target fs root is_match max_hits rel_path r ≡ ok hits
      → IsSound hits
  unfolding search_target walk_dir
  search_target-IsSound rel_path (err e) hits q = absurd (ground arith)
  search_target-IsSound rel_path (ok path) hits q = elim (Bool-cases (fs.is_file path)) [
    | inl file ↦
        result-IsSound _ hits (rw (file, search_target) at q)
          (scan_file-IsSound path [] empty-IsSound)
    | inr no_file ↦ elim (Bool-cases (fs.is_dir path)) [
      | inl dir ↦
          result-IsSound _ hits (rw (no_file, dir, search_target) at q)
            (walk_dir_at_depth-IsSound 64 path [] empty-IsSound)
      | inr nothing ↦ absurd (ground (arith, rw (no_file, nothing, search_target) at q))
    ]
  ]

  search_in-IsSound :
      (rel_path : Option Text) (hits : List SearchHit)
      → search_in fs root is_match max_hits rel_path ≡ ok hits
      → IsSound hits
  unfolding search_in walk_dir
  search_in-IsSound none hits q =
      result-IsSound _ hits q (walk_dir_at_depth-IsSound 64 root [] empty-IsSound)
  search_in-IsSound (some rel_path) hits q =
      search_target-IsSound rel_path (resolve_inside fs root rel_path) hits q

-- A search that answers gives at most the hits that were asked for, all on lines that the compiled
-- pattern matches, in whatever file system and however deep its directories are.
pub search-IsSound :
    (fs : FileSystem) (compile : Text → Result Text (Text → Bool)) (root : FilePath)
    (pattern : Text) (rel_path : Option Text) (max_hits : ℕ) (hits : List SearchHit)
    → search fs compile root pattern rel_path max_hits ≡ ok hits
    → (is_match : Text → Bool) × (compile pattern ≡ ok is_match)
      × (length hits ≤ max_hits)
      × (all (λ (h : SearchHit). is_match h.line_text) hits ≡ true)
unfolding search
search-IsSound fs compile root pattern rel_path max_hits hits q =
    elim (Result-cases (compile pattern)) [
      | inr (e, bad) ↦ absurd (ground (arith, rw (bad, search) at q))
      | inl (is_match, good) ↦
          let (few, matching) =
            search_in-IsSound fs root is_match max_hits rel_path hits (rw (good, search) at q) in
          (is_match, good, few, matching)
    ]
