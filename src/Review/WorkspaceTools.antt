-- ===== src/Review/WorkspaceTools.antt =====
-- crates/ar-review/src/workspace_tools.rs: reading and searching the files of a cloned workspace.
-- The file system and the regular expressions are parameters; a path is the list of its components,
-- and names are text. Line numbers are not cut to 32 bits.
use auto_review.Prelude.{
  ℕ, zero, suc, ◌+◌, ◌*◌, min, max, Bool, true, false, not, ◌&&◌, List, [], ◌∷◌, ◌++◌, Option, none,
  some, Result, ok, err, any, retain, length, ltb, leb, ◌==◌, if◌then◌else◌, is_empty,
}
use auto_review.Prelude.Text.{Text, codes, text_eq, starts_with}
use auto_review.Prelude.Keys.{member, text_key}
use auto_review.Prelude.Boundary.{byte_len, truncate_at}
use auto_review.Prelude.Search.{lines, join, show_nat}
pub mod Inside
pub mod Content
pub mod Hits

pub data IoError : Type 0 where
  missing : IoError
  other_io : Text → IoError

pub data FileKind : Type 0 where
  plain_file directory symlink other_kind : FileKind

abbrev pub FilePath : Type 0
FilePath = List Text

-- `none` where the kind of the entry cannot be read.
pub record DirEntry : Type 0 where
  pub name : Text
  pub kind : Option FileKind

pub record FileSystem : Type 0 where
  pub canonicalize : FilePath → Result IoError FilePath
  pub metadata_len : FilePath → Option ℕ
  pub read_to_string : FilePath → Result IoError Text
  pub is_file : FilePath → Bool
  pub is_dir : FilePath → Bool
  pub read_dir : FilePath → Option (List DirEntry)

pub data WorkspaceToolError : Type 0 where
  path_escape : Text → WorkspaceToolError
  not_found : Text → WorkspaceToolError
  bad_regex : Text → WorkspaceToolError
  io : IoError → WorkspaceToolError

push_component : ℕ → List Text → List Text
push_component c [] = (c ∷ []) ∷ []
push_component c (p ∷ ps) = (c ∷ p) ∷ ps

-- The parts between the slashes.
slash_parts : Text → List Text
unfolding push_component
slash_parts [] = [] ∷ []
slash_parts (c ∷ s) = elim (slash_parts s) [
  | [] ↦ []
  | p ∷ ps ↦ if c == b'/' then [] ∷ p ∷ ps else push_component c (p ∷ ps)
]

-- `Path::components` of a relative path, without the `CurDir` that a leading `.` gives.
unfoldable pub components : Text → List Text
unfolding slash_parts
components path = retain (λ p. not (is_empty p) && not (text_eq p (codes "."))) (slash_parts path)

-- `Path::starts_with`: by whole components.
unfoldable pub path_starts_with : FilePath → FilePath → Bool
path_starts_with [] p = true
path_starts_with (c ∷ root) [] = false
path_starts_with (c ∷ root) (d ∷ p) = text_eq c d && path_starts_with root p

-- `path.strip_prefix(root).unwrap_or(path)`
unfoldable pub relative_to : FilePath → FilePath → FilePath
relative_to root p = elim (strip root p) [ none ↦ p | some rest ↦ rest ]
  where
    strip : FilePath → FilePath → Option FilePath
    strip [] q = some q
    strip (c ∷ r) [] = none
    strip (c ∷ r) (d ∷ q) = if text_eq c d then strip r q else none

unfoldable pub io_or_not_found : Text → IoError → WorkspaceToolError
io_or_not_found rel_path missing = not_found rel_path
io_or_not_found rel_path (other_io e) = io (other_io e)

unfoldable pub inside :
    Text → FilePath → Result IoError FilePath → Result WorkspaceToolError FilePath
inside rel_path canonical_root (err e) = err (io_or_not_found rel_path e)
inside rel_path canonical_root (ok canonical) =
    if path_starts_with canonical_root canonical then ok canonical else err (path_escape rel_path)

unfoldable pub below_root :
    FileSystem → FilePath → Text → Result IoError FilePath → Result WorkspaceToolError FilePath
below_root fs root rel_path (err e) = err (io e)
below_root fs root rel_path (ok canonical_root) =
    inside rel_path canonical_root (fs.canonicalize (root ++ components rel_path))

unfoldable pub resolve_inside : FileSystem → FilePath → Text → Result WorkspaceToolError FilePath
resolve_inside fs root rel_path =
    if starts_with (codes "/") rel_path
    then err (path_escape rel_path)
    else if member (codes "..") (components rel_path)
    then err (path_escape rel_path)
    else below_root fs root rel_path (fs.canonicalize root)

abbrev pub scan_file_max_bytes : ℕ
scan_file_max_bytes = 1024 * 1024

unfoldable pub is_oversized : Option ℕ → Bool
is_oversized none = false
is_oversized (some len) = ltb scan_file_max_bytes len

pub record ReadResult : Type 0 where
  pub path : Text
  pub start_line : ℕ
  pub end_line : ℕ
  pub content : Text
  pub truncated : Bool

unfoldable pub line_range : Option ℕ → Option ℕ → ℕ → ℕ × ℕ
line_range (some s) (some e) total =
    if leb 1 s && leb s e then (s, min e (max total 1)) else (1, max total 1)
line_range _ _ total = (1, max total 1)

-- The loop over the lines; the number of the first one is given.
unfoldable pub lines_between : ℕ → ℕ → ℕ → List Text → Text
lines_between start end line_no [] = []
lines_between start end line_no (l ∷ ls) =
    let rest = lines_between start end (line_no + 1) ls in
    if ltb line_no start then rest else if ltb end line_no then [] else l ++ codes "\n" ++ rest

unfoldable pub cut_content : Text → ℕ → ℕ → Text → ℕ → ReadResult
cut_content rel_path start end content max_bytes = record {
  path = rel_path;
  start_line = start;
  end_line = end;
  content = if ltb max_bytes (byte_len content) then truncate_at content max_bytes else content;
  truncated = ltb max_bytes (byte_len content);
}

unfoldable pub on_content :
    Text → Option ℕ → Option ℕ → ℕ → Result IoError Text → Result WorkspaceToolError ReadResult
on_content rel_path start_line end_line max_bytes (err e) = err (io_or_not_found rel_path e)
on_content rel_path start_line end_line max_bytes (ok raw) =
    let (start, end) = line_range start_line end_line (length (lines raw)) in
    ok (cut_content rel_path start end (lines_between start end 1 (lines raw)) max_bytes)

unfoldable pub on_resolved :
    FileSystem
    → Text
    → Option ℕ
    → Option ℕ
    → ℕ
    → Result WorkspaceToolError FilePath
    → Result WorkspaceToolError ReadResult
on_resolved fs rel_path start_line end_line max_bytes (err e) = err e
on_resolved fs rel_path start_line end_line max_bytes (ok resolved) =
    if is_oversized (fs.metadata_len resolved)
    then err (
        not_found (
          rel_path
          ++ codes " (exceeds "
          ++ show_nat scan_file_max_bytes
          ++ codes " byte read cap)"))
    else on_content rel_path start_line end_line max_bytes (fs.read_to_string resolved)

unfoldable pub read_file :
    FileSystem → FilePath → Text → Option ℕ → Option ℕ → ℕ → Result WorkspaceToolError ReadResult
read_file fs root rel_path start_line end_line max_bytes =
    on_resolved fs rel_path start_line end_line max_bytes (resolve_inside fs root rel_path)

pub record SearchHit : Type 0 where
  pub path : Text
  pub line : ℕ
  pub line_text : Text

abbrev pub skipped_dirnames : List Text
skipped_dirnames =
    codes ".git"
    ∷ codes "target"
    ∷ codes "node_modules"
    ∷ codes "vendor"
    ∷ codes "third_party"
    ∷ codes "__pycache__"
    ∷ codes ".venv"
    ∷ codes "dist"
    ∷ codes "build"
    ∷ codes ".next"
    ∷ codes ".cache"
    ∷ []

unfoldable pub is_skipped_dirname : Text → Bool
is_skipped_dirname name = member name skipped_dirnames

abbrev pub walk_max_depth : ℕ
walk_max_depth = 64

module _ (fs : FileSystem) (root : FilePath) (is_match : Text → Bool) (max_hits : ℕ) where
  unfoldable pub scan_lines : Text → ℕ → List Text → List SearchHit → List SearchHit
  scan_lines rel n [] hits = hits
  scan_lines rel n (l ∷ ls) hits =
      let rest = scan_lines rel (n + 1) ls (
        if is_match l
        then hits ++ (record { path = rel; line = n; line_text = l }) ∷ []
        else hits) in
      if leb max_hits (length hits) then hits else rest

  unfoldable pub scan_content : FilePath → Result IoError Text → List SearchHit → List SearchHit
  scan_content path (err e) hits = hits
  scan_content path (ok content) hits =
      scan_lines (join (codes "/") (relative_to root path)) 1 (lines content) hits

  unfoldable pub scan_file : FilePath → List SearchHit → List SearchHit
  scan_file path hits =
      if leb max_hits (length hits)
      then hits
      else if is_oversized (fs.metadata_len path)
      then hits
      else scan_content path (fs.read_to_string path) hits

  unfoldable pub visit_kind :
      (FilePath → List SearchHit → List SearchHit)
      → FilePath
      → Option FileKind
      → List SearchHit
      → List SearchHit
  visit_kind descend path (some directory) hits = descend path hits
  visit_kind descend path (some plain_file) hits = scan_file path hits
  visit_kind descend path (some symlink) hits = hits
  visit_kind descend path (some other_kind) hits = hits
  visit_kind descend path none hits = hits

  unfoldable pub walk_entries :
      (FilePath → List SearchHit → List SearchHit)
      → FilePath
      → List DirEntry
      → List SearchHit
      → List SearchHit
  walk_entries descend dir [] hits = hits
  walk_entries descend dir (e ∷ es) hits =
      let rest = walk_entries descend dir es (
        if is_skipped_dirname e.name
        then hits
        else visit_kind descend (dir ++ e.name ∷ []) e.kind hits) in
      if leb max_hits (length hits) then hits else rest

  -- The depth that is left; a directory that cannot be read is skipped.
  unfoldable pub walk_dir_at_depth : ℕ → FilePath → List SearchHit → List SearchHit
  walk_dir_at_depth zero dir hits = hits
  walk_dir_at_depth (suc left) dir hits =
      let found : List SearchHit = elim (fs.read_dir dir) [
        | none ↦ hits
        | some entries ↦ walk_entries (walk_dir_at_depth left) dir entries hits
      ] in
      if leb max_hits (length hits) then hits else found

  unfoldable pub walk_dir : FilePath → List SearchHit → List SearchHit
  walk_dir dir hits = walk_dir_at_depth walk_max_depth dir hits

  unfoldable pub search_target :
      Text → Result WorkspaceToolError FilePath → Result WorkspaceToolError (List SearchHit)
  search_target rel_path (err e) = err e
  search_target rel_path (ok path) =
      if fs.is_file path
      then ok (scan_file path [])
      else if fs.is_dir path
      then ok (walk_dir path [])
      else err (not_found rel_path)

  unfoldable pub search_in : Option Text → Result WorkspaceToolError (List SearchHit)
  search_in (some rel_path) = search_target rel_path (resolve_inside fs root rel_path)
  search_in none = ok (walk_dir root [])

-- `compile` is `Regex::new`, with the message of its error.
unfoldable pub search :
    FileSystem
    → (Text → Result Text (Text → Bool))
    → FilePath
    → Text
    → Option Text
    → ℕ
    → Result WorkspaceToolError (List SearchHit)
search fs compile root pattern rel_path max_hits = elim (compile pattern) [
  | err e ↦ err (bad_regex (codes "/" ++ pattern ++ codes "/: " ++ e))
  | ok is_match ↦ search_in fs root is_match max_hits rel_path
]
