-- ===== src/Tests/Review/Workspace.antt =====
-- crates/ar-review/src/workspace_tools.rs: its theorems at concrete inputs.
use auto_review.Prelude.{
  ℕ, arith, ◌≤◌, ◌≡◌, refl, true, false, Bool, [], ◌∷◌, ◌++◌, some, none, List, Result, ok, err,
  length, all, if◌then◌else◌,
}
use auto_review.Prelude.Text.{Text, codes, text_eq, starts_with}
use auto_review.Prelude.Boundary.{byte_len, len_utf8, truncate_at, is_char_boundary}
use auto_review.Prelude.Search.{lines, join}
use auto_review.Review.WorkspaceTools.{
  FilePath, FileSystem, IoError, missing, plain_file, ReadResult, SearchHit, line_range, read_file,
  search, components, path_starts_with, inside, below_root, resolve_inside, is_oversized,
  on_content, on_resolved, lines_between, cut_content, search_in, walk_dir, walk_dir_at_depth,
  walk_entries, visit_kind, is_skipped_dirname, scan_file, scan_content, scan_lines, relative_to,
}
use auto_review.Review.WorkspaceTools.Inside.{IsBelow, altered, read_file-same}
use auto_review.Review.WorkspaceTools.Content.{IsFile, IsRange, numbered, read_file-content}
use auto_review.Review.WorkspaceTools.Hits.{search-IsSound}

abbrev root : FilePath
root = codes "w" ∷ []

abbrev content : Text
content = codes "one\ntwo\nthree\n"

-- A workspace `/w` with one file, and a file outside of it.
abbrev fs : FileSystem
fs = record {
  canonicalize = λ p. ok p;
  metadata_len = λ p. some 14;
  read_to_string = λ p. ok content;
  is_file = λ p. false;
  is_dir = λ p. true;
  read_dir = λ p. some (record { name = codes "a.rs"; kind = some plain_file } ∷ []);
}

-- Outside of the workspace there is nothing to read.
unfoldable other_text : FilePath → Result IoError Text
other_text [] = err missing
other_text (c ∷ p) = if text_eq (codes "w") c then ok content else err missing

first_name :
    (c p : FilePath)
    → ◌≡◌ {A = Result IoError FilePath} (ok root) (ok c)
    → path_starts_with c p ≡ true
    → other_text p ≡ ok content
unfolding other_text path_starts_with
first_name c [] e below = let q : c ≡ root = cc in absurd (ground (arith, rw q at below))
first_name c (d ∷ p) e below = let q : c ≡ root = cc in ground (arith, rw q at below)

below_same :
    (p : FilePath)
    → IsBelow fs root p
    → (fs.metadata_len p ≡ fs.metadata_len p) × (other_text p ≡ fs.read_to_string p)
below_same p (c, e, below) = (refl, first_name c p e below)

read_file-same_example :
    read_file (altered fs root fs.metadata_len other_text) root (codes "a.rs") none none 100
    ≡ read_file fs root (codes "a.rs") none none 100
read_file-same_example =
    read_file-same fs root fs.metadata_len other_text (codes "a.rs") none none 100 below_same

abbrev found : ReadResult
found = record {
  path = codes "a.rs";
  start_line = 2;
  end_line = 3;
  content = codes "two\nth";
  truncated = true;
}

reads : read_file fs root (codes "a.rs") (some 2) (some 9) 6 ≡ ok found
unfolding read_file resolve_inside below_root inside on_resolved starts_with components text_eq
    path_starts_with is_oversized on_content cut_content line_range byte_len lines lines_between
    len_utf8 truncate_at is_char_boundary
reads = refl

read_file-content_example :
    (byte_len found.content ≤ 6)
    × ((p : FilePath) × (raw rest : Text) × (first last : ℕ) × IsFile fs root (codes "a.rs") p
        × IsBelow fs root p
        × (fs.read_to_string p ≡ ok raw)
        × IsRange (some 2) (some 9) (length (lines raw)) first last
        × (numbered first last 1 (lines raw) ≡ found.content ++ rest)
        × (found.truncated ≡ false → rest ≡ []))
read_file-content_example = read_file-content fs root (codes "a.rs") (some 2) (some 9) 6 found reads

abbrev compile : Text → Result Text (Text → Bool)
compile pattern = ok (starts_with pattern)

abbrev hits : List SearchHit
hits = record { path = codes "a.rs"; line = 2; line_text = codes "two" } ∷ []

searched : search fs compile root (codes "t") none 1 ≡ ok hits
unfolding search search_in walk_dir walk_dir_at_depth walk_entries is_skipped_dirname text_eq
    visit_kind scan_file is_oversized scan_content scan_lines lines starts_with join relative_to
searched = refl

search-IsSound_example :
    (is_match : Text → Bool) × (compile (codes "t") ≡ ok is_match)
    × (length hits ≤ 1)
    × (all (λ (h : SearchHit). is_match h.line_text) hits ≡ true)
search-IsSound_example = search-IsSound fs compile root (codes "t") none 1 hits searched
