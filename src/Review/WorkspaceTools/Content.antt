-- ===== src/Review/WorkspaceTools/Content.antt =====
-- crates/ar-review/src/workspace_tools.rs: what is read of a file.
use auto_review.Prelude.{
  ℕ, ◌⊎◌, min, max, none, some, ◌+◌, ◌≤◌, ◌<◌, ◌≡◌, refl, sym, append-nil, inl, inr, false, ◌&&◌,
  List, [], ◌∷◌, ◌++◌, Option, Result, ok, err, arith, ltb, leb, length, if◌then◌else◌, Bool-cases,
}
use auto_review.Prelude.Text.{Text, codes, starts_with}
use auto_review.Prelude.Keys.{member, text_key}
use auto_review.Prelude.Boundary.{byte_len, byte_len-truncate_at, truncate_at-IsPrefix}
use auto_review.Prelude.Search.{lines}
use auto_review.Review.WorkspaceTools.{
  FilePath, FileSystem, IoError, WorkspaceToolError, components, path_starts_with, inside,
  below_root, resolve_inside, is_oversized, ReadResult, line_range, lines_between, cut_content,
  on_content, on_resolved, read_file,
}
use auto_review.Review.WorkspaceTools.Inside.{IsBelow, resolve_inside-IsBelow}

-- The lines whose numbers lie in a range, each with a newline.
abbrev pub numbered : ℕ → ℕ → ℕ → List Text → Text
numbered start end n [] = []
numbered start end n (l ∷ ls) =
    (if leb start n && leb n end then l ++ codes "\n" else []) ++ numbered start end (n + 1) ls

numbered_past : (start end n : ℕ) (ls : List Text) → end < n → numbered start end n ls ≡ []
numbered_past start end n [] h = refl
numbered_past start end n (l ∷ ls) h = ground (arith, numbered_past start end (n + 1) ls)

lines_between-numbered :
    (start end n : ℕ) (ls : List Text) → lines_between start end n ls ≡ numbered start end n ls
unfolding lines_between
lines_between-numbered start end n [] = refl
lines_between-numbered start end n (l ∷ ls) =
    ground (arith, lines_between-numbered start end (n + 1) ls, numbered_past start end (n + 1) ls)

on_content-ok :
    (rel_path : Text) (start end : Option ℕ) (max_bytes : ℕ) (r : Result IoError Text)
    (res : ReadResult)
    → on_content rel_path start end max_bytes r ≡ ok res
    → (raw : Text) × (r ≡ ok raw)
      × (let range = line_range start end (length (lines raw)) in
          cut_content rel_path range.0 range.1 (numbered range.0 range.1 1 (lines raw)) max_bytes
          ≡ res)
unfolding on_content
on_content-ok rel_path start end max_bytes (err e) res h = absurd (ground arith)
on_content-ok rel_path start end max_bytes (ok raw) res h =
    let (s, e) = line_range start end (length (lines raw)) in
    (raw, refl, rw (← lines_between-numbered s e 1 (lines raw)) (ok_eq h))
  where
    ok_eq :
        {a b : ReadResult} → ◌≡◌ {A = Result WorkspaceToolError ReadResult} (ok a) (ok b) → a ≡ b
    ok_eq q = cc

-- The lines that are read of so many: those from the start to the end that are asked for, as far as
-- there are any, or all lines if one of the two is missing or they are out of order.
abbrev pub IsRange : Option ℕ → Option ℕ → ℕ → ℕ → ℕ → Type 0
IsRange (some s) (some e) total first last =
    ((1 ≤ s) × (s ≤ e) × (first ≡ s) × (last ≡ min e (max total 1)))
    ⊎ (((s < 1) ⊎ (e < s)) × (first ≡ 1) × (last ≡ max total 1))
IsRange _ _ total first last = (first ≡ 1) × (last ≡ max total 1)

line_range-IsRange :
    (start end : Option ℕ) (total : ℕ)
    → IsRange start end total (line_range start end total).0 (line_range start end total).1
unfolding line_range
line_range-IsRange none end total = (refl, refl)
line_range-IsRange (some s) none total = (refl, refl)
line_range-IsRange (some s) (some e) total = elim (Bool-cases (leb 1 s)) [
  | inr low ↦ rw low (inr (inl (ground arith), refl, refl))
  | inl first ↦ elim (Bool-cases (leb s e)) [
    | inl ordered ↦ rw (first, ordered) (inl (ground arith, ground arith, refl, refl))
    | inr reversed ↦ rw (first, reversed) (inr (inr (ground arith), refl, refl))
  ]
]

cut_content_lem :
    (rel_path : Text) (start end : ℕ) (content : Text) (max_bytes : ℕ)
    → (byte_len (cut_content rel_path start end content max_bytes).content ≤ max_bytes)
      × ((rest : Text) × (content
            ≡ (cut_content rel_path start end content max_bytes).content ++ rest)
          × (((cut_content rel_path start end content max_bytes).truncated ≡ false) → rest ≡ []))
unfolding cut_content
cut_content_lem rel_path start end content max_bytes =
    elim (Bool-cases (ltb max_bytes (byte_len content))) [
      | inr fits ↦ rw fits (ground arith, ([], sym (append-nil content), λ e. refl))
      | inl long ↦
          let (rest, e) = truncate_at-IsPrefix content max_bytes in
          rw long (byte_len-truncate_at content max_bytes, (rest, e, λ q. cc))
    ]

module _ (fs : FileSystem) (root : FilePath) where
  on_resolved-ok :
      (rel_path : Text) (start end : Option ℕ) (max_bytes : ℕ)
      (r : Result WorkspaceToolError FilePath) (res : ReadResult)
      → on_resolved fs rel_path start end max_bytes r ≡ ok res
      → (p : FilePath) × (r ≡ ok p)
        × (on_content rel_path start end max_bytes (fs.read_to_string p) ≡ ok res)
  unfolding on_resolved
  on_resolved-ok rel_path start end max_bytes (err e) res h = absurd (ground arith)
  on_resolved-ok rel_path start end max_bytes (ok p) res h =
      elim (Bool-cases (is_oversized (fs.metadata_len p))) [
        | inl large ↦ absurd (ground (arith, rw (large, on_resolved) at h))
        | inr fits ↦ (p, refl, rw (fits, on_resolved) at h)
      ]

  -- The file that the relative path leads to from the workspace, symbolic links followed.
  abbrev pub IsFile : Text → FilePath → Type 0
  IsFile rel_path p = fs.canonicalize (root ++ components rel_path) ≡ ok p

  inside-same :
      (rel_path : Text) (c p : FilePath) (r : Result IoError FilePath)
      → inside rel_path c r ≡ ok p
      → r ≡ ok p
  unfolding inside
  inside-same rel_path c p (err e) h = cc
  inside-same rel_path c p (ok q) h = elim (Bool-cases (path_starts_with c q)) [
    | inl below ↦
        let h' : ◌≡◌ {A = Result WorkspaceToolError FilePath} (ok q) (ok p) =
          rw (below, inside) at h in
        cc
    | inr above ↦ cc (rw (above, inside) at h)
  ]

  below_root-IsFile :
      (rel_path : Text) (p : FilePath) (r : Result IoError FilePath)
      → below_root fs root rel_path r ≡ ok p
      → IsFile rel_path p
  unfolding below_root
  below_root-IsFile rel_path p (err e) h = absurd (ground arith)
  below_root-IsFile rel_path p (ok c) h =
      inside-same rel_path c p (fs.canonicalize (root ++ components rel_path)) h

  resolve_inside-IsFile :
      (rel_path : Text) (p : FilePath) → resolve_inside fs root rel_path ≡ ok p → IsFile rel_path p
  unfolding resolve_inside
  resolve_inside-IsFile rel_path p h = elim (Bool-cases (starts_with (codes "/") rel_path)) [
    | inl absolute ↦ absurd (ground (arith, rw (absolute, resolve_inside) at h))
    | inr relative ↦ elim (Bool-cases (member (codes "..") (components rel_path))) [
      | inl parent ↦ absurd (ground (arith, rw (relative, parent, resolve_inside) at h))
      | inr plain ↦
          below_root-IsFile rel_path p (fs.canonicalize root)
            (rw (relative, plain, resolve_inside) at h)
    ]
  ]

  -- What `read_file` gives has at most the bytes that were asked for and is the beginning of lines
  -- of the file that the path leads to, each with a newline, and that file is below the workspace.
  -- The lines are those from the start to the end that are asked for, or all lines if these are not
  -- both given and in order; it is all of them unless it is marked as truncated.
  pub read_file-content :
      (rel_path : Text) (start end : Option ℕ) (max_bytes : ℕ) (res : ReadResult)
      → read_file fs root rel_path start end max_bytes ≡ ok res
      → (byte_len res.content ≤ max_bytes)
        × ((p : FilePath) × (raw rest : Text) × (first last : ℕ) × IsFile rel_path p
            × IsBelow fs root p
            × (fs.read_to_string p ≡ ok raw)
            × IsRange start end (length (lines raw)) first last
            × (numbered first last 1 (lines raw) ≡ res.content ++ rest)
            × (res.truncated ≡ false → rest ≡ []))
  unfolding read_file
  read_file-content rel_path start end max_bytes res h =
      let (p, resolved, read) =
        on_resolved-ok rel_path start end max_bytes (resolve_inside fs root rel_path) res h in
      let (raw, text, cut) =
        on_content-ok rel_path start end max_bytes (fs.read_to_string p) res read in
      let s = (line_range start end (length (lines raw))).0 in
      let e = (line_range start end (length (lines raw))).1 in
      let (bound, (rest, whole, all_of_it)) =
        cut_content_lem rel_path s e (numbered s e 1 (lines raw)) max_bytes in
      rw (← cut) (
        bound,
        (
          p,
          raw,
          rest,
          s,
          e,
          resolve_inside-IsFile rel_path p resolved,
          resolve_inside-IsBelow fs root rel_path p resolved,
          text,
          line_range-IsRange start end (length (lines raw)),
          whole,
          all_of_it,
        ),
      )
