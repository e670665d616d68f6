-- ===== src/Review/WorkspaceTools/Inside.antt =====
-- crates/ar-review/src/workspace_tools.rs: from where a file is read.
use auto_review.Prelude.{
  ℕ, ◌≡◌, refl, inl, inr, true, ◌++◌, Option, Result, ok, err, arith, Bool-cases,
}
use auto_review.Prelude.Text.{Text, codes, starts_with}
use auto_review.Prelude.Keys.{member, text_key}
use auto_review.Review.WorkspaceTools.{
  FilePath, FileSystem, IoError, WorkspaceToolError, components, path_starts_with, inside,
  below_root, resolve_inside, on_resolved, read_file,
}

module _ (fs : FileSystem) (root : FilePath) where
  -- A path below the workspace, after symbolic links are followed.
  abbrev pub IsBelow : FilePath → Type 0
  IsBelow p = (c : FilePath) × (fs.canonicalize root ≡ ok c) × (path_starts_with c p ≡ true)

  inside-IsBelow :
      (rel_path : Text) (c p : FilePath) (r : Result IoError FilePath)
      → inside rel_path c r ≡ ok p
      → path_starts_with c p ≡ true
  unfolding inside
  inside-IsBelow rel_path c p (err e) h = cc
  inside-IsBelow rel_path c p (ok q) h = elim (Bool-cases (path_starts_with c q)) [
    | inl below ↦ ground (arith, below, rw (below, inside) at h)
    | inr above ↦ cc (rw (above, inside) at h)
  ]

  below_root-IsBelow :
      (rel_path : Text) (p : FilePath) (r : Result IoError FilePath)
      → below_root fs root rel_path r ≡ ok p
      → (c : FilePath) × (r ≡ ok c) × (path_starts_with c p ≡ true)
  unfolding below_root
  below_root-IsBelow rel_path p (err e) h = absurd (ground arith)
  below_root-IsBelow rel_path p (ok c) h =
      (c, refl, inside-IsBelow rel_path c p (fs.canonicalize (root ++ components rel_path)) h)

  pub resolve_inside-IsBelow :
      (rel_path : Text) (p : FilePath) → resolve_inside fs root rel_path ≡ ok p → IsBelow p
  unfolding resolve_inside
  resolve_inside-IsBelow rel_path p h = elim (Bool-cases (starts_with (codes "/") rel_path)) [
    | inl absolute ↦ absurd (ground (arith, rw (absolute, resolve_inside) at h))
    | inr relative ↦ elim (Bool-cases (member (codes "..") (components rel_path))) [
      | inl parent ↦ absurd (ground (arith, rw (relative, parent, resolve_inside) at h))
      | inr plain ↦
          below_root-IsBelow rel_path p (fs.canonicalize root)
            (rw (relative, plain, resolve_inside) at h)
    ]
  ]

module _ (fs : FileSystem) (root : FilePath) (len : FilePath → Option ℕ)
    (read : FilePath → Result IoError Text) where
  -- The file system with other files.
  abbrev pub altered : FileSystem
  altered = record fs { metadata_len = len; read_to_string = read }

  on_resolved-same :
      (rel_path : Text) (start end : Option ℕ) (max_bytes : ℕ)
      (r : Result WorkspaceToolError FilePath)
      → ((p : FilePath) → r ≡ ok p → (len p ≡ fs.metadata_len p) × (read p ≡ fs.read_to_string p))
      → on_resolved altered rel_path start end max_bytes r
        ≡ on_resolved fs rel_path start end max_bytes r
  unfolding on_resolved
  on_resolved-same rel_path start end max_bytes (err e) same = refl
  on_resolved-same rel_path start end max_bytes (ok p) same =
      let (same_len, same_text) = same p refl in rw (same_len, same_text) refl

  -- The answer of `read_file` depends on no file outside the workspace: two file systems that
  -- resolve paths alike and agree on the files below the canonical root give the same answer, for
  -- every path that is asked for.
  pub read_file-same :
      (rel_path : Text) (start end : Option ℕ) (max_bytes : ℕ)
      → ((p : FilePath)
          → IsBelow fs root p
          → (len p ≡ fs.metadata_len p) × (read p ≡ fs.read_to_string p))
      → read_file altered root rel_path start end max_bytes
        ≡ read_file fs root rel_path start end max_bytes
  unfolding read_file resolve_inside below_root
  read_file-same rel_path start end max_bytes same =
      on_resolved-same rel_path start end max_bytes (resolve_inside fs root rel_path)
        (λ p e. same p (resolve_inside-IsBelow fs root rel_path p e))
