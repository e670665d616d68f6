-- ===== src/Chat/Fence/Closed.antt =====
-- crates/ar-chat/src/handler.rs: a fence is not closed by what stands in it.
use auto_review.Prelude.{
  ℕ, zero, suc, ◌+◌, ◌≤◌, ◌≡◌, refl, ◌⊎◌, inl, inr, [], ◌∷◌, ◌++◌, arith, Bool-cases, leb, ◌<◌,
}
use auto_review.Prelude.Text.{Text, codes}
use auto_review.Prelude.Boundary.{
  byte_len, byte_len-append, truncate_at, byte_len-truncate_at, len_utf8,
}
use auto_review.Chat.Fence.{truncate_with_marker}

-- That many backticks.
unfoldable pub fence_of : ℕ → Text
fence_of zero = []
fence_of (suc n) = 96 ∷ fence_of n

-- A new line starts behind the text.
abbrev pub IsAtLine : Text → Type 0
IsAtLine s = (s ≡ []) ⊎ ((t : Text) × (s ≡ t ++ codes "\n"))

-- A text that fits is not changed; any other is cut to the bound, and the marker is put behind it.
pub byte_len-truncate_with_marker :
    (text : Text) (n : ℕ) (marker : Text)
    → ((byte_len text ≤ n) × (truncate_with_marker text n marker ≡ text))
      ⊎ ((n < byte_len text)
          × (byte_len (truncate_with_marker text n marker) ≤ n + byte_len marker + 3))
unfolding truncate_with_marker
byte_len-truncate_with_marker text n marker = elim (Bool-cases (leb (byte_len text) n)) [
  | inl fits ↦ rw (fits, truncate_with_marker) (inl (ground arith, refl))
  | inr long ↦ rw (long, truncate_with_marker) (inr (ground arith, marked))
]
  where
    newline : byte_len (codes "\n") ≡ 1
    newline = unfold byte_len in unfold len_utf8 in refl

    newlines : byte_len (codes "\n\n") ≡ 2
    newlines = unfold byte_len in unfold len_utf8 in refl

    marked :
        byte_len (truncate_at text n ++ codes "\n\n" ++ marker ++ codes "\n")
        ≤ n + byte_len marker + 3
    marked = omega (
      arith,
      newline,
      newlines,
      byte_len-truncate_at text n,
      byte_len-append (truncate_at text n ++ codes "\n\n" ++ marker) (codes "\n"),
      byte_len-append (truncate_at text n ++ codes "\n\n") marker,
      byte_len-append (truncate_at text n) (codes "\n\n"),
    )
