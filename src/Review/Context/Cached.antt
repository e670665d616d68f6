-- ===== src/Review/Context/Cached.antt =====
-- crates/ar-review/src/context_builder.rs: what the shared store gives and what is embedded again.
use auto_review.Prelude.{ℕ, ◌≤◌, ◌⊎◌, ◌≡◌, ◌≢◌, true, List, [], ◌∷◌, none, some}
use auto_review.Prelude.Text.{Text}
use auto_review.Prelude.Boundary.{byte_len}
use auto_review.Index.Embed.{
  IndexedSymbol, EmbeddedSymbol, truncate_at_char_boundary, same_key, fetch_by_key,
}
use auto_review.Review.Context.{Split}

-- The symbols with their texts, those that are embedded, and the stored entries that are taken.
-- A symbol is taken with an entry of its key and its text, which embedding it anew would send; it
-- is embedded if the entry of its key has another text or there is none.
pub data Splits {V : Type 0} (cap : ℕ) (store : List (EmbeddedSymbol V))
    : List IndexedSymbol → List Text → List IndexedSymbol → List (EmbeddedSymbol V) → Type 0 where
  done : Splits cap store [] [] [] []
  embed_anew :
      (s : IndexedSymbol) (snippet : Text) (symbols : List IndexedSymbol) (snippets : List Text)
      (to_embed : List IndexedSymbol) (taken : List (EmbeddedSymbol V))
      → (fetch_by_key s store ≡ none)
        ⊎ ((e : EmbeddedSymbol V) × (fetch_by_key s store ≡ some e) × (e.content ≢ snippet))
      → Splits cap store symbols snippets to_embed taken
      → Splits cap store (s ∷ symbols) (snippet ∷ snippets) (s ∷ to_embed) taken
  take_stored :
      (s : IndexedSymbol) (snippet : Text) (e : EmbeddedSymbol V) (symbols : List IndexedSymbol)
      (snippets : List Text) (to_embed : List IndexedSymbol) (taken : List (EmbeddedSymbol V))
      → same_key e.indexed s ≡ true
      → byte_len snippet ≤ cap
      → e.content ≡ truncate_at_char_boundary snippet cap
      → Splits cap store symbols snippets to_embed taken
      → Splits cap store (s ∷ symbols) (snippet ∷ snippets) to_embed (e ∷ taken)

module _ {V : Type 0} (cap : ℕ) (store : List (EmbeddedSymbol V)) where
  abbrev IsSplit : List IndexedSymbol → List Text → Split V → Type 0
  IsSplit symbols snippets split = Splits cap store symbols snippets split.0 split.1
