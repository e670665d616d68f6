-- ===== src/Review/Context.antt =====
-- crates/ar-review/src/context_builder.rs: the symbols that are compared with a diff, from the shared
-- store where it has them and embedded anew where not. The store is the one in memory. How near each
-- is to the diff is computed in floating point and not modelled. Every error here is an `EmbedError`,
-- which `ContextBuildError::Embed` only wraps: the store in memory does not fail.
use auto_review.Prelude.{
  List, [], ◌∷◌, ◌++◌, Option, none, some, if◌then◌else◌, Result, ok, err, is_empty,
}
use auto_review.Prelude.Text.{Text, text_eq}
use auto_review.Llm.{LlmError}
use auto_review.Index.Embed.{
  IndexedSymbol, EmbeddedSymbol, EmbedError, EmbedConfig, Contents, snippets_of,
  embed_symbols_with_config, upsert, fetch_by_key,
}
pub mod Capped
pub mod Cached

unfoldable pub compute_snippets : List IndexedSymbol → Contents → Result EmbedError (List Text)
compute_snippets symbols files = snippets_of files symbols

-- The symbols to embed, and the stored ones to take.
abbrev pub Split : Type 0 → Type 0
Split V = List IndexedSymbol × List (EmbeddedSymbol V)

-- The model, the store and the symbols to compare.
abbrev pub Gathered : Type 0 → Type 0 → Type 0
Gathered W V = W × List (EmbeddedSymbol V) × Result EmbedError (List (EmbeddedSymbol V))

module _ {V : Type 0} where
  unfoldable pub add_symbol : IndexedSymbol → Text → Option (EmbeddedSymbol V) → Split V → Split V
  add_symbol s snippet none rest = (s ∷ rest.0, rest.1)
  add_symbol s snippet (some previous) rest =
      if text_eq previous.content snippet then (rest.0, previous ∷ rest.1) else (s ∷ rest.0, rest.1)

  unfoldable pub split_cached : List (EmbeddedSymbol V) → List IndexedSymbol → List Text → Split V
  split_cached store (s ∷ symbols) (snippet ∷ snippets) =
      add_symbol s snippet (fetch_by_key s store) (split_cached store symbols snippets)
  split_cached store _ _ = ([], [])

module _ {W V : Type 0} (embed : List Text → W → W × Result LlmError (List V)) where
  unfoldable pub store_new :
      List (EmbeddedSymbol V)
      → List (EmbeddedSymbol V)
      → W × Result EmbedError (List (EmbeddedSymbol V))
      → Gathered W V
  store_new store cached (w, err e) = (w, store, err e)
  store_new store cached (w, ok new) = (w, upsert new store, ok (cached ++ new))

  unfoldable pub embed_missing :
      EmbedConfig → Contents → List (EmbeddedSymbol V) → Split V → W → Gathered W V
  embed_missing config files store split w =
      if is_empty split.0
      then (w, store, ok split.1)
      else store_new store split.1 (embed_symbols_with_config embed split.0 files config w)

  unfoldable pub gather :
      EmbedConfig
      → Contents
      → List IndexedSymbol
      → Result EmbedError (List Text)
      → List (EmbeddedSymbol V)
      → W
      → Gathered W V
  gather config files symbols (err e) store w = (w, store, err e)
  gather config files symbols (ok snippets) store w =
      embed_missing config files store (split_cached store symbols snippets) w

  -- `embed_and_query_symbols` with a shared store, up to the comparison with the diff.
  unfoldable pub embed_with_store :
      EmbedConfig → Contents → List IndexedSymbol → List (EmbeddedSymbol V) → W → Gathered W V
  embed_with_store config files [] store w = (w, store, ok [])
  embed_with_store config files symbols store w =
      gather config files symbols (compute_snippets symbols files) store w
