-- ===== src/Review/Context/Capped.antt =====
-- crates/ar-review/src/context_builder.rs and crates/ar-index/src/embed.rs: what is stored is capped.
use auto_review.Prelude.{
  ℕ, ◌≤◌, ◌-◌, List, [], ◌∷◌, All, is_empty, arith, Result, ok, err, inl, inr, Bool-cases, map,
}
use auto_review.Prelude.Text.{Text}
use auto_review.Prelude.Boundary.{byte_len, byte_len-truncate_at}
use auto_review.Llm.{LlmError}
use auto_review.Index.Embed.{
  IndexedSymbol, EmbeddedSymbol, EmbedError, EmbedConfig, Contents, snippets_of,
  truncate_at_char_boundary, same_key, embed_symbols_with_config, embed_snippets, embedded,
  embed_batches, chunks_from, zip_embedded, upsert_one, upsert,
}
use auto_review.Review.Context.{
  Split, compute_snippets, split_cached, store_new, embed_missing, gather, embed_with_store,
}

-- A stored text is at most as long as the cap.
abbrev pub IsCapped : {V : Type 0} → ℕ → List (EmbeddedSymbol V) → Type 0
IsCapped cap store = All (λ e. byte_len e.content ≤ cap) store

byte_len-truncate_at_char_boundary :
    (s : Text) (cap : ℕ) → byte_len (truncate_at_char_boundary s cap) ≤ cap
unfolding truncate_at_char_boundary
byte_len-truncate_at_char_boundary s cap = ground (arith, byte_len-truncate_at s cap)

module _ {V : Type 0} (cap : ℕ) where
  upsert_one-IsCapped :
      (e : EmbeddedSymbol V) (store : List (EmbeddedSymbol V))
      → byte_len e.content ≤ cap
      → IsCapped cap store
      → IsCapped cap (upsert_one e store)
  unfolding upsert_one
  upsert_one-IsCapped e [] short capped = (short, capped)
  upsert_one-IsCapped e (s ∷ store) short capped =
      elim (Bool-cases (same_key s.indexed e.indexed)) [
        | inl same ↦ rw same (short, capped.1)
        | inr other ↦ rw other (capped.0, upsert_one-IsCapped e store short capped.1)
      ]

  upsert-IsCapped :
      (es store : List (EmbeddedSymbol V))
      → IsCapped cap es
      → IsCapped cap store
      → IsCapped cap (upsert es store)
  unfolding upsert
  upsert-IsCapped [] store new capped = capped
  upsert-IsCapped (e ∷ es) store new capped =
      upsert-IsCapped es (upsert_one e store) new.1 (upsert_one-IsCapped e store new.0 capped)

module _ {W V : Type 0} (embed : List Text → W → W × Result LlmError (List V))
    (config : EmbedConfig) where
  abbrev IsNewCapped : W × Result EmbedError (List (EmbeddedSymbol V)) → Type 0
  IsNewCapped (w, err e) = Unit
  IsNewCapped (w, ok es) = IsCapped config.input_cap_bytes es

  zip-IsCapped :
      (symbols : List IndexedSymbol) (snippets : List Text) (vectors : List V)
      → IsCapped config.input_cap_bytes (
          zip_embedded embed symbols
            (map (λ s. truncate_at_char_boundary s config.input_cap_bytes) snippets)
            vectors)
  unfolding zip_embedded
  zip-IsCapped (s ∷ symbols) (t ∷ ts) (v ∷ vs) =
      (byte_len-truncate_at_char_boundary t config.input_cap_bytes, zip-IsCapped symbols ts vs)
  zip-IsCapped [] ts vs = tt
  zip-IsCapped (s ∷ symbols) [] vs = tt
  zip-IsCapped (s ∷ symbols) (t ∷ ts) [] = tt

  embedded-IsNewCapped :
      (symbols : List IndexedSymbol) (snippets : List Text) (r : W × Result LlmError (List V))
      → IsNewCapped (
          embedded embed symbols
            (map (λ s. truncate_at_char_boundary s config.input_cap_bytes) snippets)
            r)
  unfolding embedded
  embedded-IsNewCapped symbols snippets (w, err e) = tt
  embedded-IsNewCapped symbols snippets (w, ok vectors) = zip-IsCapped symbols snippets vectors

  embed_snippets-IsNewCapped :
      (symbols : List IndexedSymbol) (r : Result EmbedError (List Text)) (w : W)
      → IsNewCapped (embed_snippets embed config symbols r w)
  unfolding embed_snippets
  embed_snippets-IsNewCapped symbols (err e) w = tt
  embed_snippets-IsNewCapped symbols (ok snippets) w = embedded-IsNewCapped symbols snippets (
      embed_batches embed
        (chunks_from (config.batch_size - 1) (config.batch_size - 1)
          (map (λ s. truncate_at_char_boundary s config.input_cap_bytes) snippets))
        w)

  embed_symbols-IsNewCapped :
      (symbols : List IndexedSymbol) (files : Contents) (w : W)
      → IsNewCapped (embed_symbols_with_config embed symbols files config w)
  unfolding embed_symbols_with_config
  embed_symbols-IsNewCapped [] files w = tt
  embed_symbols-IsNewCapped (s ∷ symbols) files w =
      embed_snippets-IsNewCapped (s ∷ symbols) (snippets_of files (s ∷ symbols)) w

  store_new-IsCapped :
      (store cached : List (EmbeddedSymbol V)) (r : W × Result EmbedError (List (EmbeddedSymbol V)))
      → IsNewCapped r
      → IsCapped config.input_cap_bytes store
      → IsCapped config.input_cap_bytes (store_new embed store cached r).1
  unfolding store_new
  store_new-IsCapped store cached (w, err e) new capped = capped
  store_new-IsCapped store cached (w, ok es) new capped =
      upsert-IsCapped config.input_cap_bytes es store new capped

  embed_missing-IsCapped :
      (files : Contents) (store : List (EmbeddedSymbol V)) (split : Split V) (w : W)
      → IsCapped config.input_cap_bytes store
      → IsCapped config.input_cap_bytes (embed_missing embed config files store split w).1
  unfolding embed_missing
  embed_missing-IsCapped files store split w capped = elim (Bool-cases (is_empty split.0)) [
    | inl none_missing ↦ rw none_missing capped
    | inr some_missing ↦ rw some_missing (
        store_new-IsCapped store split.1 (embed_symbols_with_config embed split.0 files config w)
          (embed_symbols-IsNewCapped split.0 files w) capped)
  ]

  gather-IsCapped :
      (files : Contents) (symbols : List IndexedSymbol) (r : Result EmbedError (List Text))
      (store : List (EmbeddedSymbol V)) (w : W)
      → IsCapped config.input_cap_bytes store
      → IsCapped config.input_cap_bytes (gather embed config files symbols r store w).1
  unfolding gather
  gather-IsCapped files symbols (err e) store w capped = capped
  gather-IsCapped files symbols (ok snippets) store w capped =
      embed_missing-IsCapped files store (split_cached store symbols snippets) w capped

  embed_with_store-IsCapped :
      (files : Contents) (symbols : List IndexedSymbol) (store : List (EmbeddedSymbol V)) (w : W)
      → IsCapped config.input_cap_bytes store
      → IsCapped config.input_cap_bytes (embed_with_store embed config files symbols store w).1
  unfolding embed_with_store
  embed_with_store-IsCapped files [] store w capped = capped
  embed_with_store-IsCapped files (s ∷ symbols) store w capped =
      gather-IsCapped files (s ∷ symbols) (compute_snippets (s ∷ symbols) files) store w capped

  -- Reviews one after the other, each of some symbols of some files, with one store.
  unfoldable pub after_reviews :
      List (Contents × List IndexedSymbol)
      → List (EmbeddedSymbol V)
      → W
      → W × List (EmbeddedSymbol V)
  after_reviews [] store w = (w, store)
  after_reviews (r ∷ reviews) store w =
      let g = embed_with_store embed config r.0 r.1 store w in after_reviews reviews g.1 g.0

  pub after_reviews-IsCapped :
      (reviews : List (Contents × List IndexedSymbol)) (store : List (EmbeddedSymbol V)) (w : W)
      → IsCapped config.input_cap_bytes store
      → IsCapped config.input_cap_bytes (after_reviews reviews store w).1
  unfolding after_reviews
  after_reviews-IsCapped [] store w capped = capped
  after_reviews-IsCapped (r ∷ reviews) store w capped =
      let g = embed_with_store embed config r.0 r.1 store w in
      after_reviews-IsCapped reviews g.1 g.0 (embed_with_store-IsCapped r.0 r.1 store w capped)
