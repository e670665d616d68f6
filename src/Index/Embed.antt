-- ===== src/Index/Embed.antt =====
-- crates/ar-index/src/embed.rs, vector_store.rs and walker.rs: symbols with the vectors of their
-- source texts, and the store in memory. A vector is of any type `V`; `W` is the state of the model.
use auto_review.Prelude.{
  ℕ, zero, suc, ◌-◌, ◌==◌, Bool, ◌&&◌, Option, none, some, List, [], ◌∷◌, ◌++◌, map, take, drop,
  length, ltb, leb, if◌then◌else◌, Result, ok, err,
}
use auto_review.Prelude.Text.{Text, text_eq}
use auto_review.Prelude.Search.{lines, join}
use auto_review.Prelude.Boundary.{byte_len, truncate_at}
use auto_review.Llm.{LlmError}

unfoldable pub truncate_at_char_boundary : Text → ℕ → Text
truncate_at_char_boundary s max_bytes =
    if leb (byte_len s) max_bytes then s else truncate_at s max_bytes

pub data SymbolKind : Type 0 where
  function struct enum trait impl module_item type_alias constant static_item macro : SymbolKind

-- With the lines of the symbol, from 1 on and both included.
pub record Symbol : Type 0 where
  pub kind : SymbolKind
  pub name : Text
  pub line_start : ℕ
  pub line_end : ℕ

pub record IndexedSymbol : Type 0 where
  pub path : Text
  pub symbol : Symbol

pub record EmbeddedSymbol (V : Type 0) : Type 0 where
  pub indexed : IndexedSymbol
  -- The text that was embedded.
  pub content : Text
  pub embedding : V

-- The errors of `EmbedError`, and the panic of a slice whose start is behind its end.
pub data EmbedError : Type 0 where
  llm : LlmError → EmbedError
  missing_file : Text → EmbedError
  out_of_range : Text → ℕ → EmbedError
  slice_panic : EmbedError

pub record EmbedConfig : Type 0 where
  pub input_cap_bytes : ℕ
  pub batch_size : ℕ

-- The contents of the files by their paths.
abbrev pub Contents : Type 0
Contents = List (Text × Text)

unfoldable pub content_of : Text → Contents → Option Text
content_of path [] = none
content_of path (f ∷ files) = if text_eq f.0 path then some f.1 else content_of path files

-- `lines[start..end].join("\n")` with its test.
unfoldable pub slice_lines : IndexedSymbol → List Text → Result EmbedError Text
slice_lines s all =
    if ltb (length all) s.symbol.line_end
    then err (out_of_range s.path s.symbol.line_end)
    else if ltb s.symbol.line_end (s.symbol.line_start - 1)
    then err slice_panic
    else ok (join (10 ∷ []) (drop (s.symbol.line_start - 1) (take s.symbol.line_end all)))

unfoldable pub snippet_for_symbol : Text → IndexedSymbol → Result EmbedError Text
snippet_for_symbol content s = slice_lines s (lines content)

unfoldable pub snippet_in : Option Text → IndexedSymbol → Result EmbedError Text
snippet_in none s = err (missing_file s.path)
snippet_in (some content) s = snippet_for_symbol content s

unfoldable pub push_snippet :
    Result EmbedError Text → Result EmbedError (List Text) → Result EmbedError (List Text)
push_snippet (err e) rest = err e
push_snippet (ok snippet) (err e) = err e
push_snippet (ok snippet) (ok snippets) = ok (snippet ∷ snippets)

-- The snippets of the symbols, or the first error.
unfoldable pub snippets_of : Contents → List IndexedSymbol → Result EmbedError (List Text)
snippets_of files [] = ok []
snippets_of files (s ∷ symbols) =
    push_snippet (snippet_in (content_of s.path files) s) (snippets_of files symbols)

-- `chunks(n + 1)`, with `room` more places in the first chunk behind the one that is taken.
unfoldable pub chunks_from : ℕ → ℕ → List Text → List (List Text)
chunks_from n room [] = []
chunks_from n zero (t ∷ ts) = (t ∷ []) ∷ chunks_from n n ts
chunks_from n (suc room) (t ∷ ts) = put (chunks_from n room ts)
  where
    put : List (List Text) → List (List Text)
    put [] = (t ∷ []) ∷ []
    put (c ∷ cs) = (t ∷ c) ∷ cs

unfoldable pub same_key : IndexedSymbol → IndexedSymbol → Bool
same_key a b =
    text_eq a.path b.path
    && (text_eq a.symbol.name b.symbol.name && (a.symbol.line_start == b.symbol.line_start))

-- `Router::embed` for the embedding tier is an argument.
module _ {W V : Type 0} (embed : List Text → W → W × Result LlmError (List V)) where
  unfoldable pub more_vectors : List V → W × Result LlmError (List V) → W × Result LlmError (List V)
  more_vectors vectors (w, err e) = (w, err e)
  more_vectors vectors (w, ok rest) = (w, ok (vectors ++ rest))

  -- A batch that fails ends the loop.
  unfoldable pub after_batch :
      W × Result LlmError (List V)
      → (W → W × Result LlmError (List V))
      → W × Result LlmError (List V)
  after_batch (w, err e) rest = (w, err e)
  after_batch (w, ok vectors) rest = more_vectors vectors (rest w)

  unfoldable pub embed_batches : List (List Text) → W → W × Result LlmError (List V)
  embed_batches [] w = (w, ok [])
  embed_batches (batch ∷ batches) w = after_batch (embed batch w) (embed_batches batches)

  -- `zip`, which ends with the shortest list.
  unfoldable pub zip_embedded : List IndexedSymbol → List Text → List V → List (EmbeddedSymbol V)
  zip_embedded (s ∷ symbols) (c ∷ contents) (v ∷ vectors) =
      record { indexed = s; content = c; embedding = v } ∷ zip_embedded symbols contents vectors
  zip_embedded _ _ _ = []

  unfoldable pub embedded :
      List IndexedSymbol
      → List Text
      → W × Result LlmError (List V)
      → W × Result EmbedError (List (EmbeddedSymbol V))
  embedded symbols contents (w, err e) = (w, err (llm e))
  embedded symbols contents (w, ok vectors) = (w, ok (zip_embedded symbols contents vectors))

  unfoldable pub embed_snippets :
      EmbedConfig
      → List IndexedSymbol
      → Result EmbedError (List Text)
      → W
      → W × Result EmbedError (List (EmbeddedSymbol V))
  embed_snippets config symbols (err e) w = (w, err e)
  embed_snippets config symbols (ok snippets) w =
      let contents = map (λ s. truncate_at_char_boundary s config.input_cap_bytes) snippets in
      embedded symbols contents
        (embed_batches (chunks_from (config.batch_size - 1) (config.batch_size - 1) contents) w)

  unfoldable pub embed_symbols_with_config :
      List IndexedSymbol
      → Contents
      → EmbedConfig
      → W
      → W × Result EmbedError (List (EmbeddedSymbol V))
  embed_symbols_with_config [] files config w = (w, ok [])
  embed_symbols_with_config symbols files config w =
      embed_snippets config symbols (snippets_of files symbols) w

-- `InMemoryVectorStore`
module _ {V : Type 0} where
  unfoldable pub upsert_one : EmbeddedSymbol V → List (EmbeddedSymbol V) → List (EmbeddedSymbol V)
  upsert_one e [] = e ∷ []
  upsert_one e (s ∷ store) =
      if same_key s.indexed e.indexed then e ∷ store else s ∷ upsert_one e store

  unfoldable pub upsert :
      List (EmbeddedSymbol V) → List (EmbeddedSymbol V) → List (EmbeddedSymbol V)
  upsert [] store = store
  upsert (e ∷ es) store = upsert es (upsert_one e store)

  -- `fetch_by_keys`, then `get` for one of the keys. Later rows of the same key would replace earlier
  -- ones, but `upsert` keeps one row for each key.
  unfoldable pub fetch_by_key : IndexedSymbol → List (EmbeddedSymbol V) → Option (EmbeddedSymbol V)
  fetch_by_key key [] = none
  fetch_by_key key (s ∷ store) = if same_key s.indexed key then some s else fetch_by_key key store
