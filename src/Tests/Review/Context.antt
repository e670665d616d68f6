-- ===== src/Tests/Review/Context.antt =====
-- crates/ar-review/src/context_builder.rs: two reviews of a file with a short and a long symbol.
use auto_review.Prelude.{ℕ, suc, List, [], ◌∷◌, length, map, Result, ok}
use auto_review.Prelude.Text.{Text, codes}
use auto_review.Llm.{LlmError}
use auto_review.Index.Embed.{function, IndexedSymbol, EmbedConfig, Contents}

-- A vector is the length of the text, and the model counts its calls.
abbrev embed : List Text → ℕ → ℕ × Result LlmError (List ℕ)
embed texts calls = (suc calls, ok (map length texts))

abbrev config : EmbedConfig
config = record { input_cap_bytes = 4; batch_size = 1 }

abbrev files : Contents
files = (codes "a.rs", codes "fn a\nfn long\n") ∷ []

abbrev symbol_at : Text → ℕ → IndexedSymbol
symbol_at name line = record {
  path = codes "a.rs";
  symbol = record { kind = function; name = name; line_start = line; line_end = line };
}

abbrev symbols : List IndexedSymbol
symbols = symbol_at (codes "a") 1 ∷ symbol_at (codes "long") 2 ∷ []

abbrev snippets : List Text
snippets = codes "fn a" ∷ codes "fn long" ∷ []
