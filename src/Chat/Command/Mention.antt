-- ===== src/Chat/Command/Mention.antt =====
-- crates/ar-chat/src/command.rs: which lines of a comment address the bot.
use auto_review.Prelude.{
  ◌≡◌, refl, ◌≢◌, inl, inr, Bool, true, false, List, [], ◌∷◌, ◌++◌, Option, none, some, arith,
  Option-cases, any, ◌||◌, sym, ◌∙◌, is_empty, if◌then◌else◌,
}
use auto_review.Prelude.Text.{
  Text, trim, to_ascii_lowercase, is_whitespace, trim_end, trim_start_matches, trim_start, codes,
  starts_with,
}
use auto_review.Prelude.Search.{lines, join}
use auto_review.Chat.Command.{
  parse_review_correction, prose, compatibility_mention, parse_chat_command, not_mentioned,
  parse_lines, classify, classify_word, split_word, strip_any, ends_mention, is_separator,
}

-- The line begins with a mention that nothing but whitespace or a separator follows.
abbrev pub addresses : Text → Option Text → Text → Bool
addresses mention alias line = elim (strip_any (trim line) mention alias) [
  | none ↦ false
  | some after ↦ ends_mention after
]

classify_word-mentioned : (rest head tail : Text) → classify_word rest head tail ≢ not_mentioned
unfolding classify_word
classify_word-mentioned rest head tail h = ground arith

classify-mentioned : (rest : Text) → classify rest ≢ not_mentioned
unfolding classify
classify-mentioned rest h = ground (
  arith,
  classify_word-mentioned rest (to_ascii_lowercase (split_word rest).0) (trim (split_word rest).1),
)

parse_step :
    (line : Text) (rest : List Text) (mention : Text) (alias : Option Text)
    → addresses mention alias line ≡ false
    → parse_lines (line ∷ rest) mention alias ≡ parse_lines rest mention alias
unfolding parse_lines
parse_step line rest mention alias h = ground arith

parse_hit :
    (line : Text) (rest : List Text) (mention : Text) (alias : Option Text)
    → addresses mention alias line ≡ true
    → (tail : Text) × (parse_lines (line ∷ rest) mention alias ≡ classify tail)
      × (parse_lines (line ∷ []) mention alias ≡ classify tail)
unfolding parse_lines
parse_hit line rest mention alias h = elim (Option-cases (strip_any (trim line) mention alias)) [
  | inl e ↦ absurd (ground arith)
  | inr (after, e) ↦ (
    trim_end (trim_start_matches (λ c. is_whitespace c || is_separator c) after),
    ground arith,
    ground arith,
  )
]

-- A comment is read by the first line that addresses the bot: the lines above it and below it
-- change nothing, and it is never taken for a comment that does not mention the bot. Lines of
-- which none addresses the bot are.
parse_lines-addresses :
    (above : List Text) (line : Text) (below : List Text) (mention : Text) (alias : Option Text)
    → any (addresses mention alias) above ≡ false
    → addresses mention alias line ≡ true
    → (parse_lines (above ++ line ∷ below) mention alias ≡ parse_lines (line ∷ []) mention alias)
      × (parse_lines (above ++ line ∷ below) mention alias ≢ not_mentioned)
      × (parse_lines above mention alias ≡ not_mentioned)
parse_lines-addresses [] line below mention alias h hit =
    let (tail, e, e') = parse_hit line below mention alias hit in
    (e ∙ sym e', rw e (classify-mentioned tail), unfold parse_lines in refl)
parse_lines-addresses (x ∷ above) line below mention alias h hit =
    let (first, found, other) =
      parse_lines-addresses above line below mention alias (ground arith) hit in
    let skip = parse_step x (above ++ line ∷ below) mention alias (ground arith) in
    let skip' = parse_step x above mention alias (ground arith) in
    (rw skip first, rw skip found, skip' ∙ other)

-- The comment begins with the line that the forge puts above a quotation of the bot.
abbrev pub begins_quote : Text → Option Text → List Text → Bool
begins_quote mention alias [] = false
begins_quote mention alias (line ∷ rest) = elim (strip_any (trim line) mention alias) [
  | none ↦ false
  | some after ↦ starts_with (codes "wrote in ") (trim_start after)
]

parse_review_correction-none :
    (body mention : Text) (alias : Option Text)
    → begins_quote mention alias (lines body) ≡ false
    → parse_review_correction body mention alias ≡ none
unfolding parse_review_correction
parse_review_correction-none body mention alias h = first_line (lines body) h
  where
    first_line :
        (ls : List Text)
        → begins_quote mention alias ls ≡ false
        → elim ls [
          | [] ↦ none
          | first ∷ rest ↦ elim (strip_any (trim first) mention alias) [
            | none ↦ none
            | some after ↦
                if starts_with (codes "wrote in ") (trim_start after)
                then (let correction = join (10 ∷ []) (prose rest) in
                    if is_empty correction then none else some correction)
                else none
          ]
        ]
          ≡ none
    first_line [] q = refl
    first_line (l ∷ ls) q = ground arith

-- A comment that does not begin with the line above a quotation is read by its first line that
-- addresses the bot: the lines above it and below it change nothing, and it is never taken for one
-- that does not mention the bot.
pub parse_chat_command-addresses :
    (body bot_name : Text) (above : List Text) (line : Text) (below : List Text)
    → lines body ≡ above ++ line ∷ below
    → begins_quote (b'@' ∷ bot_name) (compatibility_mention bot_name) (lines body) ≡ false
    → any (addresses (b'@' ∷ bot_name) (compatibility_mention bot_name)) above ≡ false
    → addresses (b'@' ∷ bot_name) (compatibility_mention bot_name) line ≡ true
    → (parse_chat_command body bot_name
        ≡ parse_lines (line ∷ []) (b'@' ∷ bot_name) (compatibility_mention bot_name))
      × (parse_chat_command body bot_name ≢ not_mentioned)
unfolding parse_chat_command
parse_chat_command-addresses body bot_name above line below split prose_only skipped hit =
    let mention = b'@' ∷ bot_name in
    let alias = compatibility_mention bot_name in
    let (same, told, _) = parse_lines-addresses above line below mention alias skipped hit in
    let plain = parse_review_correction-none body mention alias prose_only in
    rw (plain, split, parse_chat_command) (same, told)
