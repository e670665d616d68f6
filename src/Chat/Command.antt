-- ===== src/Chat/Command.antt =====
-- crates/ar-chat/src/command.rs: the parser of `@auto-review <command>` mentions.
pub mod Mention
pub mod Forget
use auto_review.Prelude.{
  ℕ, zero, suc, ◌+◌, ◌-◌, ◌*◌, ◌^◌, Bool, true, false, not, ◌&&◌, ◌||◌, Option, none, some, List,
  [], ◌∷◌, ltb, leb, ◌==◌, if◌then◌else◌, is_empty, is_some,
}
use auto_review.Prelude.Text.{
  Text, codes, text_eq, lower, to_ascii_lowercase, is_whitespace, trim, trim_start, trim_end,
  trim_start_matches, starts_with,
}
use auto_review.Prelude.Search.{lines, join}

pub data ChatCommand : Type 0 where
  remember : Text → ChatCommand
  forget : ℕ → ChatCommand
  re_review : ChatCommand
  review_correction : Text → ChatCommand
  autofix docstrings test_scaffolds help : ChatCommand
  freeform : Text → ChatCommand
  not_mentioned : ChatCommand

unfoldable pub is_separator : ℕ → Bool
is_separator c = c == b':' || c == b',' || c == b'!' || c == b'?' || c == b'.'

-- The prefix test ignores ASCII case, byte by byte in the source; equal UTF-8 prefixes are equal
-- prefixes of scalar values.
unfoldable pub strip_mention : Text → Text → Option Text
unfolding lower
strip_mention line [] = some line
strip_mention [] (m ∷ mention) = none
strip_mention (c ∷ line) (m ∷ mention) =
    if lower c == lower m then strip_mention line mention else none

-- `splitn(2, char::is_whitespace)`: the head, and the tail if there is whitespace.
unfoldable pub split_word : Text → Text × Text
unfolding is_whitespace
split_word [] = ([], [])
split_word (c ∷ s) =
    let (w, rest) = split_word s in if is_whitespace c then ([], s) else (c ∷ w, rest)

unfoldable pub digits_u64 : ℕ → Text → Option ℕ
digits_u64 n [] = some n
digits_u64 n (c ∷ s) =
    let n' = n * 10 + (c - b'0') in
    let rest = digits_u64 n' s in if leb b'0' c && leb c b'9' && ltb n' (2 ^ 64) then rest else none

-- `str::parse::<u64>()`: an optional `+`, at least one digit, no overflow.
unfoldable pub parse_u64 : Text → Option ℕ
unfolding digits_u64
parse_u64 [] = none
parse_u64 (c ∷ []) = if c == b'+' then none else digits_u64 0 (c ∷ [])
parse_u64 (c ∷ d ∷ s) = if c == b'+' then digits_u64 0 (d ∷ s) else digits_u64 0 (c ∷ d ∷ s)

one_of : Text → List Text → Bool
one_of head [] = false
one_of head (w ∷ ws) = text_eq head w || one_of head ws

-- The `match` on the lowercased head word.
unfoldable pub classify_word : Text → Text → Text → ChatCommand
unfolding text_eq one_of
classify_word rest head tail =
    if text_eq head (codes "remember")
    then (if is_empty tail then help else remember tail)
    else if text_eq head (codes "forget")
    then elim (parse_u64 tail) [ some id ↦ forget id | none ↦ help ]
    else if one_of head
        (codes "re-review" ∷ codes "rereview" ∷ codes "review-again" ∷ codes "review_again" ∷ [])
    then re_review
    else if one_of head (codes "autofix" ∷ codes "auto-fix" ∷ codes "fix" ∷ [])
    then autofix
    else if one_of head (codes "docstring" ∷ codes "docstrings" ∷ codes "docs" ∷ [])
    then docstrings
    else if one_of head
        (codes "tests" ∷ codes "test" ∷ codes "unit-tests" ∷ codes "scaffold-tests" ∷ [])
    then test_scaffolds
    else if one_of head (codes "help" ∷ codes "?" ∷ codes "--help" ∷ codes "-h" ∷ [])
    then help
    else freeform rest

unfoldable pub classify : Text → ChatCommand
unfolding classify_word split_word to_ascii_lowercase
classify rest =
    if is_empty rest
    then help
    else let (head, tail) = split_word rest in
      classify_word rest (to_ascii_lowercase head) (trim tail)

unfoldable pub alternative : Option Text → Option Text → Option Text
alternative (some a) other = some a
alternative none other = other

-- `strip_mention` by the mention, or else by the alias if there is one.
unfoldable pub strip_any : Text → Text → Option Text → Option Text
unfolding alternative
strip_any line mention alias =
    alternative (strip_mention line mention)
      (elim alias [ none ↦ none | some a ↦ strip_mention line a ])

-- Whether what follows a mention lets it count: nothing, whitespace or a separator.
unfoldable pub ends_mention : Text → Bool
unfolding is_whitespace is_separator
ends_mention [] = true
ends_mention (c ∷ s) = is_whitespace c || is_separator c

-- The loop over the lines.
unfoldable pub parse_lines : List Text → Text → Option Text → ChatCommand
parse_lines [] mention alias = not_mentioned
parse_lines (raw ∷ rest) mention alias = elim (strip_any (trim raw) mention alias) [
  | none ↦ parse_lines rest mention alias
  | some after ↦
      if ends_mention after
      then classify (trim_end (trim_start_matches (λ c. is_whitespace c || is_separator c) after))
      else parse_lines rest mention alias
]

-- The lines of the reply that are neither blank nor quoted.
unfoldable pub prose : List Text → List Text
prose [] = []
prose (line ∷ rest) =
    let trimmed = trim line in
    if is_empty trimmed || starts_with (codes ">") trimmed then prose rest else trimmed ∷ prose rest

unfoldable pub parse_review_correction : Text → Text → Option Text → Option Text
parse_review_correction body mention alias = elim (lines body) [
  | [] ↦ none
  | first ∷ rest ↦ elim (strip_any (trim first) mention alias) [
    | none ↦ none
    | some after ↦
        if starts_with (codes "wrote in ") (trim_start after)
        then (let correction = join (10 ∷ []) (prose rest) in
            if is_empty correction then none else some correction)
        else none
  ]
]

unfoldable pub compatibility_mention : Text → Option Text
unfolding text_eq
compatibility_mention bot_name =
    if text_eq bot_name (codes "auto-review") then some (codes "@auto_review") else none

unfoldable pub parse_chat_command : Text → Text → ChatCommand
unfolding parse_review_correction compatibility_mention
parse_chat_command body bot_name =
    let mention = b'@' ∷ bot_name in
    let alias = compatibility_mention bot_name in
    elim (parse_review_correction body mention alias) [
      | some correction ↦ review_correction correction
      | none ↦ parse_lines (lines body) mention alias
    ]
