-- ===== src/Tests/Chat.antt =====
-- crates/ar-chat/src/command.rs: its theorems at concrete inputs.
pub mod Setup
mod Override
mod Handler
use auto_review.Prelude.{◌≡◌, ◌≢◌, refl, true, false, none, [], ◌∷◌, ◌++◌, any, arith}
use auto_review.Prelude.Text.{Text, codes, trim, trim_start, trim_end}
use auto_review.Prelude.Search.{show_nat, lines}
use auto_review.Chat.Command.{
  not_mentioned, compatibility_mention, parse_chat_command, forget, parse_lines, classify,
  strip_any, strip_mention, ends_mention,
}
use auto_review.Chat.Command.Mention.{addresses, begins_quote, parse_chat_command-addresses}
use auto_review.Chat.Command.Forget.{classify-forget}

abbrev body : Text
body = codes "hello\n@bot help\nbye"

split : lines body ≡ (codes "hello" ∷ []) ++ codes "@bot help" ∷ codes "bye" ∷ []
unfolding lines
split = refl

no_quote : begins_quote (codes "@bot") (compatibility_mention (codes "bot")) (lines body) ≡ false
unfolding lines strip_any strip_mention trim trim_start trim_end compatibility_mention
no_quote = refl

unaddressed :
    any (addresses (codes "@bot") (compatibility_mention (codes "bot"))) (codes "hello" ∷ [])
    ≡ false
unfolding strip_any strip_mention trim trim_start trim_end ends_mention compatibility_mention
unaddressed = refl

addressed :
    addresses (codes "@bot") (compatibility_mention (codes "bot")) (codes "@bot help") ≡ true
unfolding strip_any strip_mention trim trim_start trim_end ends_mention compatibility_mention
addressed = refl

parse_chat_command-addresses_example :
    (parse_chat_command body (codes "bot")
      ≡ parse_lines (codes "@bot help" ∷ []) (codes "@bot") (compatibility_mention (codes "bot")))
    × (parse_chat_command body (codes "bot") ≢ not_mentioned)
parse_chat_command-addresses_example =
    parse_chat_command-addresses body (codes "bot") (codes "hello" ∷ []) (codes "@bot help")
      (codes "bye" ∷ []) split no_quote unaddressed addressed

classify-forget_example : classify (codes "forget " ++ show_nat 42) ≡ forget 42
classify-forget_example = classify-forget 42 (omega arith)
