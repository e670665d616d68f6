-- ===== src/Chat/Fence.antt =====
-- crates/ar-chat/src/handler.rs: texts that are cut to a length and put between code fences.
use auto_review.Prelude.{
  ℕ, zero, suc, ◌+◌, max, List, [], ◌∷◌, ◌++◌, ltb, leb, ◌==◌, if◌then◌else◌, is_empty,
}
use auto_review.Prelude.Text.{Text, codes, ends_with, trim}
use auto_review.Prelude.Boundary.{byte_len, truncate_at}
pub mod Closed

unfoldable pub truncate_with_marker : Text → ℕ → Text → Text
truncate_with_marker text max_bytes marker =
    if leb (byte_len text) max_bytes
    then text
    else truncate_at text max_bytes ++ codes "\n\n" ++ marker ++ codes "\n"

unfoldable pub truncate_for_chat : Text → ℕ → Text
truncate_for_chat diff max_bytes = truncate_with_marker diff max_bytes (codes "[diff truncated]")

-- The loop, with its variables `max` and `current`.
unfoldable pub run_from : ℕ → ℕ → Text → ℕ
run_from longest current [] = longest
run_from longest current (c ∷ s) =
    let current' = if c == b'`' then current + 1 else 0 in
    run_from (if ltb longest current' then current' else longest) current' s

unfoldable pub longest_backtick_run : Text → ℕ
unfolding run_from
longest_backtick_run body = run_from 0 0 body

-- `"`".repeat(n)`
unfoldable pub backticks : ℕ → Text
backticks zero = []
backticks (suc n) = b'`' ∷ backticks n

unfoldable pub pick_fence : Text → Text
unfolding longest_backtick_run backticks
pick_fence body = backticks (max (longest_backtick_run body) 2 + 1)

-- A text and a newline, unless it ends in one.
unfoldable pub end_line : Text → Text
end_line s = if ends_with (codes "\n") s then s else s ++ codes "\n"

pub record AutofixPatch : Type 0 where
  pub path : Text
  pub line : ℕ
  pub replacement : Text
  pub reason : Text

abbrev pub suggestion_reason_max : ℕ
suggestion_reason_max = 1024

abbrev pub suggestion_replacement_max : ℕ
suggestion_replacement_max = 4096

abbrev pub scaffold_source_max : ℕ
scaffold_source_max = 4096

unfoldable pub intro : Text → Text
intro reason = if is_empty (trim reason) then [] else trim reason ++ codes "\n\n"

unfoldable pub format_suggestion_body : AutofixPatch → Text
format_suggestion_body p =
    let reason = truncate_with_marker p.reason suggestion_reason_max (codes "[reason truncated]") in
    let replacement =
      truncate_with_marker p.replacement suggestion_replacement_max
        (codes "[replacement truncated — apply will not work]") in
    let fence = pick_fence replacement in
    intro reason ++ fence ++ codes "suggestion\n" ++ end_line replacement ++ fence

pub record TestScaffold : Type 0 where
  pub item_name : Text
  pub item_path : Text
  pub framework : Text
  pub source : Text

unfoldable pub scaffold_header : TestScaffold → Text
scaffold_header s =
    (if is_empty s.item_path
      then codes "### `" ++ s.item_name ++ codes "`"
      else codes "### `" ++ s.item_name ++ codes "` (in `" ++ s.item_path ++ codes "`)")
    ++ codes "\n"
    ++ (if is_empty (trim s.framework)
        then codes "\n"
        else codes "Framework: `" ++ trim s.framework ++ codes "`\n\n")

unfoldable pub format_scaffold : TestScaffold → Text
format_scaffold s =
    let source =
      truncate_with_marker s.source scaffold_source_max
        (codes "[scaffold truncated — not directly usable]") in
    let fence = pick_fence source in
    scaffold_header s ++ fence ++ codes "\n" ++ end_line source ++ fence ++ codes "\n\n"

unfoldable pub format_scaffolds : List TestScaffold → Text
format_scaffolds [] = []
format_scaffolds (s ∷ ss) = format_scaffold s ++ format_scaffolds ss

unfoldable pub format_test_scaffolds_body : List TestScaffold → Text
format_test_scaffolds_body scaffolds =
    codes "**Test scaffolds**\n\n"
    ++ codes
        "Below are scaffolded tests for items in this PR that look like they could use coverage. Tests usually live in a separate file, so these are copy-paste-ready rather than inline suggestions.\n\n"
    ++ format_scaffolds scaffolds
