-- ===== src/Chat/Caveat.antt =====
-- crates/ar-chat/src/handler.rs: the texts that record a human override.
use auto_review.Prelude.{
  ℕ, ◌-◌, List, [], ◌∷◌, ◌++◌, ◌&&◌, not, ◌==◌, if◌then◌else◌, is_empty, length, take,
}
use auto_review.Prelude.Text.{Text, codes, trim, starts_with}
use auto_review.Prelude.Search.{lines, show_nat}

-- `str::replace` of a text that is not empty by the empty one; `skipped` characters of a match
-- are still to go.
unfoldable pub remove_all : Text → ℕ → Text → Text
remove_all pat skipped [] = []
remove_all pat skipped (c ∷ s) =
    let matches = skipped == 0 && starts_with pat (c ∷ s) in
    let rest = remove_all pat (if matches then length pat - 1 else skipped - 1) s in
    if skipped == 0 && not matches then c ∷ rest else rest

unfoldable pub first_line : Text → Text
first_line s = elim (lines s) [ [] ↦ s | l ∷ ls ↦ l ]

unfoldable pub summarize_finding : Text → Text
summarize_finding comment_body = take 160 (
    trim (
      remove_all (codes "**") 0
        (remove_all (codes "**Error:**") 0 (remove_all (codes "🔴") 0 (first_line comment_body)))))

unfoldable pub items : List Text → Text
items [] = []
items (f ∷ fs) = codes "\n- " ++ f ++ items fs

unfoldable pub objection : List Text → Text
objection findings =
    if is_empty findings
    then codes "pre-merge objection"
    else show_nat (length findings) ++ codes " finding(s)"

unfoldable pub render_override_review_body : Text → Text → List Text → Text
render_override_review_body commenter reason findings =
    codes "Approved at @"
    ++ commenter
    ++ codes "'s request, overriding my outstanding "
    ++ objection findings
    ++ codes ".\n\nReason: "
    ++ reason
    ++ (if is_empty findings then [] else codes "\n\nOverriding these findings:" ++ items findings)
    ++ codes
        "\n\nI've recorded this override on the PR description so it carries into the merge commit."

unfoldable pub render_override_pr_section : Text → Text → List Text → Text
render_override_pr_section commenter reason findings =
    codes "## Approval override\n\nApproval forced by @"
    ++ commenter
    ++ codes " over auto-review's outstanding "
    ++ objection findings
    ++ codes ".\n\nReason: "
    ++ reason
    ++ (if is_empty findings then [] else codes "\n\nOverridden findings:" ++ items findings)
