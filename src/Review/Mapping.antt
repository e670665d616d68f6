-- ===== src/Review/Mapping.antt =====
-- crates/ar-review/src/mapping.rs: a validated output as the review that is posted.
use auto_review.Prelude.{
  ℕ, ◌≤◌, ◌<◌, Bool, true, false, not, ◌&&◌, ◌||◌, Option, none, some, List, [], ◌∷◌, ◌++◌, map,
  ◌↔◌, inl, inr, ◌≡◌, refl, leb, ltb, ◌==◌, if◌then◌else◌, any, is_empty, arith, Bool-cases, ==_iff,
}
use auto_review.Prelude.Text.{Text, codes, text_eq, text_eq_iff, starts_with, ends_with, trim}
use auto_review.Prelude.Keys.{Eq, member}
use auto_review.Prelude.Boundary.{byte_len, truncate_at}
use auto_review.Prelude.Search.{split_once, show_nat}
use auto_review.Forge.{ReviewComment, ReviewEvent, approved, request_changes, CreateReviewRequest}
use auto_review.Review.Types.{ReviewSeverity, note, warning, error, ReviewFinding, ReviewOutput}
use auto_review.Review.Filters.{severity_rank}
pub mod Posted

abbrev pub review_body_max_bytes : ℕ
review_body_max_bytes = 32768

abbrev pub finding_message_max_bytes : ℕ
finding_message_max_bytes = 4096

unfoldable pub severity_label : ReviewSeverity → Text
severity_label error = codes "🔴 **Error:**"
severity_label warning = codes "🟡 **Warning:**"
severity_label note = codes "💡 **Note:**"

unfoldable pub capped_message : Text → Text
capped_message message =
    if ltb finding_message_max_bytes (byte_len message)
    then truncate_at message finding_message_max_bytes ++ codes "… [truncated]"
    else message

unfoldable pub comment_body : ReviewSeverity → ℕ → Option ℕ → Text → Text
comment_body severity line_start none message = severity_label severity ++ codes " " ++ message
comment_body severity line_start (some end) message =
    if ltb line_start end
    then severity_label severity
      ++ codes " **Lines "
      ++ show_nat line_start
      ++ codes "–"
      ++ show_nat end
      ++ codes ":** "
      ++ message
    else severity_label severity ++ codes " " ++ message

unfoldable pub finding_to_comment : ReviewFinding → ReviewComment
finding_to_comment f = record {
  path = f.path;
  body = comment_body f.severity f.line_start f.line_end (capped_message f.message);
  old_position = none;
  new_position = some f.line_start;
}

-- The summary without its opening sentence, if that only announces the fix.
unfoldable pub opening : Text → Text
opening summary =
    if starts_with (codes "This PR fixes ") summary
      || starts_with (codes "This PR addresses ") summary
    then elim (split_once (codes ". ") summary) [ some (_, rest) ↦ rest | none ↦ summary ]
    else summary

-- One more paragraph.
unfoldable pub paragraph : Text → Text → Text
paragraph body text = (if is_empty body then body else body ++ codes "\n\n") ++ text

unfoldable pub cap_body : Text → Text
cap_body body =
    if ltb review_body_max_bytes (byte_len body)
    then end_line (truncate_at body review_body_max_bytes) ++ codes "\n[review body truncated]\n"
    else body
  where
    end_line : Text → Text
    end_line s = if ends_with (codes "\n") s then s else s ++ codes "\n"

unfoldable pub render_body : ReviewOutput → Text
render_body out =
    let body = opening out.summary in
    let body' =
      if is_empty out.walkthrough
      then body
      else paragraph body (codes "## Walkthrough\n\n" ++ out.walkthrough) in
    let body'' =
      if is_empty out.mermaid
      then body'
      else paragraph body' (codes "```mermaid\n" ++ trim out.mermaid ++ codes "\n```") in
    cap_body body''

abbrev pub FindingKey : Type 0
FindingKey = ReviewSeverity × Text

unfoldable pub finding_key_eq : FindingKey → FindingKey → Bool
finding_key_eq (s, m) (t, n) = severity_rank s == severity_rank t && text_eq m n

unfoldable pub is_error : ReviewFinding → Bool
is_error f = severity_rank f.severity == 2

unfoldable pub key_of : ReviewFinding → FindingKey
key_of f = (f.severity, f.message)

-- The filter with its list of the keys that were seen.
unfoldable pub dedup_findings : List FindingKey → List ReviewFinding → List ReviewFinding
dedup_findings seen [] = []
dedup_findings seen (f ∷ fs) =
    if any (finding_key_eq (key_of f)) seen
    then dedup_findings seen fs
    else f ∷ dedup_findings (key_of f ∷ seen) fs

unfoldable pub output_to_review_request : ReviewOutput → Text → CreateReviewRequest
output_to_review_request out head_sha = record {
  body = render_body out;
  commit_id = head_sha;
  event = if any is_error out.findings then request_changes else approved;
  comments = map finding_to_comment (dedup_findings [] out.findings);
}
