-- ===== src/Tests/Chat/Handler.antt =====
-- crates/ar-chat/src/handler.rs: its theorems on whole commands at concrete inputs.
use auto_review.Prelude.{◌≡◌, refl, true, some}
use auto_review.Prelude.Text.{
  Text, codes, text_eq, eq_ignore_ascii_case, to_ascii_lowercase, trim, trim_end, trim_start,
}
use auto_review.Llm.{has_provider, provider, complete, answered, record_usage}
use auto_review.Chat.Command.{freeform}
use auto_review.Chat.State.{is_override_approver, and_then, of_host, SuggestionKind}
use auto_review.Chat.Override.{
  handle_override_approval, stored, on_pull_request, answer_approval, outstanding_findings,
  latest_review, bot_reviews, or_empty, load_repo_config_for_chat, load_config, force_approval,
  on_reason, judge_override_reason, approve, parse_override_reason, remember_correction, stamp,
}
use auto_review.Chat.Override.Authorized.{has_approval}
use auto_review.Chat.Handler.{
  handle, handle_directed, classify_intent, read_intent, parse_directed_intent, intent_of,
  on_intent,
}
use auto_review.Chat.Handler.Commands.{directed_text, WasAsked, handle-approves}
use auto_review.Chat.Suggest.{handle_suggest}
use auto_review.Chat.Suggest.Posted.{AtMost, IsSuggestion, handle_suggest-AtMost}
use auto_review.Tests.Fixtures.{host, router}
use auto_review.Tests.Chat.Setup.{ctx, chat_parts, blocking, silent}

overridden :
    has_approval (handle blocking router chat_parts ctx (freeform (codes "approve")) silent).0.asked
    ≡ true
unfolding handle handle_directed classify_intent read_intent parse_directed_intent intent_of
    on_intent handle_override_approval stored text_eq on_pull_request answer_approval
    outstanding_findings latest_review bot_reviews or_empty is_override_approver
    load_repo_config_for_chat load_config force_approval on_reason judge_override_reason and_then
    approve of_host parse_override_reason remember_correction stamp has_provider provider complete
    answered record_usage eq_ignore_ascii_case to_ascii_lowercase trim trim_end trim_start
overridden = refl

handle-approves_example :
    (text : Text) × (directed_text (freeform (codes "approve")) ≡ some text)
    × WasAsked blocking router chat_parts ctx text silent
handle-approves_example =
    handle-approves blocking router chat_parts ctx (freeform (codes "approve")) silent refl
      overridden

handle_suggest-AtMost_example :
    AtMost host router chat_parts
      (IsSuggestion host router chat_parts ctx silent)
      silent
      (handle_suggest host router chat_parts ctx SuggestionKind.autofix silent)
handle_suggest-AtMost_example =
    handle_suggest-AtMost host router chat_parts ctx SuggestionKind.autofix silent
