-- ===== src/Tests/Chat/Setup.antt =====
-- A pull request, a chat and the services that the chat handler needs.
use auto_review.Prelude.{ℕ, true, false, [], ◌∷◌, some, none, ok, err}
use auto_review.Prelude.Text.{codes}
use auto_review.Forge.{PullRequestSummary}
use auto_review.Llm.{CompleteRequest}
use auto_review.Review.Host.{ReviewHost}
use auto_review.Chat.Fence.{AutofixPatch}
use auto_review.Chat.State.{ChatContext, ChatState, ChatParts}
use auto_review.Tests.Fixtures.{host, start}

abbrev pub opened : PullRequestSummary
opened = record {
  number = 7;
  title = codes "fix";
  body = codes "why";
  draft = false;
  state = codes "open";
  head = record { ref_name = codes "fix"; sha = codes "abc" };
  base = record { ref_name = codes "main"; sha = codes "def" };
}

abbrev pub ctx : ChatContext
ctx = record {
  pr = record { owner = codes "o"; repo = codes "r"; pr_number = 7 };
  commenter_login = codes "Carol";
  bot_login = codes "bot";
}

abbrev pub request : CompleteRequest
request = record { system = none; messages = []; json_schema = none }

abbrev pub patch : AutofixPatch
patch = record { path = codes "a.rs"; line = 1; replacement = codes "x"; reason = [] }

abbrev pub chat_parts : ChatParts ℕ ℕ
chat_parts = record {
  get_pull_request = λ pr h. (h, ok opened);
  get_file_content = λ pr name base h. (h, ok (some (codes "carol")));
  post_issue_comment = λ pr body h. (h, ok tt);
  add_learning = λ text l. (l, ok 1);
  parse_repo_config = λ text. ok (record { override_approvers = text ∷ [] });
  override_reason_request = λ text. request;
  intent_request = λ text. request;
  decode_intent = λ text. some (codes "approval_request");
  suggestion_request = λ kind diff. request;
  decode_patches = λ text. some (patch ∷ []);
  tests_request = λ diff. request;
  decode_scaffolds = λ text. some [];
  freeform_request = λ question diff. request;
  remove_learning = λ id l. (l, ok tt);
  has_dispatcher = true;
  help_text = codes "help";
  decode_override_reason = λ text. some (true, codes "a false alarm");
}

-- The bot's last review requests changes.
abbrev pub blocking : ReviewHost ℕ
blocking = record host {
  list_pull_reviews = λ pr h. (
    h,
    ok (
        record { id = 3; state = codes "REQUEST_CHANGES"; user = record { login = codes "Bot" } }
        ∷ []),
  );
}

-- The reviews cannot be listed.
abbrev pub unlisted : ReviewHost ℕ
unlisted = record host { list_pull_reviews = λ pr h. (h, err (record { message = [] })) }

abbrev pub silent : ChatState ℕ ℕ
silent = record { host_state = 0; llm_state = start; asked = [] }
