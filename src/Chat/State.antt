-- ===== src/Chat/State.antt =====
-- crates/ar-chat/src/handler.rs: the state of the chat handler, and the reply that every command
-- makes.
-- The rest of the trait `ReviewHost`, the texts of the prompts, the readings of YAML and JSON, and
-- the store of learnings with its embedding and clock are what `ChatParts` is asked for.
use auto_review.Prelude.{ℕ, Bool, List, [], ◌∷◌, ◌++◌, Option, Result, ok, err, any}
use auto_review.Prelude.Text.{Text, eq_ignore_ascii_case}
use auto_review.Forge.{HostError, PullRequestSummary, CreateReviewRequest}
use auto_review.Llm.{LlmError, LlmState, Router, CompleteRequest}
use auto_review.Orchestrator.Jobs.{ReviewJob}
use auto_review.Index.Learnings.{LearningsError}
use auto_review.Review.Host.{PrRef, ReviewHost}
use auto_review.Chat.Fence.{AutofixPatch, TestScaffold}

pub data ChatError : Type 0 where
  host : HostError → ChatError
  learnings : LearningsError → ChatError
  llm : LlmError → ChatError
  time : Text → ChatError

pub record ChatContext : Type 0 where
  pub pr : PrRef
  pub commenter_login : Text
  pub bot_login : Text

-- What is read of `RepoConfig`.
pub record RepoConfig : Type 0 where
  pub override_approvers : List Text

unfoldable pub is_override_approver : RepoConfig → Text → Bool
is_override_approver config login =
    any (λ u. eq_ignore_ascii_case u login) config.override_approvers

-- `RepoConfig::default()`
abbrev pub default_config : RepoConfig
default_config = record { override_approvers = [] }

-- The commands that propose patches.
pub data SuggestionKind : Type 0 where
  autofix docstrings : SuggestionKind

-- What the host, the store and the dispatcher have been asked to do.
pub data ChatCall : Type 0 where
  replied : Text → ChatCall
  reviewed : CreateReviewRequest → ChatCall
  updated : Text → Text → ChatCall
  learned : Text → ChatCall
  forgot : ℕ → ChatCall
  dispatched : ReviewJob → ChatCall

pub record ChatState (H W : Type 0) : Type 0 where
  pub host_state : H
  pub llm_state : LlmState W
  pub asked : List ChatCall

-- The rest of the trait `ReviewHost`, and the parts that are not the repository's own.
pub record ChatParts (H W : Type 0) : Type 0 where
  pub get_pull_request : PrRef → H → H × Result HostError PullRequestSummary
  pub get_file_content : PrRef → Text → Text → H → H × Result HostError (Option Text)
  pub post_issue_comment : PrRef → Text → H → H × Result HostError (Unit {0})
  -- The id of the new learning.
  pub add_learning : Text → LlmState W → LlmState W × Result ChatError ℕ
  pub parse_repo_config : Text → Result Text RepoConfig
  pub override_reason_request : Text → CompleteRequest
  -- `has_explanation` and `explanation` of the JSON, if it can be read.
  pub decode_override_reason : Text → Option (Bool × Text)
  pub intent_request : Text → CompleteRequest
  -- `intent` of the JSON, if it can be read.
  pub decode_intent : Text → Option Text
  pub suggestion_request : SuggestionKind → Text → CompleteRequest
  pub decode_patches : Text → Option (List AutofixPatch)
  pub tests_request : Text → CompleteRequest
  pub decode_scaffolds : Text → Option (List TestScaffold)
  -- From the question and the diff.
  pub freeform_request : Text → Text → CompleteRequest
  pub remove_learning : ℕ → LlmState W → LlmState W × Result LearningsError (Unit {0})
  -- `dispatcher`, if there is one.
  pub has_dispatcher : Bool
  pub help_text : Text

module _ {H W : Type 0} (review_host : ReviewHost H) (router : Router W)
    (chat_parts : ChatParts H W) where
  -- `?` after a step that answers nothing.
  unfoldable pub and_then :
      ChatState H W × Result ChatError (Unit {0})
      → (ChatState H W → ChatState H W × Result ChatError (Unit {0}))
      → ChatState H W × Result ChatError (Unit {0})
  and_then (s, ok u) k = k s
  and_then (s, err e) k = (s, err e)

  unfoldable pub of_host : {A : Type 0} → Result HostError A → Result ChatError (Unit {0})
  of_host (ok a) = ok tt
  of_host (err e) = err (host e)

  unfoldable pub post :
      ChatContext → Text → ChatState H W → ChatState H W × Result ChatError (Unit {0})
  post ctx body s =
      let (h, answer) = chat_parts.post_issue_comment ctx.pr body s.host_state in
      (record s { host_state = h; asked = s.asked ++ replied body ∷ [] }, of_host answer)
