-- ===== src/Review/Heal.antt =====
-- crates/ar-review/src/error.rs and heal.rs: asking the model until its answer is a valid review.
-- The validation of an answer parses JSON against a schema, which is serde's and jsonschema's.
use auto_review.Prelude.{
  ℕ, zero, suc, ◌+◌, ◌≤◌, max, Bool, Option, none, some, List, [], ◌∷◌, ◌++◌, Result, ok, err,
}
use auto_review.Prelude.Text.{Text, codes}
use auto_review.Llm.{
  reasoning, Message, user_message, assistant_message, CompleteRequest, CompleteResponse, LlmError,
  LlmState, Router, complete,
}
use auto_review.Forge.{HostError}
use auto_review.Review.Types.{ReviewOutput}
pub mod Attempts

-- What a validation error says.
abbrev pub ValidationError : Type 0
ValidationError = Text

pub data ReviewError : Type 0 where
  llm : LlmError → ReviewError
  host : HostError → ReviewError
  unhealable : ℕ → ValidationError → ReviewError
  workspace : Text → ReviewError
  -- `expect`: the thread panics.
  panicked : ReviewError

abbrev pub Validate : Type 0
Validate = Text → Result ValidationError ReviewOutput

abbrev pub default_max_attempts : ℕ
default_max_attempts = 3

unfoldable pub heal_request : Text → List Message → CompleteRequest
heal_request system messages = record {
  system = some system;
  messages = messages;
  json_schema = some (codes "Review");
}

unfoldable pub correction : ValidationError → Text
correction e =
    codes "That output failed validation: "
    ++ e
    ++ codes
        "\n\nReturn ONLY a JSON object that conforms to the schema. No prose, no markdown fences."

unfoldable pub give_up : ℕ → Option ValidationError → ReviewError
give_up max_attempts none = panicked
give_up max_attempts (some e) = unhealable max_attempts e

module _ {W : Type 0} (router : Router W) (validate_review_output : Validate) (system : Text) where
  -- The loop over the attempts that are left.
  unfoldable pub heal_loop :
      ℕ
      → ℕ
      → List Message
      → Option ValidationError
      → LlmState W
      → LlmState W × Result ReviewError ReviewOutput
  heal_loop max_attempts zero messages last_error s = (s, err (give_up max_attempts last_error))
  heal_loop max_attempts (suc n) messages last_error s =
      let (s', answer) = complete router reasoning (heal_request system messages) s in
      elim answer [
        | err e ↦ (s', err (llm e))
        | ok resp ↦ elim (validate_review_output resp.content) [
          | ok out ↦ (s', ok out)
          | err e ↦
              heal_loop max_attempts n
                (messages ++ assistant_message resp.content ∷ user_message (correction e) ∷ [])
                (some e) s'
        ]
      ]

  unfoldable pub generate_with_self_heal :
      Text → ℕ → LlmState W → LlmState W × Result ReviewError ReviewOutput
  generate_with_self_heal user_prompt config_max_attempts s =
      let max_attempts = max config_max_attempts 1 in
      heal_loop max_attempts max_attempts (user_message user_prompt ∷ []) none s
