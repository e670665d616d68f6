-- ===== src/Llm.antt =====
-- crates/ar-llm: types.rs and router.rs, the requests to a language model by tier.
-- A provider is a service: `W` is whatever state decides its answers, and each call takes it and
-- gives it back.
use auto_review.Prelude.{
  ℕ, Bool, true, false, Option, none, some, List, [], ◌∷◌, ◌++◌, Result, ok, err,
}
use auto_review.Prelude.Text.{Text}

pub data ModelTier : Type 0 where
  cheap reasoning embedding : ModelTier

pub data Role : Type 0 where
  user assistant tool : Role

pub record Message : Type 0 where
  pub role : Role
  pub content : Text

unfoldable pub user_message : Text → Message
user_message content = record { role = user; content = content }

unfoldable pub assistant_message : Text → Message
assistant_message content = record { role = assistant; content = content }

-- A request that is constrained to a named JSON schema, at temperature 0 as all of the program's
-- are.
pub record CompleteRequest : Type 0 where
  pub system : Option Text
  pub messages : List Message
  pub json_schema : Option Text

pub record CompleteResponse : Type 0 where
  pub content : Text
  pub input_tokens : ℕ
  pub output_tokens : ℕ

pub data LlmError : Type 0 where
  http : Text → LlmError
  invalid_base_url : Text → LlmError
  provider_error : ℕ → Text → LlmError
  decode : Text → LlmError
  unsupported : LlmError
  no_provider : ModelTier → LlmError

pub record Provider (W : Type 0) : Type 0 where
  pub complete : CompleteRequest → W → W × Result LlmError CompleteResponse
  pub provider_base_url : Text
  pub model_name : ModelTier → Text

pub record UsageEntry : Type 0 where
  pub tier : ModelTier
  pub base_url : Text
  pub model : Text
  pub input_tokens : ℕ
  pub output_tokens : ℕ

-- The world of the providers and what the usage collector has been told.
pub record LlmState (W : Type 0) : Type 0 where
  pub world : W
  pub usage : List UsageEntry

-- The providers by tier.
abbrev pub Router : Type 0 → Type 0
Router W = ModelTier → Option (Provider W)

module _ {W : Type 0} where
  unfoldable pub provider : Router W → ModelTier → Result LlmError (Provider W)
  provider router tier = elim (router tier) [ some p ↦ ok p | none ↦ err (no_provider tier) ]

  unfoldable pub record_usage : Provider W → ModelTier → CompleteResponse → LlmState W → LlmState W
  record_usage p tier resp s = record s {
    usage =
        s.usage
        ++ (record {
          tier = tier;
          base_url = p.provider_base_url;
          model = p.model_name tier;
          input_tokens = resp.input_tokens;
          output_tokens = resp.output_tokens;
        })
          ∷ [];
  }

  -- The provider's answer, recorded if it is one.
  unfoldable pub answered :
      Provider W
      → ModelTier
      → LlmState W
      → W × Result LlmError CompleteResponse
      → LlmState W × Result LlmError CompleteResponse
  answered p tier s (w, ok resp) = (record_usage p tier resp (record s { world = w }), ok resp)
  answered p tier s (w, err e) = (record s { world = w }, err e)

  unfoldable pub complete :
      Router W
      → ModelTier
      → CompleteRequest
      → LlmState W
      → LlmState W × Result LlmError CompleteResponse
  complete router tier req s = elim (provider router tier) [
    | err e ↦ (s, err e)
    | ok p ↦ answered p tier s (p.complete req s.world)
  ]

  unfoldable pub has_provider : Router W → ModelTier → Bool
  has_provider router tier = elim (provider router tier) [ ok p ↦ true | err e ↦ false ]
