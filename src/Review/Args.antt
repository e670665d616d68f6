-- ===== src/Review/Args.antt =====
-- crates/ar-review/src/pipeline.rs: the data that a review takes, keeps and gives back, and the parts
-- of it that are not code of the repository or have floating point.
use auto_review.Prelude.{ℕ, Bool, Option, List, Result}
use auto_review.Prelude.Text.{Text}
use auto_review.Forge.{CreateReviewRequest}
use auto_review.Llm.{CompleteRequest, UsageEntry, LlmState}
use auto_review.Review.Types.{ReviewSeverity, ReviewOutput}
use auto_review.Review.Ignored.{GlobSet}
use auto_review.Review.Metadata.{PrMetadataValidation}
use auto_review.Review.Heal.{ValidationError}
use auto_review.Review.Verify.{VerificationVerdict}
use auto_review.Review.Agentic.{AgentAction, Tools}
use auto_review.Review.Host.{PrRef}

pub data VerifyMode : Type 0 where
  simple agentic : VerifyMode

pub record ReviewOutcome : Type 0 where
  pub findings_count : ℕ
  pub review_id : ℕ
  pub errors : ℕ
  pub warnings : ℕ
  pub notes : ℕ
  pub verifier_dropped : ℕ

pub record PrMetadataCheck : Type 0 where
  pub enabled : Bool
  pub body_required : Bool
  pub additional_rules : List Text

pub record ReviewArgs : Type 0 where
  pub pr : PrRef
  pub head_sha : Text
  pub pr_title : Text
  pub pr_body : Text
  pub ignored_paths : GlobSet
  pub guidelines : Text
  pub repo_context : Text
  pub diff_override : Option Text
  pub previous_review_sha : Option Text
  pub verify_mode : VerifyMode
  -- The tools in the cloned workspace, if there is one.
  pub workspace : Option Tools
  pub min_severity : ReviewSeverity
  pub pr_metadata_check : PrMetadataCheck

pub record Parts : Type 0 where
  pub system_prompt : Text
  -- From the diff, the changed files and the earlier discussion.
  pub render_review_prompt : ReviewArgs → Text → List Text → Text → Text
  pub validate_review_output : Text → Result ValidationError ReviewOutput
  pub verification_system_prompt : Text
  pub validate_verification_output : Text → Result ValidationError (List VerificationVerdict)
  pub agent_system_prompt : Text
  pub parse_action : Text → Option AgentAction
  pub metadata_request : Text → Text → List Text → CompleteRequest
  pub parse_metadata : Text → Option PrMetadataValidation
  -- `AR_REVIEW_COST_FOOTER`
  pub should_emit_cost_footer : Bool
  pub append_llm_usage_cost_footer : Text → List UsageEntry → Text

-- What has been changed at the host.
pub data HostCall : Type 0 where
  updated : Text → Text → HostCall
  reviewed : CreateReviewRequest → HostCall

pub record ReviewState (H W : Type 0) : Type 0 where
  pub host_state : H
  pub llm_state : LlmState W
  pub sent : List HostCall

pub record Material : Type 0 where
  pub diff : Text
  pub changed_filenames : List Text
