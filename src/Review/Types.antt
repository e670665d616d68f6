-- ===== src/Review/Types.antt =====
-- crates/ar-prompts/src/types.rs and verification.rs: what the model answers, once parsed.
use auto_review.Prelude.{ℕ, Option, List}
use auto_review.Prelude.Text.{Text}

pub data ReviewSeverity : Type 0 where
  note warning error : ReviewSeverity

pub record ReviewFinding : Type 0 where
  pub path : Text
  pub line_start : ℕ
  pub line_end : Option ℕ
  pub severity : ReviewSeverity
  pub message : Text

pub record ReviewOutput : Type 0 where
  pub summary : Text
  pub findings : List ReviewFinding
  pub walkthrough : Text
  pub mermaid : Text
