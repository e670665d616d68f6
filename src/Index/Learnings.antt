-- ===== src/Index/Learnings.antt =====
-- crates/ar-index/src/learnings.rs: the learnings of a repository, in memory.
-- `V` is the type of embeddings, vectors of floating-point numbers. The search by similarity is
-- not modelled.
use auto_review.Prelude.{
  ℕ, ◌+◌, Bool, not, List, [], ◌∷◌, ◌++◌, Result, ok, err, retain, length, ◌==◌, if◌then◌else◌,
}
use auto_review.Prelude.Text.{Text}
pub mod Ids

pub data LearningSource : Type 0 where
  chat guideline inferred : LearningSource

pub record LearningRecord (V : Type 0) : Type 0 where
  pub id : ℕ
  pub text : Text
  pub source : LearningSource
  pub embedding : V
  pub created_at : ℕ

pub data LearningsError : Type 0 where
  not_found : ℕ → LearningsError
  storage : Text → LearningsError

-- `InMemoryState`
pub record InMemoryLearnings (V : Type 0) : Type 0 where
  pub next_id : ℕ
  pub records : List (LearningRecord V)

module _ {V : Type 0} where
  unfoldable pub new : InMemoryLearnings V
  new = record { next_id = 1; records = [] }

  unfoldable pub add :
      Text
      → LearningSource
      → V
      → ℕ
      → InMemoryLearnings V
      → InMemoryLearnings V × Result LearningsError (LearningRecord V)
  add text source embedding now s =
      let r : LearningRecord V = record {
        id = s.next_id;
        text = text;
        source = source;
        embedding = embedding;
        created_at = now;
      } in
      (record { next_id = s.next_id + 1; records = s.records ++ r ∷ [] }, ok r)

  unfoldable pub list : InMemoryLearnings V → Result LearningsError (List (LearningRecord V))
  list s = ok s.records

  unfoldable pub without : ℕ → List (LearningRecord V) → List (LearningRecord V)
  without id records = retain (λ r. not (r.id == id)) records

  unfoldable pub remove :
      ℕ → InMemoryLearnings V → InMemoryLearnings V × Result LearningsError (Unit {0})
  remove id s =
      let s' = record s { records = without id s.records } in
      if length (without id s.records) == length s.records
      then (s', err (not_found id))
      else (s', ok tt)
