-- ===== src/Tests/Index.antt =====
-- crates/ar-index: its theorems at concrete inputs.
use auto_review.Prelude.{◌<◌, List, ℕ, ◌+◌, ◌≡◌, refl, false, ◌∷◌, ok}
use auto_review.Prelude.Text.{Text, codes, text_eq}
use auto_review.Prelude.Search.{lines}
use auto_review.Index.Learnings.{
  chat, LearningSource, LearningRecord, InMemoryLearnings, new, add, remove,
}
use auto_review.Index.Learnings.Ids.{
  Change, change_all, IsValid, is_stored, new-IsValid, add-IsValid, remove-add,
}
use auto_review.Index.CoChange.{parse_git_log_co_change}
use auto_review.Index.CoChange.Counts.{count, commits_of, together, count-parse_git_log_co_change}

abbrev one_record : InMemoryLearnings ℕ
one_record = (add (codes "use iterators") chat 5 100 new).0

one_record-IsValid : IsValid one_record
one_record-IsValid = add-IsValid (codes "use iterators") chat 5 100 new new-IsValid

remove-add_example :
    (r : LearningRecord ℕ) × ((add (codes "no unwrap") chat 6 200 one_record).1 ≡ ok r)
    × (r.text ≡ codes "no unwrap")
    × (r.source ≡ chat)
    × (r.embedding ≡ 6)
    × (r.created_at ≡ 200)
    × (is_stored r.id one_record.records ≡ false)
    × (remove r.id (add (codes "no unwrap") chat 6 200 one_record).0
        ≡ (record one_record { next_id = one_record.next_id + 1 }, ok tt))
    × ((cs : List (Change ℕ)) (text' : Text) (source' : LearningSource) (v' now' : ℕ)
          (r' : LearningRecord ℕ)
        → (add text' source' v' now'
            (change_all cs (add (codes "no unwrap") chat 6 200 one_record).0)).1
          ≡ ok r'
        → r.id < r'.id)
remove-add_example = remove-add (codes "no unwrap") chat 6 200 one_record one_record-IsValid

abbrev log : Text
log = codes "COMMIT 1\na.rs\nb.rs\n\nCOMMIT 2\na.rs\n\nCOMMIT 3\nb.rs\na.rs\n"

count-parse_git_log_co_change_example :
    let commits = (commits_of (lines log)).0 ∷ (commits_of (lines log)).1 in
    (count (codes "a.rs") (codes "b.rs") (parse_git_log_co_change log)
      ≡ together (codes "a.rs") (codes "b.rs") commits)
    × (count (codes "b.rs") (codes "a.rs") (parse_git_log_co_change log)
        ≡ together (codes "a.rs") (codes "b.rs") commits)
count-parse_git_log_co_change_example =
    count-parse_git_log_co_change (codes "a.rs") (codes "b.rs") log (unfold text_eq in refl)
