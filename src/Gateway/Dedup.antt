-- ===== src/Gateway/Dedup.antt =====
-- crates/ar-gateway/src/dedup.rs: recently seen webhook deliveries, in memory and in SQLite.
pub mod Recent
pub mod Window
use auto_review.Prelude.{
  ℕ, max, Bool, true, false, List, [], ◌∷◌, ◌++◌, Result, ok, err, leb, if◌then◌else◌, length,
}
use auto_review.Prelude.Text.{Text}
use auto_review.Prelude.Keys.{member, discard, text_key}

pub data CheckResult : Type 0 where
  first_sight duplicate : CheckResult

-- `RecentDeliveries` with its `DedupState`: the set `ids` and the queue `order`, oldest first.
pub record RecentDeliveries : Type 0 where
  pub capacity : ℕ
  pub ids : List Text
  pub order : List Text

unfoldable pub new : ℕ → RecentDeliveries
new capacity = record { capacity = max capacity 1; ids = []; order = [] }

-- `pop_front` with the removal of what it returns from the set.
unfoldable pub evict : RecentDeliveries → List Text → RecentDeliveries
evict s [] = s
evict s (old ∷ rest) = record s { ids = discard old s.ids; order = rest }

unfoldable pub check_and_record : RecentDeliveries → Text → RecentDeliveries × CheckResult
unfolding evict
check_and_record s id =
    if member id s.ids
    then (s, duplicate)
    else let s' = if leb s.capacity (length s.order) then evict s s.order else s in
      (record s' { ids = id ∷ s'.ids; order = s'.order ++ id ∷ [] }, first_sight)

pub data DedupError : Type 0 where
  storage : DedupError

-- `SqliteDeliveries`: the table `webhook_deliveries`, whose primary key is the id. A statement
-- may fail; `INSERT OR IGNORE` affects a row exactly if the id was not there.
pub record SqliteDeliveries : Type 0 where
  pub rows : List Text

unfoldable pub sqlite_check_and_record :
    Bool → SqliteDeliveries → Text → SqliteDeliveries × Result DedupError CheckResult
sqlite_check_and_record fails s id =
    if fails
    then (s, err storage)
    else if member id s.rows
    then (s, ok duplicate)
    else (record { rows = id ∷ s.rows }, ok first_sight)

-- `dyn DeliveryDedup`: the store that the gateway was configured with.
pub data DeliveryDedup : Type 0 where
  memory : RecentDeliveries → DeliveryDedup
  sqlite : SqliteDeliveries → DeliveryDedup

-- The in-memory store never fails.
unfoldable pub dyn_check_and_record :
    Bool → DeliveryDedup → Text → DeliveryDedup × Result DedupError CheckResult
dyn_check_and_record fails (memory s) id = let (s', r) = check_and_record s id in (memory s', ok r)
dyn_check_and_record fails (sqlite s) id =
    let (s', r) = sqlite_check_and_record fails s id in (sqlite s', r)
