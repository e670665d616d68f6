-- ===== src/Gateway/Cursors.antt =====
-- crates/ar-gateway/src/poller.rs: the comment cursors that the webhook and the poller share.
use auto_review.Prelude.{
  ℕ, ◌<◌, max, ◌≡◌, refl, Bool, true, false, none, some, List, [], ◌∷◌, arith, leb, ltb,
  if◌then◌else◌,
}
use auto_review.Prelude.Keys.{
  lookup, insert, retain_keys, lookup-insert, lookup-retain_keys, beq_self, member,
}
use auto_review.Orchestrator.History.{PrKey, pr_key, key_eq, key_eq_iff}

abbrev pub Cursors : Type 0
Cursors = List (PrKey × ℕ)

-- `*guard.entry(key).or_insert(0)`
unfoldable pub cursor : Cursors → PrKey → ℕ
cursor m key = elim (lookup key m) [ none ↦ 0 | some c ↦ c ]

unfoldable pub claim_chat_comment : Cursors → PrKey → ℕ → Cursors × Bool
unfolding cursor
claim_chat_comment m key comment_id =
    let c = cursor m key in
    if leb comment_id c then (insert key c m, false) else (insert key comment_id m, true)

unfoldable pub seed_chat_cursor_monotonic : Cursors → PrKey → ℕ → Cursors
unfolding cursor
seed_chat_cursor_monotonic m key max_seen =
    let c = cursor m key in if ltb c max_seen then insert key max_seen m else insert key c m

-- What the webhook and the poller do to the cursors, in the order in which they get the lock.
pub data Event : Type 0 where
  claim : PrKey → ℕ → Event
  seed : PrKey → ℕ → Event

unfoldable pub apply : Cursors → Event → Cursors
unfolding claim_chat_comment seed_chat_cursor_monotonic
apply m (claim key id) = (claim_chat_comment m key id).0
apply m (seed key id) = seed_chat_cursor_monotonic m key id

unfoldable pub run : Cursors → List Event → Cursors
run m [] = m
run m (ev ∷ evs) = run (apply m ev) evs

-- The largest id that the events name for the pull request.
abbrev pub highest : PrKey → List Event → ℕ
highest key [] = 0
highest key (claim k id ∷ evs) = if key_eq k key then max id (highest key evs) else highest key evs
highest key (seed k id ∷ evs) = if key_eq k key then max id (highest key evs) else highest key evs

pub cursor-apply_claim :
    (m : Cursors) (k key : PrKey) (id : ℕ)
    → cursor (claim_chat_comment m k id).0 key
      ≡ (if key_eq k key then max (cursor m key) id else cursor m key)
unfolding claim_chat_comment
cursor-apply_claim m k key id =
    ground (arith, lookup-insert k key id m, lookup-insert k key (cursor m k) m, key_eq_iff k key)

pub cursor-apply_seed :
    (m : Cursors) (k key : PrKey) (id : ℕ)
    → cursor (seed_chat_cursor_monotonic m k id) key
      ≡ (if key_eq k key then max (cursor m key) id else cursor m key)
unfolding seed_chat_cursor_monotonic
cursor-apply_seed m k key id =
    ground (arith, lookup-insert k key id m, lookup-insert k key (cursor m k) m, key_eq_iff k key)

cursor-run :
    (m : Cursors) (evs : List Event) (key : PrKey)
    → cursor (run m evs) key ≡ max (cursor m key) (highest key evs)
unfolding run apply
cursor-run m [] key = omega arith
cursor-run m (claim k id ∷ evs) key =
    ground (arith, cursor-run (claim_chat_comment m k id).0 evs key, cursor-apply_claim m k key id)
cursor-run m (seed k id ∷ evs) key =
    ground
      (arith, cursor-run (seed_chat_cursor_monotonic m k id) evs key, cursor-apply_seed m k key id)

pub claim-answer :
    (m : Cursors) (key : PrKey) (id : ℕ) → (claim_chat_comment m key id).1 ≡ ltb (cursor m key) id
unfolding claim_chat_comment
claim-answer m key id = ground arith

cursor_empty : (key : PrKey) → cursor [] key ≡ 0
unfolding cursor lookup
cursor_empty key = refl

-- After any claims and seedings, by the webhook and the poller in any order, a claim wins exactly
-- if its id is above every id that was claimed or seeded for that pull request before, whether or
-- not the comment itself had been handled.
pub claim-highest :
    (evs : List Event) (key : PrKey) (id : ℕ)
    → (claim_chat_comment (run [] evs) key id).1 ≡ ltb (highest key evs) id
claim-highest evs key id =
    ground (arith, claim-answer (run [] evs) key id, cursor-run [] evs key, cursor_empty key)

-- Once a comment was claimed, with success or not, no later claim of it wins: it is dispatched at
-- most once as long as the pull request keeps its cursor.
claim_once :
    (m : Cursors) (evs : List Event) (key : PrKey) (id : ℕ)
    → (claim_chat_comment (run (claim_chat_comment m key id).0 evs) key id).1 ≡ false
claim_once m evs key id =
    let m' = (claim_chat_comment m key id).0 in
    ground (
      arith,
      claim-answer (run m' evs) key id,
      cursor-run m' evs key,
      cursor-apply_claim m key key id,
      beq_self {K = PrKey} key,
    )

pub cursor-none : (m : Cursors) (key : PrKey) → lookup key m ≡ none → cursor m key ≡ 0
unfolding cursor
cursor-none m key e = rw (e, cursor)

-- The pruning of `poll_once` forgets the cursor of a pull request that has no recorded review, so
-- a comment that was claimed there before can be claimed again.
claim-prune :
    (m : Cursors) (known : List PrKey) (key : PrKey) (id : ℕ)
    → member key known ≡ false
    → 0 < id
    → (claim_chat_comment
        (retain_keys (λ k. member k known) (claim_chat_comment m key id).0)
        key
        id).1
      ≡ true
claim-prune m known key id h pos =
    let m' = (claim_chat_comment m key id).0 in
    let pruned = retain_keys (λ k. member k known) m' in
    let gone = lookup-retain_keys (λ k. member k known) key m' in
    let none_left : cursor pruned key ≡ 0 = cursor-none pruned key (ground arith) in
    ground (arith, claim-answer pruned key id)

-- A claim or a seeding leaves its pull request with a cursor.
pub lookup-claim :
    (m : Cursors) (key : PrKey) (id : ℕ)
    → lookup key (claim_chat_comment m key id).0 ≡ some (max (cursor m key) id)
unfolding claim_chat_comment
lookup-claim m key id = ground (
  arith,
  lookup-insert key key id m,
  lookup-insert key key (cursor m key) m,
  beq_self {K = PrKey} key,
)

pub lookup-seed :
    (m : Cursors) (key : PrKey) (id : ℕ)
    → lookup key (seed_chat_cursor_monotonic m key id) ≡ some (max (cursor m key) id)
unfolding seed_chat_cursor_monotonic
lookup-seed m key id = ground (
  arith,
  lookup-insert key key id m,
  lookup-insert key key (cursor m key) m,
  beq_self {K = PrKey} key,
)

pub cursor-some : (m : Cursors) (key : PrKey) (c : ℕ) → lookup key m ≡ some c → cursor m key ≡ c
unfolding cursor
cursor-some m key c e = rw (e, cursor)
