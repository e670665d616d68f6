-- ===== src/Gateway/Dedup/Recent.antt =====
-- crates/ar-gateway/src/dedup.rs: which deliveries are duplicates, over sequences of them.
use auto_review.Prelude.{
  ℕ, ◌+◌, ◌≤◌, ◌<◌, ◌≡◌, refl, true, false, List, [], ◌∷◌, ◌++◌, append_assoc, inl, inr, arith, leb,
  length, length-append, Bool-cases,
}
use auto_review.Prelude.Text.{Text}
use auto_review.Prelude.Keys.{member, text_key, beq_self, member-append}
use auto_review.Gateway.Dedup.{RecentDeliveries, first_sight, duplicate, new, check_and_record}
use auto_review.Gateway.Dedup.Window.{
  IsValid, new-IsValid, room, window, not-member-room, check_and_record-window,
}

-- The id is in the queue, with at most `k` younger ones behind it.
abbrev pub IsRecent : ℕ → Text → List Text → Type 0
IsRecent k id order =
    (older : List Text) × (younger : List Text) × (order ≡ older ++ id ∷ younger)
    × (length younger ≤ k)

room_keeps :
    (cap k : ℕ) (id : Text) (order : List Text)
    → IsRecent k id order
    → k + 2 ≤ cap
    → IsRecent k id (room cap order)
unfolding room
room_keeps cap k id order ([], younger, e, n) h = ([], younger, rw e (ground arith), n)
room_keeps cap k id order (old ∷ older, younger, e, n) h =
    elim (Bool-cases (leb cap (length (old ∷ older ++ id ∷ younger)))) [
      | inl full ↦ (older, younger, rw e (ground arith), n)
      | inr free ↦ (old ∷ older, younger, rw e (ground arith), n)
    ]

window_keeps :
    (cap k : ℕ) (id x : Text) (order : List Text)
    → IsRecent k id order
    → k + 2 ≤ cap
    → IsRecent (k + 1) id (window cap order x).0
window_keeps cap k id x order r h = elim (Bool-cases (member x order)) [
  | inl seen ↦ rw seen (r.0, r.1, r.2, omega arith)
  | inr fresh ↦
      let (older, younger, e, n) = room_keeps cap k id order r h in
      rw fresh (
        older,
        younger ++ x ∷ [],
        rw e (append_assoc older (id ∷ younger) (x ∷ [])),
        omega (arith, length-append younger (x ∷ [])),
      )
]

-- A sequence of deliveries, with the answers dropped.
unfoldable pub run : RecentDeliveries → List Text → RecentDeliveries
run s [] = s
run s (id ∷ ids) = run (check_and_record s id).0 ids

pub in_window :
    (s : RecentDeliveries) (id : Text)
    → IsValid s
    → member id s.order ≡ true
    → (check_and_record s id).1 ≡ duplicate
in_window s id v h = let (_, _, _, answer) = check_and_record-window s id v in ground arith

member_recent :
    (k : ℕ) (id : Text) (order : List Text) → IsRecent k id order → member id order ≡ true
member_recent k id order (older, younger, e, n) =
    rw (e, member-append id older (id ∷ younger)) (ground (arith, beq_self id))

run_recent :
    (s : RecentDeliveries) (k : ℕ) (id : Text) (ids : List Text)
    → IsValid s
    → IsRecent k id s.order
    → k + length ids + 1 ≤ s.capacity
    → (check_and_record (run s ids) id).1 ≡ duplicate
unfolding run
run_recent s k id [] v r h = in_window s id v (member_recent k id s.order r)
run_recent s k id (x ∷ xs) v r h =
    let (v', cap, order, _) = check_and_record-window s x v in
    let r' = window_keeps s.capacity k id x s.order r (omega arith) in
    run_recent (check_and_record s x).0 (k + 1) id xs v' (rw order r') (omega arith)

-- Once a delivery has been let through, the same id is a duplicate as long as fewer other
-- deliveries than the capacity have come in between.
pub recent_duplicate :
    (s : RecentDeliveries) (id : Text) (ids : List Text)
    → IsValid s
    → (check_and_record s id).1 ≡ first_sight
    → length ids < s.capacity
    → (check_and_record (run (check_and_record s id).0 ids) id).1 ≡ duplicate
recent_duplicate s id ids v first h =
    let (v', cap, order, answer) = check_and_record-window s id v in
    let fresh : member id s.order ≡ false = ground arith in
    let placed : (check_and_record s id).0.order ≡ room s.capacity s.order ++ id ∷ [] =
      ground arith in
    run_recent (check_and_record s id).0 0 id ids v'
      (room s.capacity s.order, [], placed, omega arith) (omega arith)

run_absent :
    (s : RecentDeliveries) (id : Text) (ids : List Text)
    → IsValid s
    → member id s.order ≡ false
    → member id ids ≡ false
    → (check_and_record (run s ids) id).1 ≡ first_sight
unfolding run
run_absent s id [] v h k = let (_, _, _, answer) = check_and_record-window s id v in ground arith
run_absent s id (x ∷ xs) v h k =
    let (v', cap, order, _) = check_and_record-window s x v in
    run_absent (check_and_record s x).0 id xs v'
      (ground (
        arith,
        not-member-room s.capacity s.order id,
        member-append id (room s.capacity s.order) (x ∷ []),
      ))
      (ground arith)

-- No delivery is dropped by mistake: an id that was not delivered before is let through.
new_delivery :
    (capacity : ℕ) (id : Text) (ids : List Text)
    → member id ids ≡ false
    → (check_and_record (run (new capacity) ids) id).1 ≡ first_sight
new_delivery capacity id ids h =
    run_absent (new capacity) id ids (new-IsValid capacity) (unfold new in refl) h
