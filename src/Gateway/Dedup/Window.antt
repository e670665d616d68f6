-- ===== src/Gateway/Dedup/Window.antt =====
-- crates/ar-gateway/src/dedup.rs: the store is a window on the deliveries let through.
use auto_review.Prelude.{
  ℕ, ◌+◌, ◌≤◌, ◌≡◌, refl, ap, ◌∙◌, true, false, List, [], ◌∷◌, ◌++◌, inl, inr, arith, leb,
  if◌then◌else◌, length, length-append, Bool-cases,
}
use auto_review.Prelude.Text.{Text}
use auto_review.Prelude.Keys.{member, text_key, member-append, member-discard}
use auto_review.Gateway.Dedup.{
  RecentDeliveries, CheckResult, first_sight, duplicate, new, evict, check_and_record,
}

-- No id stands twice.
abbrev pub IsDistinct : List Text → Type 0
IsDistinct [] = Unit {0}
IsDistinct (x ∷ xs) = (member x xs ≡ false) × IsDistinct xs

pub record IsValid (s : RecentDeliveries) : Type 0 where
  pub positive : 1 ≤ s.capacity
  pub bounded : length s.order ≤ s.capacity
  pub distinct : IsDistinct s.order
  pub same : (id : Text) → member id s.ids ≡ member id s.order

pub new-IsValid : (capacity : ℕ) → IsValid (new capacity)
unfolding new
new-IsValid capacity = record {
  positive = omega arith;
  bounded = omega arith;
  distinct = tt;
  same = λ id. refl;
}

IsDistinct-snoc :
    (xs : List Text) (x : Text) → IsDistinct xs → member x xs ≡ false → IsDistinct (xs ++ x ∷ [])
IsDistinct-snoc [] x d h = (refl, tt)
IsDistinct-snoc (y ∷ ys) x d h = ground (
  arith,
  member-append y ys (x ∷ []),
  IsDistinct-snoc ys x,
  text_key.beq_iff x y,
  text_key.beq_iff y x,
)

-- After the oldest id is dropped there is room for one more.
evict-IsValid :
    (s : RecentDeliveries) (order : List Text)
    → s.order ≡ order
    → IsValid s
    → IsValid (evict s order)
      × (length (evict s order).order + 1 ≤ s.capacity)
      × ((evict s order).capacity ≡ s.capacity)
unfolding evict
evict-IsValid s [] e v = (v, rw e (omega (arith, v.positive)), refl)
evict-IsValid s (old ∷ rest) e v = (
  record {
    positive = v.positive;
    bounded = omega (arith, fits);
    distinct = apart.1;
    same = λ id. ground (
      arith,
      member-discard id old s.ids,
      v.same id,
      agree id,
      apart.0,
      text_key.beq_iff old id,
      text_key.beq_iff id old,
      λ (q : old ≡ id). ap (λ (t : Text). member t rest) q,
    );
  },
  omega (arith, fits),
  refl,
)
  where
    fits : length (old ∷ rest) ≤ s.capacity
    fits = rw e at v.bounded

    apart : IsDistinct (old ∷ rest)
    apart = rw e at v.distinct

    agree : (id : Text) → member id s.order ≡ member id (old ∷ rest)
    agree id = ap (member id) e

push-IsValid :
    (s : RecentDeliveries) (id : Text)
    → IsValid s
    → length s.order + 1 ≤ s.capacity
    → member id s.order ≡ false
    → IsValid (record s { ids = id ∷ s.ids; order = s.order ++ id ∷ [] })
push-IsValid s id v room fresh = record {
  positive = v.positive;
  bounded = omega (arith, length-append s.order (id ∷ []));
  distinct = IsDistinct-snoc s.order id v.distinct fresh;
  same = λ x. ground (arith, member-append x s.order (id ∷ []), v.same x);
}

-- The abstract store: a queue of at most `cap` ids, oldest first, with no set beside it.
unfoldable pub room : ℕ → List Text → List Text
room cap [] = []
room cap (old ∷ rest) = if leb cap (length (old ∷ rest)) then rest else old ∷ rest

abbrev pub window : ℕ → List Text → Text → List Text × CheckResult
window cap order id =
    if member id order then (order, duplicate) else (room cap order ++ id ∷ [], first_sight)

make_room : RecentDeliveries → RecentDeliveries
make_room s = if leb s.capacity (length s.order) then evict s s.order else s

evict-room :
    (s : RecentDeliveries) (order : List Text)
    → s.order ≡ order
    → (if leb s.capacity (length order) then evict s order else s).order ≡ room s.capacity order
unfolding evict room
evict-room s [] e = ground arith
evict-room s (old ∷ rest) e = ground arith

make_room-order : (s : RecentDeliveries) → (make_room s).order ≡ room s.capacity s.order
unfolding make_room
make_room-order s = evict-room s s.order refl

pub not-member-room :
    (cap : ℕ) (order : List Text) (id : Text)
    → member id order ≡ false
    → member id (room cap order) ≡ false
unfolding room
not-member-room cap [] id h = h
not-member-room cap (old ∷ rest) id h = ground arith

make_room-IsValid :
    (s : RecentDeliveries)
    → IsValid s
    → IsValid (make_room s)
      × (length (make_room s).order + 1 ≤ s.capacity)
      × ((make_room s).capacity ≡ s.capacity)
unfolding make_room
make_room-IsValid s v = elim (Bool-cases (leb s.capacity (length s.order))) [
  | inl full ↦ rw full (evict-IsValid s s.order refl v)
  | inr free ↦ rw free (v, ground arith, refl)
]

record_fresh :
    (s : RecentDeliveries) (id : Text)
    → member id s.ids ≡ false
    → (check_and_record s id).0 ≡ record (make_room s) {
      ids = id ∷ (make_room s).ids;
      order = (make_room s).order ++ id ∷ [];
    }
unfolding check_and_record make_room
record_fresh s id h = rw h

answer_fresh :
    (s : RecentDeliveries) (id : Text)
    → member id s.ids ≡ false
    → (check_and_record s id).1 ≡ first_sight
unfolding check_and_record
answer_fresh s id h = rw h

seen_window :
    (s : RecentDeliveries) (id : Text)
    → IsValid s
    → member id s.order ≡ true
    → IsValid (check_and_record s id).0
      × ((check_and_record s id).0.capacity ≡ s.capacity)
      × ((check_and_record s id).0.order ≡ (window s.capacity s.order id).0)
      × ((check_and_record s id).1 ≡ (window s.capacity s.order id).1)
unfolding check_and_record
seen_window s id v seen = let seen' = v.same id ∙ seen in rw (seen', seen) (v, refl, refl, refl)

order_absent :
    (s : RecentDeliveries) (id : Text)
    → member id s.order ≡ false
    → member id (make_room s).order ≡ false
order_absent s id h = rw (make_room-order s) (not-member-room s.capacity s.order id h)

-- A delivery is answered by the window of the last ids let through: it is a duplicate exactly if
-- its id is in the window, and the set and the queue go on agreeing on a window of distinct ids
-- that is no longer than the capacity.
pub check_and_record-window :
    (s : RecentDeliveries) (id : Text)
    → IsValid s
    → IsValid (check_and_record s id).0
      × ((check_and_record s id).0.capacity ≡ s.capacity)
      × ((check_and_record s id).0.order ≡ (window s.capacity s.order id).0)
      × ((check_and_record s id).1 ≡ (window s.capacity s.order id).1)
check_and_record-window s id v = elim (Bool-cases (member id s.order)) [
  | inl seen ↦ seen_window s id v seen
  | inr fresh ↦
      let fresh' : member id s.ids ≡ false = v.same id ∙ fresh in
      let (valid, space, cap) = make_room-IsValid s v in
      let order = make_room-order s in
      let absent : member id (make_room s).order ≡ false = order_absent s id fresh in
      rw (record_fresh s id fresh', answer_fresh s id fresh', fresh)
        (
          push-IsValid (make_room s) id valid (omega arith) absent,
          cap,
          ap (λ (o : List Text). o ++ id ∷ []) order,
          refl,
        )
]
