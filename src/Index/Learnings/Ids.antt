-- ===== src/Index/Learnings/Ids.antt =====
-- crates/ar-index/src/learnings.rs: the ids of learnings.
use auto_review.Prelude.{
  ℕ, ◌+◌, ◌<◌, ◌≤◌, ◌≡◌, refl, Bool, true, false, not, List, [], ◌∷◌, ◌++◌, ok, err, any,
  any-append, length, ◌==◌, arith, Bool-cases, inl, inr, ◌⊎◌, ap, length-append, length-retain-le,
}
use auto_review.Prelude.Text.{Text}
use auto_review.Index.Learnings.{
  LearningSource, LearningRecord, not_found, InMemoryLearnings, new, add, remove, without,
}

-- What can happen to a store.
pub data Change (V : Type 0) : Type 0 where
  added : Text → LearningSource → V → ℕ → Change V
  removed : ℕ → Change V

module _ {V : Type 0} where
  -- The ids of the records are below the next one.
  abbrev pub AllBelow : ℕ → List (LearningRecord V) → Type 0
  AllBelow n [] = Unit {0}
  AllBelow n (r ∷ rs) = (r.id < n) × AllBelow n rs

  abbrev pub is_stored : ℕ → List (LearningRecord V) → Bool
  is_stored id = any (λ r. r.id == id)

  abbrev pub IsDistinct : List (LearningRecord V) → Type 0
  IsDistinct [] = Unit {0}
  IsDistinct (r ∷ rs) = (is_stored r.id rs ≡ false) × IsDistinct rs

  pub record IsValid (s : InMemoryLearnings V) : Type 0 where
    pub below : AllBelow s.next_id s.records
    pub distinct : IsDistinct s.records

  pub new-IsValid : IsValid (new {V = V})
  unfolding new
  new-IsValid = record { below = tt; distinct = tt }

  AllBelow-snoc :
      (n : ℕ) (rs : List (LearningRecord V)) (r : LearningRecord V)
      → AllBelow n rs
      → r.id ≡ n
      → AllBelow (n + 1) (rs ++ r ∷ [])
  AllBelow-snoc n [] r h e = (omega arith, tt)
  AllBelow-snoc n (x ∷ rs) r h e = (omega (arith, h.0), AllBelow-snoc n rs r h.1 e)

  fresh-not-stored : (n : ℕ) (rs : List (LearningRecord V)) → AllBelow n rs → is_stored n rs ≡ false
  fresh-not-stored n [] h = refl
  fresh-not-stored n (r ∷ rs) h = ground (arith, fresh-not-stored n rs)

  IsDistinct-snoc :
      (rs : List (LearningRecord V)) (r : LearningRecord V)
      → IsDistinct rs
      → is_stored r.id rs ≡ false
      → IsDistinct (rs ++ r ∷ [])
  IsDistinct-snoc [] r d h = (refl, tt)
  IsDistinct-snoc (x ∷ rs) r d h = (
    ground (arith, any-append (λ (y : LearningRecord V). y.id == x.id) rs (r ∷ [])),
    IsDistinct-snoc rs r d.1 (ground arith),
  )

  is_stored-without :
      (i j : ℕ) (rs : List (LearningRecord V))
      → is_stored i rs ≡ false
      → is_stored i (without j rs) ≡ false
  unfolding without
  is_stored-without i j [] h = refl
  is_stored-without i j (r ∷ rs) h = ground (arith, is_stored-without i j rs)

  AllBelow-without :
      (n id : ℕ) (rs : List (LearningRecord V)) → AllBelow n rs → AllBelow n (without id rs)
  unfolding without
  AllBelow-without n id [] h = tt
  AllBelow-without n id (r ∷ rs) h = ground (arith, AllBelow-without n id rs)

  IsDistinct-without :
      (id : ℕ) (rs : List (LearningRecord V)) → IsDistinct rs → IsDistinct (without id rs)
  unfolding without
  IsDistinct-without id [] d = tt
  IsDistinct-without id (r ∷ rs) d =
      ground (arith, IsDistinct-without id rs, is_stored-without r.id id rs)

  pub add-IsValid :
      (text : Text) (source : LearningSource) (v : V) (now : ℕ) (s : InMemoryLearnings V)
      → IsValid s
      → IsValid (add text source v now s).0
  unfolding add
  add-IsValid text source v now s valid = record {
    below = AllBelow-snoc s.next_id s.records _ valid.below refl;
    distinct =
        IsDistinct-snoc s.records _ valid.distinct
          (fresh-not-stored s.next_id s.records valid.below);
  }

  pub remove-IsValid : (id : ℕ) (s : InMemoryLearnings V) → IsValid s → IsValid (remove id s).0
  unfolding remove
  remove-IsValid id s valid =
      elim (Bool-cases (length (without id s.records) == length s.records)) [
        | inl same ↦ rw (same, remove) kept
        | inr other ↦ rw (other, remove) kept
      ]
    where
      kept : IsValid (record s { records = without id s.records })
      kept = record {
        below = AllBelow-without s.next_id id s.records valid.below;
        distinct = IsDistinct-without id s.records valid.distinct;
      }

  length-without :
      (id : ℕ) (rs : List (LearningRecord V))
      → (length (without id rs) == length rs) ≡ not (is_stored id rs)
  unfolding without
  length-without id [] = refl
  length-without id (r ∷ rs) = ground (
    arith,
    length-without id rs,
    length-retain-le (λ (x : LearningRecord V). not (x.id == id)) rs,
  )

  without_absent :
      (id : ℕ) (rs : List (LearningRecord V)) → is_stored id rs ≡ false → without id rs ≡ rs
  unfolding without
  without_absent id [] h = refl
  without_absent id (r ∷ rs) h = ground (arith, without_absent id rs)

  without_last :
      (rs : List (LearningRecord V)) (r : LearningRecord V)
      → is_stored r.id rs ≡ false
      → without r.id (rs ++ r ∷ []) ≡ rs
  unfolding without
  without_last [] r h = ground arith
  without_last (x ∷ rs) r h = ground (arith, without_last rs r)

  -- A removal succeeds exactly if a learning has the id; one that fails changes nothing.
  pub remove_lem :
      (id : ℕ) (s : InMemoryLearnings V)
      → ((is_stored id s.records ≡ true) × ((remove id s).1 ≡ ok tt))
        ⊎ ((is_stored id s.records ≡ false) × (remove id s ≡ (s, err (not_found id))))
  unfolding remove
  remove_lem id s = elim (Bool-cases (is_stored id s.records)) [
    | inl there ↦ inl (there, rw (length-without id s.records, there, remove) refl)
    | inr absent ↦ inr (
      absent,
      rw (length-without id s.records, absent, without_absent id s.records absent, remove) refl,
    )
  ]

  unfoldable pub change : Change V → InMemoryLearnings V → InMemoryLearnings V
  change (added text source v now) s = (add text source v now s).0
  change (removed id) s = (remove id s).0

  unfoldable pub change_all : List (Change V) → InMemoryLearnings V → InMemoryLearnings V
  change_all [] s = s
  change_all (c ∷ cs) s = change_all cs (change c s)

  -- The counter is never set back.
  change-le : (c : Change V) (s : InMemoryLearnings V) → s.next_id ≤ (change c s).next_id
  unfolding change add remove
  change-le (added text source v now) s = omega arith
  change-le (removed id) s = elim (Bool-cases (length (without id s.records) == length s.records)) [
    | inl same ↦ rw (same, change, remove) (omega arith)
    | inr other ↦ rw (other, change, remove) (omega arith)
  ]

  change_all-le :
      (cs : List (Change V)) (s : InMemoryLearnings V) → s.next_id ≤ (change_all cs s).next_id
  unfolding change_all
  change_all-le [] s = omega arith
  change_all-le (c ∷ cs) s = omega (arith, change-le c s, change_all-le cs (change c s))

  remove-last :
      (r : LearningRecord V) (s : InMemoryLearnings V)
      → is_stored r.id s.records ≡ false
      → remove r.id (record s { records = s.records ++ r ∷ [] }) ≡ (s, ok tt)
  unfolding remove
  remove-last r s fresh =
      let gone = without_last s.records r fresh in
      let longer = length-append s.records (r ∷ []) in ground (arith, gone, longer)

  add-shape :
      (text : Text) (source : LearningSource) (v : V) (now : ℕ) (s : InMemoryLearnings V)
      → (r : LearningRecord V) × ((add text source v now s).1 ≡ ok r)
        × (r ≡ record {
          id = s.next_id;
          text = text;
          source = source;
          embedding = v;
          created_at = now;
        })
        × ((add text source v now s).0
            ≡ record { next_id = s.next_id + 1; records = s.records ++ r ∷ [] })
  unfolding add
  add-shape text source v now s = (_, refl, refl, refl)

  add-id :
      (text : Text) (source : LearningSource) (v : V) (now : ℕ) (s : InMemoryLearnings V)
      (r : LearningRecord V)
      → (add text source v now s).1 ≡ ok r
      → r.id ≡ s.next_id
  unfolding add
  add-id text source v now s r h =
      let same : record {
        id = s.next_id;
        text = text;
        source = source;
        embedding = v;
        created_at = now;
      }
          ≡ r =
        cc in
      rw (← same) refl

  -- In a store whose ids are distinct and below its counter, a new learning is returned as it was
  -- given with an id that no learning has; removing it by that id gives the old records back; and
  -- whatever is added or removed afterwards, also ids that are not there, no later learning gets
  -- that id.
  pub remove-add :
      (text : Text) (source : LearningSource) (v : V) (now : ℕ) (s : InMemoryLearnings V)
      → IsValid s
      → (r : LearningRecord V) × ((add text source v now s).1 ≡ ok r)
        × (r.text ≡ text)
        × (r.source ≡ source)
        × (r.embedding ≡ v)
        × (r.created_at ≡ now)
        × (is_stored r.id s.records ≡ false)
        × (remove r.id (add text source v now s).0 ≡ (record s { next_id = s.next_id + 1 }, ok tt))
        × ((cs : List (Change V)) (text' : Text) (source' : LearningSource) (v' : V) (now' : ℕ)
              (r' : LearningRecord V)
            → (add text' source' v' now' (change_all cs (add text source v now s).0)).1 ≡ ok r'
            → r.id < r'.id)
  remove-add text source v now s valid =
      let (r, given, shape, stored) = add-shape text source v now s in
      let number : r.id ≡ s.next_id = ap (λ (x : LearningRecord V). x.id) shape in
      let fresh : is_stored r.id s.records ≡ false =
        rw number (fresh-not-stored s.next_id s.records valid.below) in
      (
        r,
        given,
        ap (λ (x : LearningRecord V). x.text) shape,
        ap (λ (x : LearningRecord V). x.source) shape,
        ap (λ (x : LearningRecord V). x.embedding) shape,
        ap (λ (x : LearningRecord V). x.created_at) shape,
        fresh,
        rw stored (remove-last r (record s { next_id = s.next_id + 1 }) fresh),
        λ cs text' source' v' now' r' later.
            let grown = change_all-le cs (add text source v now s).0 in
            let counter = ap (λ (x : InMemoryLearnings V). x.next_id) stored in
            let number' =
              add-id text' source' v' now' (change_all cs (add text source v now s).0) r' later in
            omega (arith, number, number', grown, counter),
      )
