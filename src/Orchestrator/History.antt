-- ===== src/Orchestrator/History.antt =====
-- crates/ar-orchestrator/src/review_history.rs: the last reviewed SHA of each pull request.
use auto_review.Prelude.{
  ℕ, ◌≡◌, ◌↔◌, Bool, true, ◌&&◌, Option, none, some, List, map, arith, ◌==◌, ==_iff, if◌then◌else◌,
}
use auto_review.Prelude.Text.{Text, text_eq, text_eq_iff}
use auto_review.Prelude.Keys.{Eq, lookup, insert, remove, lookup-insert, lookup-remove}

pub record PrKey : Type 0 where
  pub owner : Text
  pub repo : Text
  pub pr_number : ℕ

unfoldable pub key_eq : PrKey → PrKey → Bool
key_eq a b = text_eq a.owner b.owner && text_eq a.repo b.repo && a.pr_number == b.pr_number

pub key_eq_iff : (a b : PrKey) → (key_eq a b ≡ true) ↔ (a ≡ b)
unfolding key_eq
key_eq_iff a b =
    ground (
      arith,
      text_eq_iff a.owner b.owner,
      text_eq_iff a.repo b.repo,
      ==_iff a.pr_number b.pr_number,
    )

instance abbrev pub pr_key : Eq PrKey
pr_key = record { beq = key_eq; beq_iff = key_eq_iff }

-- `InMemoryReviewHistory`: the map under its mutex.
abbrev pub History : Type 0
History = List (PrKey × Text)

unfoldable pub last_reviewed : History → PrKey → Option Text
last_reviewed h key = lookup key h

unfoldable pub record_review : History → PrKey → Text → History
record_review h key sha = insert key sha h

-- The default of `record_with_cost`: the cost is dropped.
unfoldable pub record_with_cost {ℓ} : {Cost : Type ℓ} → History → PrKey → Text → Cost → History
unfolding record_review
record_with_cost h key sha cost = record_review h key sha

unfoldable pub clear : History → PrKey → History
clear h key = remove key h

unfoldable pub list_known : History → List PrKey
list_known h = map (λ e. e.0) h

-- A record or a clear changes what is read for its own pull request and for no other.
last_reviewed-record_review :
    (h : History) (key other : PrKey) (sha : Text)
    → (last_reviewed (record_review h key sha) other
        ≡ (if key_eq key other then some sha else last_reviewed h other))
      × (last_reviewed (clear h key) other
          ≡ (if key_eq key other then none else last_reviewed h other))
unfolding last_reviewed record_review clear
last_reviewed-record_review h key other sha =
    (lookup-insert key other sha h, lookup-remove key other h)
