-- ===== src/Gateway/Poller/Scan.antt =====
-- crates/ar-gateway/src/poller.rs: which comments one scan of a pull request dispatches.
use auto_review.Prelude.{
  ℕ, ◌≤◌, ◌<◌, max, ◌≡◌, refl, sym, inl, inr, true, false, List, [], ◌∷◌, ◌++◌, append_assoc,
  append-nil, arith, map, retain, Bool-cases, ltb, ◌&&◌,
}
use auto_review.Prelude.Text.{Text}
use auto_review.Forge.{PrReviewComment}
use auto_review.Orchestrator.History.{PrKey, pr_key}
use auto_review.Prelude.Keys.{beq_self}
use auto_review.Gateway.Cursors.{cursor, claim-answer, cursor-apply_claim}
use auto_review.Gateway.Poller.{Found, is_relevant, scan_one, scan}

-- Ids above `n`, each above the one before.
abbrev pub IsAscending : ℕ → List PrReviewComment → Type 0
IsAscending n [] = Unit {0}
IsAscending n (c ∷ cs) = (n < c.id) × IsAscending c.id cs

module _ (bot_login bot_name : Text) (key : PrKey) where
  -- At first sight of a pull request nothing is dispatched and no cursor moves.
  pub scan_first :
      (c : ℕ) (cs : List PrReviewComment) (f : Found)
      → ((scan bot_login bot_name key c true cs f).to_dispatch ≡ f.to_dispatch)
        × ((scan bot_login bot_name key c true cs f).cursors ≡ f.cursors)
  unfolding scan scan_one
  scan_first c [] f = (refl, refl)
  scan_first c (x ∷ xs) f = scan_first c xs (record f { max_seen = max f.max_seen x.id })

  -- One comment above both cursors.
  scan_one_new :
      (c n : ℕ) (x : PrReviewComment) (f : Found)
      → cursor f.cursors key ≡ n
      → c ≤ n
      → n < x.id
      → ((scan_one bot_login bot_name key c false x f).to_dispatch
          ≡ f.to_dispatch ++ map (λ y. y.id) (retain (is_relevant bot_login bot_name) (x ∷ [])))
        × (cursor (scan_one bot_login bot_name key c false x f).cursors key ≡ x.id)
  unfolding scan_one
  scan_one_new c n x f e h k =
      let won = claim-answer f.cursors key x.id in
      let moved = cursor-apply_claim f.cursors key key x.id in
      ground (arith, beq_self {K = PrKey} key, append-nil f.to_dispatch)

  -- Of comments that are all new, those that are somebody else's and mention the bot.
  scan_all_new :
      (c n : ℕ) (cs : List PrReviewComment) (f : Found)
      → cursor f.cursors key ≡ n
      → c ≤ n
      → IsAscending n cs
      → (scan bot_login bot_name key c false cs f).to_dispatch
        ≡ f.to_dispatch ++ map (λ y. y.id) (retain (is_relevant bot_login bot_name) cs)
  unfolding scan
  scan_all_new c n [] f e h a = sym (append-nil f.to_dispatch)
  scan_all_new c n (x ∷ xs) f e h a =
      let (sent, moved) = scan_one_new c n x f e h a.0 in
      let rest =
        scan_all_new c x.id xs (scan_one bot_login bot_name key c false x f) moved (omega arith)
          a.1 in
      elim (Bool-cases (is_relevant bot_login bot_name x)) [
        | inl good ↦
            let sent' : (scan_one bot_login bot_name key c false x f).to_dispatch
                ≡ f.to_dispatch ++ x.id ∷ [] =
              rw good at sent in
            rw (rest, sent', good)
              (append_assoc f.to_dispatch (x.id ∷ [])
                (map (λ y. y.id) (retain (is_relevant bot_login bot_name) xs)))
        | inr bad ↦
            let sent' : (scan_one bot_login bot_name key c false x f).to_dispatch
                ≡ f.to_dispatch ++ [] =
              rw bad at sent in
            rw (rest, sent', bad, append-nil f.to_dispatch)
      ]

  retain_new :
      (n : ℕ) (cs : List PrReviewComment)
      → IsAscending n cs
      → retain (λ y. ltb n y.id && is_relevant bot_login bot_name y) cs
        ≡ retain (is_relevant bot_login bot_name) cs
  retain_new n [] a = refl
  retain_new n (x ∷ xs) a =
      ground (arith, a.0, retain_new n xs (later n x.id xs (omega (arith, a.0)) a.1))
    where
      later : (n m : ℕ) (cs : List PrReviewComment) → n ≤ m → IsAscending m cs → IsAscending n cs
      later n m [] h a = tt
      later n m (y ∷ ys) h a = (omega (arith, a.0), a.1)

  -- One comment that is not above the cursor of the map.
  scan_one_stale :
      (c n : ℕ) (x : PrReviewComment) (f : Found)
      → cursor f.cursors key ≡ n
      → x.id ≤ n
      → ((scan_one bot_login bot_name key c false x f).to_dispatch ≡ f.to_dispatch)
        × (cursor (scan_one bot_login bot_name key c false x f).cursors key ≡ n)
  unfolding scan_one
  scan_one_stale c n x f e k =
      let won = claim-answer f.cursors key x.id in
      let moved = cursor-apply_claim f.cursors key key x.id in
      ground (arith, beq_self {K = PrKey} key)

  -- A later scan, of a listing in the order of the ids that begins anywhere, dispatches exactly the
  -- comments above the cursor that are somebody else's and mention the bot, each once and in that
  -- order; those at the cursor or below it, from earlier scans, are passed over.
  pub scan_new :
      (c n m : ℕ) (cs : List PrReviewComment) (f : Found)
      → cursor f.cursors key ≡ n
      → c ≤ n
      → IsAscending m cs
      → (scan bot_login bot_name key c false cs f).to_dispatch
        ≡ f.to_dispatch
          ++ map (λ y. y.id) (retain (λ y. ltb n y.id && is_relevant bot_login bot_name y) cs)
  unfolding scan
  scan_new c n m [] f e h a = sym (append-nil f.to_dispatch)
  scan_new c n m (x ∷ xs) f e h a = elim (Bool-cases (ltb n x.id)) [
    | inl new ↦
        let above : IsAscending n (x ∷ xs) = (ground arith, a.1) in
        rw (retain_new n (x ∷ xs) above) (scan_all_new c n (x ∷ xs) f e h above)
    | inr old ↦
        let (sent, kept) = scan_one_stale c n x f e (ground arith) in
        let rest = scan_new c n x.id xs (scan_one bot_login bot_name key c false x f) kept h a.1 in
        rw (old, rest, sent) refl
  ]
