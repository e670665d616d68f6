-- ===== src/Gateway/Poller/Again.antt =====
-- crates/ar-gateway/src/poller.rs: polling the same comments again.
use auto_review.Prelude.{
  ℕ, ◌≤◌, max, ◌≡◌, refl, inl, inr, true, false, some, List, [], ◌∷◌, leb, arith, Bool-cases,
  Option-cases,
}
use auto_review.Prelude.Text.{Text}
use auto_review.Prelude.Keys.{lookup}
use auto_review.Forge.{PrReviewComment}
use auto_review.Orchestrator.History.{PrKey, pr_key}
use auto_review.Gateway.Cursors.{cursor, lookup-claim, lookup-seed, cursor-some}
use auto_review.Gateway.Poller.{ChatPoller, Found, scan_one, scan, scan_pr}

-- No id is above `n`.
abbrev IsBelow : ℕ → List PrReviewComment → Type 0
IsBelow n [] = Unit {0}
IsBelow n (c ∷ cs) = (c.id ≤ n) × IsBelow n cs

IsBelow-mono : (n m : ℕ) (cs : List PrReviewComment) → n ≤ m → IsBelow n cs → IsBelow m cs
IsBelow-mono n m [] h b = tt
IsBelow-mono n m (c ∷ cs) h b = (omega arith, IsBelow-mono n m cs h b.1)

module _ (bot_login bot_name : Text) (key : PrKey) where
  scan_one_old :
      (c : ℕ) (x : PrReviewComment) (f : Found)
      → x.id ≤ c
      → scan_one bot_login bot_name key c false x f ≡ record f { max_seen = max f.max_seen x.id }
  unfolding scan_one
  scan_one_old c x f h = ground arith

  scan_old :
      (c : ℕ) (cs : List PrReviewComment) (f : Found)
      → IsBelow c cs
      → (scan bot_login bot_name key c false cs f).to_dispatch ≡ f.to_dispatch
  unfolding scan
  scan_old c [] f b = refl
  scan_old c (x ∷ xs) f b =
      rw (scan_one_old c x f b.0, scan)
        (scan_old c xs (record f { max_seen = max f.max_seen x.id }) b.1)

  -- One step neither loses the cursor nor lowers it, and leaves it at the comment or above.
  step_cursor :
      (c n : ℕ) (x : PrReviewComment) (f : Found)
      → lookup key f.cursors ≡ some n
      → c ≤ n
      → (m : ℕ) × (lookup key (scan_one bot_login bot_name key c false x f).cursors ≡ some m)
        × (n ≤ m)
        × (x.id ≤ m)
  unfolding scan_one
  step_cursor c n x f e h = elim (Bool-cases (leb x.id c)) [
    | inl old ↦ (n, rw (old, e), omega arith, ground arith)
    | inr new ↦
        let at = cursor-some f.cursors key n e in
        (
          max (cursor f.cursors key) x.id,
          ground (arith, lookup-claim f.cursors key x.id),
          ground arith,
          ground arith,
        )
  ]

  scan_cursor :
      (c n : ℕ) (cs : List PrReviewComment) (f : Found)
      → lookup key f.cursors ≡ some n
      → c ≤ n
      → (m : ℕ) × (lookup key (scan bot_login bot_name key c false cs f).cursors ≡ some m)
        × (n ≤ m)
        × IsBelow m cs
  unfolding scan
  scan_cursor c n [] f e h = (n, e, omega arith, tt)
  scan_cursor c n (x ∷ xs) f e h =
      let (k, e', up, over) = step_cursor c n x f e h in
      let (m, e'', up', below) =
        scan_cursor c k xs (scan_one bot_login bot_name key c false x f) e' (omega arith) in
      (m, e'', omega arith, (omega arith, below))

  first_max :
      (c : ℕ) (cs : List PrReviewComment) (f : Found)
      → (f.max_seen ≤ (scan bot_login bot_name key c true cs f).max_seen)
        × IsBelow (scan bot_login bot_name key c true cs f).max_seen cs
  unfolding scan scan_one
  first_max c [] f = (omega arith, tt)
  first_max c (x ∷ xs) f =
      let (up, below) = first_max c xs (record f { max_seen = max f.max_seen x.id }) in
      (omega arith, (omega arith, below))

-- Whatever was polled, and in whatever order the API lists the comments: the cursor that a poll
-- leaves behind covers every comment of it.
scan_pr_covers :
    (p : ChatPoller) (key : PrKey) (comments : List PrReviewComment)
    → (m : ℕ) × (lookup key (scan_pr p key comments).0 ≡ some m) × IsBelow m comments
unfolding scan_pr
scan_pr_covers p key comments = elim (Option-cases (lookup key p.cursors)) [
  | inr (c, e) ↦
      let start : Found = record { cursors = p.cursors; max_seen = c; to_dispatch = [] } in
      let (m, at, up, below) =
        scan_cursor p.bot_login p.bot_name key c c comments start e (omega arith) in
      (m, rw (e, scan_pr) at, below)
  | inl e ↦
      let start : Found = record { cursors = p.cursors; max_seen = 0; to_dispatch = [] } in
      let found = scan p.bot_login p.bot_name key 0 true comments start in
      let (up, below) = first_max p.bot_login p.bot_name key 0 comments start in
      (
        max (cursor found.cursors key) found.max_seen,
        rw (e, scan_pr) (lookup-seed found.cursors key found.max_seen),
        IsBelow-mono found.max_seen (max (cursor found.cursors key) found.max_seen) comments
            (omega arith) below,
      )
]

-- A poll that lists the same comments again dispatches none of them, whether the poll before saw
-- the pull request for the first time or not.
scan_pr_again :
    (p : ChatPoller) (key : PrKey) (comments : List PrReviewComment)
    → (scan_pr (record p { cursors = (scan_pr p key comments).0 }) key comments).1 ≡ []
scan_pr_again p key comments =
    let (m, at, below) = scan_pr_covers p key comments in
    let p' = record p { cursors = (scan_pr p key comments).0 } in again p' m at below
  where
    again :
        (q : ChatPoller) (m : ℕ)
        → lookup key q.cursors ≡ some m
        → IsBelow m comments
        → (scan_pr q key comments).1 ≡ []
    again q m e b =
        unfold scan_pr in
        (rw (e, scan_pr)
          (scan_old q.bot_login q.bot_name key m comments
            (record { cursors = q.cursors; max_seen = m; to_dispatch = [] }) b))
