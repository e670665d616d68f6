-- ===== src/AgentCore/Again.antt =====
-- crates/ar-agentcore/src/lib.rs: what becomes of an invocation that comes again.
use auto_review.Prelude.{
  ◌≡◌, refl, ap, ◌∙◌, ◌⊎◌, inl, inr, Bool, true, false, Option, none, some, List, [], ◌∷◌, ◌++◌,
  Result, ok, err, arith, Bool-cases,
}
use auto_review.Prelude.Text.{Text, text_eq, text_eq_iff}
use auto_review.Prelude.Keys.{member, text_key, beq_self}
use auto_review.Forge.{HostError, PullRequestSummary}
use auto_review.Review.Host.{PrRef}
use auto_review.Orchestrator.Jobs.{ReviewJob}
use auto_review.AgentCore.{
  InvocationKind, semantic_review, chat_command, InvocationPayload, idempotency_key,
  InvocationOutcome, InvocationError, Handled, duplicate_outcome, claim, AgentState, job_of,
  on_pull_request, handle, after_claim, invocations_with_idempotency,
}

module _ {S : Type 0}
    (handler : InvocationPayload → S → S × Result InvocationError InvocationOutcome) where
  abbrev pub invoke : Result Text InvocationPayload → S × List Text → (S × List Text) × Handled
  invoke = invocations_with_idempotency handler claim

  -- Requests one after the other, with the answers dropped.
  unfoldable pub run : List (Result Text InvocationPayload) → S × List Text → S × List Text
  run [] s = s
  run (r ∷ rs) s = run rs (invoke r s).0

  claim-member :
      (key : Text) (seen : List Text)
      → (member key (claim key seen).0 ≡ true)
        × ((other : Text) → member other seen ≡ true → member other (claim key seen).0 ≡ true)
  unfolding claim
  claim-member key seen = elim (Bool-cases (member key seen)) [
    | inl old ↦ rw old (old, λ other h. h)
    | inr new ↦ rw new (ground (arith, beq_self key), λ other h. ground arith)
  ]

  after_claim-seen :
      (p : InvocationPayload) (s : S) (c : List Text × Result Text Bool)
      → (after_claim handler claim p s c).0.1 ≡ c.0
  unfolding after_claim
  after_claim-seen p s (c, err e) = refl
  after_claim-seen p s (c, ok false) = refl
  after_claim-seen p s (c, ok true) = refl

  invoke-member :
      (r : Result Text InvocationPayload) (s : S × List Text) (key : Text)
      → member key s.1 ≡ true
      → member key (invoke r s).0.1 ≡ true
  unfolding invocations_with_idempotency
  invoke-member (err text) (s, seen) key h = h
  invoke-member (ok p) (s, seen) key h =
      let k = idempotency_key p in
      rw (after_claim-seen p s (claim k seen)) ((claim-member k seen).1 key h)

  run-member :
      (rs : List (Result Text InvocationPayload)) (s : S × List Text) (key : Text)
      → member key s.1 ≡ true
      → member key (run rs s).1 ≡ true
  unfolding run
  run-member [] s key h = h
  run-member (r ∷ rs) s key h = run-member rs (invoke r s).0 key (invoke-member r s key h)

  invoke_seen :
      (p : InvocationPayload) (s : S × List Text)
      → member (idempotency_key p) s.1 ≡ true
      → invoke (ok p) s ≡ (s, duplicate_outcome)
  unfolding invocations_with_idempotency
  invoke_seen p (s, seen) h =
      ap (after_claim handler claim p s) (claimed h) ∙ unfold after_claim in refl
    where
      claimed :
          member (idempotency_key p) seen ≡ true → claim (idempotency_key p) seen ≡ (seen, ok false)
      claimed m = unfold claim in rw m refl

  -- With the claims in memory, an invocation whose key came before is answered as a duplicate and
  -- changes nothing, whatever the answer to the first one was, an error included, whatever came in between, and whether or
  -- not the second one is forced.
  pub invoke_again :
      (p q : InvocationPayload) (rs : List (Result Text InvocationPayload)) (s : S × List Text)
      → idempotency_key q ≡ idempotency_key p
      → invoke (ok q) (run rs (invoke (ok p) s).0) ≡ (run rs (invoke (ok p) s).0, duplicate_outcome)
  invoke_again p q rs (s, seen) e =
      invoke_seen q (run rs (invoke (ok p) (s, seen)).0)
        (rw e (run-member rs (invoke (ok p) (s, seen)).0 (idempotency_key p) first))
    where
      first : member (idempotency_key p) (invoke (ok p) (s, seen)).0.1 ≡ true
      first =
          unfold invocations_with_idempotency in
          rw (after_claim-seen p s (claim (idempotency_key p) seen))
            (claim-member (idempotency_key p) seen).0

module _ {H : Type 0} (get_pull_request : PrRef → H → H × Result HostError PullRequestSummary) where
  abbrev pub is_forced : Option Bool → Bool
  is_forced (some true) = true
  is_forced _ = false

  -- What a job takes from the invocation and from the pull request.
  abbrev pub IsJobFor : InvocationPayload → PullRequestSummary → ReviewJob → Type 0
  IsJobFor p pr job =
      (job.owner ≡ p.owner)
      × (job.repo ≡ p.repo)
      × (job.pr_number ≡ p.pr_number)
      × (job.head_sha ≡ p.head_sha)
      × (job.pr_title ≡ pr.title)
      × (job.pr_body ≡ pr.body)
      × (job.force ≡ is_forced p.force)

  -- The one job that a review of the current head takes.
  abbrev pub Dispatches :
      InvocationPayload
      → AgentState H
      → AgentState H × Result InvocationError InvocationOutcome
      → Type 0
  Dispatches p s r =
      (pr : PullRequestSummary) × ((get_pull_request
          (record { owner = p.owner; repo = p.repo; pr_number = p.pr_number }) s.host_state).1
        ≡ ok pr)
      × (pr.head.sha ≡ p.head_sha)
      × (p.kind ≡ semantic_review)
      × ((job : ReviewJob) × (r.0.dispatched ≡ s.dispatched ++ job ∷ []) × IsJobFor p pr job)

  job_of-IsJobFor : (p : InvocationPayload) (pr : PullRequestSummary) → IsJobFor p pr (job_of p pr)
  unfolding job_of
  job_of-IsJobFor p pr = (refl, refl, refl, refl, refl, refl, forced p.force)
    where
      forced : (o : Option Bool) → elim o [ none ↦ false | some f ↦ f ] ≡ is_forced o
      forced none = refl
      forced (some true) = refl
      forced (some false) = refl

  on_pull_request_lem :
      (p : InvocationPayload) (s : AgentState H) (a : H × Result HostError PullRequestSummary)
      → ((e : InvocationError) × ((on_pull_request get_pull_request p s a).1 ≡ err e)
          × ((on_pull_request get_pull_request p s a).0.dispatched ≡ s.dispatched))
        ⊎ ((o : InvocationOutcome) × ((on_pull_request get_pull_request p s a).1 ≡ ok o)
            × ((pr : PullRequestSummary) × (a.1 ≡ ok pr)
                × (pr.head.sha ≡ p.head_sha)
                × ((job : ReviewJob) × ((on_pull_request get_pull_request p s a).0.dispatched
                      ≡ s.dispatched ++ job ∷ [])
                    × IsJobFor p pr job)))
  unfolding on_pull_request
  on_pull_request_lem p s (h, err x) = inl (_, refl, refl)
  on_pull_request_lem p s (h, ok pr) = elim (Bool-cases (text_eq pr.head.sha p.head_sha)) [
    | inl same ↦
        simp (same, on_pull_request)
          (inr (
            _,
            refl,
            (
              pr,
              refl,
              (text_eq_iff pr.head.sha p.head_sha).0 same,
              (job_of p pr, refl, job_of-IsJobFor p pr),
            ),
          ))
    | inr stale ↦ simp (stale, on_pull_request) (inl (_, refl, refl))
  ]

  kind-cases : (k : InvocationKind) → (k ≡ chat_command) ⊎ (k ≡ semantic_review)
  kind-cases chat_command = inl refl
  kind-cases semantic_review = inr refl

  -- An invocation either fails and dispatches nothing, or it asks for a semantic review of the
  -- commit that the host reports as the head, and dispatches exactly one job, for that commit of
  -- that pull request, forced if the invocation is.
  pub handle-Dispatches :
      (p : InvocationPayload) (s : AgentState H)
      → ((e : InvocationError) × ((handle get_pull_request p s).1 ≡ err e)
          × ((handle get_pull_request p s).0.dispatched ≡ s.dispatched))
        ⊎ ((o : InvocationOutcome) × ((handle get_pull_request p s).1 ≡ ok o)
            × Dispatches p s (handle get_pull_request p s))
  unfolding handle
  handle-Dispatches p s = elim (kind-cases p.kind) [
    | inl chat ↦ simp (chat, handle) (inl (_, refl, refl))
    | inr review ↦
        let a =
          get_pull_request (record { owner = p.owner; repo = p.repo; pr_number = p.pr_number })
            s.host_state in
        simp (review, handle)
          (elim (on_pull_request_lem p s a) [
            | inl failed ↦ inl failed
            | inr (o, answered, (pr, found, same, job)) ↦
                inr (o, answered, (pr, found, same, refl, job))
          ])
  ]
