-- ===== src/Tests/AgentCore.antt =====
-- crates/ar-agentcore/src/lib.rs: its theorems at concrete inputs.
use auto_review.Prelude.{◌↔◌, ℕ, ◌≡◌, ◌⊎◌, refl, true, [], ◌∷◌, some, none, Result, ok, err, arith}
use auto_review.Prelude.Text.{codes}
use auto_review.AgentCore.{
  forgejo, semantic_review, InvocationPayload, InvocationOutcome, InvocationError, idempotency_key,
  duplicate_outcome, AgentState, handle,
}
use auto_review.AgentCore.Keys.{IsPlain, Agrees, idempotency_key-injective}
use auto_review.AgentCore.Again.{invoke, run, invoke_again, Dispatches, handle-Dispatches}
use auto_review.Tests.Chat.Setup.{chat_parts}

abbrev payload : InvocationPayload
payload = record {
  provider = forgejo;
  kind = semantic_review;
  owner = codes "o";
  repo = codes "r";
  pr_number = 7;
  head_sha = codes "abc";
  installation_id = none;
  force = none;
  comment_id = none;
  comment_body = none;
}

abbrev forced : InvocationPayload
forced = record payload { force = some true; comment_body = some (codes "again") }

plain : IsPlain payload
plain = record {
  owner = refl;
  repo = refl;
  head_sha = refl;
  pr_number = omega arith;
  comment_id = tt;
}

forced_plain : IsPlain forced
forced_plain = record {
  owner = refl;
  repo = refl;
  head_sha = refl;
  pr_number = omega arith;
  comment_id = tt;
}

idempotency_key-injective_example :
    (idempotency_key payload ≡ idempotency_key forced) ↔ Agrees payload forced
idempotency_key-injective_example = idempotency_key-injective payload forced plain forced_plain

abbrev idle : AgentState ℕ
idle = record { host_state = 0; dispatched = [] }

abbrev review :
    InvocationPayload → AgentState ℕ → AgentState ℕ × Result InvocationError InvocationOutcome
review = handle chat_parts.get_pull_request

invoke_again_example :
    invoke review (ok forced) (run review (err [] ∷ []) (invoke review (ok payload) (idle, [])).0)
    ≡ (run review (err [] ∷ []) (invoke review (ok payload) (idle, [])).0, duplicate_outcome)
invoke_again_example =
    invoke_again review payload forced (err [] ∷ []) (idle, []) (unfold idempotency_key in refl)

handle-Dispatches_example :
    ((e : InvocationError) × ((handle chat_parts.get_pull_request payload idle).1 ≡ err e)
      × ((handle chat_parts.get_pull_request payload idle).0.dispatched ≡ []))
    ⊎ ((o : InvocationOutcome) × ((handle chat_parts.get_pull_request payload idle).1 ≡ ok o)
        × Dispatches chat_parts.get_pull_request payload idle
            (handle chat_parts.get_pull_request payload idle))
handle-Dispatches_example = handle-Dispatches chat_parts.get_pull_request payload idle
