-- ===== src/Gateway/Webhook/Authentic.antt =====
-- crates/ar-gateway/src/webhook.rs: signatures and redeliveries.
use auto_review.Prelude.{
  ◌≡◌, ◌∙◌, inl, inr, some, ok, arith, Option-cases, Result-cases, Bool-cases, ◌≤◌,
}
use auto_review.Prelude.Text.{Text, codes}
use auto_review.Gateway.Hmac.{Crypto, verify}
use auto_review.Gateway.Webhook.State.{AppState, Request, Decoder, header, reject}
use auto_review.Gateway.Webhook.{CiReviewRequest, throttle, authenticate, handle}
use auto_review.Gateway.Webhook.Effects.{
  HandsOver, HandsOver-from, deliver-HandsOver, throttle_keeps,
}

-- The request carries a signature that verifies under the state's secret.
abbrev pub IsAuthentic : Crypto → AppState → Request → Type 0
IsAuthentic c s req =
    (sig : Text) × (header req.headers (codes "x-forgejo-signature") (codes "x-gitea-signature")
      ≡ some sig)
    × (verify c s.webhook_secret req.body sig ≡ ok tt)

authenticate_rejects :
    (c : Crypto) (d : Decoder CiReviewRequest) (s : AppState) (req : Request)
    → (¬ IsAuthentic c s req)
    → ((authenticate c d s req).0.log ≡ s.log)
      × ((authenticate c d s req).0.webhook_dedup ≡ s.webhook_dedup)
      × ((authenticate c d s req).0.chat_comment_cursors ≡ s.chat_comment_cursors)
      × (400 ≤ (authenticate c d s req).1.status)
unfolding authenticate
authenticate_rejects c d s req no_sig =
    elim (Option-cases
      (header req.headers (codes "x-forgejo-signature") (codes "x-gitea-signature"))) [
        | inl e ↦ ground arith
        | inr (sig, e) ↦ elim (Result-cases (verify c s.webhook_secret req.body sig)) [
          | inl (u, f) ↦ absurd (no_sig (sig, e, f))
          | inr (x, f) ↦ ground arith
        ]
      ]

authenticate-HandsOver :
    (c : Crypto) (d : Decoder CiReviewRequest) (s : AppState) (req : Request)
    → HandsOver s (authenticate c d s req).0
unfolding authenticate
authenticate-HandsOver c d s req =
    elim (Option-cases
      (header req.headers (codes "x-forgejo-signature") (codes "x-gitea-signature"))) [
        | inl e ↦ inl (ground arith)
        | inr (sig, e) ↦ elim (Result-cases (verify c s.webhook_secret req.body sig)) [
          | inl (u, f) ↦ rw (e, f, authenticate) (deliver-HandsOver d s req)
          | inr (x, f) ↦ inl (ground arith)
        ]
      ]

module _ (c : Crypto) (d : Decoder CiReviewRequest) (s : AppState) (req : Request) where
  -- A request whose signature is missing or does not verify is answered with an error, starts
  -- nothing, and touches neither the delivery store nor the comment cursors.
  pub handle_unauthentic :
      (¬ IsAuthentic c s req)
      → ((handle c d s req).0.log ≡ s.log)
        × ((handle c d s req).0.webhook_dedup ≡ s.webhook_dedup)
        × ((handle c d s req).0.chat_comment_cursors ≡ s.chat_comment_cursors)
        × (400 ≤ (handle c d s req).1.status)
  unfolding handle reject
  handle_unauthentic no_sig =
      let (log, login, dedup, cursors, secret) = throttle_keeps s req.now in
      elim (Bool-cases (throttle s req.now).1) [
        | inr busy ↦ ground arith
        | inl free ↦
            let t = (throttle s req.now).0 in
            let (a, b, x, y) =
              authenticate_rejects c d t req (λ sg. no_sig (sg.0, sg.1, rw (← secret) sg.2)) in
            rw (free, handle) (a ∙ log, b ∙ dedup, x ∙ cursors, y)
      ]

  -- A webhook never dispatches a review: at most it spawns one chat task, for a command that
  -- mentions the bot and was not written by the bot itself.
  pub handle-HandsOver : HandsOver s (handle c d s req).0
  unfolding handle
  handle-HandsOver =
      let (log, login, dedup, cursors, secret) = throttle_keeps s req.now in
      let t = (throttle s req.now).0 in
      elim (Bool-cases (throttle s req.now).1) [
        | inr busy ↦ inl (ground arith)
        | inl free ↦
            rw (free, handle)
              (HandsOver-from s t (authenticate c d t req).0 log login
                (authenticate-HandsOver c d t req))
      ]
