-- ===== src/Gateway/Hmac.antt =====
-- crates/ar-gateway/src/hmac.rs: the signature of a webhook body.
use auto_review.Prelude.{
  ℕ, ◌≡◌, ◌↔◌, ap, Option, none, some, List, arith, Result, ok, err, if◌then◌else◌, length, ◌==◌,
  ◌&&◌, Option-cases, inl, inr, true,
}
use auto_review.Prelude.Text.{Text, text_eq, text_eq_iff, trim}

abbrev pub Bytes : Type 0
Bytes = List ℕ

-- The crates `hmac`/`sha2` and `hex`: `none` where a key or a hex text is refused.
pub record Crypto : Type 0 where
  pub hmac_sha256 : Text → Bytes → Option Bytes
  pub hex_decode : Text → Option Bytes

pub data HmacError : Type 0 where
  missing not_hex mismatch invalid_secret : HmacError

-- `ct_eq` compares the bytes, in constant time.
unfoldable pub verify : Crypto → Text → Bytes → Text → Result HmacError (Unit {0})
verify c secret body signature_hex = elim (c.hmac_sha256 secret body) [
  | none ↦ err invalid_secret
  | some expected ↦ elim (c.hex_decode (trim signature_hex)) [
    | none ↦ err not_hex
    | some provided ↦
        if length expected == length provided && text_eq expected provided
        then ok tt
        else err mismatch
  ]
]

same_digest : (s t : Bytes) → ((length s == length t && text_eq s t) ≡ true) ↔ (s ≡ t)
same_digest s t = (
  λ h. ground (arith, text_eq_iff s t),
  λ e. ground (arith, text_eq_iff s t, ap (λ (u : Bytes). length u) e),
)

accepted :
    (c : Crypto) (secret : Text) (body : Bytes) (sig : Text)
    → verify c secret body sig ≡ ok tt
    → (digest : Bytes) × (c.hmac_sha256 secret body ≡ some digest)
      × (c.hex_decode (trim sig) ≡ some digest)
unfolding verify
accepted c secret body sig h = elim (Option-cases (c.hmac_sha256 secret body)) [
  | inl e ↦ absurd (ground arith)
  | inr (expected, e) ↦ elim (Option-cases (c.hex_decode (trim sig))) [
    | inl f ↦ absurd (ground arith)
    | inr (provided, f) ↦ (expected, e, ground (arith, same_digest expected provided))
  ]
]

-- A signature is accepted exactly if it is the hex of the body's digest under the secret.
verify-ok :
    (c : Crypto) (secret : Text) (body : Bytes) (sig : Text)
    → (verify c secret body sig ≡ ok tt) ↔ (
        (digest : Bytes) × (c.hmac_sha256 secret body ≡ some digest)
        × (c.hex_decode (trim sig) ≡ some digest))
unfolding verify
verify-ok c secret body sig =
    (accepted c secret body sig, λ (digest, e, f). ground (arith, same_digest digest digest))
