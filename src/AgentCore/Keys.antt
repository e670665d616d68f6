-- ===== src/AgentCore/Keys.antt =====
-- crates/ar-agentcore/src/lib.rs, `idempotency_key`: which invocations share a key.
use auto_review.Prelude.{
  ℕ, ◌^◌, ◌<◌, ◌≡◌, ◌≢◌, ◌↔◌, refl, sym, ap, Bool, true, not, [], ◌∷◌, ◌++◌, Option, none, some,
  arith, all, All, ◌==◌,
}
use auto_review.Prelude.Text.{Text, codes}
use auto_review.Prelude.Cut.{cut_unique}
use auto_review.Prelude.Search.{show_nat}
use auto_review.Chat.Command.{parse_u64}
use auto_review.Chat.Command.Forget.{IsDigit, show_nat-All, parse_u64-show_nat}
use auto_review.AgentCore.{
  Provider, forgejo, github, InvocationKind, semantic_review, chat_command, InvocationPayload,
  provider_text, kind_text, comment_text, idempotency_key,
}

abbrev pub is_plain : ℕ → Bool
is_plain c = not (c == b':')

abbrev pub lacks_colon : Text → Bool
lacks_colon = all is_plain

digits_plain : (s : Text) → All IsDigit s → lacks_colon s ≡ true
digits_plain [] h = refl
digits_plain (c ∷ s) h = ground (arith, digits_plain s h.1)

show_nat-plain : (n : ℕ) → lacks_colon (show_nat n) ≡ true
show_nat-plain n = digits_plain (show_nat n) (show_nat-All n)

show_nat-injective : (m n : ℕ) → m < 2 ^ 64 → n < 2 ^ 64 → show_nat m ≡ show_nat n → m ≡ n
show_nat-injective m n hm hn e =
    cc (parse_u64-show_nat m hm, parse_u64-show_nat n hn, ap parse_u64 e)

provider_text-injective : (a b : Provider) → provider_text a ≡ provider_text b → a ≡ b
unfolding provider_text
provider_text-injective forgejo forgejo e = refl
provider_text-injective forgejo github e = cc
provider_text-injective github forgejo e = cc
provider_text-injective github github e = refl

provider_text-plain : (a : Provider) → lacks_colon (provider_text a) ≡ true
unfolding provider_text
provider_text-plain forgejo = refl
provider_text-plain github = refl

kind_text-injective : (a b : InvocationKind) → kind_text a ≡ kind_text b → a ≡ b
unfolding kind_text
kind_text-injective semantic_review semantic_review e = refl
kind_text-injective semantic_review chat_command e = cc
kind_text-injective chat_command semantic_review e = cc
kind_text-injective chat_command chat_command e = refl

kind_text-plain : (a : InvocationKind) → lacks_colon (kind_text a) ≡ true
unfolding kind_text
kind_text-plain semantic_review = refl
kind_text-plain chat_command = refl

dash-not_digits : (s : Text) → All IsDigit s → codes "-" ≢ s
dash-not_digits [] h e = cc
dash-not_digits (c ∷ s) h e = absurd (omega (arith, h.0, head_eq e))
  where
    head_eq : codes "-" ≡ c ∷ s → ◌≡◌ {A = ℕ} b'-' c
    head_eq q = cc

abbrev pub IsU64 : Option ℕ → Type 0
IsU64 none = Unit {0}
IsU64 (some n) = n < 2 ^ 64

comment_text-injective :
    (a b : Option ℕ) → IsU64 a → IsU64 b → comment_text a ≡ comment_text b → a ≡ b
unfolding comment_text
comment_text-injective none none h k e = refl
comment_text-injective none (some n) h k e =
    absurd (dash-not_digits (show_nat n) (show_nat-All n) e)
comment_text-injective (some m) none h k e =
    absurd (dash-not_digits (show_nat m) (show_nat-All m) (sym e))
comment_text-injective (some m) (some n) h k e = ap some (show_nat-injective m n h k e)

-- The ids are 64-bit words, and no name and no SHA has a colon in it.
pub record IsPlain (p : InvocationPayload) : Type 0 where
  pub owner : lacks_colon p.owner ≡ true
  pub repo : lacks_colon p.repo ≡ true
  pub head_sha : lacks_colon p.head_sha ≡ true
  pub pr_number : p.pr_number < 2 ^ 64
  pub comment_id : IsU64 p.comment_id

-- The same request, but perhaps for the installation, the text of the comment and the force.
abbrev pub Agrees : InvocationPayload → InvocationPayload → Type 0
Agrees p q =
    (p.provider ≡ q.provider)
    × (p.kind ≡ q.kind)
    × (p.owner ≡ q.owner)
    × (p.repo ≡ q.repo)
    × (p.pr_number ≡ q.pr_number)
    × (p.head_sha ≡ q.head_sha)
    × (p.comment_id ≡ q.comment_id)

Agrees-key : (p q : InvocationPayload) → Agrees p q → idempotency_key p ≡ idempotency_key q
unfolding idempotency_key
Agrees-key p q (provider, kind, owner, repo, number, sha, comment) =
    rw (provider, kind, owner, repo, number, sha, comment) refl

key-Agrees :
    (p q : InvocationPayload)
    → IsPlain p
    → IsPlain q
    → idempotency_key p ≡ idempotency_key q
    → Agrees p q
unfolding idempotency_key
key-Agrees p q ip iq e =
    let (e0, r0) =
      cut _ _ _ _ (provider_text-plain p.provider) (provider_text-plain q.provider) e in
    let (e1, r1) = cut _ _ _ _ (kind_text-plain p.kind) (kind_text-plain q.kind) r0 in
    let (e2, r2) = cut _ _ _ _ ip.owner iq.owner r1 in
    let (e3, r3) = cut _ _ _ _ ip.repo iq.repo r2 in
    let (e4, r4) = cut _ _ _ _ (show_nat-plain p.pr_number) (show_nat-plain q.pr_number) r3 in
    let (e5, r5) = cut _ _ _ _ ip.head_sha iq.head_sha r4 in
    (
      provider_text-injective p.provider q.provider e0,
      kind_text-injective p.kind q.kind e1,
      e2,
      e3,
      show_nat-injective p.pr_number q.pr_number ip.pr_number iq.pr_number e4,
      e5,
      comment_text-injective p.comment_id q.comment_id ip.comment_id iq.comment_id r5,
    )
  where
    cut :
        (a b x y : Text)
        → lacks_colon a ≡ true
        → lacks_colon b ≡ true
        → a ++ b':' ∷ x ≡ b ++ b':' ∷ y
        → (a ≡ b) × (x ≡ y)
    cut = cut_unique is_plain b':' refl

-- Two invocations with 64-bit ids and without colons in their names and SHAs share a key exactly
-- if they agree in provider, kind, owner, repository, number, SHA and comment id. The installation,
-- the text of the comment and whether they are forced make no difference.
pub idempotency_key-injective :
    (p q : InvocationPayload)
    → IsPlain p
    → IsPlain q
    → (idempotency_key p ≡ idempotency_key q) ↔ Agrees p q
idempotency_key-injective p q ip iq = (key-Agrees p q ip iq, Agrees-key p q)
