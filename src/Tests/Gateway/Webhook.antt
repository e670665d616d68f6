-- ===== src/Tests/Gateway/Webhook.antt =====
-- crates/ar-gateway/src/webhook.rs: its theorems at concrete inputs.
use auto_review.Prelude.{
  ◌≤◌, ◌≡◌, ◌≢◌, ◌⊎◌, refl, true, false, none, some, [], ◌∷◌, ◌++◌, ok, err, arith,
}
use auto_review.Prelude.Text.{codes, text_eq, trim, trim_start, trim_end}
use auto_review.Prelude.Keys.{lookup}
use auto_review.Forge.{PullRequestSummary}
use auto_review.Gateway.Dedup.{RecentDeliveries, memory}
use auto_review.Gateway.Dedup.Window.{IsValid}
use auto_review.Gateway.Hmac.{Crypto, verify}
use auto_review.Gateway.Webhook.State.{AppState, Request, Decoder, dispatch, header}
use auto_review.Gateway.Webhook.{CiReviewRequest, accepted, handle}
use auto_review.Gateway.Webhook.Effects.{HandsOver}
use auto_review.Gateway.Webhook.Authentic.{IsAuthentic, handle_unauthentic, handle-HandsOver}
use auto_review.Gateway.Webhook.Redelivery.{handle_redelivery}
use auto_review.Gateway.CiReview.{GetPullRequest, handle_ci_review}
use auto_review.Gateway.CiReview.Guard.{IsReviewable, job_of, handle_ci_review_lem}

-- A digest that is the secret and the body, and a hex text that is the bytes themselves.
abbrev plain : Crypto
plain = record { hmac_sha256 = λ secret body. some (secret ++ body); hex_decode = λ s. some s }

abbrev ci_request : CiReviewRequest
ci_request = record {
  owner = codes "o";
  repo = codes "r";
  pr_number = 7;
  head_sha = codes "abc";
  force = false;
}

abbrev decoder : Decoder CiReviewRequest
decoder = record {
  pull_request = λ b. err (codes "no event");
  issue_comment = λ b. err (codes "no event");
  ci_review = λ b. ok ci_request;
}

abbrev no_deliveries : RecentDeliveries
no_deliveries = record { capacity = 2; ids = []; order = [] }

no_deliveries-IsValid : IsValid no_deliveries
no_deliveries-IsValid = record {
  positive = omega arith;
  bounded = omega arith;
  distinct = tt;
  same = λ id. refl;
}

abbrev state : AppState
state = record {
  webhook_secret = codes "k";
  chat = true;
  metrics = record {
    pull_request = 0;
    issue_comment = 0;
    ping = 0;
    other = 0;
    signature_failures = 0;
    payload_failures = 0;
    rate_limited = 0;
    duplicates = 0;
    jobs_dispatched = 0;
    chat_commands_received = 0;
    chat_handler_unconfigured = 0;
  };
  bot_login = codes "bot";
  bot_name = codes "bot";
  webhook_rate_limit = none;
  webhook_dedup = some (memory no_deliveries);
  chat_comment_cursors = none;
  ci_review_endpoint = some (codes "token");
  log = [];
}

abbrev unsigned : Request
unsigned = record { headers = []; body = codes "body"; now = 0; storage_fails = false }

abbrev signed : Request
signed = record {
  headers =
      (codes "x-forgejo-signature", some (codes "kbody"))
      ∷ (codes "x-forgejo-delivery", some (codes "d"))
      ∷ (codes "authorization", some (codes "Bearer token"))
      ∷ [];
  body = codes "body";
  now = 0;
  storage_fails = false;
}

unsigned_not : ¬ IsAuthentic plain state unsigned
unfolding header lookup
unsigned_not (sig, e, f) = cc e

signed_well : IsAuthentic plain state signed
unfolding header lookup verify trim trim_end trim_start text_eq
signed_well = (codes "kbody", refl, refl)

handle_unauthentic_example :
    ((handle plain decoder state unsigned).0.log ≡ state.log)
    × ((handle plain decoder state unsigned).0.webhook_dedup ≡ state.webhook_dedup)
    × ((handle plain decoder state unsigned).0.chat_comment_cursors ≡ state.chat_comment_cursors)
    × (400 ≤ (handle plain decoder state unsigned).1.status)
handle_unauthentic_example = handle_unauthentic plain decoder state unsigned unsigned_not

handle-HandsOver_example : HandsOver state (handle plain decoder state signed).0
handle-HandsOver_example = handle-HandsOver plain decoder state signed

handle_redelivery_example :
    ((handle plain decoder (handle plain decoder state signed).0 signed).0.log
      ≡ (handle plain decoder state signed).0.log)
    × ((handle plain decoder (handle plain decoder state signed).0 signed).1
        ≡ record { status = 200; message = codes "duplicate" })
handle_redelivery_example =
    handle_redelivery plain decoder state signed no_deliveries (codes "d") refl refl
      no_deliveries-IsValid (unfold header in unfold lookup in unfold text_eq in refl) signed_well

abbrev pull_request : PullRequestSummary
pull_request = record {
  number = 7;
  title = codes "t";
  body = [];
  draft = false;
  state = codes "open";
  head = record { ref_name = codes "b"; sha = codes "abc" };
  base = record { ref_name = codes "main"; sha = codes "def" };
}

abbrev host : GetPullRequest
host owner repo number = ok pull_request

handle_ci_review_lem_example :
    (((handle_ci_review decoder host state signed).1.status ≢ 202)
      × ((handle_ci_review decoder host state signed).0 ≡ state)
      × ¬ (
          (r : CiReviewRequest) × (pr : PullRequestSummary) × IsReviewable decoder host state signed
            r pr))
    ⊎ ((r : CiReviewRequest) × (pr : PullRequestSummary) × IsReviewable decoder host state signed r
          pr
        × ((handle_ci_review decoder host state signed).0.log
            ≡ state.log ++ dispatch (job_of r pr) ∷ [])
        × ((handle_ci_review decoder host state signed).1 ≡ accepted))
handle_ci_review_lem_example = handle_ci_review_lem decoder host state signed
