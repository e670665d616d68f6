-- ===== src/Tests/Gateway.antt =====
-- crates/ar-gateway: its theorems at concrete inputs.
mod Webhook
mod Startup
use auto_review.Prelude.{
  ◌&&◌, ℕ, ◌<◌, ◌≡◌, ◌≢◌, ◌↔◌, refl, Bool, true, false, Option, none, some, List, [], ◌∷◌, ◌++◌,
  map, retain, ok, arith, length, ltb,
}
use auto_review.Prelude.Text.{Text, codes, trim, text_eq}
use auto_review.Prelude.Keys.{member, retain_keys, lookup}
use auto_review.Forge.{PrReviewComment}
use auto_review.Orchestrator.History.{PrKey, pr_key, key_eq}
use auto_review.Gateway.RateLimit.{TokenBucket, try_take_at}
use auto_review.Gateway.RateLimit
use auto_review.Gateway.RateLimit.Bound
use auto_review.Gateway.Dedup
use auto_review.Gateway.Dedup.{RecentDeliveries, first_sight, duplicate, check_and_record}
use auto_review.Gateway.Dedup.Window.{IsValid, new-IsValid, window, check_and_record-window}
use auto_review.Gateway.Cursors
use auto_review.Gateway.Cursors.{Cursors, claim, seed, claim_chat_comment, highest, claim-highest}
use auto_review.Gateway.Hmac.{Bytes, Crypto, verify}
use auto_review.Gateway.Poller.{ChatPoller, Found, is_relevant, scan, scan_pr}
use auto_review.Gateway.Poller.Scan.{scan_new}

-- A bucket of two tokens and one more a second, and four requests; times are nanoseconds.
abbrev times : List ℕ
times = 0 ∷ 0 ∷ 1000 ∷ 2000000000 ∷ []

-- An empty bucket that was refilled after three seconds.
abbrev empty_bucket : TokenBucket
empty_bucket = record {
  capacity = 2000000000;
  refill_per_sec = 1;
  tokens = 0;
  last_refilled = 3000000000;
}

abbrev no_deliveries : RecentDeliveries
no_deliveries = record { capacity = 2; ids = []; order = [] }

no_deliveries-IsValid : IsValid no_deliveries
no_deliveries-IsValid = record {
  positive = omega arith;
  bounded = omega arith;
  distinct = tt;
  same = λ id. refl;
}

check_and_record-window_example :
    IsValid (check_and_record no_deliveries (codes "a")).0
    × ((check_and_record no_deliveries (codes "a")).0.capacity ≡ no_deliveries.capacity)
    × ((check_and_record no_deliveries (codes "a")).0.order
        ≡ (window no_deliveries.capacity no_deliveries.order (codes "a")).0)
    × ((check_and_record no_deliveries (codes "a")).1
        ≡ (window no_deliveries.capacity no_deliveries.order (codes "a")).1)
check_and_record-window_example =
    check_and_record-window no_deliveries (codes "a") no_deliveries-IsValid

abbrev key : PrKey
key = record { owner = codes "o"; repo = codes "r"; pr_number = 7 }

claim-highest_example :
    (claim_chat_comment (Cursors.run [] (claim key 5 ∷ seed key 9 ∷ [])) key 8).1
    ≡ ltb (highest key (claim key 5 ∷ seed key 9 ∷ [])) 8
claim-highest_example = claim-highest (claim key 5 ∷ seed key 9 ∷ []) key 8

-- A digest that is the secret and the body, and a hex text that is the bytes themselves.
abbrev plain : Crypto
plain = record { hmac_sha256 = λ secret body. some (secret ++ body); hex_decode = λ s. some s }

abbrev comment_of : ℕ → Text → PrReviewComment
comment_of id body = record { id = id; body = body; user = record { login = codes "alice" } }

abbrev comments : List PrReviewComment
comments =
    comment_of 2 (codes "@bot help")
    ∷ comment_of 4 (codes "hello")
    ∷ comment_of 6 (codes "@bot review")
    ∷ []

abbrev nothing_found : Found
nothing_found = record { cursors = (key, 3) ∷ []; max_seen = 3; to_dispatch = [] }

scan_new_example :
    (scan (codes "bot") (codes "bot") key 3 false comments nothing_found).to_dispatch
    ≡ nothing_found.to_dispatch
      ++ map
          (λ y. y.id)
          (retain (λ y. ltb 3 y.id && is_relevant (codes "bot") (codes "bot") y) comments)
scan_new_example =
    scan_new (codes "bot") (codes "bot") key 3 3 0 comments nothing_found
      (unfold Cursors.cursor in unfold lookup in unfold key_eq in unfold text_eq in refl)
      (omega arith) (omega arith, (omega arith, (omega arith, tt)))

abbrev poller : ChatPoller
poller = record {
  bot_login = codes "bot";
  bot_name = codes "bot";
  cursors = [];
  metrics = record {
    cycles = 0;
    history_failures = 0;
    pr_failures = 0;
    mentions_dispatched = 0;
    chat_failures = 0;
  };
  log = [];
}
