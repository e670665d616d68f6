-- ===== src/Gateway/Poller.antt =====
-- crates/ar-gateway/src/poller.rs: the poller of inline review threads. A pass runs as one step.
pub mod Scan
pub mod Again
use auto_review.Prelude.{
  ℕ, zero, suc, max, Bool, true, false, not, ◌&&◌, ◌||◌, Option, none, some, List, [], ◌∷◌, ◌++◌,
  Result, ok, err, leb, ltb, ◌==◌, if◌then◌else◌,
}
use auto_review.Prelude.Text.{Text, codes, text_eq, eq_ignore_ascii_case, to_ascii_lowercase}
use auto_review.Prelude.Search.{contains}
use auto_review.Prelude.Keys.{member, lookup, retain_keys}
use auto_review.Forge.{PrReviewComment, HostError}
use auto_review.Chat.Command.{ChatCommand, parse_chat_command, compatibility_mention}
use auto_review.Orchestrator.History.{PrKey, pr_key, History, list_known}
use auto_review.Gateway.Cursors.{Cursors, claim_chat_comment, seed_chat_cursor_monotonic}
use auto_review.Gateway.Metrics.{
  PollCounters, record_poll_cycle, record_poll_history_failure, record_poll_pr_failure,
  record_poll_mention_dispatched, record_poll_chat_failure,
}
use auto_review.Gateway.Webhook.State.{ChatTask}

pub data PollerError : Type 0 where
  history forgejo : PollerError

-- `ChatPoller`, with a log of the chat tasks that were run. `metrics` are counted whether or not
-- the optional handle is there.
pub record ChatPoller : Type 0 where
  pub bot_login : Text
  pub bot_name : Text
  pub cursors : Cursors
  pub metrics : PollCounters
  pub log : List ChatTask

-- Windows of bytes equal to an ASCII needle up to case are windows of scalar values.
unfoldable pub mentions : Text → Text → Bool
unfolding contains to_ascii_lowercase
mentions needle body = contains (to_ascii_lowercase needle) (to_ascii_lowercase body)

unfoldable pub mentions_bot : Text → Text → Bool
mentions_bot bot_name body =
    mentions (b'@' ∷ bot_name) body
    || elim (compatibility_mention bot_name) [ none ↦ false | some alias ↦ mentions alias body ]

-- The variables of the loop over the comments.
pub record Found : Type 0 where
  pub cursors : Cursors
  pub max_seen : ℕ
  pub to_dispatch : List ℕ

-- Whether a comment is one to answer.
unfoldable pub is_relevant : Text → Text → PrReviewComment → Bool
is_relevant bot_login bot_name c =
    not (eq_ignore_ascii_case c.user.login bot_login) && mentions_bot bot_name c.body

-- The body of the loop: every new comment is claimed, and a claim that wins is dispatched if the
-- comment is somebody else's and mentions the bot.
unfoldable pub scan_one : Text → Text → PrKey → ℕ → Bool → PrReviewComment → Found → Found
scan_one bot_login bot_name key cursor first_sight c f =
    let seen = record f { max_seen = max f.max_seen c.id } in
    if first_sight
    then seen
    else if leb c.id cursor
    then seen
    else let (cursors', won) = claim_chat_comment seen.cursors key c.id in
      if is_relevant bot_login bot_name c && won
      then record seen { cursors = cursors'; to_dispatch = seen.to_dispatch ++ c.id ∷ [] }
      else record seen { cursors = cursors' }

unfoldable pub scan : Text → Text → PrKey → ℕ → Bool → List PrReviewComment → Found → Found
scan bot_login bot_name key cursor first_sight [] f = f
scan bot_login bot_name key cursor first_sight (c ∷ cs) f =
    scan bot_login bot_name key cursor first_sight cs
      (scan_one bot_login bot_name key cursor first_sight c f)

-- The scan from the cursor that the map has when the comments have been listed, and the seeding.
unfoldable pub scan_pr : ChatPoller → PrKey → List PrReviewComment → Cursors × List ℕ
scan_pr p key comments = elim (lookup key p.cursors) [
  | some cursor ↦
      let start : Found = record { cursors = p.cursors; max_seen = cursor; to_dispatch = [] } in
      let found = scan p.bot_login p.bot_name key cursor false comments start in
      (found.cursors, found.to_dispatch)
  | none ↦
      let start : Found = record { cursors = p.cursors; max_seen = 0; to_dispatch = [] } in
      let found = scan p.bot_login p.bot_name key 0 true comments start in
      (seed_chat_cursor_monotonic found.cursors key found.max_seen, found.to_dispatch)
]

unfoldable pub find_comment : ℕ → List PrReviewComment → Option PrReviewComment
find_comment id [] = none
find_comment id (c ∷ cs) = if c.id == id then some c else find_comment id cs

-- The source hands the bot's name on as its login.
unfoldable pub task_of : ChatPoller → PrKey → List PrReviewComment → ℕ → ChatTask
unfolding find_comment
task_of p key comments id =
    let comment = find_comment id comments in
    record {
      owner = key.owner;
      repo = key.repo;
      issue_number = key.pr_number;
      commenter_login = elim comment [ none ↦ [] | some c ↦ c.user.login ];
      bot_login = p.bot_name;
      command = parse_chat_command (elim comment [ none ↦ [] | some c ↦ c.body ]) p.bot_name;
    }

-- The chat handler's outcome, `true` where it succeeds, is the parameter `handled`.
unfoldable pub run_task : (ChatTask → Bool) → ChatTask → ChatPoller → ChatPoller
run_task handled t p =
    let p' = record p { log = p.log ++ t ∷ [] } in
    if handled t
    then record p' { metrics = record_poll_mention_dispatched p.metrics }
    else record p' { metrics = record_poll_chat_failure p.metrics }

unfoldable pub run_tasks :
    (ChatTask → Bool) → PrKey → List PrReviewComment → List ℕ → ChatPoller → ChatPoller
run_tasks handled key comments [] p = p
run_tasks handled key comments (id ∷ ids) p =
    run_tasks handled key comments ids (run_task handled (task_of p key comments id) p)

-- `list_pr_review_comments` of the Forgejo client.
abbrev pub ListComments : Type 0
ListComments = PrKey → Result HostError (List PrReviewComment)

unfoldable pub poll_pr :
    ListComments
    → (ChatTask → Bool)
    → PrKey
    → ChatPoller
    → ChatPoller × Result PollerError (Unit {0})
poll_pr list_comments handled key p = elim (list_comments key) [
  | err e ↦ (p, err forgejo)
  | ok comments ↦
      let (cursors', ids) = scan_pr p key comments in
      (run_tasks handled key comments ids (record p { cursors = cursors' }), ok tt)
]

unfoldable pub count_failure : ChatPoller × Result PollerError (Unit {0}) → ChatPoller
count_failure (p, ok u) = p
count_failure (p, err e) = record p { metrics = record_poll_pr_failure p.metrics }

unfoldable pub poll_all : ListComments → (ChatTask → Bool) → List PrKey → ChatPoller → ChatPoller
poll_all list_comments handled [] p = p
poll_all list_comments handled (key ∷ keys) p =
    poll_all list_comments handled keys (count_failure (poll_pr list_comments handled key p))

unfoldable pub prune : List PrKey → ChatPoller → ChatPoller
prune known p = record p { cursors = retain_keys (λ k. member k known) p.cursors }

-- `known` is what `history.list_known()` answers.
unfoldable pub poll_once :
    ListComments
    → (ChatTask → Bool)
    → Option (List PrKey)
    → ChatPoller
    → ChatPoller × Result PollerError (Unit {0})
poll_once list_comments handled none p =
    (record p { metrics = record_poll_history_failure p.metrics }, err history)
poll_once list_comments handled (some known) p =
    let p' = poll_all list_comments handled known (prune known p) in
    (record p' { metrics = record_poll_cycle p'.metrics }, ok tt)
