-- ===== src/Forgejo/Client.antt =====
-- crates/ar-forgejo/src/client.rs: the client of the Forgejo API.
-- The HTTP client, the resolution of URLs and the JSON of each type are parameters; the headers that
-- every request has are part of the HTTP client.
use auto_review.Prelude.{
  ℕ, zero, suc, ◌+◌, ◌-◌, Bool, true, false, not, ◌&&◌, List, [], ◌∷◌, ◌++◌, map, Option, none,
  some, Result, ok, err, leb, ltb, ◌==◌, length, if◌then◌else◌,
}
use auto_review.Prelude.Text.{Text, codes}
use auto_review.Prelude.Boundary.{byte_len, truncate_at}
use auto_review.Prelude.Search.{show_nat}
use auto_review.Forge.{
  ChangedFile, CreateReviewRequest, CreatedReview, CommitStatus, PullRequestSummary,
  PullReviewSummary, PrReviewComment,
}
pub mod Pages

pub data Error : Type 0 where
  invalid_base_url : Text → Error
  http : Text → Error
  api : ℕ → Text → Error
  url_build : Text → Error

abbrev pub pagination_page_size : ℕ
pagination_page_size = 50

abbrev pub pagination_max_pages : ℕ
pagination_max_pages = 100

pub data Method : Type 0 where
  get post patch delete : Method

pub record HttpRequest : Type 0 where
  pub method : Method
  pub url : Text
  -- Whether `Accept` is `text/plain`.
  pub plain : Bool
  -- The JSON of the body.
  pub body : Option Text

-- Reading the body can fail.
pub record HttpResponse : Type 0 where
  pub status : ℕ
  pub body : Result Text Text

pub record WebhookListItem : Type 0 where
  pub id : ℕ
  pub kind : Text
  pub active : Bool
  pub events : List Text
  -- `config.get("url")`
  pub config_url : Option Text

pub record WebhookSummary : Type 0 where
  pub id : ℕ
  pub kind : Text
  pub active : Bool
  pub events : List Text
  pub url : Text

unfoldable pub or_no_text : Option Text → Text
or_no_text none = []
or_no_text (some t) = t

unfoldable pub summary_of : WebhookListItem → WebhookSummary
summary_of item = record {
  id = item.id;
  kind = item.kind;
  active = item.active;
  events = item.events;
  url = or_no_text item.config_url;
}

abbrev pub error_cap : ℕ
error_cap = 1024

unfoldable pub cap_for_error : Text → Text
cap_for_error s =
    if leb (byte_len s) error_cap
    then s
    else let kept = truncate_at s error_cap in
      kept ++ codes "… [+" ++ show_nat (byte_len s - byte_len kept) ++ codes " bytes]"

unfoldable pub is_success : ℕ → Bool
is_success status = leb 200 status && leb status 299

unfoldable pub decoded : {A : Type 0} → Text → Result Text A → Result Error A
decoded body (ok a) = ok a
decoded body (err e) =
    err (api 200 (codes "decode error: " ++ e ++ codes ": " ++ cap_for_error body))

unfoldable pub text_body : HttpResponse → Result Error Text
text_body resp = elim resp.body [
  | err e ↦ err (http e)
  | ok body ↦ if is_success resp.status then ok body else err (api resp.status (cap_for_error body))
]

unfoldable pub decode_body : {A : Type 0} → (Text → Result Text A) → HttpResponse → Result Error A
decode_body decode resp = elim (text_body resp) [
  | err e ↦ err e
  | ok body ↦ decoded body (decode body)
]

-- `unwrap_or_default()` of the body.
unfoldable pub checked : HttpResponse → Result Error (Unit {0})
checked resp =
    let body : Text = elim resp.body [ ok t ↦ t | err e ↦ [] ] in
    if is_success resp.status then ok tt else err (api resp.status (cap_for_error body))

unfoldable pub found_text : HttpResponse → Result Error (Option Text)
found_text resp =
    let answer : Result Error (Option Text) = elim (text_body resp) [
      | err e ↦ err e
      | ok body ↦ ok (some body)
    ] in
    if resp.status == 404 then ok none else answer

unfoldable pub without_slashes : Text → Text
without_slashes [] = []
without_slashes (c ∷ s) = if c == b'/' then without_slashes s else c ∷ s

-- `for page in 1..=PAGINATION_MAX_PAGES`, over the pages that are left.
unfoldable pub list_pages :
    {W A : Type 0}
    → (ℕ → W → W × Result Error (List A))
    → ℕ
    → ℕ
    → ℕ
    → List A
    → W
    → W × Result Error (List A)
list_pages fetch size zero page all w = (w, ok all)
list_pages fetch size (suc left) page all w =
    let (w', answer) = fetch page w in
    elim answer [
      | err e ↦ (w', err e)
      | ok chunk ↦
          let rest = list_pages fetch size left (page + 1) (all ++ chunk) w' in
          if ltb (length chunk) size then (w', ok (all ++ chunk)) else rest
    ]

-- The client: its base URL, `Url::join`, and what sends a request.
pub record Client (W : Type 0) : Type 0 where
  pub base : Text
  pub join : Text → Text → Result Text Text
  pub send : HttpRequest → W → W × Result Text HttpResponse

unfoldable pub repo_path : Text → Text → Text
repo_path owner repo = codes "repos/" ++ owner ++ codes "/" ++ repo

unfoldable pub page_query : ℕ → Text
page_query page =
    codes "?page=" ++ show_nat page ++ codes "&limit=" ++ show_nat pagination_page_size

module _ {W : Type 0} (client : Client W) where
  unfoldable pub joined : Result Text Text → Text → Result Error Text
  joined (err e) path = err (url_build e)
  joined (ok base) path = elim (client.join base path) [ err e ↦ err (url_build e) | ok u ↦ ok u ]

  -- `Client::url`
  unfoldable pub url : Text → Result Error Text
  url path = joined (client.join client.base (codes "api/v1/")) (without_slashes path)

  unfoldable pub sent :
      {A : Type 0}
      → (HttpResponse → Result Error A)
      → W × Result Text HttpResponse
      → W × Result Error A
  sent read (w, err e) = (w, err (http e))
  sent read (w, ok resp) = (w, read resp)

  unfoldable pub request :
      {A : Type 0}
      → Method
      → Bool
      → Option Text
      → (HttpResponse → Result Error A)
      → Result Error Text
      → W
      → W × Result Error A
  request method plain body read (err e) w = (w, err e)
  request method plain body read (ok u) w =
      sent read (client.send (record { method = method; url = u; plain = plain; body = body }) w)

  unfoldable pub json_get : {A : Type 0} → (Text → Result Text A) → Text → W → W × Result Error A
  json_get decode path = request get false none (decode_body decode) (url path)

  unfoldable pub json_post :
      {A : Type 0} → (Text → Result Text A) → Text → Text → W → W × Result Error A
  json_post decode input path = request post false (some input) (decode_body decode) (url path)

  -- The pages of one listing.
  unfoldable pub list_all :
      {A : Type 0} → (Text → Result Text (List A)) → Text → W → W × Result Error (List A)
  list_all decode path w =
      list_pages (λ page. json_get decode (path ++ page_query page)) pagination_page_size
        pagination_max_pages 1 [] w

  unfoldable pub get_pr_diff : Text → Text → ℕ → W → W × Result Error Text
  get_pr_diff owner repo n =
      request get true none text_body
        (url (repo_path owner repo ++ codes "/pulls/" ++ show_nat n ++ codes ".diff"))

  unfoldable pub list_changed_files :
      (Text → Result Text (List ChangedFile))
      → Text
      → Text
      → ℕ
      → W
      → W × Result Error (List ChangedFile)
  list_changed_files decode owner repo n =
      list_all decode (repo_path owner repo ++ codes "/pulls/" ++ show_nat n ++ codes "/files")

  unfoldable pub create_review :
      (CreateReviewRequest → Text)
      → (Text → Result Text CreatedReview)
      → Text
      → Text
      → ℕ
      → CreateReviewRequest
      → W
      → W × Result Error CreatedReview
  create_review encode decode owner repo n req =
      json_post decode (encode req)
        (repo_path owner repo ++ codes "/pulls/" ++ show_nat n ++ codes "/reviews")

  unfoldable pub post_commit_status :
      (CommitStatus → Text) → Text → Text → Text → CommitStatus → W → W × Result Error (Unit {0})
  post_commit_status encode owner repo sha status =
      request post false (some (encode status)) checked
        (url (repo_path owner repo ++ codes "/statuses/" ++ sha))

  unfoldable pub list_webhooks :
      (Text → Result Text (List WebhookListItem))
      → Text
      → Text
      → W
      → W × Result Error (List WebhookSummary)
  list_webhooks decode owner repo =
      list_all (λ body. elim (decode body) [ err e ↦ err e | ok items ↦ ok (map summary_of items) ])
        (repo_path owner repo ++ codes "/hooks")

  unfoldable pub delete_webhook : Text → Text → ℕ → W → W × Result Error (Unit {0})
  delete_webhook owner repo id =
      request delete false none checked
        (url (repo_path owner repo ++ codes "/hooks/" ++ show_nat id))

  unfoldable pub get_pull_request :
      (Text → Result Text PullRequestSummary)
      → Text
      → Text
      → ℕ
      → W
      → W × Result Error PullRequestSummary
  get_pull_request decode owner repo n =
      json_get decode (repo_path owner repo ++ codes "/pulls/" ++ show_nat n)

  unfoldable pub update_pull_request :
      (Option Text → Option Text → Text)
      → Text
      → Text
      → ℕ
      → Option Text
      → Option Text
      → W
      → W × Result Error (Unit {0})
  update_pull_request encode owner repo n title body =
      request patch false (some (encode title body)) checked
        (url (repo_path owner repo ++ codes "/pulls/" ++ show_nat n))

  unfoldable pub get_file_content : Text → Text → Text → Text → W → W × Result Error (Option Text)
  get_file_content owner repo file_path ref_name =
      request get true none found_text
        (url (repo_path owner repo ++ codes "/raw/" ++ file_path ++ codes "?ref=" ++ ref_name))

  -- From the base URL, not from the API.
  unfoldable pub get_compare_diff : Text → Text → Text → Text → W → W × Result Error Text
  get_compare_diff owner repo base head = request get true none text_body (
      joined (ok client.base) (
        owner
        ++ codes "/"
        ++ repo
        ++ codes "/compare/"
        ++ base
        ++ codes "..."
        ++ head
        ++ codes ".diff"))

  unfoldable pub post_issue_comment :
      (Text → Text) → (Text → Result Text ℕ) → Text → Text → ℕ → Text → W → W × Result Error ℕ
  post_issue_comment encode decode owner repo issue_number body =
      json_post decode (encode body)
        (repo_path owner repo ++ codes "/issues/" ++ show_nat issue_number ++ codes "/comments")

  unfoldable pub list_pr_review_comments :
      (Text → Result Text (List PrReviewComment))
      → Text
      → Text
      → ℕ
      → W
      → W × Result Error (List PrReviewComment)
  list_pr_review_comments decode owner repo n =
      list_all decode (repo_path owner repo ++ codes "/issues/" ++ show_nat n ++ codes "/comments")

  unfoldable pub list_pull_reviews :
      (Text → Result Text (List PullReviewSummary))
      → Text
      → Text
      → ℕ
      → W
      → W × Result Error (List PullReviewSummary)
  list_pull_reviews decode owner repo n =
      list_all decode (repo_path owner repo ++ codes "/pulls/" ++ show_nat n ++ codes "/reviews")

  unfoldable pub list_pull_review_comments :
      (Text → Result Text (List PrReviewComment))
      → Text
      → Text
      → ℕ
      → ℕ
      → W
      → W × Result Error (List PrReviewComment)
  list_pull_review_comments decode owner repo n review_id = list_all decode (
      repo_path owner repo
      ++ codes "/pulls/"
      ++ show_nat n
      ++ codes "/reviews/"
      ++ show_nat review_id
      ++ codes "/comments")

  unfoldable pub get_server_version : (Text → Result Text Text) → W → W × Result Error Text
  get_server_version decode = json_get decode (codes "version")
