-- ===== src/Gateway/Startup/Env.antt =====
-- crates/ar-gateway/src/startup.rs: the environment of the gateway inside the embedded container.
-- `lookup` reads a variable of the outer process, which does not change meanwhile.
use auto_review.Prelude.{
  Bool, not, ◌&&◌, List, [], ◌∷◌, ◌++◌, Option, none, some, Result, ok, err, if◌then◌else◌,
  is_empty, is_some,
}
use auto_review.Prelude.Text.{Text, codes, text_eq, trim}
use auto_review.Prelude.Keys.{member, text_key}
use auto_review.Gateway.Startup.{OciSetupDiagnostic}
pub mod Passed

abbrev pub ProcessEnv : Type 0
ProcessEnv = List (Text × Text)

abbrev pub external_isolation_name : Text
external_isolation_name = codes "AR_GATEWAY_EXTERNAL_ISOLATION"

abbrev pub static_inner_gateway_env : ProcessEnv
static_inner_gateway_env =
    (codes "SSL_CERT_FILE", codes "/etc/ssl/certs/ca-bundle.crt")
    ∷ (codes "PATH", codes "/bin")
    ∷ (codes "AR_GATEWAY_BIND", codes "0.0.0.0:8080")
    ∷ (external_isolation_name, codes "container")
    ∷ (codes "RUST_LOG", codes "info,ar_gateway=debug")
    ∷ []

abbrev pub required_inner_gateway_env : List Text
required_inner_gateway_env =
    codes "WEBHOOK_SECRET"
    ∷ codes "FORGEJO_BASE_URL"
    ∷ codes "AR_FORGEJO_TOKEN"
    ∷ codes "LLM_BASE_URL"
    ∷ []

unfoldable pub is_required : Text → Bool
is_required name = member name required_inner_gateway_env

abbrev pub inner_gateway_env_allowlist : List Text
inner_gateway_env_allowlist =
    codes "AR_GATEWAY_BIND"
    ∷ codes "WEBHOOK_SECRET"
    ∷ codes "FORGEJO_BASE_URL"
    ∷ codes "AR_FORGEJO_TOKEN"
    ∷ codes "LLM_BASE_URL"
    ∷ codes "LLM_API_KEY"
    ∷ codes "LLM_REASONING_MODEL"
    ∷ codes "LLM_CHEAP_MODEL"
    ∷ codes "LLM_CHEAP_BASE_URL"
    ∷ codes "LLM_CHEAP_API_KEY"
    ∷ codes "LLM_EMBEDDING_MODEL"
    ∷ codes "LLM_EMBEDDING_BASE_URL"
    ∷ codes "LLM_EMBEDDING_API_KEY"
    ∷ codes "AR_EMBED_INPUT_CAP_BYTES"
    ∷ codes "AR_EMBED_BATCH_SIZE"
    ∷ codes "AR_EMBED_NUM_CTX"
    ∷ codes "AR_BOT_LOGIN"
    ∷ codes "AR_BOT_NAME"
    ∷ codes "AR_CI_REVIEW_TOKEN"
    ∷ codes "AR_LEARNINGS_DB"
    ∷ codes "AR_HISTORY_DB"
    ∷ codes "AR_VECTOR_DB"
    ∷ codes "AR_DEDUP_DB"
    ∷ codes "AR_DEDUP_CAPACITY"
    ∷ codes "AR_POLL_INTERVAL_SECS"
    ∷ codes "AR_READINESS_TTL_SECS"
    ∷ codes "AR_REVIEW_CONCURRENCY"
    ∷ codes "AR_WEBHOOK_RATE_PER_SEC"
    ∷ codes "AR_WEBHOOK_BURST"
    ∷ codes "AR_SEVERITY_FLOOR"
    ∷ codes "RUST_LOG"
    ∷ []

unfoldable pub set_process_env_entry : Text → Text → ProcessEnv → ProcessEnv
set_process_env_entry name value [] = (name, value) ∷ []
set_process_env_entry name value ((n, v) ∷ env) =
    if text_eq name n then (n, value) ∷ env else (n, v) ∷ set_process_env_entry name value env

unfoldable pub filled : Option Text → Option Text
filled none = none
filled (some value) = if is_empty (trim value) then none else some value

unfoldable pub add_entry : Text → Option Text → ProcessEnv → ProcessEnv
add_entry name none env = env
add_entry name (some value) env = set_process_env_entry name value env

module _ (lookup : Text → Result OciSetupDiagnostic (Option Text)) where
  -- The loop over the names of the list.
  unfoldable pub add_entries : List Text → ProcessEnv → Result OciSetupDiagnostic ProcessEnv
  add_entries [] env = ok env
  add_entries (name ∷ names) env = elim (lookup name) [
    | err d ↦ err d
    | ok found ↦
        let rest = add_entries names (add_entry name (filled found) env) in
        if is_required name && not (is_some (filled found))
        then err
            (record { detail = name ++ codes " is required for staged OCI inner gateway config" })
        else rest
  ]

  unfoldable pub inner_gateway_process_env_from_lookup : Result OciSetupDiagnostic ProcessEnv
  inner_gateway_process_env_from_lookup =
      elim (add_entries inner_gateway_env_allowlist static_inner_gateway_env) [
        | err d ↦ err d
        | ok env ↦ ok (set_process_env_entry external_isolation_name (codes "container") env)
      ]
