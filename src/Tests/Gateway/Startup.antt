-- ===== src/Tests/Gateway/Startup.antt =====
-- crates/ar-gateway/src/startup.rs: its theorems at concrete inputs.
use auto_review.Prelude.{
  ℕ, suc, ◌≡◌, ◌≢◌, ◌↔◌, refl, true, false, none, some, Option, Result, ok, err, is_some,
  if◌then◌else◌,
}
use auto_review.Prelude.Text.{Text, codes, text_eq, trim, trim_start, trim_end, to_ascii_lowercase}
use auto_review.Prelude.Search.{contains}
use auto_review.Gateway.Startup.{
  OciSetupDiagnostic, GatewayLaunchOutcome, continue_in_process, outer_launcher_finished,
  StartupOptions, GatewayLauncherEnvValues, is_container, reads_true, use_oci,
  select_gateway_launcher, launch, select_gateway_launcher_for_startup_options, oci_posture,
  reported_posture, sanitize_oci_setup_detail,
}
use auto_review.Gateway.Startup.Redacted.{Redacts, sanitize_oci_setup_detail_lem}
use auto_review.Prelude.Replace.{replace}
use auto_review.Gateway.Startup.Isolated.{
  Continues, chosen, select_gateway_launcher_for_startup_options-Continues, reported-oci_default,
}
use auto_review.Gateway.Startup.Env.{
  ProcessEnv, external_isolation_name, static_inner_gateway_env, is_required, filled,
  inner_gateway_process_env_from_lookup, add_entries, add_entry, set_process_env_entry,
}
use auto_review.Gateway.Startup.Env.Passed.{
  value_in, or_else, passed, is_allowed, inner_gateway_process_env_from_lookup-passes,
}

abbrev detail : Text
detail = codes "cannot read /run/secrets/forgejo; ar-token"

sanitize_oci_setup_detail_lem_example :
    ((t : Text) × Redacts detail t
      × (sanitize_oci_setup_detail detail
          ≡ replace
              (codes "ar-token")
              (codes "[redacted]")
              (replace (codes "secret-bearing") (codes "[redacted]") t)))
    × (contains (codes "/run/secrets/") (sanitize_oci_setup_detail detail) ≡ false)
    × (contains (codes "secret-bearing") (sanitize_oci_setup_detail detail) ≡ false)
    × (contains (codes "ar-token") (sanitize_oci_setup_detail detail) ≡ false)
sanitize_oci_setup_detail_lem_example = sanitize_oci_setup_detail_lem detail

-- The container takes the place of the process; preparations are counted.
unfoldable prepare : ℕ → ℕ × Result OciSetupDiagnostic GatewayLaunchOutcome
prepare n = (suc n, ok outer_launcher_finished)

replaces : (n : ℕ) → (prepare n).1 ≢ ok continue_in_process
unfolding prepare
replaces n e = cc

abbrev bare_flag : StartupOptions
bare_flag = record { bare = true }

abbrev unset : GatewayLauncherEnvValues
unset = record { bare = none; external_isolation = none }

goes_on :
    (select_gateway_launcher_for_startup_options prepare bare_flag unset 0).1
    ≡ ok continue_in_process
unfolding select_gateway_launcher_for_startup_options select_gateway_launcher launch use_oci
    is_container reads_true trim trim_start trim_end to_ascii_lowercase text_eq
goes_on = refl

select_gateway_launcher_for_startup_options-Continues_example :
    Continues prepare
      (is_container unset.external_isolation)
      (chosen bare_flag unset)
      0
      (select_gateway_launcher_for_startup_options prepare bare_flag unset 0)
select_gateway_launcher_for_startup_options-Continues_example =
    select_gateway_launcher_for_startup_options-Continues prepare bare_flag unset 0 goes_on

reported-oci_default_example : (reported_posture (codes "linux") unset ≡ ok (oci_posture none)) ↔ (
    (bare_flag.bare ≡ true)
    × (is_container unset.external_isolation ≡ false)
    × (use_oci unset.bare ≡ ok true))
reported-oci_default_example = reported-oci_default prepare bare_flag unset 0 replaces goes_on

-- Every variable of the outer process is `x`.
unfoldable read : Text → Result OciSetupDiagnostic (Option Text)
read name = ok (some (codes "x"))

abbrev made : Result OciSetupDiagnostic ProcessEnv → ProcessEnv
made (ok env) = env
made (err d) = static_inner_gateway_env

abbrev inner : ProcessEnv
inner = made (inner_gateway_process_env_from_lookup read)

inner_made : inner_gateway_process_env_from_lookup read ≡ ok inner
unfolding inner_gateway_process_env_from_lookup read add_entries add_entry set_process_env_entry
    filled is_required text_eq trim trim_start trim_end
inner_made = refl

inner_gateway_process_env_from_lookup-passes_example :
    ((n : Text)
      → value_in inner n ≡ (
          if text_eq n external_isolation_name
          then some (codes "container")
          else if is_allowed n
          then or_else (passed read n) (value_in static_inner_gateway_env n)
          else value_in static_inner_gateway_env n))
    × ((n : Text) → is_required n ≡ true → is_some (passed read n) ≡ true)
    × (select_gateway_launcher prepare
          (record {
            bare = value_in inner (codes "AR_GATEWAY_BARE");
            external_isolation = value_in inner external_isolation_name;
          })
          0
        ≡ (0, ok continue_in_process))
inner_gateway_process_env_from_lookup-passes_example =
    inner_gateway_process_env_from_lookup-passes read inner prepare 0 inner_made
