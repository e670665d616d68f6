-- ===== src/Gateway/Startup.antt =====
-- crates/ar-gateway/src/startup.rs: how the gateway chooses its isolation and what it reports of it.
-- The preparation of the container is a parameter over a state `W` of its own; an `anyhow` error is
-- its text.
use auto_review.Prelude.{
  ℕ, suc, Bool, true, false, not, ◌&&◌, ◌||◌, List, [], ◌∷◌, ◌++◌, Option, none, some, Result, ok,
  err, ◌==◌, any, map, length, if◌then◌else◌,
}
use auto_review.Prelude.Text.{Text, codes, text_eq, trim, to_ascii_lowercase}
use auto_review.Prelude.Keys.{member, text_key}
use auto_review.Prelude.Replace.{replace, replace_from}
pub mod Redacted
pub mod Isolated
pub mod Env

abbrev pub secret_path_prefix : Text
secret_path_prefix = codes "/run/secrets/"

unfoldable pub ends_path : ℕ → Bool
ends_path c =
    c == b' '
    || c == 9
    || c == 10
    || c == 12
    || c == 13
    || c == b';'
    || c == b','
    || c == b')'
    || c == b']'
    || c == b'}'

-- The text behind a path, from the byte that ends it.
unfoldable pub skip_path : Text → Text
skip_path [] = []
skip_path (c ∷ s) = if ends_path c then c ∷ s else skip_path s

unfoldable pub redact_run_secrets_path_suffix : Text → Text
redact_run_secrets_path_suffix detail =
    replace_from (suc (length detail)) skip_path secret_path_prefix (codes "[redacted]") detail

unfoldable pub sanitize_oci_setup_detail : Text → Text
sanitize_oci_setup_detail detail =
    replace (codes "ar-token") (codes "[redacted]") (
      replace (codes "secret-bearing") (codes "[redacted]") (redact_run_secrets_path_suffix detail))

pub record OciSetupDiagnostic : Type 0 where
  pub detail : Text

unfoldable pub public_detail : OciSetupDiagnostic → Text
public_detail d = sanitize_oci_setup_detail d.detail

pub data GatewayLaunchOutcome : Type 0 where
  continue_in_process outer_launcher_finished : GatewayLaunchOutcome

pub record StartupOptions : Type 0 where
  pub bare : Bool

pub record GatewayLauncherEnvValues : Type 0 where
  pub bare : Option Text
  pub external_isolation : Option Text

-- `external_isolation == Some("container")`
unfoldable pub is_container : Option Text → Bool
is_container none = false
is_container (some v) = text_eq v (codes "container")

unfoldable pub reads_true : Text → Bool
reads_true v = member v (codes "1" ∷ codes "true" ∷ codes "yes" ∷ codes "on" ∷ [])

unfoldable pub reads_false : Text → Bool
reads_false v = member v (codes "0" ∷ codes "false" ∷ codes "no" ∷ codes "off" ∷ [])

abbrev pub unrecognized_bare : Text
unrecognized_bare =
    codes "AR_GATEWAY_BARE has an unrecognized value; use true/false, yes/no, on/off, or 1/0"

unfoldable pub use_oci : Option Text → Result Text Bool
use_oci none = ok true
use_oci (some v) =
    let value = to_ascii_lowercase (trim v) in
    if reads_true value
    then ok false
    else if reads_false value
    then ok true
    else err unrecognized_bare

abbrev pub explicit_bare_gateway_mode_warning : Text
explicit_bare_gateway_mode_warning =
    codes
      "Warning: bare gateway mode selected; only application-level controls are active, not container-equivalent isolation."

unfoldable pub launch_error : OciSetupDiagnostic → Text
launch_error d =
    codes "OCI gateway launcher setup failed: "
    ++ public_detail d
    ++ codes "; set AR_GATEWAY_BARE (or pass --bare) to opt out"

module _ {W : Type 0} (prepare_oci : W → W × Result OciSetupDiagnostic GatewayLaunchOutcome) where
  unfoldable pub after_prepare :
      W × Result OciSetupDiagnostic GatewayLaunchOutcome → W × Result Text GatewayLaunchOutcome
  after_prepare (w, ok outcome) = (w, ok outcome)
  after_prepare (w, err d) = (w, err (launch_error d))

  unfoldable pub launch : W → Result Text Bool → W × Result Text GatewayLaunchOutcome
  launch w (err e) = (w, err e)
  launch w (ok true) = after_prepare (prepare_oci w)
  launch w (ok false) = (w, ok continue_in_process)

  unfoldable pub select_gateway_launcher :
      GatewayLauncherEnvValues → W → W × Result Text GatewayLaunchOutcome
  select_gateway_launcher values w =
      if is_container values.external_isolation
      then (w, ok continue_in_process)
      else launch w (use_oci values.bare)

  unfoldable pub select_gateway_launcher_for_startup_options :
      StartupOptions → GatewayLauncherEnvValues → W → W × Result Text GatewayLaunchOutcome
  select_gateway_launcher_for_startup_options options values w =
      select_gateway_launcher
        (record values { bare = if options.bare then some (codes "true") else values.bare }) w

pub record RuntimeIsolationPostureInput : Type 0 where
  pub bare : Option Text
  pub external_isolation : Option Text
  pub oci_setup_diagnostic : Option OciSetupDiagnostic
  pub target_os : Text

pub data RuntimeIsolationPostureKind : Type 0 where
  oci_default external_container explicit_bare oci_setup_failure unsupported_platform :
      RuntimeIsolationPostureKind

pub record RuntimeIsolationPosture : Type 0 where
  pub kind : RuntimeIsolationPostureKind
  pub operator_label : Text
  pub operator_detail : Text

abbrev pub unsupported : RuntimeIsolationPosture
unsupported = record {
  kind = unsupported_platform;
  operator_label = codes "unsupported platform";
  operator_detail =
      codes
        "Embedded OCI isolation is unavailable on this platform; run in bare mode or provide external isolation.";
}

abbrev pub external : RuntimeIsolationPosture
external = record {
  kind = external_container;
  operator_label = codes "external container isolation";
  operator_detail = codes "Gateway is already inside an externally provided container boundary.";
}

abbrev pub bare_mode : RuntimeIsolationPosture
bare_mode = record {
  kind = explicit_bare;
  operator_label = codes "bare gateway mode";
  operator_detail = explicit_bare_gateway_mode_warning;
}

unfoldable pub oci_posture : Option OciSetupDiagnostic → RuntimeIsolationPosture
oci_posture (some d) = record {
  kind = oci_setup_failure;
  operator_label = codes "OCI setup failed";
  operator_detail =
      codes "OCI setup failed: " ++ public_detail d ++ codes "; set AR_GATEWAY_BARE to opt out";
}
oci_posture none = record {
  kind = oci_default;
  operator_label = codes "packaged OCI container isolation";
  operator_detail = codes "Gateway uses embedded OCI container-equivalent isolation by default.";
}

unfoldable pub posture_of :
    Option OciSetupDiagnostic → Result Text Bool → Result Text RuntimeIsolationPosture
posture_of diagnostic (err e) = err e
posture_of diagnostic (ok false) = ok bare_mode
posture_of diagnostic (ok true) = ok (oci_posture diagnostic)

unfoldable pub classify_runtime_isolation_posture :
    RuntimeIsolationPostureInput → Result Text RuntimeIsolationPosture
classify_runtime_isolation_posture input =
    if not (text_eq input.target_os (codes "linux"))
    then ok unsupported
    else if is_container input.external_isolation
    then ok external
    else posture_of input.oci_setup_diagnostic (use_oci input.bare)

-- What `run_from_env` reports once the launcher goes on in this process.
unfoldable pub reported_posture :
    Text → GatewayLauncherEnvValues → Result Text RuntimeIsolationPosture
reported_posture target_os values = classify_runtime_isolation_posture (record {
  bare = values.bare;
  external_isolation = values.external_isolation;
  oci_setup_diagnostic = none;
  target_os = target_os;
})
