-- ===== src/Gateway/Startup/Isolated.antt =====
-- crates/ar-gateway/src/startup.rs: when the gateway runs without a container of its own, and what it
-- then says.
use auto_review.Prelude.{
  ◌≡◌, ◌≢◌, refl, ap, ◌⊎◌, ◌↔◌, inl, inr, Bool, true, false, none, some, Result, ok, err, arith,
  if◌then◌else◌, Bool-cases,
}
use auto_review.Prelude.Text.{Text, codes, text_eq, trim, trim_start, trim_end, to_ascii_lowercase}
use auto_review.Gateway.Startup.{
  OciSetupDiagnostic, GatewayLaunchOutcome, continue_in_process, StartupOptions,
  GatewayLauncherEnvValues, is_container, reads_true, use_oci, after_prepare, launch,
  select_gateway_launcher, select_gateway_launcher_for_startup_options, RuntimeIsolationPosture,
  oci_default, oci_posture, posture_of, classify_runtime_isolation_posture, reported_posture,
}

flag_is_bare : use_oci (some (codes "true")) ≡ ok false
unfolding use_oci reads_true trim trim_start trim_end to_ascii_lowercase text_eq
flag_is_bare = refl

-- What the operator chose: the flag, or the variable.
unfoldable pub chosen : StartupOptions → GatewayLauncherEnvValues → Result Text Bool
chosen options values = if options.bare then ok false else use_oci values.bare

chosen_lem :
    (options : StartupOptions) (values : GatewayLauncherEnvValues)
    → use_oci (if options.bare then some (codes "true") else values.bare) ≡ chosen options values
unfolding chosen
chosen_lem options values = elim (Bool-cases options.bare) [
  | inl flag ↦ rw (flag) flag_is_bare
  | inr variable ↦ rw (variable) refl
]

is_oci_default : Result Text RuntimeIsolationPosture → Bool
is_oci_default (err e) = false
is_oci_default (ok p) = elim p.kind [ oci_default ↦ true | _ ↦ false ]

posture_of-default :
    (choice : Result Text Bool) → posture_of none choice ≡ ok (oci_posture none) → choice ≡ ok true
unfolding posture_of oci_posture is_oci_default
posture_of-default (err e) h = absurd (ground (arith, ap is_oci_default h))
posture_of-default (ok true) h = refl
posture_of-default (ok false) h = absurd (ground (arith, ap is_oci_default h))

-- What leads to the report of a container.
reported_posture_iff :
    (values : GatewayLauncherEnvValues)
    → (reported_posture (codes "linux") values ≡ ok (oci_posture none))
      ↔ ((is_container values.external_isolation ≡ false) × (use_oci values.bare ≡ ok true))
unfolding reported_posture classify_runtime_isolation_posture text_eq oci_posture is_oci_default
reported_posture_iff values = (
  λ h. elim (Bool-cases (is_container values.external_isolation)) [
    | inl marked ↦ absurd (ground (arith, ap is_oci_default (rw (marked, reported_posture) at h)))
    | inr free ↦ (free, posture_of-default (use_oci values.bare) (rw (free, reported_posture) at h))
  ],
  λ (free, choice). rw (free, choice) (unfold posture_of in refl),
)

module _ {W : Type 0} (prepare_oci : W → W × Result OciSetupDiagnostic GatewayLaunchOutcome) where
  -- Why a launcher went on in this process.
  abbrev pub Continues : Bool → Result Text Bool → W → W × Result Text GatewayLaunchOutcome → Type 0
  Continues marked choice w r =
      ((marked ≡ true) × (r.0 ≡ w))
      ⊎ ((choice ≡ ok false) × (r.0 ≡ w))
      ⊎ ((choice ≡ ok true) × ((prepare_oci w).1 ≡ ok continue_in_process))

  after_prepare-continuing :
      (r : W × Result OciSetupDiagnostic GatewayLaunchOutcome)
      → (after_prepare prepare_oci r).1 ≡ ok continue_in_process
      → r.1 ≡ ok continue_in_process
  unfolding after_prepare
  after_prepare-continuing (w, ok outcome) h = cc
  after_prepare-continuing (w, err d) h = absurd (ground arith)

  launch-Continues :
      (w : W) (choice : Result Text Bool)
      → (launch prepare_oci w choice).1 ≡ ok continue_in_process
      → Continues false choice w (launch prepare_oci w choice)
  unfolding launch
  launch-Continues w (err e) h = absurd (ground arith)
  launch-Continues w (ok true) h = inr (inr (refl, after_prepare-continuing (prepare_oci w) h))
  launch-Continues w (ok false) h = inr (inl (refl, refl))

  select_gateway_launcher-Continues :
      (values : GatewayLauncherEnvValues) (w : W)
      → (select_gateway_launcher prepare_oci values w).1 ≡ ok continue_in_process
      → Continues
          (is_container values.external_isolation)
          (use_oci values.bare)
          w
          (select_gateway_launcher prepare_oci values w)
  unfolding select_gateway_launcher
  select_gateway_launcher-Continues values w h =
      elim (Bool-cases (is_container values.external_isolation)) [
        | inl marked ↦ rw (marked, select_gateway_launcher) (inl (refl, refl))
        | inr free ↦
            rw (free, select_gateway_launcher)
              (launch-Continues w (use_oci values.bare) (rw (free, select_gateway_launcher) at h))
      ]

  -- The gateway goes on in this process only behind the marker of an external container, or if
  -- the flag or the variable chose the bare mode, or if the container was prepared and said so;
  -- in the first two cases nothing is prepared. A failed preparation never leads on.
  pub select_gateway_launcher_for_startup_options-Continues :
      (options : StartupOptions) (values : GatewayLauncherEnvValues) (w : W)
      → (select_gateway_launcher_for_startup_options prepare_oci options values w).1
        ≡ ok continue_in_process
      → Continues
          (is_container values.external_isolation)
          (chosen options values)
          w
          (select_gateway_launcher_for_startup_options prepare_oci options values w)
  unfolding select_gateway_launcher_for_startup_options
  select_gateway_launcher_for_startup_options-Continues options values w h =
      let bare = if options.bare then some (codes "true") else values.bare in
      rw (← chosen_lem options values)
        (select_gateway_launcher-Continues (record values { bare = bare }) w h)

  -- Where the container takes the place of this process whenever its preparation succeeds, a
  -- gateway that goes on in this process on Linux reports the isolation of the embedded container
  -- exactly if it was started with the flag for the bare mode, without the marker of an external
  -- container, and with the variable not choosing the bare mode too. So the report is never true.
  pub reported-oci_default :
      (options : StartupOptions) (values : GatewayLauncherEnvValues) (w : W)
      → ((v : W) → (prepare_oci v).1 ≢ ok continue_in_process)
      → (select_gateway_launcher_for_startup_options prepare_oci options values w).1
        ≡ ok continue_in_process
      → (reported_posture (codes "linux") values ≡ ok (oci_posture none)) ↔ (
          (options.bare ≡ true)
          × (is_container values.external_isolation ≡ false)
          × (use_oci values.bare ≡ ok true))
  reported-oci_default options values w replaces h = (
    λ report. elim (Bool-cases options.bare) [
      | inl flag ↦
          let (free, choice) = (reported_posture_iff values).0 report in (flag, free, choice)
      | inr variable ↦
          let (free, choice) = (reported_posture_iff values).0 report in
          elim (select_gateway_launcher_for_startup_options-Continues options values w h) [
            | inl (marked, _) ↦ absurd (ground arith)
            | inr (inl (bare, _)) ↦
                let same : chosen options values ≡ use_oci values.bare =
                  unfold chosen in rw variable refl in
                absurd (ground (arith, same, bare, choice))
            | inr (inr (_, went_on)) ↦ absurd (replaces w went_on)
          ]
    ],
    λ (flag, free, choice). (reported_posture_iff values).1 (free, choice),
  )
