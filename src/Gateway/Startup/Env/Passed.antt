-- ===== src/Gateway/Startup/Env/Passed.antt =====
-- crates/ar-gateway/src/startup.rs: which variables reach the gateway inside the container.
use auto_review.Prelude.{
  ◌≡◌, refl, ap, ◌∙◌, inl, inr, Bool, true, not, ◌&&◌, List, [], ◌∷◌, Option, none, some, Result,
  ok, err, arith, if◌then◌else◌, is_some, Bool-cases, Result-cases,
}
use auto_review.Prelude.Text.{Text, codes, text_eq, text_eq_iff}
use auto_review.Prelude.Keys
use auto_review.Prelude.Keys.{member, text_key, beq_self}
use auto_review.Gateway.Startup.{
  OciSetupDiagnostic, is_container, GatewayLaunchOutcome, continue_in_process,
  select_gateway_launcher,
}
use auto_review.Gateway.Startup.Env.{
  ProcessEnv, external_isolation_name, static_inner_gateway_env, is_required,
  inner_gateway_env_allowlist, set_process_env_entry, filled, add_entry, add_entries,
  inner_gateway_process_env_from_lookup,
}

-- The value of a variable.
abbrev pub value_in : ProcessEnv → Text → Option Text
value_in env name = Keys.lookup name env

-- The first value, if there is one, or else the second.
unfoldable pub or_else : Option Text → Option Text → Option Text
or_else none other = other
or_else (some v) other = some v

value_in-set :
    (name value n : Text) (env : ProcessEnv)
    → value_in (set_process_env_entry name value env) n
      ≡ (if text_eq n name then some value else value_in env n)
unfolding set_process_env_entry Keys.lookup
value_in-set name value n [] = refl
value_in-set name value n ((k, v) ∷ env) = ground (
  arith,
  text_eq_iff n name,
  text_eq_iff n k,
  text_eq_iff name k,
  text_eq_iff k name,
  value_in-set name value n env,
)

value_in-add_entry :
    (name n : Text) (found : Option Text) (env : ProcessEnv)
    → value_in (add_entry name found env) n
      ≡ (if text_eq n name then or_else found (value_in env n) else value_in env n)
unfolding add_entry or_else
value_in-add_entry name n none env = ground arith
value_in-add_entry name n (some value) env = value_in-set name value n env

or_else-twice : (v other : Option Text) → or_else v (or_else v other) ≡ or_else v other
unfolding or_else
or_else-twice none other = refl
or_else-twice (some v) other = refl

module _ (lookup : Text → Result OciSetupDiagnostic (Option Text)) where
  -- What the outer process has under a name, blank values left out.
  unfoldable pub passed : Text → Option Text
  passed name = elim (lookup name) [ err d ↦ none | ok found ↦ filled found ]

  -- What holds of an environment that was read from a list of names.
  abbrev AreAdded : List Text → ProcessEnv → ProcessEnv → Type 0
  AreAdded names env result =
      ((n : Text)
        → value_in result n
          ≡ (if member n names then or_else (passed n) (value_in env n) else value_in env n))
      × ((n : Text) → member n names ≡ true → is_required n ≡ true → is_some (passed n) ≡ true)

  add_entries-AreAdded :
      (names : List Text) (env result : ProcessEnv)
      → add_entries lookup names env ≡ ok result
      → AreAdded names env result
  unfolding add_entries passed
  add_entries-AreAdded [] env result h =
      let same : result ≡ env = cc in
      (λ n. ap (λ r. value_in r n) same, λ n inside required. absurd (ground arith))
  add_entries-AreAdded (name ∷ names) env result h = elim (Result-cases (lookup name)) [
    | inr (d, e) ↦ absurd (ground (arith, rw (e, add_entries) at h))
    | inl (found, e) ↦ elim (Bool-cases (is_required name && not (is_some (filled found)))) [
      | inl missing ↦ absurd (ground (arith, rw (e, missing, add_entries) at h))
      | inr fine ↦
          let (values, required) =
            add_entries-AreAdded names (add_entry name (filled found) env) result
              (rw (e, fine, add_entries) at h) in
          let found_there : (n : Text) → text_eq n name ≡ true → passed n ≡ filled found =
            λ n q. ap passed ((text_eq_iff n name).0 q) ∙ rw (e, passed) refl in
          (
            λ n. ground (
              arith,
              values n,
              value_in-add_entry name n (filled found) env,
              found_there n,
              or_else-twice (passed n) (value_in env n),
            ),
            λ n inside needed. ground (arith, required n, found_there n, text_eq_iff n name),
          )
    ]
  ]

unfoldable pub is_allowed : Text → Bool
is_allowed n = member n inner_gateway_env_allowlist

required-in : (n : Text) → is_required n ≡ true → is_allowed n ≡ true
unfolding is_required is_allowed
required-in n h = ground arith

container_is : is_container (some (codes "container")) ≡ true
unfolding is_container text_eq
container_is = refl

-- If the environment of the inner gateway can be made, each variable in it has what the outer
-- process has under its name, if it is on the list and not blank there, or else its fixed value;
-- the required ones have a value of the outer process; and the marker of the container is set in
-- any case, so that a gateway with this environment goes on in its process and prepares no second
-- container, whatever the preparation would do.
pub inner_gateway_process_env_from_lookup-passes :
    {W : Type 0} (lookup : Text → Result OciSetupDiagnostic (Option Text)) (env : ProcessEnv)
    (prepare_oci : W → W × Result OciSetupDiagnostic GatewayLaunchOutcome) (w : W)
    → inner_gateway_process_env_from_lookup lookup ≡ ok env
    → ((n : Text)
        → value_in env n ≡ (
            if text_eq n external_isolation_name
            then some (codes "container")
            else if is_allowed n
            then or_else (passed lookup n) (value_in static_inner_gateway_env n)
            else value_in static_inner_gateway_env n))
      × ((n : Text) → is_required n ≡ true → is_some (passed lookup n) ≡ true)
      × (select_gateway_launcher prepare_oci
            (record {
              bare = value_in env (codes "AR_GATEWAY_BARE");
              external_isolation = value_in env external_isolation_name;
            })
            w
          ≡ (w, ok continue_in_process))
unfolding inner_gateway_process_env_from_lookup
inner_gateway_process_env_from_lookup-passes lookup env prepare_oci w h =
    elim (Result-cases (add_entries lookup inner_gateway_env_allowlist static_inner_gateway_env)) [
      | inr (d, e) ↦ absurd (ground (arith, rw (e, inner_gateway_process_env_from_lookup) at h))
      | inl (added, e) ↦
          let (values, required) =
            add_entries-AreAdded lookup inner_gateway_env_allowlist static_inner_gateway_env added
              e in
          let same : env ≡ set_process_env_entry external_isolation_name (codes "container") added =
            ok_eq (rw (e, inner_gateway_process_env_from_lookup) at h) in
          let marker : value_in env external_isolation_name ≡ some (codes "container") =
            ap (λ r. value_in r external_isolation_name) same
            ∙ value_in-set external_isolation_name (codes "container") external_isolation_name added
            ∙ rw (beq_self external_isolation_name) refl in
          (
            λ n.
                ap (λ r. value_in r n) same
                ∙ value_in-set external_isolation_name (codes "container") n added
                ∙ otherwise n (value_in added n) (allowed_values n (values n)),
            λ n needed. required n (unfold is_allowed in required-in n needed) needed,
            unfold select_gateway_launcher in rw (marker, container_is) refl,
          )
    ]
  where
    allowed_values :
        (n : Text)
        → {v : Option Text}
        → v ≡ (
            if member n inner_gateway_env_allowlist
            then or_else (passed lookup n) (value_in static_inner_gateway_env n)
            else value_in static_inner_gateway_env n)
        → v ≡ (
            if is_allowed n
            then or_else (passed lookup n) (value_in static_inner_gateway_env n)
            else value_in static_inner_gateway_env n)
    allowed_values n q = unfold is_allowed in q

    otherwise :
        (n : Text) (v : Option Text) {u : Option Text}
        → v ≡ u
        → (if text_eq n external_isolation_name then some (codes "container") else v)
          ≡ (if text_eq n external_isolation_name then some (codes "container") else u)
    otherwise n v q =
        ap (λ x. if text_eq n external_isolation_name then some (codes "container") else x) q

    ok_eq :
        {a b : ProcessEnv} → ◌≡◌ {A = Result OciSetupDiagnostic ProcessEnv} (ok a) (ok b) → b ≡ a
    ok_eq q = cc
