-- ===== src/Scripts/SmokeCheck/Agrees.antt =====
-- The smoke check of scripts/smoke_check.py against the API of src/eset_incident_ai/api.
use eset_incident_ai.Prelude.{
  ℕ, String, ◌≡◌, refl, ap, ◌∙◌, [], Bool, true, false, ◌&&◌, Option, none, some, List, ◌∷◌, inl,
  inr, Bool-cases, leb, ltb,
}
use eset_incident_ai.Value.{Value, array, object, get, has_key}
use eset_incident_ai.World.{
  World, Approval, ErrorClass, domain_error, unsafe_notification, approval_required,
  eset_authentication_error, discord_delivery_error, value_error, eset_api_error,
  eset_temporary_api_error, other, Run,
}
use eset_incident_ai.Externals.{Externals}
use eset_incident_ai.Exec.{Outcome, ok, err, Exec}
use eset_incident_ai.Settings.{Settings}
use eset_incident_ai.Persistence.Approvals.{incidents}
use eset_incident_ai.Api.Dependencies.{Platform, get_sanitizer}
use eset_incident_ai.Api.Responses.{
  Response, success, failure, answer_of, serve, status_of, is_unauthorized,
}
use eset_incident_ai.Api.Routes.{latest_incident_run_route, pending_route}
use eset_incident_ai.Api.Health.{
  ReadinessDto, is_ready, dump, text_fields, health_route, readiness_answer, ready_route,
  check_readiness,
}
use eset_incident_ai.Api.App.{app, rendered, optional_json, run_json, approvals_json}
use eset_incident_ai.Scripts.SmokeCheck.{
  Reply, response, Result, fine, stopped, Report, read, after, go_on, passes, is_web, check_health,
  check_ready, check_collection_runs, check_pending_approvals, run_checks, main,
}

-- What the script receives.
abbrev pub sent : (ℕ × Value) × World → Reply × World
sent ((status, body), w) = (response status (some body), w)

abbrev pub api : Platform → Settings → String → World → Reply × World
api p s path w = sent (app p s path w)

abbrev pub succeeds {ℓ} : {A : Type ℓ} → Response A → Bool
succeeds (success a) = true
succeeds (failure status detail) = false

abbrev is_2xx : ℕ → Bool
is_2xx n = leb 200 n && ltb n 300

abbrev is_fine {ℓ} : {A : Type ℓ} → Result A → Bool
is_fine (fine a) = true
is_fine (stopped f) = false

-- A failure has no status of a success, and a success is a payload that the check accepts.
abbrev Fits {ℓ} : {A : Type ℓ} → (Value → Result String) → (A → Value) → Response A → Type 0
Fits check f (success a) = is_fine (check (f a)) ≡ true
Fits check f (failure status detail) = is_2xx status ≡ false

eset_api_error_lem : (n : Option ℕ) → is_2xx (status_of (eset_api_error n)) ≡ false
unfolding status_of
eset_api_error_lem n = elim (Bool-cases (is_unauthorized n)) [
  | inl on ↦ rw on refl
  | inr off ↦ rw off refl
]

is_2xx-status_of : (class : ErrorClass) → is_2xx (status_of class) ≡ false
unfolding status_of
is_2xx-status_of domain_error = refl
is_2xx-status_of unsafe_notification = refl
is_2xx-status_of approval_required = refl
is_2xx-status_of eset_authentication_error = refl
is_2xx-status_of discord_delivery_error = refl
is_2xx-status_of value_error = refl
is_2xx-status_of (eset_api_error n) = eset_api_error_lem n
is_2xx-status_of (eset_temporary_api_error n) = eset_api_error_lem n
is_2xx-status_of (other name) = refl

module _ {ℓ} {A : Type ℓ} (check : Value → Result String) (f : A → Value) where
  answer_of-Fits :
      ((a : A) → is_fine (check (f a)) ≡ true) → (o : Outcome A) → Fits check f (answer_of o)
  answer_of-Fits accepts (ok a) = accepts a
  answer_of-Fits accepts (err e) = is_2xx-status_of e.class

  serve-Fits {κ} :
      {C : Type κ} (o : Outcome C) (valid : Bool) (m : C → Exec A) (w : World)
      → ((a : A) → is_fine (check (f a)) ≡ true)
      → Fits check f (serve o valid m w).0
  unfolding serve
  serve-Fits (err e) valid m w accepts = is_2xx-status_of e.class
  serve-Fits (ok c) false m w accepts = refl
  serve-Fits (ok c) true m w accepts = answer_of-Fits accepts (m c w).0

  -- The check passes if the route answers with a result and the checks after it pass.
  step_lem :
      (r : Response A) (w : World) (rest : World → Report × World)
      → Fits check f r
      → passes (go_on (after (read (sent (rendered f (r, w)))) check) rest).0
        ≡ (succeeds r && passes (rest w).0)
  step_lem (success a) w rest e = go (check (f a)) e
    where
      go : (c : Result String) → is_fine c ≡ true → passes (go_on (c, w) rest).0 ≡ passes (rest w).0
      go (fine line) h = refl
      go (stopped e) h = cc
  step_lem (failure status detail) w rest e = rw e refl

ready-Fits :
    (x : Externals) (decimal : ℕ → String) (o : Outcome ReadinessDto)
    → Fits (check_ready x decimal) dump (readiness_answer o)
unfolding get has_key
ready-Fits x decimal (ok r) = elim (Bool-cases (is_ready r)) [
  | inl on ↦ rw on (rw on refl)
  | inr off ↦ rw off refl
]
ready-Fits x decimal (err e) = is_2xx-status_of e.class

run-fits :
    (x : Externals) (decimal : ℕ → String) (r : Option Run)
    → is_fine (check_collection_runs x decimal (optional_json (run_json decimal) r)) ≡ true
run-fits x decimal none = refl
run-fits x decimal (some r) = refl

module _ (x : Externals) (p : Platform) (s : Settings) (scheme : String) where
  -- The routes that the smoke check asks, in its order.
  abbrev pub healthy : World → Bool
  healthy w =
      let (ready, w1) = ready_route w in
      let (run, w2) = latest_incident_run_route w1 in
      let (rows, w3) = pending_route p s incidents 50 w2 in
      succeeds ready && (succeeds run && (succeeds rows && true))

  abbrev rows_json : List Approval → Value
  rows_json rows = array (approvals_json p.decimal incidents rows)

  abbrev pending_checks : List (String × (Value → Result String))
  pending_checks = ("/api/v1/approvals/pending", check_pending_approvals x p.decimal) ∷ []

  abbrev run_checks_on : List (String × (Value → Result String))
  run_checks_on =
      ("/api/v1/incidents/collection-runs/latest", check_collection_runs x p.decimal)
      ∷ pending_checks

  abbrev ready_checks : List (String × (Value → Result String))
  ready_checks = ("/ready", check_ready x p.decimal) ∷ run_checks_on

  module _ (web : is_web scheme ≡ true) where
    -- One check of the script, whose path has a route.
    check_lem {ℓ} :
        {A : Type ℓ} (path : String) (check : Value → Result String) (f : A → Value)
        (route : World → Response A × World) (w : World)
        (rest : List (String × (Value → Result String))) (later : World → Bool)
        → app p s path w ≡ rendered f (route w)
        → Fits check f (route w).0
        → ((w' : World) → passes (run_checks (api p s) scheme rest w').0 ≡ later w')
        → passes (run_checks (api p s) scheme ((path, check) ∷ rest) w).0
          ≡ (succeeds (route w).0 && later (route w).1)
    unfolding run_checks
    check_lem path check f route w rest later routed fits rest_lem = rw web (
        rw routed (
          step_lem check f (route w).0 (route w).1 (λ w'. run_checks (api p s) scheme rest w') fits
          ∙ ap (λ b. succeeds (route w).0 && b) (rest_lem (route w).1)))

    pending_lem :
        (w : World)
        → passes (run_checks (api p s) scheme pending_checks w).0
          ≡ (succeeds (pending_route p s incidents 50 w).0 && true)
    unfolding app pending_route run_checks
    pending_lem w =
        check_lem "/api/v1/approvals/pending" (check_pending_approvals x p.decimal) rows_json
          (pending_route p s incidents 50) w [] (λ w'. true) refl
          (serve-Fits (check_pending_approvals x p.decimal) rows_json (get_sanitizer p s) _ _ w
            (λ rows. refl))
          (λ w'. refl)

    runs_lem :
        (w : World)
        → passes (run_checks (api p s) scheme run_checks_on w).0 ≡ (
            let (run, w') = latest_incident_run_route w in
            succeeds run && (succeeds (pending_route p s incidents 50 w').0 && true))
    unfolding app latest_incident_run_route
    runs_lem w =
        check_lem "/api/v1/incidents/collection-runs/latest" (check_collection_runs x p.decimal)
          (optional_json (run_json p.decimal)) latest_incident_run_route w pending_checks
          (λ w'. succeeds (pending_route p s incidents 50 w').0 && true) refl
          (serve-Fits (check_collection_runs x p.decimal) (optional_json (run_json p.decimal)) _ _ _
            w (run-fits x p.decimal))
          pending_lem

    ready_lem : (w : World) → passes (run_checks (api p s) scheme ready_checks w).0 ≡ healthy w
    unfolding app ready_route
    ready_lem w =
        check_lem "/ready" (check_ready x p.decimal) dump ready_route w run_checks_on _ refl
          (ready-Fits x p.decimal (check_readiness w).0) runs_lem

  -- Whatever the external calls do, the smoke check of the API passes exactly if its base URL is one of
  -- http or https, and the readiness, the latest run and the pending approvals are each answered with a
  -- result.
  pub main-agrees :
      (w : World) → passes (main (api p s) scheme x p.decimal w).0 ≡ (is_web scheme && healthy w)
  unfolding run_checks app
  main-agrees w = elim (Bool-cases (is_web scheme)) [
    | inl on ↦
        check_lem on "/health" check_health (λ checks. object (text_fields checks)) health_route w
          ready_checks healthy refl refl (ready_lem on)
        ∙ rw on refl
    | inr off ↦ rw off refl
  ]
