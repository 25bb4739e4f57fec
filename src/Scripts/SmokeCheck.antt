-- ===== src/Scripts/SmokeCheck.antt =====
-- scripts/smoke_check.py: four requests to a running API, by an operator. The server is a function of
-- its own state. A GET that is lost raises a URLError or another OSError, by its class; a redirect is
-- followed by the server.
pub mod Agrees
use eset_incident_ai.Prelude.{
  ℕ, suc, String, Bool, true, false, not, ◌&&◌, ◌||◌, Option, none, some, List, [], ◌∷◌, leb, ltb,
  str_eq, concat, if◌then◌else◌,
}
use eset_incident_ai.Value.{
  Value, Fields, Elements, null, text, boolean, number, object, array, field, no_fields, element,
  no_elements, get, has_key,
}
use eset_incident_ai.Externals.{Externals, str}

-- A response: its status and its body, where `none` is no JSON.
pub data Reply : Type 0 where
  response : ℕ → Option Value → Reply
  lost : String → Reply

-- What ends a check: an HTTPError, an exception that `main` names, or one that it does not catch.
pub data Failure : Type 0 where
  http_error : ℕ → Failure
  caught uncaught : String → Failure

pub data Result {ℓ} (A : Type ℓ) : Type ℓ where
  fine : A → Result A
  stopped : Failure → Result A

-- `urlopen` and `json.loads`: a status that is not 2xx raises an HTTPError.
abbrev pub read_json : Reply → Result Value
read_json (lost name) = stopped (caught name)
read_json (response status body) =
    if leb 200 status && ltb status 300
    then elim body [ none ↦ stopped (caught "JSONDecodeError") | some v ↦ fine v ]
    else stopped (http_error status)

-- `payload != {"status": "ok"}`, negated.
abbrev pub is_ok_status : Value → Bool
is_ok_status (object (field k (text v) no_fields)) = str_eq k "status" && str_eq v "ok"
is_ok_status v = false

-- `d.get(key, default)`.
abbrev pub get_default : String → Value → Fields → Value
get_default key default d = if has_key key d then get key d else default

abbrev pub is_text : String → Value → Bool
is_text s (text v) = str_eq v s
is_text s v = false

abbrev pub count : Elements → ℕ
count no_elements = 0
count (element v vs) = suc (count vs)

-- A line that is printed, or the exception that is raised.
abbrev pub check_health : Value → Result String
check_health payload =
    if is_ok_status payload then fine "health=ok" else stopped (caught "RuntimeError")

module _ (x : Externals) (decimal : ℕ → String) where
  abbrev ready_line : Value → Result String
  ready_line (object checks) = fine (
      concat "ready=ok database=" (
        concat (str x (get_default "database" (text "unknown") checks))
          (concat " redis=" (str x (get_default "redis" (text "unknown") checks)))))
  ready_line v = stopped (uncaught "AttributeError")

  abbrev pub check_ready : Value → Result String
  check_ready (object payload) =
      if is_text "ready" (get "status" payload)
      then ready_line (get_default "checks" (object no_fields) payload)
      else stopped (caught "RuntimeError")
  check_ready v = stopped (uncaught "AttributeError")

  abbrev pub check_collection_runs : Value → Result String
  check_collection_runs null = fine "latest_collection_run=none"
  check_collection_runs (object payload) = fine (
      concat "latest_collection_run=ok status=" (
        concat (str x (get_default "status" (text "unknown") payload))
          (concat " run_id=" (str x (get_default "run_id" (text "unknown") payload)))))
  check_collection_runs v = stopped (caught "RuntimeError")

  abbrev pub check_pending_approvals : Value → Result String
  check_pending_approvals (array rows) =
      fine (concat "pending_approvals=ok count=" (decimal (count rows)))
  check_pending_approvals v = stopped (caught "RuntimeError")

  -- The paths, and what is made of each payload.
  abbrev pub checks : List (String × (Value → Result String))
  checks =
      ("/health", check_health)
      ∷ ("/ready", check_ready)
      ∷ ("/api/v1/incidents/collection-runs/latest", check_collection_runs)
      ∷ ("/api/v1/approvals/pending", check_pending_approvals)
      ∷ []

-- `scheme in {"http", "https"}`, on `urlsplit(base_url).scheme`.
abbrev pub is_web : String → Bool
is_web scheme = str_eq scheme "http" || str_eq scheme "https"

-- What is left: the lines of stdout, and the failure, which is a status of 1.
pub record Report : Type 0 where
  pub output : List String
  pub failure : Option Failure

abbrev pub passes : Report → Bool
passes r = elim r.failure [ none ↦ true | some f ↦ false ]

abbrev pub printed : String → Report → Report
printed line r = record r { output = line ∷ r.output }

abbrev read {ℓ} : {S : Type ℓ} → Reply × S → Result Value × S
read (r, s) = (read_json r, s)

abbrev after {ℓ} : {S : Type ℓ} {A B : Type 0} → Result A × S → (A → Result B) → Result B × S
after (fine a, s) f = (f a, s)
after (stopped e, s) f = (stopped e, s)

-- A check that raises is the last one.
abbrev pub go_on {ℓ} : {S : Type ℓ} → Result String × S → (S → Report × S) → Report × S
go_on (stopped e, s) rest = (record { output = []; failure = some e }, s)
go_on (fine line, s) rest = let (r, s') = rest s in (printed line r, s')

module _ {ℓ} {S : Type ℓ} (server : String → S → Reply × S) (scheme : String) where
  abbrev pub get_json : String → S → Result Value × S
  get_json path s =
      if is_web scheme then read (server path s) else (stopped (caught "RuntimeError"), s)

  -- The checks, and the last line.
  unfoldable pub run_checks : List (String × (Value → Result String)) → S → Report × S
  run_checks [] s = (record { output = "smoke_check=ok" ∷ []; failure = none }, s)
  run_checks ((path, check) ∷ rest) s =
      go_on (after (get_json path s) check) (λ s'. run_checks rest s')

  abbrev pub main : Externals → (ℕ → String) → S → Report × S
  main x decimal s = run_checks (checks x decimal) s
