-- ===== src/Api/Health.antt =====
-- src/eset_incident_ai/api/routes/health.py, application/use_cases/check_readiness.py and
-- infrastructure/observability/readiness.py: whether the process runs, and whether what it needs does.
-- The two checks of `asyncio.gather` stand one after the other.
use eset_incident_ai.Prelude.{String, Bool, true, ◌&&◌, List, [], ◌∷◌, str_eq, if◌then◌else◌}
use eset_incident_ai.Value.{Value, Fields, text, object, field, no_fields}
use eset_incident_ai.Exec.{Outcome, ok, err, Exec, pure, execute, catch, ◌>>=◌, ◌>>◌}
use eset_incident_ai.Api.Responses.{Response, success, failure, handle, Route}

pub record ReadinessDto : Type 0 where
  pub status : String
  pub checks : List (String × String)

-- `ReadinessDTO.is_ready`.
abbrev pub is_ready : ReadinessDto → Bool
is_ready r = str_eq r.status "ready"

-- A call of a server that changes no row.
abbrev pub contact : Exec (Unit {0})
contact = execute (λ w. w)

-- `try: m; return "ok" except Exception: return "failed"`.
abbrev pub attempt : Exec (Unit {0}) → Exec String
attempt m = catch (do m; pure "ok") (λ e. pure "failed")

-- It connects, runs `SELECT 1`, and commits as it leaves the block.
unfoldable pub check_database : Exec String
check_database = attempt (do contact; contact; contact)

-- `finally: await client.aclose()`.
unfoldable pub check_redis : Exec String
check_redis = do answer ← attempt contact; contact; pure answer

unfoldable pub check_services : Exec (List (String × String))
check_services = do
  database ← check_database
  cache ← check_redis
  pure (("database", database) ∷ ("redis", cache) ∷ [])

-- `all(value == "ok" for value in checks.values())`.
abbrev pub all_ok : List (String × String) → Bool
all_ok [] = true
all_ok ((name, answer) ∷ rest) = str_eq answer "ok" && all_ok rest

unfoldable pub check_readiness : Exec ReadinessDto
check_readiness = do
  checks ← check_services
  let status = if all_ok checks then "ready" else "not_ready"
  pure (record { status = status; checks = checks })

abbrev pub text_fields : List (String × String) → Fields
text_fields [] = no_fields
text_fields ((k, v) ∷ rest) = field k (text v) (text_fields rest)

-- `result.model_dump()`.
abbrev pub dump : ReadinessDto → Value
dump r =
    object
      (field "status" (text r.status) (field "checks" (object (text_fields r.checks)) no_fields))

-- `GET /health`.
abbrev pub health_route : Route (List (String × String))
health_route w = (success (("status", "ok") ∷ []), w)

abbrev pub readiness_answer : Outcome ReadinessDto → Response ReadinessDto
readiness_answer (ok r) = if is_ready r then success r else failure 503 (dump r)
readiness_answer (err e) = handle e

-- `GET /ready`.
unfoldable pub ready_route : Route ReadinessDto
ready_route w = let (r, w') = check_readiness w in (readiness_answer r, w')
