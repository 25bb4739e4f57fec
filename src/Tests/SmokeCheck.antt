-- ===== src/Tests/SmokeCheck.antt =====
-- The smoke check of an API that works, and of one whose Redis is down.
use eset_incident_ai.Prelude.{◌≡◌, refl, ◌&&◌, some, [], ◌∷◌}
use eset_incident_ai.Value.{get, has_key}
use eset_incident_ai.World.{World, Error, other, works, fails}
use eset_incident_ai.Exec.{pure, call, catch, ◌>>=◌}
use eset_incident_ai.Security.Sanitizer.{sanitizer}
use eset_incident_ai.Externals.{str}
use eset_incident_ai.Persistence.Approvals as Approvals
use eset_incident_ai.Persistence.Runs.Incidents as Runs
use eset_incident_ai.UseCases.Review.{list_approvals}
use eset_incident_ai.Api.Responses.{serve}
use eset_incident_ai.Api.Routes.{pending_route, latest_incident_run_route}
use eset_incident_ai.Api.Health.{
  check_database, check_redis, check_services, check_readiness, ready_route,
}
use eset_incident_ai.Api.App.{app}
use eset_incident_ai.Scripts.SmokeCheck.{Report, http_error, passes, is_web, main, run_checks}
use eset_incident_ai.Scripts.SmokeCheck.Agrees.{api, healthy, main-agrees}
use eset_incident_ai.Tests.Fixtures.{plain, world}
use eset_incident_ai.Tests.Api.{platform, settings}

abbrev refused : Error
refused = record { class = other "ConnectionError"; message = "" }

-- `PING` is the fourth call.
abbrev redis_down : World
redis_down = world (works ∷ works ∷ works ∷ fails refused ∷ [])

abbrev check : World → Report
check w = (main (api platform settings) "https" plain platform.decimal w).0

up :
    (check (world [])).output
    ≡ "health=ok" ∷ "ready=ok database=ok redis=ok" ∷ "latest_collection_run=none"
      ∷ "pending_approvals=ok count=0" ∷ "smoke_check=ok" ∷ []
unfolding run_checks app ready_route check_readiness ◌>>=◌ check_services check_database catch call
    pure check_redis get has_key latest_incident_run_route serve Runs.latest Runs.list_recent
    pending_route sanitizer list_approvals Approvals.list_pending Approvals.ensure_table
    Approvals.open_rows str
up = refl

down : (check redis_down).failure ≡ some (http_error 503)
unfolding run_checks app ready_route check_readiness ◌>>=◌ check_services check_database catch call
    pure check_redis
down = refl

main-agrees_example :
    passes (check redis_down)
    ≡ (is_web "https" && healthy plain platform settings "https" redis_down)
main-agrees_example = main-agrees plain platform settings "https" redis_down
