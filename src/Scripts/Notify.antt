-- ===== src/Scripts/Notify.antt =====
-- scripts/notify_latest_eset_incidents.py: a collection of incidents that an operator starts.
use eset_incident_ai.Prelude.{ℕ, Bool, not, ◌&&◌, ◌||◌, none, is_empty}
use eset_incident_ai.Exec.{Exec, ◌>>◌}
use eset_incident_ai.Settings.{Settings}
use eset_incident_ai.Results.{CollectionResult}
use eset_incident_ai.UseCases.Incidents as Incidents
use eset_incident_ai.Api.Dependencies.{Platform, get_collect_and_notify_incidents}
use eset_incident_ai.Api.Responses.{from_dependency}
use eset_incident_ai.Scripts.Backfill.{require}

-- `settings.eset_access_token or (settings.eset_username and settings.eset_password)`.
abbrev pub has_credentials : Settings → Bool
has_credentials s =
    not (is_empty s.eset_access_token)
    || (not (is_empty s.eset_username) && not (is_empty s.eset_password))

unfoldable pub check_settings : Settings → Exec (Unit {0})
check_settings s = do
  require s.discord_enabled "DISCORD_ENABLED is not true"
  require (not (is_empty s.discord_webhook_url)) "DISCORD_WEBHOOK_URL is empty"
  require (has_credentials s) "ESET credentials are empty"
  require (not (is_empty s.sanitizer_hmac_secret)) "SANITIZER_HMAC_SECRET is empty"

-- `run`, and the result that it prints.
unfoldable pub notify_latest : Platform → Settings → ℕ → Exec CollectionResult
notify_latest p s limit = do
  check_settings s
  from_dependency (get_collect_and_notify_incidents p s)
      (λ c. Incidents.execute p.externals c limit none)
