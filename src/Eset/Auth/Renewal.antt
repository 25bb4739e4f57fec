-- ===== src/Eset/Auth/Renewal.antt =====
-- One renewal serves every coroutine that waited for it, and a failed one changes no token.
use eset_incident_ai.Prelude.{suc, ◌≤◌, ◌≡◌, String, length}
use eset_incident_ai.Value.{Value}
use eset_incident_ai.Exec.{Outcome, ok, err}
use eset_incident_ai.Eset.Http.{Request, Connection}
use eset_incident_ai.Eset.Auth.{Credentials, build_token_request}

-- What a renewal may do to the client: it sends one request at most, and an error keeps the token.
abbrev pub Careful : Connection → Outcome String × Connection → Type 0
Careful c (ok value, c') = length c'.sent ≤ suc (length c.sent)
Careful c (err e, c') = (length c'.sent ≤ suc (length c.sent)) × (c'.token ≡ c.token)

module _ (cr : Credentials) (c : Connection) where
  abbrev asked : Request
  asked = record { path = cr.auth_url; params = build_token_request cr; bearer = "" }
