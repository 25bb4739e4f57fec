-- ===== src/Tests/Eset.antt =====
-- Exchanges with the ESET services.
use eset_incident_ai.Prelude.{◌≡◌, refl, none, some, [], ◌∷◌, arith}
use eset_incident_ai.Value.{text, object, field, no_fields}
use eset_incident_ai.Eset.Http.{Reply, response, lost, Connection}
use eset_incident_ai.Eset.Auth.{Credentials, is_valid, valid_token, build_token_request}
use eset_incident_ai.Eset.Requests.{request_incidents}
use eset_incident_ai.Eset.Requests.Settling.{Settled, request-settles}

abbrev credentials : Credentials
credentials = record {
  auth_url = "https://auth";
  username = "user";
  password = "pass";
  client_id = "";
  client_secret = "";
  to_int = λ v. some 3600;
}

abbrev granted : Reply
granted = response 200 (some (object (field "access_token" (text "t1") no_fields)))

abbrev no_token : Connection
no_token = record { token = none; now = 1000; replies = granted ∷ []; sent = [] }

abbrev renewed : Connection
renewed = record {
  token = some (record { value = "t1"; expires_at = 4600 });
  now = 1000;
  replies = [];
  sent =
      record { path = "https://auth"; params = build_token_request credentials; bearer = "" } ∷ [];
}

abbrev busy : Reply
busy = response 503 none

abbrev answered : Reply
answered = response 200 (some (object no_fields))

abbrev ready : Connection
ready = record renewed {
  replies = busy ∷ lost "ReadTimeout" ∷ answered ∷ busy ∷ busy ∷ [];
  sent = [];
}

is_ready : valid_token ready ≡ some "t1"
unfolding valid_token is_valid
is_ready = refl

request-settles_example :
    Settled 4
      (record { path = "/v2/incidents/a"; params = no_fields; bearer = "t1" })
      ready
      (request_incidents credentials "/v2/incidents/a" no_fields ready).1
      (request_incidents credentials "/v2/incidents/a" no_fields ready).0
request-settles_example =
    request-settles credentials "/v2/incidents/a" no_fields "t1" ready is_ready (omega arith)
