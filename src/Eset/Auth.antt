-- ===== src/Eset/Auth.antt =====
-- src/eset_incident_ai/infrastructure/eset/auth_client.py: the access token, and its renewal under a
-- lock.
pub mod Renewal
use eset_incident_ai.Prelude.{
  ℕ, ◌+◌, String, Bool, true, false, not, ◌&&◌, Option, none, some, List, [], ◌∷◌, ltb, ◌==◌,
  is_empty, if◌then◌else◌,
}
use eset_incident_ai.Value.{
  Value, Fields, text, null, field, no_fields, get, has_key, as_dict, number,
}
use eset_incident_ai.World.{eset_authentication_error, value_error, other}
use eset_incident_ai.Exec.{Outcome, ok, err}
use eset_incident_ai.Eset.Http.{
  AccessToken, Request, Connection, Http, pure, raise, exchange, ◌>>=◌,
}

-- The settings of the client. `to_int` is Python's `int(value)`, `none` where it raises.
pub record Credentials : Type 0 where
  pub auth_url : String
  pub username : String
  pub password : String
  pub client_id : String
  pub client_secret : String
  pub to_int : Value → Option ℕ

-- `time.time() < expires_at - 60`.
unfoldable pub is_valid : ℕ → AccessToken → Bool
is_valid now t = ltb (now + 60) t.expires_at

-- `self._token.value` if there is a token and it is valid.
unfoldable pub valid_token : Connection → Option String
valid_token c = elim c.token [
  | none ↦ none
  | some t ↦ (if is_valid c.now t then some t.value else none)
]

unfoldable pub build_token_request : Credentials → Fields
build_token_request cr =
    if not (is_empty cr.client_id) && not (is_empty cr.client_secret)
    then field "grant_type" (text "client_credentials") (
        field "client_id" (text cr.client_id)
          (field "client_secret" (text cr.client_secret) no_fields))
    else field "grant_type" (text "password")
        (field "username" (text cr.username) (field "password" (text cr.password) no_fields))

-- `isinstance(token, str) and token`.
abbrev as_token : Value → Option String
as_token (text s) = if is_empty s then none else some s
as_token null = none
as_token v = none

module _ (cr : Credentials) where
  -- `int(payload.get("expires_in", 3600))`.
  abbrev expires_in : Fields → Option ℕ
  expires_in payload =
      if has_key "expires_in" payload then cr.to_int (get "expires_in" payload) else some 3600

  abbrev store : String → ℕ → Http String
  store value seconds c =
      (ok value, record c { token = some (record { value = value; expires_at = c.now + seconds }) })

  abbrev pub store_payload : Option ℕ → Option String → Http String
  store_payload none value = raise value_error "invalid literal for int()"
  store_payload (some seconds) none =
      raise eset_authentication_error "ESET response did not contain access_token"
  store_payload (some seconds) (some value) = store value seconds

  abbrev pub read_payload : Option Fields → Http String
  read_payload none = raise (other "AttributeError") ""
  read_payload (some payload) =
      store_payload (expires_in payload) (as_token (get "access_token" payload))

  -- The statements after the status is tested.
  abbrev pub read_body : Option Value → Http String
  read_body none = raise (other "JSONDecodeError") ""
  read_body (some body) = read_payload (as_dict body)

  unfoldable pub fetch_token : Http String
  fetch_token =
      exchange (record { path = cr.auth_url; params = build_token_request cr; bearer = "" })
      >>= λ r.
          if r.0 == 200
          then read_body r.1
          else raise eset_authentication_error "ESET authentication failed"

  -- `if self._token and self._token.is_valid(): return self._token.value`, and else `further`.
  abbrev pub cached : Option String → Http String → Http String
  cached none further c = further c
  cached (some value) further c = (ok value, c)

  -- The body of `async with self._lock`, with its second look at the token.
  unfoldable pub locked : Http String
  locked c = cached (valid_token c) fetch_token c

  unfoldable pub get_access_token : Http String
  get_access_token c = cached (valid_token c) locked c

  -- Coroutines that have found no valid token and wait for the lock, which they enter in order; each
  -- at a time of its own. The list has their answers.
  unfoldable pub queue : List ℕ → Connection → List (Outcome String) × Connection
  queue [] c = ([], c)
  queue (now ∷ later) c =
      let (r, c') = locked (record c { now = now }) in
      let (rs, c'') = queue later c' in (r ∷ rs, c'')
