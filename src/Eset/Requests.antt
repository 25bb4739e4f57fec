-- ===== src/Eset/Requests.antt =====
-- src/eset_incident_ai/infrastructure/eset/detection_client.py and incident_client.py: the requests
-- of the two clients, with their retries, and the pages of a listing.
pub mod Settling
pub mod Uses
pub mod Paging
use eset_incident_ai.Prelude.{
  ℕ, zero, suc, String, Bool, true, false, ◌||◌, Option, none, some, List, [], ◌∷◌, any, leb, ◌==◌,
  str_mem, is_empty, concat, if◌then◌else◌,
}
use eset_incident_ai.Value.{
  Value, Fields, Elements, no_elements, element, text, array, object, null, field, no_fields, get,
  has_key, keys, as_dict,
}
use eset_incident_ai.World.{Error, ErrorClass, eset_api_error, eset_temporary_api_error, other}
use eset_incident_ai.Exec.{Outcome, ok, err}
use eset_incident_ai.UseCases.Detections.{DetectionPage}
use eset_incident_ai.Eset.Http.{
  Request, Connection, Http, pure, give, raise, exchange, attempts, ◌>>=◌,
}
use eset_incident_ai.Eset.Auth.{Credentials, get_access_token}

abbrev failure : ErrorClass → String → Outcome Fields
failure class message = err (record { class = class; message = message })

abbrev pub as_object : Option Fields → Outcome Fields
as_object none = failure (eset_api_error none) "ESET API returned non-object JSON"
as_object (some fields) = ok fields

abbrev pub read_body : Option Value → Outcome Fields
read_body none = failure (other "JSONDecodeError") ""
read_body (some v) = as_object (as_dict v)

-- The tests of the status and of the body.
unfoldable pub judge : ℕ → Option Value → Outcome Fields
judge status body =
    if status == 429 || leb 500 status
    then failure (eset_temporary_api_error (some status)) "Temporary ESET API failure"
    else if leb 400 status
    then failure (eset_api_error (some status)) "ESET API request failed"
    else read_body body

-- `UNSUPPORTED_DETECTION_PARAMS`.
abbrev pub unsupported : List String
unsupported = "filter" ∷ "orderBy" ∷ "sortBy" ∷ "sort" ∷ []

abbrev pub has_unsupported : Fields → Bool
has_unsupported params = any (λ k. str_mem k unsupported) (keys params)

-- `isinstance(value, list)` with its elements that are dictionaries.
abbrev dicts : Elements → List Fields
dicts no_elements = []
dicts (element v vs) = elim (as_dict v) [ none ↦ dicts vs | some fields ↦ fields ∷ dicts vs ]

abbrev as_list : Value → Option (List Fields)
as_list (array vs) = some (dicts vs)
as_list null = none
as_list v = none

-- `payload.get(key, [])`.
abbrev listed : String → Fields → Option (List Fields)
listed key payload = if has_key key payload then as_list (get key payload) else some []

-- `value if isinstance(value, str) and value else None`.
abbrev pub next_token : Value → Option String
next_token (text s) = if is_empty s then none else some s
next_token null = none
next_token v = none

-- `if token: params["pageToken"] = token`.
abbrev with_token : Option String → Fields
with_token none = no_fields
with_token (some t) = if is_empty t then no_fields else field "pageToken" (text t) no_fields

module _ (cr : Credentials) where
  -- One attempt of `_request`, of the incident client and of the detection client.
  unfoldable pub request_once : String → Fields → Http Fields
  request_once path params = get_access_token cr >>= λ token.
      exchange (record { path = path; params = params; bearer = token }) >>= λ r.
      give (judge r.0 r.1)

  unfoldable pub request_incidents : String → Fields → Http Fields
  request_incidents path params = attempts 4 (request_once path params)

  unfoldable pub request_detections : String → Fields → Http Fields
  request_detections path params = attempts 4 (
      if has_unsupported params
      then raise (eset_api_error none) "Unsupported ESET Detection query parameters"
      else request_once path params)

  -- `get_incident`.
  unfoldable pub get_incident : String → Http Fields
  get_incident incident_uuid = request_incidents (concat "/v2/incidents/" incident_uuid) no_fields

abbrev pub detection_page : Option (List Fields) → Option String → Outcome DetectionPage
detection_page none token =
    err (record { class = eset_api_error none; message = "ESET detections field is not a list" })
detection_page (some ds) token = ok (record { detections = ds; next_page_token = token })

abbrev pub incident_page :
    Option (List Fields) → Option String → Outcome (List Fields × Option String)
incident_page none token =
    err (record { class = eset_api_error none; message = "ESET incidents field is not a list" })
incident_page (some is) token = ok (is, token)

abbrev pub page_and_token : Outcome DetectionPage → Outcome (List Fields × Option String)
page_and_token (ok page) = ok (page.detections, page.next_page_token)
page_and_token (err e) = err e

-- What the generator has yielded, how it ended, and the client then.
abbrev pub Listing : Type 0
Listing = List (List Fields) × Outcome (Unit {0}) × Connection

abbrev pub and_then : List Fields → Option Listing → Option Listing
and_then page none = none
and_then page (some (pages, end, c)) = some (page ∷ pages, end, c)

-- One page, and what `further` yields from the token of the next.
abbrev pub yield_page :
    Outcome (List Fields × Option String)
    → Connection
    → (String → Connection → Option Listing)
    → Option Listing
yield_page (err e) c further = some ([], err e, c)
yield_page (ok (page, none)) c further = some (page ∷ [], ok tt, c)
yield_page (ok (page, some token)) c further = and_then page (further token c)

-- `str_of` is an integer as a JSON value.
module _ (cr : Credentials) (str_of : ℕ → Value) where
  unfoldable pub detection_params : Option String → ℕ → Fields
  detection_params page_token page_size =
      field "pageSize" (str_of page_size) (with_token page_token)

  unfoldable pub get_detection_page : Option String → ℕ → Http DetectionPage
  get_detection_page page_token page_size =
      request_detections cr "/v1/detections" (detection_params page_token page_size) >>= λ payload.
      give (detection_page (listed "detections" payload) (next_token (get "nextPageToken" payload)))

  -- The pages that `iter_detections` yields, as `iter_incidents` below.
  unfoldable pub iter_detections : ℕ → Option String → ℕ → Connection → Option Listing
  iter_detections zero page_token page_size c = none
  iter_detections (suc fuel) page_token page_size c =
      let r = get_detection_page page_token page_size c in
      yield_page (page_and_token r.0) r.1
        (λ token c'. iter_detections fuel (some token) page_size c')

  -- `f'updateTime > "{updated_after}"'`, where `updated_after` is neither `None` nor empty.
  abbrev filtered : Option String → Fields → Fields
  filtered none rest = rest
  filtered (some after) rest =
      if is_empty after
      then rest
      else field "filter" (text (concat "updateTime > \"" (concat after "\""))) rest

  unfoldable pub incident_params : Option String → Option String → ℕ → Fields
  incident_params updated_after page_token page_size =
      field "pageSize" (str_of page_size) (filtered updated_after (with_token page_token))

  -- One round of `iter_incidents`: the incidents of a page, and the token of the next.
  unfoldable pub get_incident_page :
      Option String → ℕ → Option String → Http (List Fields × Option String)
  get_incident_page updated_after page_size page_token =
      request_incidents cr "/v2/incidents" (incident_params updated_after page_token page_size)
      >>= λ payload.
          give
            (incident_page (listed "incidents" payload) (next_token (get "nextPageToken" payload)))

  -- The pages that the generator yields, and how it ends; `none` is a loop that is still running.
  unfoldable pub iter_incidents :
      ℕ → Option String → ℕ → Option String → Connection → Option Listing
  iter_incidents zero updated_after page_size page_token c = none
  iter_incidents (suc fuel) updated_after page_size page_token c =
      let r = get_incident_page updated_after page_size page_token c in
      yield_page r.0 r.1 (λ token c'. iter_incidents fuel updated_after page_size (some token) c')
