-- ===== src/Api/Responses.antt =====
-- src/eset_incident_ai/api/exception_handlers.py, and what FastAPI makes of a handler's end: the
-- value as 200, a request that does not fit its model as 422, an exception with no handler as 500.
use eset_incident_ai.Prelude.{
  ℕ, String, Bool, true, false, ◌&&◌, Option, none, some, leb, ◌==◌, if◌then◌else◌,
}
use eset_incident_ai.Value.{Value, text}
use eset_incident_ai.World.{
  World, Error, ErrorClass, domain_error, unsafe_notification, approval_required,
  eset_authentication_error, discord_delivery_error, value_error, eset_api_error,
  eset_temporary_api_error, other,
}
use eset_incident_ai.Exec.{Outcome, ok, err, Exec, raise}

pub data Response {ℓ} (A : Type ℓ) : Type ℓ where
  success : A → Response A
  -- The status, and `detail`.
  failure : ℕ → Value → Response A

abbrev pub status_code {ℓ} : {A : Type ℓ} → Response A → ℕ
status_code (success a) = 200
status_code (failure n detail) = n

abbrev pub is_unauthorized : Option ℕ → Bool
is_unauthorized none = false
is_unauthorized (some n) = n == 401

-- `handle_eset_api_error`: its status and its detail.
abbrev pub eset_api_status : Option ℕ → ℕ
eset_api_status n = if is_unauthorized n then 401 else 502

abbrev pub eset_api_detail : Option ℕ → String
eset_api_detail n =
    if is_unauthorized n
    then "ESET API rejected the configured access token."
    else "ESET API request failed."

-- The handler of the nearest class that has one: the classes are those of `domain/exceptions.py`,
-- which are all `DomainError`, and `EsetTemporaryApiError`, which is an `EsetApiError`.
unfoldable pub status_of : ErrorClass → ℕ
status_of domain_error = 400
status_of unsafe_notification = 400
status_of approval_required = 400
status_of eset_authentication_error = 401
status_of (eset_api_error n) = eset_api_status n
status_of (eset_temporary_api_error n) = eset_api_status n
status_of discord_delivery_error = 500
status_of value_error = 500
status_of (other name) = 500

unfoldable pub detail_of : ErrorClass → String → String
detail_of domain_error message = message
detail_of unsafe_notification message = message
detail_of approval_required message = message
detail_of eset_authentication_error message =
    "ESET authentication failed. Check configured credentials."
detail_of (eset_api_error n) message = eset_api_detail n
detail_of (eset_temporary_api_error n) message = eset_api_detail n
detail_of discord_delivery_error message = "Internal Server Error"
detail_of value_error message = "Internal Server Error"
detail_of (other name) message = "Internal Server Error"

abbrev pub handle {ℓ} : {A : Type ℓ} → Error → Response A
handle e = failure (status_of e.class) (text (detail_of e.class e.message))

abbrev pub answer_of {ℓ} : {A : Type ℓ} → Outcome A → Response A
answer_of (ok a) = success a
answer_of (err e) = handle e

-- A route: its answer, and the world after it.
abbrev pub Route {ℓ} : Type ℓ → Type ℓ
Route A = World → Response A × World

abbrev pub unprocessable {ℓ} : {A : Type ℓ} → Response A
unprocessable = failure 422 (text "Unprocessable Entity")

-- A handler whose use case comes from a dependency: FastAPI first calls the dependency, which may
-- raise, then checks the request against its model, and then calls the handler.
unfoldable pub serve {ℓ κ} : {C : Type ℓ} {A : Type κ} → Outcome C → Bool → (C → Exec A) → Route A
serve (err e) valid f w = (handle e, w)
serve (ok c) false f w = (unprocessable, w)
serve (ok c) true f w = let (r, w') = f c w in (answer_of r, w')

-- A call on what a dependency returns.
abbrev pub from_dependency {ℓ κ} : {C : Type ℓ} {A : Type κ} → Outcome C → (C → Exec A) → Exec A
from_dependency (ok c) f = f c
from_dependency (err e) f = raise e

-- `Field(ge=low, le=high)`, `Query(ge=low, le=high)`.
abbrev pub within : ℕ → ℕ → ℕ → Bool
within low high n = leb low n && leb n high
