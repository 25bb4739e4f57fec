-- ===== src/Persistence/Approvals/Payload.antt =====
-- src/eset_incident_ai/infrastructure/persistence/approval_repository.py and
-- detection_approval_repository.py: what `save_pending` writes of an incident and of a detection.
pub mod Safe
use eset_incident_ai.Prelude.{
  ℕ, String, Bool, true, false, Option, none, some, List, [], ◌∷◌, prefix, concat, str_mem,
  if◌then◌else◌,
}
use eset_incident_ai.Value.{
  Value, Fields, null, text, field, no_fields, get, has_key, put, truthy, or_else, as_dict,
  is_container,
}
use eset_incident_ai.Externals.{Externals, str, str_or}
use eset_incident_ai.Exec.{Exec, ◌>>=◌, ◌>>◌}
use eset_incident_ai.Security.Sanitizer.{Sanitizer, sanitize_text}
use eset_incident_ai.Persistence.Approvals.{incidents, detections, ensure_table, save_row}

abbrev pub incident_keys : List String
incident_keys =
    "uuid" ∷ "displayName" ∷ "description" ∷ "severity" ∷ "status" ∷ "createTime" ∷ "updateTime"
    ∷ []

abbrev pub detection_keys : List String
detection_keys =
    "uuid" ∷ "displayName" ∷ "context" ∷ "severityLevel" ∷ "category" ∷ "occurTime" ∷ "objectName"
    ∷ "objectHashSha1" ∷ "objectUrl" ∷ "userName" ∷ "device" ∷ []

-- `RAW_DETECTION_APPROVAL_FIELDS`.
abbrev pub raw_fields : List String
raw_fields = "userName" ∷ "device" ∷ []

-- `{key: f(key) for key in keys if key in d}`.
unfoldable pub selected : (String → String) → List String → Fields → Fields
selected f [] d = no_fields
selected f (k ∷ ks) d =
    let rest = selected f ks d in if has_key k d then field k (text (f k)) rest else rest

module _ (x : Externals) (z : Sanitizer) where
  -- The two `_safe_text`: only the detections' renders a container as JSON.
  unfoldable pub safe_text : Value → String
  safe_text v = prefix 1000 (sanitize_text z (str_or x v (text "N/A"))).text

  unfoldable pub text_value : Value → String
  text_value v =
      let raw = or_else v (text "N/A") in if is_container raw then x.dumps raw else str x raw

  unfoldable pub safe_detection_text : Value → String
  safe_detection_text v = prefix 1000 (sanitize_text z (text_value v)).text

  unfoldable pub payload_text : String → Value → String
  payload_text key v =
      if str_mem key raw_fields
      then prefix 1000 (text_value v)
      else safe_detection_text (text (text_value v))

  unfoldable pub incident_payload : Fields → Fields
  incident_payload i = selected (λ k. safe_text (get k i)) incident_keys i

  -- `context.get(key)` where the context is a dictionary, and `None` else.
  abbrev in_context : String → Option Fields → Value
  in_context key none = null
  in_context key (some c) = get key c

  unfoldable pub detection_user_name : Fields → Value
  detection_user_name d =
      if truthy (get "userName" d)
      then get "userName" d
      else in_context "userName" (as_dict (get "context" d))

  abbrev device_in : Option Fields → Value
  device_in none = null
  device_in (some c) =
      if truthy (get "deviceUuid" c)
      then text (concat "uuid:" (str x (get "deviceUuid" c)))
      else get "device" c

  unfoldable pub detection_device : Fields → Value
  detection_device d =
      if truthy (get "device" d) then get "device" d else device_in (as_dict (get "context" d))

  -- `if value: payload[key] = self._payload_text(key, value)`.
  abbrev pub put_if : String → Value → Fields → Fields
  put_if key v payload = if truthy v then put key (text (payload_text key v)) payload else payload

  unfoldable pub detection_payload : Fields → Fields
  detection_payload d = put_if "device" (detection_device d) (
      put_if "userName" (detection_user_name d)
        (selected (λ k. payload_text k (get k d)) detection_keys d))

  abbrev subject : Fields → String
  subject d = str x (or_else (get "uuid" d) (or_else (get "displayName" d) (text "unknown")))

  -- `save_pending` of an incident, and of a detection.
  unfoldable pub save_pending_incident : Fields → String → Exec (Unit {0})
  save_pending_incident i severity = do
    ensure_table
    save_row incidents (subject i) severity
        (safe_text (or_else (get "displayName" i) (text (subject i)))) (incident_payload i)

  unfoldable pub save_pending_detection : Fields → String → Exec (Unit {0})
  save_pending_detection d severity = do
    ensure_table
    save_row detections (subject d) severity
        (safe_detection_text (or_else (get "displayName" d) (text (subject d))))
        (detection_payload d)
