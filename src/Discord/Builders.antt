-- ===== src/Discord/Builders.antt =====
-- src/eset_incident_ai/infrastructure/discord/incident_notification_builder.py and
-- detection_notification_builder.py: the message of an incident and of a detection.
pub mod Fit
use Prim.Native.String.{String}
use eset_incident_ai.Prelude.{
  ℕ, ◌+◌, ◌/◌, ◌%◌, Bool, true, false, Option, none, some, List, [], ◌∷◌, ◌++◌, map, take, ltb,
  ◌==◌, concat, prefix, join, is_empty, str_mem, add_keys, if◌then◌else◌,
}
use eset_incident_ai.Value.{
  Value, Fields, Elements, no_elements, element, null, text, boolean, array, object, field,
  no_fields, get, truthy, or_else, as_dict, is_container,
}
use eset_incident_ai.Externals.{Externals, str, str_or}
use eset_incident_ai.Domain.Severity.{Severity, low, medium, high, critical}
use eset_incident_ai.Domain.Severity as Severities
use eset_incident_ai.Domain.Analysis.{
  EvidenceClaim, RemediationAction, IncidentAnalysisResult, Priority, immediate, short_term,
  long_term,
}
use eset_incident_ai.Security.Sanitizer.{Sanitizer, sanitize_text}
use eset_incident_ai.Persistence.Approvals.Payload.{
  raw_fields, text_value, detection_user_name, detection_device,
}
use eset_incident_ai.UseCases.Ports.{NotificationBuilder}

-- `severity.value.upper()`.
abbrev pub upper_value : Severity → String
upper_value low = "LOW"
upper_value medium = "MEDIUM"
upper_value high = "HIGH"
upper_value critical = "CRITICAL"

-- One entry of `fields`.
abbrev pub named : String → String → Value
named name value = object (field "name" (text name) (field "value" (text value) no_fields))

abbrev pub inline : String → String → Value
inline name value = object (
    field "name" (text name) (field "value" (text value) (field "inline" (boolean true) no_fields)))

abbrev elements : List Value → Elements
elements [] = no_elements
elements (v ∷ vs) = element v (elements vs)

-- The payload around the fields.
unfoldable pub message : Severity → String → String → List Value → String → Fields
message severity title description fields footer = field "username" (text "ESET Incident AI") (
    field "embeds"
      (array (
        element
          (object (
            field "title" (text (concat "[" (concat (upper_value severity) (concat "] " title)))) (
              field "description" (text description) (
                field "fields" (array (elements fields))
                  (field "footer" (object (field "text" (text footer) no_fields)) no_fields)))))
          no_elements))
      no_fields)

abbrev footer_of : Option IncidentAnalysisResult → String
footer_of none = "AI analysis is not yet attached. Collector notification only."
footer_of (some a) = "Local RAG analysis attached. Review before action."

-- `round(score * 100)`: half a percent goes to the even neighbour.
unfoldable pub percent : ℕ → ℕ
percent score =
    let whole = score / 100 in
    let part = score % 100 in
    if ltb part 50 then whole else if ltb 50 part then whole + 1 else whole + whole % 2

-- `sorted({… for claim in … for evidence_id in claim.evidence_ids})`.
abbrev ids_of : List EvidenceClaim → List String → List String
ids_of [] found = found
ids_of (c ∷ cs) found = ids_of cs (add_keys c.evidence_ids found)

abbrev immediate_action : RemediationAction → Priority → List String → List String
immediate_action a immediate rest = a.action ∷ rest
immediate_action a short_term rest = rest
immediate_action a long_term rest = rest

abbrev immediate_actions : List RemediationAction → List String
immediate_actions [] = []
immediate_actions (a ∷ as_after) = immediate_action a a.priority (immediate_actions as_after)

-- `text or "N/A"`.
abbrev pub or_na : String → String
or_na s = if is_empty s then "N/A" else s

-- `safe` is the builder's `_safe_text` on a text, and `decimal` is Python's `str` of an integer.
module _ (decimal : ℕ → String) (safe : String → String) where
  unfoldable pub analysis_fields : IncidentAnalysisResult → List Value
  analysis_fields a =
      named "Analysis Summary" (prefix 1024 (safe a.root_cause.executive_summary))
      ∷ inline "Confidence" (concat (decimal (percent a.overall_confidence)) "%")
      ∷ inline "Evidence Coverage" (concat (decimal (percent a.evidence_coverage)) "%")
      ∷ named "Evidence" (
          safe (
            or_na (
              join ", "
                (take 5 (ids_of (a.root_cause.direct_cause ++ a.root_cause.root_causes) [])))))
      ∷ named "Immediate Action"
          (safe (or_na (join "; " (take 2 (immediate_actions a.remediation)))))
      ∷ []

  abbrev fields_of : Option IncidentAnalysisResult → List Value
  fields_of none = []
  fields_of (some a) = analysis_fields a

module _ (x : Externals) (z : Sanitizer) where
  -- `_safe_text` of the incident builder.
  unfoldable pub safe_or : String → Value → String
  safe_or fallback v = prefix 1000 (sanitize_text z (str_or x v (text fallback))).text

  abbrev render : Value → String
  render raw = if is_container raw then x.dumps raw else str x raw

  -- `_safe_text` of the detection builder.
  unfoldable pub safe_field : String → String → Value → String
  safe_field fallback name v =
      let shown = render (or_else v (text fallback)) in
      if str_mem name raw_fields
      then prefix 1000 shown
      else prefix 1000 (sanitize_text z shown).text

  abbrev process_name : Option Fields → Value
  process_name none = null
  process_name (some p) = or_else (get "path" p) (get "name" p)

  abbrev object_in : Option Fields → Value
  object_in none = null
  object_in (some c) = process_name (as_dict (get "process" c))

  unfoldable pub detection_object_name : Fields → Value
  detection_object_name d =
      if truthy (get "objectName" d)
      then get "objectName" d
      else object_in (as_dict (get "context" d))

module _ (x : Externals) (z : Sanitizer) (decimal : ℕ → String) where
  unfoldable pub build_incident : Fields → Option IncidentAnalysisResult → Fields
  build_incident i analysis =
      message (Severities.parse x (get "severity" i))
        (safe_or x z "N/A" (or_else (get "displayName" i) (get "uuid" i)))
        (safe_or x z "No description" (get "description" i))
        (inline "Status" (safe_or x z "N/A" (get "status" i))
          ∷ inline "Created" (safe_or x z "N/A" (get "createTime" i))
          ∷ inline "Updated" (safe_or x z "N/A" (get "updateTime" i))
          ∷ (fields_of decimal (λ s. safe_or x z "N/A" (text s)) analysis
              ++ named "Notice"
                  "Notification: email addresses are pseudonymized; IP addresses and other identifiers are shown as-is."
                ∷ []))
        (footer_of analysis)

  unfoldable pub build_detection : Fields → Option IncidentAnalysisResult → Fields
  build_detection d analysis =
      message (Severities.parse x (get "severityLevel" d))
        (safe_field x z "N/A" "displayName" (or_else (get "displayName" d) (get "uuid" d)))
        (safe_field x z "No context" "context" (get "context" d))
        (inline "Category" (safe_field x z "N/A" "category" (get "category" d))
          ∷ inline "Occurred" (safe_field x z "N/A" "occurTime" (get "occurTime" d))
          ∷ inline "User" (safe_field x z "N/A" "userName" (detection_user_name x z d))
          ∷ inline "Device" (safe_field x z "N/A" "device" (detection_device x z d))
          ∷ named "Object" (safe_field x z "N/A" "objectName" (detection_object_name x z d))
          ∷ named "Object URL" (safe_field x z "N/A" "objectUrl" (get "objectUrl" d))
          ∷ named "SHA1" (safe_field x z "N/A" "objectHashSha1" (get "objectHashSha1" d))
          ∷ named "Notice"
              "Notification: email addresses and local user paths are pseudonymized in free-text fields; Detection userName and device fields are shown as-is by approved policy."
          ∷ fields_of decimal (λ s. safe_field x z "N/A" "analysis" (text s)) analysis)
        (footer_of analysis)

  -- The two builders as the use cases take them.
  abbrev pub incident_builder : NotificationBuilder
  incident_builder = record {
    severity = λ i. Severities.parse x (get "severity" i);
    build = build_incident;
  }

  abbrev pub detection_builder : NotificationBuilder
  detection_builder = record {
    severity = λ d. Severities.parse x (get "severityLevel" d);
    build = build_detection;
  }
