-- ===== src/UseCases/Normalize.antt =====
-- src/eset_incident_ai/application/use_cases/normalize_incident.py, application/dto/incident_dto.py and
-- infrastructure/eset/mapper.py: an incident of ESET without its personal data.
use eset_incident_ai.Prelude.{
  ℕ, String, Option, none, some, List, [], ◌∷◌, is_empty, add_keys, if◌then◌else◌,
}
use eset_incident_ai.Value.{
  Fields, Elements, no_elements, element, text, array, field, no_fields, get, has_key, keys,
  or_else,
}
use eset_incident_ai.Externals.{Externals, str, str_or}
use eset_incident_ai.Domain.Severity.{Severity, parse}
use eset_incident_ai.Domain.Incident.{Incident}
use eset_incident_ai.Security.Sanitizer.{Sanitizer, sanitize_text}

-- `IncidentDTO`.
pub record IncidentDto : Type 0 where
  pub external_id : String
  pub title : String
  pub severity : Severity
  pub detected_at : Option ℕ
  pub summary : Option String
  pub normalized_payload : Fields

unfoldable pub to_domain : IncidentDto → Incident
to_domain d = record {
  id = d.external_id;
  external_id = d.external_id;
  title = d.title;
  severity = d.severity;
  detected_at = d.detected_at;
  summary = d.summary;
  normalized_payload = d.normalized_payload;
  detections = [];
}

-- `text or None`.
abbrev pub text_or_none : String → Option String
text_or_none s = if is_empty s then none else some s

abbrev key_items : List String → Elements
key_items [] = no_elements
key_items (k ∷ ks) = element (text k) (key_items ks)

module _ (x : Externals) (z : Sanitizer) where
  -- `payload.get("title") or payload.get("name") or "Untitled incident"`.
  abbrev pub title_of : Fields → String
  title_of p = str x (or_else (get "title" p) (or_else (get "name" p) (text "Untitled incident")))

  -- `str(payload.get("summary", ""))`.
  abbrev pub summary_of : Fields → String
  summary_of p = str x (if has_key "summary" p then get "summary" p else text "")

  -- `NormalizeIncident.execute`, which `EsetIncidentMapper.to_dto` calls.
  unfoldable pub normalize_incident : Fields → IncidentDto
  normalize_incident p = record {
    external_id = str_or x (get "uuid" p) (get "id" p);
    title = (sanitize_text z (title_of p)).text;
    severity = parse x (get "severity" p);
    detected_at = none;
    summary = text_or_none (sanitize_text z (summary_of p)).text;
    normalized_payload =
        field "source" (text "eset")
          (field "raw_keys" (array (key_items (add_keys (keys p) []))) no_fields);
  }
