-- ===== src/UseCases/Ports.antt =====
-- What the use cases share: the ports that they call (src/eset_incident_ai/application/ports), the
-- key of a notification, the text of a failure, and the analysis of one incident.
pub mod Triples
use eset_incident_ai.Prelude.{
  ℕ, String, Option, List, concat, prefix, strip, newlines_to_spaces, is_empty, if◌then◌else◌,
}
use eset_incident_ai.Value.{Fields}
use eset_incident_ai.Externals.{Externals}
use eset_incident_ai.World.{
  Error, ErrorClass, domain_error, unsafe_notification, approval_required,
  eset_authentication_error, discord_delivery_error, value_error, eset_api_error,
  eset_temporary_api_error, other,
}
use eset_incident_ai.Exec.{Exec, query, ◌>>=◌}
use eset_incident_ai.Domain.Severity.{Severity}
use eset_incident_ai.Domain.Incident.{Incident}
use eset_incident_ai.Domain.Analysis.{IncidentAnalysisResult, RetrievedEvidence}

-- `IncidentNotificationBuilder`, `DetectionNotificationBuilder`.
pub record NotificationBuilder : Type 0 where
  pub severity : Fields → Severity
  pub build : Fields → Option IncidentAnalysisResult → Fields

-- `AnalyzeIncident` with its two collaborators, the vector repository and the LLM gateway.
pub record Analyzer : Type 0 where
  pub search : String → String → ℕ → List RetrievedEvidence
  pub analyze : Incident → List RetrievedEvidence → IncidentAnalysisResult

unfoldable pub analyze_incident : Analyzer → Incident → String → Exec IncidentAnalysisResult
analyze_incident a incident tenant_scope = do
  evidence ← query (λ w. a.search incident.title tenant_scope 10)
  query (λ w. a.analyze incident evidence)

-- `build_idempotency_key`.
unfoldable pub build_idempotency_key : Externals → String → String → String → String
build_idempotency_key x subject_id analysis_version destination =
    x.sha256 (concat subject_id (concat ":" (concat analysis_version (concat ":" destination))))

-- `type(exc).__name__`.
abbrev pub class_name : ErrorClass → String
class_name domain_error = "DomainError"
class_name unsafe_notification = "UnsafeNotificationError"
class_name approval_required = "ApprovalRequiredError"
class_name eset_authentication_error = "EsetAuthenticationError"
class_name discord_delivery_error = "DiscordDeliveryError"
class_name value_error = "ValueError"
class_name (eset_api_error status) = "EsetApiError"
class_name (eset_temporary_api_error status) = "EsetTemporaryApiError"
class_name (other name) = name

abbrev or_default : String → String
or_default message = if is_empty message then "No error detail provided." else message

-- `_safe_error_message`.
unfoldable pub safe_error_message : Error → String
safe_error_message e =
    prefix 500 (
      concat (class_name e.class) (concat ": " (or_default (strip (newlines_to_spaces e.message)))))
