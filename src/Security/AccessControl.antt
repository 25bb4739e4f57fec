-- ===== src/Security/AccessControl.antt =====
-- src/eset_incident_ai/security/access_control.py and settings/secrets.py: who may see a tenant, and a
-- secret in a text for people.
use eset_incident_ai.Prelude.{String, Bool, List, str_mem, is_empty, if◌then◌else◌}

-- `AccessControl.can_access_tenant`.
abbrev pub can_access_tenant : List String → String → Bool
can_access_tenant principal_tenants tenant_scope = str_mem tenant_scope principal_tenants

pub record SecretRef : Type 0 where
  pub name : String
  pub value : String

-- `SecretRef.redacted`.
abbrev pub redacted : SecretRef → String
redacted r = if is_empty r.value then "" else "<SECRET_REDACTED>"
