-- ===== src/Persistence/Approvals/Payload/Safe.antt =====
-- What a review table keeps of a payload: short texts, sanitized but for the user and the device.
use eset_incident_ai.Prelude.{
  ℕ, zero, suc, ◌≤◌, ◌≡◌, String, false, [], ◌∷◌, prefix, str_len, str_mem, arith,
}
use eset_incident_ai.Value.{Value, Fields, text, field, no_fields}
use eset_incident_ai.Externals.{Externals}
use eset_incident_ai.Security.Sanitizer.{Sanitizer, sanitize_text}
use eset_incident_ai.Persistence.Approvals.Payload.{raw_fields}

pub str_len-prefix : (n : ℕ) (s : String) → str_len (prefix n s) ≤ n
str_len-prefix zero s = omega arith
str_len-prefix (suc n) String.[] = omega arith
str_len-prefix (suc n) (String.◌∷◌ c s) = omega (arith, str_len-prefix n s)

-- Every entry of a dictionary satisfies the predicate.
abbrev pub Each : (String → Value → Type 0) → Fields → Type 0
Each P no_fields = Unit
Each P (field k v fs) = P k v × Each P fs

module _ (z : Sanitizer) where
  -- A short text that the sanitizer has seen.
  abbrev pub Sanitized : String → Value → Type 0
  Sanitized key v =
      (t : String) × (v ≡ text t)
      × (str_len t ≤ 1000)
      × ((u : String) × (t ≡ prefix 1000 (sanitize_text z u).text))

  -- A short text that the sanitizer has seen, unless it is the user or the device.
  abbrev pub Safe : String → Value → Type 0
  Safe key v =
      (t : String) × (v ≡ text t)
      × (str_len t ≤ 1000)
      × (str_mem key raw_fields ≡ false → (u : String) × (t ≡ prefix 1000 (sanitize_text z u).text))
