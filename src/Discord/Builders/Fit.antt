-- ===== src/Discord/Builders/Fit.antt =====
-- The messages fit what Discord accepts of an embed's fields.
use Prim.Native.String.{String}
use eset_incident_ai.Prelude.{
  ℕ, ◌+◌, ◌≤◌, ◌≡◌, refl, Option, none, some, List, [], ◌∷◌, ◌++◌, length, length-append, All,
  concat, str_len, str_mem, arith, Bool-cases, ◌⊎◌, inl, inr,
}
use eset_incident_ai.Value.{Value, Fields, text, get}
use eset_incident_ai.Externals.{Externals}
use eset_incident_ai.Domain.Severity.{Severity}
use eset_incident_ai.Domain.Analysis.{IncidentAnalysisResult, AnalysisIsValid}
use eset_incident_ai.Security.Sanitizer.{Sanitizer}
use eset_incident_ai.Persistence.Approvals.Payload.{raw_fields}
use eset_incident_ai.Persistence.Approvals.Payload.Safe.{str_len-prefix}
use eset_incident_ai.Discord.Builders.{
  named, inline, message, percent, analysis_fields, fields_of, safe_or, safe_field, build_incident,
  build_detection,
}

str_len-concat : (s t : String) → str_len (concat s t) ≡ str_len s + str_len t
str_len-concat String.[] t = omega arith
str_len-concat (String.◌∷◌ c s) t = omega (arith, str_len-concat s t)

-- An entry of `fields` whose value has at most 1,024 characters.
abbrev pub FieldFits : Value → Type 0
FieldFits v =
    (name : String) × (t : String) × ((v ≡ named name t) ⊎ (v ≡ inline name t)) × (str_len t ≤ 1024)

named-FieldFits : (name t : String) → str_len t ≤ 1024 → FieldFits (named name t)
named-FieldFits name t h = (name, t, inl refl, h)

inline-FieldFits : (name t : String) → str_len t ≤ 1024 → FieldFits (inline name t)
inline-FieldFits name t h = (name, t, inr refl, h)

-- A message with at most 25 fields that fit, and a description that does.
abbrev pub MessageFits : Fields → Type 0
MessageFits m =
    (s : Severity) × (title : String) × (description : String) × (fields : List Value)
    × (footer : String) × (m ≡ message s title description fields footer)
    × All FieldFits fields
    × (length fields ≤ 25)
    × (str_len description ≤ 4096)

percent-bound : (score : ℕ) → score ≤ 10000 → percent score ≤ 100
unfolding percent
percent-bound score h = ground (arith, h)

abbrev pub OptionIsValid : Option IncidentAnalysisResult → Type 0
OptionIsValid none = Unit
OptionIsValid (some a) = AnalysisIsValid a

module _ (decimal : ℕ → String) (short : (n : ℕ) → n ≤ 100 → str_len (decimal n) ≤ 3) where
  percent_text : (score : ℕ) → score ≤ 10000 → str_len (concat (decimal (percent score)) "%") ≤ 1024
  percent_text score h = omega (
    arith,
    str_len-concat (decimal (percent score)) "%",
    short (percent score) (percent-bound score h),
  )

  module _ (safe : String → String) (cut : (s : String) → str_len (safe s) ≤ 1000) where
    analysis_fields-Fits :
        (a : IncidentAnalysisResult)
        → AnalysisIsValid a
        → All FieldFits (analysis_fields decimal safe a)
    unfolding analysis_fields
    analysis_fields-Fits a v = (
      named-FieldFits "Analysis Summary" _ (str_len-prefix 1024 _),
      (
        inline-FieldFits "Confidence" _ (percent_text _ v.confidence_bounded),
        (
          inline-FieldFits "Evidence Coverage" _ (percent_text _ v.coverage_bounded),
          (
            named-FieldFits "Evidence" _ (wide _),
            (named-FieldFits "Immediate Action" _ (wide _), tt),
          ),
        ),
      ),
    )
      where
        wide : (s : String) → str_len (safe s) ≤ 1024
        wide s = omega (arith, cut s)

    fields_of-Fits :
        (o : Option IncidentAnalysisResult)
        → OptionIsValid o
        → All FieldFits (fields_of decimal safe o) × (length (fields_of decimal safe o) ≤ 5)
    unfolding analysis_fields
    fields_of-Fits none v = (tt, omega arith)
    fields_of-Fits (some a) v = (analysis_fields-Fits a v, omega arith)

All-append {ℓ κ} :
    {A : Type ℓ} (P : A → Type κ) (xs ys : List A) → All P xs → All P ys → All P (xs ++ ys)
All-append P [] ys h k = k
All-append P (x ∷ xs) ys h k = (h.0, All-append P xs ys h.1 k)

module _ (x : Externals) (z : Sanitizer) where
  safe_or-cut : (fallback : String) (v : Value) → str_len (safe_or x z fallback v) ≤ 1000
  unfolding safe_or
  safe_or-cut fallback v = str_len-prefix 1000 _

  safe_field-cut :
      (fallback name : String) (v : Value) → str_len (safe_field x z fallback name v) ≤ 1000
  unfolding safe_field
  safe_field-cut fallback name v = elim (Bool-cases (str_mem name raw_fields)) [
    | inl e ↦ rw e (str_len-prefix 1000 _)
    | inr e ↦ rw e (str_len-prefix 1000 _)
  ]

  module _ (decimal : ℕ → String) (short : (n : ℕ) → n ≤ 100 → str_len (decimal n) ≤ 3)
      (analysis : Option IncidentAnalysisResult) (v : OptionIsValid analysis) where
    build_incident-Fits : (i : Fields) → MessageFits (build_incident x z decimal i analysis)
    unfolding build_incident
    build_incident-Fits i =
        let (all, few) =
          fields_of-Fits decimal short (λ s. safe_or x z "N/A" (text s))
            (λ s. safe_or-cut "N/A" (text s)) analysis v in
        (
          _,
          _,
          _,
          _,
          _,
          refl,
          (
            inline-FieldFits "Status" _ (wide _),
            (
              inline-FieldFits "Created" _ (wide _),
              (
                inline-FieldFits "Updated" _ (wide _),
                All-append FieldFits _ _ all (named-FieldFits "Notice" _ (omega arith), tt),
              ),
            ),
          ),
          omega (
            arith,
            length-append (fields_of decimal (λ s. safe_or x z "N/A" (text s)) analysis)
                (notice ∷ []),
            few,
          ),
          omega (arith, safe_or-cut "No description" (get "description" i)),
        )
      where
        notice : Value
        notice =
            named "Notice"
              "Notification: email addresses are pseudonymized; IP addresses and other identifiers are shown as-is."

        wide : (w : Value) → str_len (safe_or x z "N/A" w) ≤ 1024
        wide w = omega (arith, safe_or-cut "N/A" w)

    build_detection-Fits : (d : Fields) → MessageFits (build_detection x z decimal d analysis)
    unfolding build_detection
    build_detection-Fits d =
        let (all, few) =
          fields_of-Fits decimal short (λ s. safe_field x z "N/A" "analysis" (text s))
            (λ s. safe_field-cut "N/A" "analysis" (text s)) analysis v in
        (
          _,
          _,
          _,
          _,
          _,
          refl,
          (
            inline-FieldFits "Category" _ (wide "category" _),
            (
              inline-FieldFits "Occurred" _ (wide "occurTime" _),
              (
                inline-FieldFits "User" _ (wide "userName" _),
                (
                  inline-FieldFits "Device" _ (wide "device" _),
                  (
                    named-FieldFits "Object" _ (wide "objectName" _),
                    (
                      named-FieldFits "Object URL" _ (wide "objectUrl" _),
                      (
                        named-FieldFits "SHA1" _ (wide "objectHashSha1" _),
                        (named-FieldFits "Notice" _ (omega arith), all),
                      ),
                    ),
                  ),
                ),
              ),
            ),
          ),
          omega (arith, few),
          omega (arith, safe_field-cut "No context" "context" (get "context" d)),
        )
      where
        wide : (name : String) (w : Value) → str_len (safe_field x z "N/A" name w) ≤ 1024
        wide name w = omega (arith, safe_field-cut "N/A" name w)

-- With an analysis that pydantic accepts, or none, and where an integer up to 100 is written with at
-- most three characters, both builders make messages with at most 25 fields, each with a value of at
-- most 1,024 characters, and a description of at most 4,096.
pub build-MessageFits :
    (x : Externals) (z : Sanitizer) (decimal : ℕ → String)
    → ((n : ℕ) → n ≤ 100 → str_len (decimal n) ≤ 3)
    → (analysis : Option IncidentAnalysisResult) → OptionIsValid analysis
    → (payload : Fields)
    → MessageFits (build_incident x z decimal payload analysis)
      × MessageFits (build_detection x z decimal payload analysis)
build-MessageFits x z decimal short analysis v payload = (
  build_incident-Fits x z decimal short analysis v payload,
  build_detection-Fits x z decimal short analysis v payload,
)
