-- ===== src/Externals.antt =====
-- What the program calls and does not implement: Python's rendering of containers, `json.dumps`,
-- SHA-256, `datetime.fromisoformat`. Each is a parameter of the definitions that use it.
use eset_incident_ai.Prelude.{ℕ, String, Option, if◌then◌else◌}
use eset_incident_ai.Value.{Value, null, boolean, number, text, array, object, or_else}

pub record Externals : Type 0 where
  -- `str(value)` of a list or a dictionary.
  pub repr : Value → String
  -- `json.dumps(value, ensure_ascii=False)`.
  pub dumps : Value → String
  -- `hashlib.sha256(text.encode("utf-8")).hexdigest()`.
  pub sha256 : String → String
  -- `datetime.fromisoformat`, as microseconds since year 1 in UTC: `none` is its `ValueError`. A
  -- time without a zone is read as UTC, and `astimezone(UTC)` keeps the instant.
  pub from_iso : String → Option ℕ

module _ (x : Externals) where
  -- `str(value)`.
  unfoldable pub str : Value → String
  str null = "None"
  str (boolean b) = if b then "True" else "False"
  str (number z s) = s
  str (text s) = s
  str (array vs) = x.repr (array vs)
  str (object fs) = x.repr (object fs)

  -- `str(a or b)`.
  abbrev pub str_or : Value → Value → String
  str_or a b = str (or_else a b)
