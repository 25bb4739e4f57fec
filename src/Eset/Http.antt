-- ===== src/Eset/Http.antt =====
-- What the ESET clients use of httpx and tenacity: an HTTP exchange, and a retry on some errors. The
-- server's replies are given in advance, and each request takes the next one.
pub mod Frames
use eset_incident_ai.Prelude.{
  ℕ, zero, suc, String, Bool, true, false, ◌||◌, Option, none, some, List, [], ◌∷◌, str_mem,
  if◌then◌else◌,
}
use eset_incident_ai.Value.{Value, Fields}
use eset_incident_ai.World.{Error, ErrorClass, eset_temporary_api_error, other}
use eset_incident_ai.Exec.{Outcome, ok, err}

-- A response has a status and a body: `none` is a body that is no JSON. A lost exchange raises one
-- of the exceptions of httpx, by its class.
pub data Reply : Type 0 where
  response : ℕ → Option Value → Reply
  lost : String → Reply

pub record AccessToken : Type 0 where
  pub value : String
  pub expires_at : ℕ

-- A request, as the server sees it: the path, the query or form data, and the bearer token.
pub record Request : Type 0 where
  pub path : String
  pub params : Fields
  pub bearer : String

-- The state of a client: its token, the clock in seconds, the replies to come, and the requests sent,
-- newest first.
pub record Connection : Type 0 where
  pub token : Option AccessToken
  pub now : ℕ
  pub replies : List Reply
  pub sent : List Request

abbrev pub Http {ℓ} : Type ℓ → Type ℓ
Http A = Connection → Outcome A × Connection

abbrev pub continue {ℓ κ} :
    {A : Type ℓ} {B : Type κ} → Outcome A → (A → Http B) → Connection → Outcome B × Connection
continue (ok a) f c = f a c
continue (err e) f c = (err e, c)

module _ {ℓ} {A : Type ℓ} where
  abbrev pub pure : A → Http A
  pure a c = (ok a, c)

  abbrev pub give : Outcome A → Http A
  give o c = (o, c)

  abbrev pub raise : ErrorClass → String → Http A
  raise class message c = (err (record { class = class; message = message }), c)

module _ {ℓ κ} {A : Type ℓ} {B : Type κ} where
  infixl 10 ◌>>=◌
  abbrev pub ◌>>=◌ : Http A → (A → Http B) → Http B
  ◌>>=◌ m f c = continue (m c).0 f (m c).1

-- The exceptions that httpx derives from `TimeoutException`.
abbrev timeouts : List String
timeouts = "ConnectTimeout" ∷ "ReadTimeout" ∷ "WriteTimeout" ∷ "PoolTimeout" ∷ []

-- `retry_if_exception_type((httpx.TimeoutException, EsetTemporaryApiError))`.
abbrev pub is_retried : ErrorClass → Bool
is_retried (eset_temporary_api_error status) = true
is_retried (other name) = str_mem name timeouts
is_retried class = false

-- One exchange. A server that has no reply left refuses the connection.
abbrev pub answer : List Reply → Http (ℕ × Option Value)
answer [] c = (err (record { class = other "ConnectError"; message = "" }), c)
answer (lost name ∷ rs) c =
    (err (record { class = other name; message = "" }), record c { replies = rs })
answer (response status body ∷ rs) c = (ok (status, body), record c { replies = rs })

unfoldable pub exchange : Request → Http (ℕ × Option Value)
exchange r c = answer c.replies (record c { sent = r ∷ c.sent })

abbrev pub is_retried_outcome {ℓ} : {A : Type ℓ} → Outcome A → Bool
is_retried_outcome (ok a) = false
is_retried_outcome (err e) = is_retried e.class

-- `stop_after_attempt(n + 1)`, `reraise=True`.
unfoldable pub attempts {ℓ} : {A : Type ℓ} → ℕ → Http A → Http A
attempts zero m c = m c
attempts (suc n) m c =
    let again = attempts n m (m c).1 in if is_retried_outcome (m c).0 then again else m c
