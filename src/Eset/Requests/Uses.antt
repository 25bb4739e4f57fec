-- ===== src/Eset/Requests/Uses.antt =====
-- How many of the server's replies an action of the ESET clients takes.
use eset_incident_ai.Prelude.{
  ℕ, zero, suc, ◌≤◌, ◌<◌, String, Bool, true, false, Option, none, some, List, [], ◌∷◌, length,
  arith, ◌==◌, if◌then◌else◌,
}
use eset_incident_ai.Value.{Value, Fields, as_dict}
use eset_incident_ai.World.{eset_authentication_error}
use eset_incident_ai.Exec.{Outcome, ok, err}
use eset_incident_ai.Eset.Http.{
  Reply, response, lost, Request, Connection, Http, continue, raise, answer, is_retried_outcome,
  exchange, attempts,
}
use eset_incident_ai.Eset.Auth.{
  Credentials, valid_token, build_token_request, store_payload, read_payload, read_body,
  fetch_token, cached, locked, get_access_token,
}
use eset_incident_ai.Eset.Requests.{judge, request_once}

-- With `n` replies to come before it, an action that returns has taken one at least; one that raises
-- may have taken none.
abbrev pub Uses {ℓ} : {A : Type ℓ} → ℕ → Outcome A × Connection → Type 0
Uses n (ok a, c) = length c.replies < n
Uses n (err e, c) = length c.replies ≤ n

abbrev Left {ℓ} : {A : Type ℓ} → ℕ → Outcome A × Connection → Type 0
Left n r = length r.1.replies ≤ n

module _ {ℓ} {A : Type ℓ} where
  Uses-Left : (n : ℕ) (o : Outcome A) (c : Connection) → Uses n (o, c) → Left n (o, c)
  Uses-Left n (ok a) c h = omega (arith, h)
  Uses-Left n (err e) c h = h

  pub Uses-more : (m n : ℕ) (o : Outcome A) (c : Connection) → m ≤ n → Uses m (o, c) → Uses n (o, c)
  Uses-more m n (ok a) c le h = omega (arith, h)
  Uses-more m n (err e) c le h = omega (arith, h)

module _ {ℓ κ} {A : Type ℓ} {B : Type κ} (n : ℕ) (f : A → Http B) where
  -- The part that takes a reply may come first or second.
  pub continue-first :
      (o : Outcome A) (c : Connection)
      → Uses n (o, c)
      → ((a : A) (c : Connection) → length c.replies < n → Uses n (f a c))
      → Uses n (continue o f c)
  continue-first (ok a) c h k = k a c h
  continue-first (err e) c h k = h

  continue-second :
      (o : Outcome A) (c : Connection)
      → Left n (o, c)
      → ((a : A) (c : Connection) → length c.replies ≤ n → Uses n (f a c))
      → Uses n (continue o f c)
  continue-second (ok a) c h k = k a c h
  continue-second (err e) c h k = h

exchange-Uses : (r : Request) (c : Connection) → Uses (length c.replies) (exchange r c)
unfolding exchange
exchange-Uses r c = go c.replies
  where
    go :
        (rs : List Reply)
        → Uses (length rs) (answer rs (record c { sent = r ∷ c.sent; replies = rs }))
    go [] = omega arith
    go (lost name ∷ rs) = omega arith
    go (response status body ∷ rs) = omega arith

module _ (cr : Credentials) where
  module _ (n : ℕ) (c : Connection) (few : length c.replies ≤ n) where
    store_payload-Left :
        (seconds : Option ℕ) (value : Option String) → Left n (store_payload cr seconds value c)
    store_payload-Left none value = few
    store_payload-Left (some seconds) none = few
    store_payload-Left (some seconds) (some value) = few

    read_payload-Left : (o : Option Fields) → Left n (read_payload cr o c)
    read_payload-Left none = few
    read_payload-Left (some payload) = store_payload-Left _ _

    read_body-Left : (body : Option Value) → Left n (read_body cr body c)
    read_body-Left none = few
    read_body-Left (some body) = read_payload-Left (as_dict body)

    judged-Left :
        (is_ok : Bool) (body : Option Value)
        → Left n (
            (if is_ok
                then read_body cr body
                else raise eset_authentication_error "ESET authentication failed")
              c)
    judged-Left true body = read_body-Left body
    judged-Left false body = few

  continued-Left :
      (n : ℕ) (o : Outcome (ℕ × Option Value)) (c : Connection)
      → length c.replies ≤ n
      → Left n (
          continue o
            (λ r.
              if r.0 == 200
              then read_body cr r.1
              else raise eset_authentication_error "ESET authentication failed")
            c)
  continued-Left n (err e) c few = few
  continued-Left n (ok r) c few = judged-Left n c few (r.0 == 200) r.1

  fetch_token-Left : (c : Connection) → Left (length c.replies) (fetch_token cr c)
  unfolding fetch_token
  fetch_token-Left c =
      continued-Left _ (exchange asked c).0 (exchange asked c).1
        (Uses-Left _ (exchange asked c).0 (exchange asked c).1 (exchange-Uses asked c))
    where
      asked : Request
      asked = record { path = cr.auth_url; params = build_token_request cr; bearer = "" }

  cached-Left :
      (f : Http String) (o : Option String) (c : Connection)
      → Left (length c.replies) (f c)
      → Left (length c.replies) (cached cr o f c)
  cached-Left f none c h = h
  cached-Left f (some value) c h = omega arith

  get_access_token-Left : (c : Connection) → Left (length c.replies) (get_access_token cr c)
  unfolding get_access_token locked
  get_access_token-Left c =
      cached-Left _ (valid_token c) c (cached-Left _ (valid_token c) c (fetch_token-Left c))

  pub give-Uses :
      {A : Type 0} (n : ℕ) (o : Outcome A) (c : Connection) → length c.replies < n → Uses n (o, c)
  give-Uses n (ok a) c h = h
  give-Uses n (err e) c h = omega (arith, h)

  pub request_once-Uses :
      (path : String) (params : Fields) (c : Connection)
      → Uses (length c.replies) (request_once cr path params c)
  unfolding request_once
  request_once-Uses path params c =
      continue-second _ _ _ _ (get_access_token-Left c) (λ token c1 few.
        continue-first _ _ _ _
          (Uses-more _ _ (exchange (asked token) c1).0 (exchange (asked token) c1).1 few
            (exchange-Uses (asked token) c1))
          (λ r c2 fewer. give-Uses _ (judge r.0 r.1) c2 fewer))
    where
      asked : String → Request
      asked token = record { path = path; params = params; bearer = token }

  Uses-either :
      {A : Type 0} (n : ℕ) (r r' : Outcome A × Connection) (b : Bool)
      → Uses n r
      → Uses n r'
      → Uses n (if b then r else r')
  Uses-either n r r' true h k = h
  Uses-either n r r' false h k = k

  pub attempts-Uses :
      {A : Type 0} (n : ℕ) (m : Http A)
      → ((c : Connection) → Uses (length c.replies) (m c))
      → (c : Connection) → Uses (length c.replies) (attempts n m c)
  unfolding attempts
  attempts-Uses zero m h c = h c
  attempts-Uses (suc n) m h c =
      Uses-either _ (attempts n m (m c).1) (m c) (is_retried_outcome (m c).0)
        (Uses-more _ _ (attempts n m (m c).1).0 (attempts n m (m c).1).1
          (Uses-Left _ (m c).0 (m c).1 (h c)) (attempts-Uses n m h (m c).1))
        (h c)
