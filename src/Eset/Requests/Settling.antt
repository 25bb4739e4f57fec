-- ===== src/Eset/Requests/Settling.antt =====
-- How a request with retries ends.
use eset_incident_ai.Prelude.{
  ℕ, zero, suc, ◌≤◌, ◌≡◌, refl, ap, ◌∙◌, String, Bool, true, false, ◌||◌, ◌⊎◌, inl, inr, Option,
  none, some, List, [], ◌∷◌, ◌++◌, All, length, arith, leb, ◌==◌, Bool-cases,
}
use eset_incident_ai.Value.{Value, Fields, as_dict}
use eset_incident_ai.World.{other}
use eset_incident_ai.Exec.{Outcome, ok, err}
use eset_incident_ai.Eset.Http.{
  Reply, response, lost, Request, Connection, is_retried, is_retried_outcome, exchange, attempts,
}
use eset_incident_ai.Eset.Auth.{Credentials, valid_token, cached, locked, get_access_token}
use eset_incident_ai.Eset.Requests.{as_object, read_body, judge, request_once, request_incidents}

-- A reply after which the client tries again: a timeout, 429 or a server error.
abbrev pub is_transient : Reply → Bool
is_transient (lost name) = is_retried (other name)
is_transient (response status body) = status == 429 || leb 500 status

-- What a reply says: for a response, what the tests of its status and its body answer.
abbrev pub verdict : Reply → Outcome Fields
verdict (lost name) = err (record { class = other name; message = "" })
verdict (response status body) = judge status body

abbrev pub repeat {ℓ} : {A : Type ℓ} → ℕ → A → List A → List A
repeat zero a xs = xs
repeat (suc n) a xs = a ∷ repeat n a xs

repeat_shift {ℓ} :
    {A : Type ℓ} (n : ℕ) (a : A) (xs : List A) → repeat n a (a ∷ xs) ≡ a ∷ repeat n a xs
repeat_shift zero a xs = refl
repeat_shift (suc n) a xs = ap (λ ys. a ∷ ys) (repeat_shift n a xs)

still_valid :
    {value : String} (c : Connection) (r : Request) (rs : List Reply)
    → valid_token c ≡ some value
    → valid_token (record c { replies = rs; sent = r ∷ c.sent }) ≡ some value
unfolding valid_token
still_valid c r rs v = v

read_body-final : (body : Option Value) → is_retried_outcome (read_body body) ≡ false
read_body-final none = refl
read_body-final (some v) = go (as_dict v)
  where
    go : (o : Option Fields) → is_retried_outcome (as_object o) ≡ false
    go none = refl
    go (some payload) = refl

is_retried-verdict : (reply : Reply) → is_retried_outcome (verdict reply) ≡ is_transient reply
unfolding judge
is_retried-verdict (lost name) = refl
is_retried-verdict (response status body) = elim (Bool-cases (status == 429 || leb 500 status)) [
  | inl e ↦ rw e refl
  | inr e ↦ elim (Bool-cases (leb 400 status)) [
    | inl f ↦ rw (e, f) refl
    | inr f ↦ rw (e, f) (read_body-final body)
  ]
]

module _ (cr : Credentials) (path : String) (params : Fields) (value : String) where
  abbrev asked : Request
  asked = record { path = path; params = params; bearer = value }

  get_access_token-valid :
      (c : Connection) → valid_token c ≡ some value → get_access_token cr c ≡ (ok value, c)
  unfolding get_access_token
  get_access_token-valid c e = ap (λ o. cached cr o (locked cr) c) e

  request_once-reply :
      (c : Connection) (reply : Reply) (rest : List Reply)
      → valid_token c ≡ some value
      → c.replies ≡ reply ∷ rest
      → request_once cr path params c
        ≡ (verdict reply, record c { replies = rest; sent = asked ∷ c.sent })
  unfolding request_once exchange
  request_once-reply c (lost name) rest v e = rw (get_access_token-valid c v, e)
  request_once-reply c (response status body) rest v e = rw (get_access_token-valid c v, e)

-- How `n + 1` attempts end: replies that are tried again, and the one that decides.
pub record Settled (n : ℕ) (asked : Request) (c c' : Connection) (o : Outcome Fields) : Type 0 where
  pub before : List Reply
  pub last : Reply
  pub in_order : c.replies ≡ before ++ last ∷ c'.replies
  pub transient_before : All (λ r. is_transient r ≡ true) before
  pub few : length before ≤ n
  pub decided : (is_transient last ≡ false) ⊎ (length before ≡ n)
  pub answered : o ≡ verdict last
  pub logged : c'.sent ≡ repeat (suc (length before)) asked c.sent
  pub token_kept : c'.token ≡ c.token

module _ (cr : Credentials) (path : String) (params : Fields) (value : String) where
  abbrev request : Request
  request = asked cr path params value

  abbrev after : Connection → List Reply → Connection
  after c rest = record c { replies = rest; sent = request ∷ c.sent }

  settles :
      (n : ℕ) (c : Connection) (reply : Reply) (rest : List Reply)
      → valid_token c ≡ some value
      → c.replies ≡ reply ∷ rest
      → n ≤ length rest
      → let r = attempts n (request_once cr path params) c in Settled n request c r.1 r.0
  unfolding attempts
  settles zero c reply rest v e enough =
      rw (request_once-reply cr path params value c reply rest v e) (record {
        before = [];
        last = reply;
        in_order = e;
        transient_before = tt;
        few = omega arith;
        decided = inr refl;
        answered = refl;
        logged = refl;
        token_kept = refl;
      })
  settles (suc n) c reply [] v e enough = absurd (omega arith)
  settles (suc n) c reply (next ∷ rest) v e enough = elim (Bool-cases (is_transient reply)) [
    | inl t ↦
        rw
          (
            request_once-reply cr path params value c reply (next ∷ rest) v e,
            is_retried-verdict reply,
            t,
          )
          (retried t
            (settles n (after c (next ∷ rest)) next rest (still_valid c _ _ v) refl (omega arith)))
    | inr f ↦
        rw
          (
            request_once-reply cr path params value c reply (next ∷ rest) v e,
            is_retried-verdict reply,
            f,
          )
          (record {
            before = [];
            last = reply;
            in_order = e;
            transient_before = tt;
            few = omega arith;
            decided = inl f;
            answered = refl;
            logged = refl;
            token_kept = refl;
          })
  ]
    where
      retried :
          {c' : Connection} {o : Outcome Fields}
          → is_transient reply ≡ true
          → Settled n request (after c (next ∷ rest)) c' o
          → Settled (suc n) request c c' o
      retried t k = record {
        before = reply ∷ k.before;
        last = k.last;
        in_order = e ∙ ap (λ rs. reply ∷ rs) k.in_order;
        transient_before = (t, k.transient_before);
        few = omega (arith, k.few);
        decided = elim (k.decided) [ inl d ↦ inl d | inr d ↦ inr (omega (arith, d)) ];
        answered = k.answered;
        logged = k.logged ∙ ap (λ rs. request ∷ rs) (repeat_shift (length k.before) request c.sent);
        token_kept = k.token_kept;
      }

-- With a valid token and at least five replies to come, a request to the incident API ends with the
-- verdict on one reply: each one before it was a timeout, 429 or a server error, at most four of
-- them, and it is not one itself or is the fifth. As many equal requests were sent as replies were
-- taken, and the token stays.
pub request-settles :
    (cr : Credentials) (path : String) (params : Fields) (value : String) (c : Connection)
    → valid_token c ≡ some value
    → 5 ≤ length c.replies
    → let r = request_incidents cr path params c in
      Settled 4 (record { path = path; params = params; bearer = value }) c r.1 r.0
unfolding request_incidents
request-settles cr path params value c v enough = go c.replies refl
  where
    go :
        (rs : List Reply)
        → c.replies ≡ rs
        → let r = attempts 4 (request_once cr path params) c in
          Settled 4 (record { path = path; params = params; bearer = value }) c r.1 r.0
    go [] e = absurd (omega (arith, ap length e))
    go (reply ∷ rest) e =
        settles cr path params value 4 c reply rest v e (omega (arith, ap length e))
