-- ===== src/Exec/Triple.antt =====
-- Hoare triples for coroutines, under every list of faults: a rule for each way to build one.
use eset_incident_ai.Prelude.{
  ◌≡◌, refl, ap, sym, subst, Bool, true, false, List, [], ◌∷◌, if◌then◌else◌,
}
use eset_incident_ai.World.{World, Error, Fault, works, fails, fails_late}
use eset_incident_ai.Exec.{
  Outcome, ok, err, Exec, answer, continue, recover, pure, raise, call, catch, ◌>>=◌,
}

-- `Q` holds of a result and the world with it, `E` of the world beside an exception.
abbrev pub Post {ℓ} :
    {A : Type ℓ} → (A → World → Type 0) → (World → Type 0) → Outcome A → World → Type 0
Post Q E (ok a) w = Q a w
Post Q E (err e) w = E w

pub record Triple {ℓ} {A : Type ℓ} (P : World → Type 0) (m : Exec A) (Q : A → World → Type 0)
    (E : World → Type 0) : Type ℓ where
  pub at : (w : World) → P w → Post Q E (m w).0 (m w).1

-- A predicate that does not look at the faults to come.
abbrev pub Stable : (World → Type 0) → Type 0
Stable P = (w : World) (r : List Fault) → P w → P (record w { faults = r })

module _ {ℓ} {A : Type ℓ} {P : World → Type 0} {E : World → Type 0} where
  pub Triple-pure :
      {Q : A → World → Type 0} (a : A) → ((w : World) → P w → Q a w) → Triple P (pure a) Q E
  unfolding pure
  Triple-pure a h = record { at = h }

  pub Triple-raise :
      {Q : A → World → Type 0} (e : Error) → ((w : World) → P w → E w) → Triple P (raise e) Q E
  unfolding raise
  Triple-raise e h = record { at = h }

  -- A call may fail before it takes effect, and after.
  pub Triple-call :
      {Q : A → World → Type 0} (f : World → A × World)
      → Stable P
      → ((w : World) → P w → Q (f w).0 (f w).1 × E w × E (f w).1)
      → Triple P (call f) Q E
  unfolding call
  Triple-call {Q = Q} f stable h = record { at = λ w p. go w.faults w p }
    where
      go : (fs : List Fault) (w : World) → P w → Post Q E (answer fs f w).0 (answer fs f w).1
      go [] w p = (h w p).0
      go (works ∷ r) w p = (h (record w { faults = r }) (stable w r p)).0
      go (fails e ∷ r) w p = (h (record w { faults = r }) (stable w r p)).1
      go (fails_late e ∷ r) w p = (h (record w { faults = r }) (stable w r p)).2

  pub Triple-if :
      {Q : A → World → Type 0} (b : Bool) (m n : Exec A)
      → (b ≡ true → Triple P m Q E)
      → (b ≡ false → Triple P n Q E)
      → Triple P (if b then m else n) Q E
  Triple-if true m n km kn = km refl
  Triple-if false m n km kn = kn refl

  -- Stronger before, weaker after.
  pub Triple-weaken :
      {P' : World → Type 0} {Q Q' : A → World → Type 0} {E' : World → Type 0} (m : Exec A)
      → Triple P' m Q' E'
      → ((w : World) → P w → P' w)
      → ((a : A) (w : World) → Q' a w → Q a w)
      → ((w : World) → E' w → E w)
      → Triple P m Q E
  Triple-weaken {P'} {Q} {Q'} {E'} m t before after failed = record {
    at = λ w p. go (m w).0 (m w).1 (t.at w (before w p));
  }
    where
      go : (r : Outcome A) (w : World) → Post Q' E' r w → Post Q E r w
      go (ok a) w q = after a w q
      go (err e) w q = failed w q

  -- `E'` is what holds when `m` raises, and `h` starts from it.
  pub Triple-catch :
      {Q : A → World → Type 0} {E' : World → Type 0} (m : Exec A) (h : Error → Exec A)
      → Triple P m Q E'
      → ((e : Error) → Triple E' (h e) Q E)
      → Triple P (catch m h) Q E
  unfolding catch
  Triple-catch {Q} {E'} m h tm th = record { at = λ w p. go (m w).0 (m w).1 (tm.at w p) }
    where
      go :
          (r : Outcome A) (w : World) → Post Q E' r w → Post Q E (recover r h w).0 (recover r h w).1
      go (ok a) w q = q
      go (err e) w q = (th e).at w q

module _ {ℓ κ} {A : Type ℓ} {B : Type κ} {P : World → Type 0} {E : World → Type 0} where
  pub Triple-bind :
      {Q : A → World → Type 0} {R : B → World → Type 0} (m : Exec A) (f : A → Exec B)
      → Triple P m Q E
      → ((a : A) → Triple (Q a) (f a) R E)
      → Triple P (m >>= f) R E
  unfolding ◌>>=◌
  Triple-bind {Q} {R} m f tm tf = record { at = λ w p. go (m w).0 (m w).1 (tm.at w p) }
    where
      go :
          (r : Outcome A) (w : World)
          → Post Q E r w
          → Post R E (continue r f w).0 (continue r f w).1
      go (ok a) w q = (tf a).at w q
      go (err e) w q = q

  -- A call with one possible answer: the rest is proved at that answer.
  pub Triple-answer-bind :
      {R : B → World → Type 0} (v : A) (f : A → Exec B)
      → Stable P
      → ((w : World) → P w → E w)
      → Triple P (f v) R E
      → Triple P (call (λ w. (v, w)) >>= f) R E
  unfolding ◌>>=◌ call
  Triple-answer-bind {R} v f stable failed t = record { at = λ w p. go w.faults w p }
    where
      go :
          (fs : List Fault) (w : World)
          → P w
          → let (r, w') = answer fs (λ w. (v, w)) w in
            Post R E (continue r f w').0 (continue r f w').1
      go [] w p = t.at w p
      go (works ∷ r) w p = t.at (record w { faults = r }) (stable w r p)
      go (fails e ∷ r) w p = failed (record w { faults = r }) (stable w r p)
      go (fails_late e ∷ r) w p = failed (record w { faults = r }) (stable w r p)

module _ {κ} {A : Type 0} {B : Type κ} {P : World → Type 0} {E : World → Type 0} where
  -- What follows a value that is known.
  pub Triple-at :
      {R : B → World → Type 0} (v : A) (f : A → Exec B)
      → Triple P (f v) R E
      → (a : A) → Triple (λ w. (a ≡ v) × P w) (f a) R E
  Triple-at {R} v f t a = record {
    at = λ w h. subst (λ b. Post R E (f b w).0 (f b w).1) (sym h.0) (t.at w h.1);
  }

-- What an outcome returns, or the default.
abbrev pub returned {ℓ} : {A : Type ℓ} → A → Outcome A → A
returned a (ok b) = b
returned a (err e) = a

-- The postcondition of a run that is known to have returned.
pub Post-ok {ℓ} :
    {A : Type ℓ} (Q : A → World → Type 0) (E : World → Type 0) (o : Outcome A) (w : World) {a : A}
    → Post Q E o w
    → o ≡ ok a
    → Q a w
Post-ok Q E (ok b) w {a} h e = subst (λ b. Q b w) (ap (returned b) e) h
Post-ok Q E (err f) w h e = cc

-- Two postconditions of one run.
pub Post-both {ℓ} :
    {A : Type ℓ} (Q R : A → World → Type 0) (E F : World → Type 0) (o : Outcome A) (w : World)
    → Post Q E o w
    → Post R F o w
    → Post (λ a w. Q a w × R a w) (λ w. E w × F w) o w
Post-both Q R E F (ok a) w h k = (h, k)
Post-both Q R E F (err e) w h k = (h, k)
