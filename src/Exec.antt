-- ===== src/Exec.antt =====
-- Coroutines that call the outside world and may raise: state and exceptions, with the state kept
-- beside an exception, since what was written before a raise stays written.
pub mod Triple
pub mod Quiet
use eset_incident_ai.Prelude.{Option, none, some, List, [], ◌∷◌}
use eset_incident_ai.World.{World, Error, Fault, works, fails, fails_late}

pub data Outcome {ℓ} (A : Type ℓ) : Type ℓ where
  ok : A → Outcome A
  err : Error → Outcome A

abbrev pub Exec {ℓ} : Type ℓ → Type ℓ
Exec A = World → Outcome A × World

abbrev continue {ℓ κ} :
    {A : Type ℓ} {B : Type κ} → Outcome A → (A → Exec B) → World → Outcome B × World
continue (ok a) f w = f a w
continue (err e) f w = (err e, w)

abbrev recover {ℓ} : {A : Type ℓ} → Outcome A → (Error → Exec A) → World → Outcome A × World
recover (ok a) h w = (ok a, w)
recover (err e) h w = h e w

-- One external call that would answer and change the world as `f` says.
abbrev answer {ℓ} : {A : Type ℓ} → List Fault → (World → A × World) → World → Outcome A × World
answer [] f w = (ok (f w).0, (f w).1)
answer (works ∷ r) f w = (ok (f (record w { faults = r })).0, (f (record w { faults = r })).1)
answer (fails e ∷ r) f w = (err e, record w { faults = r })
answer (fails_late e ∷ r) f w = (err e, (f (record w { faults = r })).1)

module _ {ℓ} {A : Type ℓ} where
  unfoldable pub pure : A → Exec A
  pure a w = (ok a, w)

  unfoldable pub raise : Error → Exec A
  raise e w = (err e, w)

  unfoldable pub call : (World → A × World) → Exec A
  call f w = answer w.faults f w

  -- `try: m except Exception as e: h(e)`.
  unfoldable pub catch : Exec A → (Error → Exec A) → Exec A
  catch m h w = let (r, w') = m w in recover r h w'

module _ {ℓ κ} {A : Type ℓ} {B : Type κ} where
  infixl 10 ◌>>=◌ ◌>>◌
  unfoldable pub ◌>>=◌ : Exec A → (A → Exec B) → Exec B
  ◌>>=◌ m f w = let (r, w') = m w in continue r f w'

  abbrev pub ◌>>◌ : Exec A → Exec B → Exec B
  m >> n = m >>= λ _. n

-- A call that only reads the world.
abbrev pub query {ℓ} : {A : Type ℓ} → (World → A) → Exec A
query f = call (λ w. (f w, w))

-- A statement with no result.
abbrev pub execute : (World → World) → Exec (Unit {0})
execute f = call (λ w. (tt, f w))
