-- ===== src/Exec/Quiet.antt =====
-- Runs in which no external call fails: what a coroutine then answers, and the world it leaves.
use eset_incident_ai.Prelude.{◌≡◌, refl, ap, []}
use eset_incident_ai.World.{World, Error}
use eset_incident_ai.Exec.{
  ok, err, Exec, answer, continue, recover, call, catch, raise, pure, ◌>>=◌,
}

-- From `w`, where no fault is to come, `m` answers `a` and leaves `w'`, where none is either.
pub record Quiet {ℓ} {A : Type ℓ} (w : World) (m : Exec A) (a : A) (w' : World) : Type ℓ where
  pub calm : w.faults ≡ []
  pub runs : m w ≡ (ok a, w')
  pub calm_after : w'.faults ≡ []

module _ {ℓ} {A : Type ℓ} where
  pub Quiet-pure : (w : World) (a : A) → w.faults ≡ [] → Quiet w (pure a) a w
  unfolding pure
  Quiet-pure w a h = record { calm = h; runs = refl; calm_after = h }

  pub Quiet-call :
      (w : World) (f : World → A × World)
      → w.faults ≡ []
      → (f w).1.faults ≡ []
      → Quiet w (call f) (f w).0 (f w).1
  unfolding call
  Quiet-call w f h k = record { calm = h; runs = ap (λ fs. answer fs f w) h; calm_after = k }

module _ {ℓ κ} {A : Type ℓ} {B : Type κ} where
  pub Quiet-bind :
      {w w' w'' : World} {a : A} {b : B} (m : Exec A) (f : A → Exec B)
      → Quiet w m a w'
      → Quiet w' (f a) b w''
      → Quiet w (m >>= f) b w''
  unfolding ◌>>=◌
  Quiet-bind m f qm qf = record {
    calm = qm.calm;
    runs = rw (qm.runs, continue) qf.runs;
    calm_after = qf.calm_after;
  }

module _ {ℓ} {A : Type ℓ} where
  -- The two ways through a handler.
  pub catch-ok :
      (m : Exec A) (h : Error → Exec A) (w w' : World) (a : A)
      → m w ≡ (ok a, w')
      → catch m h w ≡ (ok a, w')
  unfolding catch
  catch-ok m h w w' a e = rw (e, recover)

  pub catch-err :
      (m : Exec A) (h : Error → Exec A) (w w' : World) (e : Error)
      → m w ≡ (err e, w')
      → catch m h w ≡ h e w'
  unfolding catch
  catch-err m h w w' e p = rw (p, recover)

  pub Quiet-catch :
      {w w' : World} {a : A} (m : Exec A) (h : Error → Exec A)
      → Quiet w m a w'
      → Quiet w (catch m h) a w'
  Quiet-catch {w} {w'} {a} m h q = record {
    calm = q.calm;
    runs = catch-ok m h w w' a q.runs;
    calm_after = q.calm_after;
  }

module _ {ℓ κ} {A : Type ℓ} {B : Type κ} where
  pub bind-ok :
      (m : Exec A) (f : A → Exec B) (w w' : World) (a : A) → m w ≡ (ok a, w') → (m >>= f) w ≡ f a w'
  unfolding ◌>>=◌
  bind-ok m f w w' a e = rw (e, continue)

pub raise_lem {ℓ} : {A : Type ℓ} (e : Error) (w : World) → raise {A = A} e w ≡ (err e, w)
unfolding raise
raise_lem e w = refl
