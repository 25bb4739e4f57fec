-- ===== src/Persistence/Deliveries/Refines.antt =====
-- What a client of the delivery table is promised: a set of keys, on which a call either takes effect
-- or fails. It says nothing of rows, their order, or a table that is made on the way.
use eset_incident_ai.Prelude.{
  String, Bool, ◌≡◌, refl, sym, ap, ◌∙◌, fun_ext, subst, ◌||◌, List, [], ◌∷◌, str_eq,
}
use eset_incident_ai.World.{World, Error}
use eset_incident_ai.Exec.{Outcome, ok, err}
use eset_incident_ai.Exec.Triple.{Post, Triple, Triple-weaken}
use eset_incident_ai.Persistence.Deliveries.{is_delivered, was_delivered, mark_delivered}
use eset_incident_ai.Persistence.Deliveries.Once.{is_delivered-insert_delivery}
use eset_incident_ai.Persistence.Deliveries.Triples.{
  add_delivery, was_delivered-Triple, mark_delivered-Triple,
}

pub data Command : Type 0 where
  mark : String → String → Command
  ask : String → Command

pub data Answer : Type 0 where
  done : Answer
  known : Bool → Answer
  failed : Error → Answer

-- The keys that count rest delivered.
abbrev pub Keys : Type 0
Keys = String → Bool

abbrev pub with_key : String → Keys → Keys
with_key key s j = str_eq key j || s j

-- The promise, for one call: a call that fails to mark may have taken effect.
pub data Step : Command → Keys → Answer → Keys → Type 0 where
  marks :
      {key destination : String} {s : Keys} → Step (mark key destination) s done (with_key key s)
  marks_late :
      {key destination : String} {s : Keys} {e : Error}
      → Step (mark key destination) s (failed e) (with_key key s)
  mark_fails :
      {key destination : String} {s : Keys} {e : Error} → Step (mark key destination) s (failed e) s
  asks : {key : String} {s : Keys} → Step (ask key) s (known (s key)) s
  ask_fails : {key : String} {s : Keys} {e : Error} → Step (ask key) s (failed e) s

pub data Steps : List Command → Keys → List Answer → Keys → Type 0 where
  stop : {s : Keys} → Steps [] s [] s
  step :
      {c : Command} {cs : List Command} {a : Answer} {rest : List Answer} {s t u : Keys}
      → Step c s a t
      → Steps cs t rest u
      → Steps (c ∷ cs) s (a ∷ rest) u

abbrev answered {ℓ} : {A : Type ℓ} → (A → Answer) → Outcome A → Answer
answered f (ok a) = f a
answered f (err e) = failed e

abbrev pub perform : Command → World → Answer × World
perform (mark key destination) w =
    let (r, w') = mark_delivered key destination w in (answered (λ _. done) r, w')
perform (ask key) w = let (r, w') = was_delivered key w in (answered known r, w')

-- A client goes on after a call that failed.
abbrev pub perform_all : List Command → World → List Answer × World
perform_all [] w = ([], w)
perform_all (c ∷ cs) w =
    let (a, w') = perform c w in let (rest, w'') = perform_all cs w' in (a ∷ rest, w'')

abbrev pub keys_of : World → Keys
keys_of w key = is_delivered key w.deliveries

abbrev Fails : Command → Keys → World → Type 0
Fails c s w = (e : Error) → Step c s (failed e) (keys_of w)

at_keys :
    {c : Command} {s t : Keys} {a : Answer} (w : World)
    → Step c s a t
    → t ≡ keys_of w
    → Step c s a (keys_of w)
at_keys {c} {s} {a = a} w h same = subst (Step c s a) same h

answered-Step {ℓ} :
    {A : Type ℓ} (c : Command) (s : Keys) (f : A → Answer) (r : Outcome A) (w : World)
    → Post (λ a w. Step c s (f a) (keys_of w)) (Fails c s) r w
    → Step c s (answered f r) (keys_of w)
answered-Step c s f (ok a) w h = h
answered-Step c s f (err e) w h = h e

module _ (key : String) (s : Keys) where
  mark_delivered-Step :
      (destination : String)
      → let c = mark key destination in
        Triple
          (λ w. s ≡ keys_of w)
          (mark_delivered key destination)
          (λ _ w. Step c s done (keys_of w))
          (Fails c s)
  mark_delivered-Step destination =
      mark_delivered-Triple (λ w r h. h) key destination (λ w h e. at_keys w mark_fails h)
        (λ w h.
          let now = add_delivery key destination w in
          let grown : with_key key s ≡ keys_of now =
            fun_ext
              (λ j. rw h (sym (is_delivered-insert_delivery key j destination w.deliveries))) in
          (at_keys now marks grown, λ e. at_keys now marks_late grown))

  was_delivered-Step :
      Triple
        (λ w. s ≡ keys_of w)
        (was_delivered key)
        (λ b w. Step (ask key) s (known b) (keys_of w))
        (Fails (ask key) s)
  was_delivered-Step =
      Triple-weaken (was_delivered key) (was_delivered-Triple (λ w r h. h) key) (λ w h. h)
        (λ b w h.
          at_keys w (subst (λ d. Step (ask key) s (known d) s) (ap (λ f. f key) h.0 ∙ sym h.1) asks)
            h.0)
        (λ w h e. at_keys w ask_fails h)

perform-Step :
    (c : Command) (w : World) → Step c (keys_of w) (perform c w).0 (keys_of (perform c w).1)
perform-Step (mark key destination) w =
    answered-Step _ _ _ _ _ ((mark_delivered-Step key (keys_of w) destination).at w refl)
perform-Step (ask key) w = answered-Step _ _ _ _ _ ((was_delivered-Step key (keys_of w)).at w refl)

-- For any client and whatever the external calls do: its calls of the delivery table are answered, and
-- change which keys count rest delivered, rest calls on a set of keys that each take effect or fail.
pub perform_all-Steps :
    (cs : List Command) (w : World)
    → Steps cs (keys_of w) (perform_all cs w).0 (keys_of (perform_all cs w).1)
perform_all-Steps [] w = stop
perform_all-Steps (c ∷ cs) w = step (perform-Step c w) (perform_all-Steps cs (perform c w).1)
