-- ===== src/Sorting.antt =====
-- Python's `sorted` with a numeric key: stable, in rising or (`reverse=True`) in falling order.
pub mod Order
use eset_incident_ai.Prelude.{ℕ, Bool, true, false, List, [], ◌∷◌, ltb, if◌then◌else◌}

pub data Direction : Type 0 where
  rising falling : Direction

-- A key that must stand before another one.
abbrev pub precedes : Direction → ℕ → ℕ → Bool
precedes rising a b = ltb a b
precedes falling a b = ltb b a

module _ {ℓ} {A : Type ℓ} (direction : Direction) (key : A → ℕ) where
  -- An element from the front goes before its equals.
  unfoldable pub insert : A → List A → List A
  insert x [] = x ∷ []
  insert x (y ∷ ys) =
      let later = insert x ys in
      if precedes direction (key y) (key x) then y ∷ later else x ∷ y ∷ ys

  unfoldable pub sorted : List A → List A
  sorted [] = []
  sorted (x ∷ xs) = insert x (sorted xs)
