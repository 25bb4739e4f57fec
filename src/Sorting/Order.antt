-- ===== src/Sorting/Order.antt =====
-- A sorted list is in order, and the elements with one key keep their order.
use eset_incident_ai.Prelude.{
  length, suc, ℕ, ◌≡◌, refl, ◌∙◌, ap, Bool, true, false, inl, inr, List, [], ◌∷◌, ◌==◌, All,
  All-map, arith, Bool-cases, if◌then◌else◌,
}
use eset_incident_ai.Sorting.{Direction, rising, falling, precedes, insert, sorted}

-- The elements that pass the test, in order.
abbrev pub filter {ℓ} : {A : Type ℓ} → (A → Bool) → List A → List A
filter test [] = []
filter test (x ∷ xs) = if test x then x ∷ filter test xs else filter test xs

module _ {ℓ} {A : Type ℓ} (direction : Direction) (key : A → ℕ) where
  -- No later element must stand before an earlier one.
  abbrev pub InOrder : List A → Type ℓ
  InOrder [] = Unit
  InOrder (x ∷ xs) = All (λ y. precedes direction (key y) (key x) ≡ false) xs × InOrder xs

  abbrev pub has_key : ℕ → A → Bool
  has_key k x = key x == k

  irreflexive : (d : Direction) (a : ℕ) → precedes d a a ≡ false
  irreflexive rising a = ground arith
  irreflexive falling a = ground arith

  antisymmetric : (d : Direction) (a b : ℕ) → precedes d a b ≡ true → precedes d b a ≡ false
  antisymmetric rising a b h = ground (arith, h)
  antisymmetric falling a b h = ground (arith, h)

  transitive :
      (d : Direction) (a b c : ℕ)
      → precedes d b a ≡ false
      → precedes d c b ≡ false
      → precedes d c a ≡ false
  transitive rising a b c h k = ground (arith, h, k)
  transitive falling a b c h k = ground (arith, h, k)

  distinct :
      (d : Direction) (a b : ℕ) → precedes d a b ≡ true → (k : ℕ) → a == k ≡ true → b == k ≡ false
  distinct rising a b h k e = ground (arith, h, e)
  distinct falling a b h k e = ground (arith, h, e)

  insert-All :
      (P : A → Type 0) (x : A) (ys : List A) → P x → All P ys → All P (insert direction key x ys)
  unfolding insert
  insert-All P x [] p h = (p, tt)
  insert-All P x (y ∷ ys) p h = elim (Bool-cases (precedes direction (key y) (key x))) [
    | inl e ↦ rw e (h.0, insert-All P x ys p h.1)
    | inr e ↦ rw e (p, h)
  ]

  insert-InOrder : (x : A) (ys : List A) → InOrder ys → InOrder (insert direction key x ys)
  unfolding insert
  insert-InOrder x [] h = (tt, tt)
  insert-InOrder x (y ∷ ys) h = elim (Bool-cases (precedes direction (key y) (key x))) [
    | inl e ↦ rw e (
      insert-All (λ v. precedes direction (key v) (key y) ≡ false) x ys
          (antisymmetric direction (key y) (key x) e) h.0,
      insert-InOrder x ys h.1,
    )
    | inr e ↦ rw e (
      (
        e,
        All-map (λ v. precedes direction (key v) (key y) ≡ false)
            (λ v. precedes direction (key v) (key x) ≡ false) ys
            (λ v k. transitive direction (key x) (key y) (key v) e k) h.0,
      ),
      h,
    )
  ]

  insert-filter :
      (k : ℕ) (x : A) (ys : List A)
      → filter (has_key k) (insert direction key x ys) ≡ filter (has_key k) (x ∷ ys)
  unfolding insert
  insert-filter k x [] = refl
  insert-filter k x (y ∷ ys) = elim (Bool-cases (precedes direction (key y) (key x))) [
    | inl e ↦ elim (Bool-cases (key y == k)) [
      | inl f ↦ rw (e, insert-filter k x ys, f, distinct direction (key y) (key x) e k f) refl
      | inr f ↦ rw (e, insert-filter k x ys, f) refl
    ]
    | inr e ↦ rw e refl
  ]

  pub sorted-InOrder : (xs : List A) → InOrder (sorted direction key xs)
  unfolding sorted
  sorted-InOrder [] = tt
  sorted-InOrder (x ∷ xs) = insert-InOrder x (sorted direction key xs) (sorted-InOrder xs)

  pub sorted-filter :
      (k : ℕ) (xs : List A) → filter (has_key k) (sorted direction key xs) ≡ filter (has_key k) xs
  unfolding sorted
  sorted-filter k [] = refl
  sorted-filter k (x ∷ xs) =
      insert-filter k x (sorted direction key xs)
      ∙ ap (λ ys. if has_key k x then x ∷ ys else ys) (sorted-filter k xs)

  length-insert : (x : A) (ys : List A) → length (insert direction key x ys) ≡ length (x ∷ ys)
  unfolding insert
  length-insert x [] = refl
  length-insert x (y ∷ ys) = elim (Bool-cases (precedes direction (key y) (key x))) [
    | inl e ↦ rw (e, length-insert x ys) refl
    | inr e ↦ rw e refl
  ]

  pub length-sorted : (xs : List A) → length (sorted direction key xs) ≡ length xs
  unfolding sorted
  length-sorted [] = refl
  length-sorted (x ∷ xs) = length-insert x (sorted direction key xs) ∙ ap suc (length-sorted xs)
