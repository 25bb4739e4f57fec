-- ===== src/Rag/Embedder/Order.antt =====
-- The vector of a text as a bag of its tokens.
use mathlib.Core.Logic.{∥∥₁_elim}
use mathlib.Core.List.{Perm, Permᴰ}
use Prim.Native.String.{String}
use eset_incident_ai.Prelude.{
  ℕ, zero, suc, ◌+◌, ◌%◌, ◌<◌, ◌≡◌, refl, ap, ◌∙◌, Bool, true, false, List, [], ◌∷◌, length, take,
  arith,
}
use eset_incident_ai.Regex.{CharClass}
use eset_incident_ai.Rag.Embedder.{
  Component, bump, zeros, add_at, from_bytes, is_even_at, tokens, add_token, add_tokens, embed_one,
}

bump_comm : (a b : Bool) (c : Component) → bump a (bump b c) ≡ bump b (bump a c)
bump_comm true true c = refl
bump_comm true false c = refl
bump_comm false true c = refl
bump_comm false false c = refl

-- Two additions to a vector may change places.
add_at_comm :
    (i j : ℕ) (a b : Bool) (v : List Component)
    → add_at i a (add_at j b v) ≡ add_at j b (add_at i a v)
unfolding add_at
add_at_comm i j a b [] = refl
add_at_comm zero zero a b (c ∷ v) = ap (λ d. d ∷ v) (bump_comm a b c)
add_at_comm zero (suc j) a b (c ∷ v) = refl
add_at_comm (suc i) zero a b (c ∷ v) = refl
add_at_comm (suc i) (suc j) a b (c ∷ v) = ap (λ u. c ∷ u) (add_at_comm i j a b v)

-- The ones in a vector, of either sign.
abbrev pub weight : List Component → ℕ
weight [] = 0
weight (c ∷ v) = c.added + c.removed + weight v

weight-bump :
    (a : Bool) (c : Component) → (bump a c).added + (bump a c).removed ≡ c.added + c.removed + 1
weight-bump true c = omega arith
weight-bump false c = omega arith

weight-add_at :
    (i : ℕ) (a : Bool) (v : List Component) → i < length v → weight (add_at i a v) ≡ weight v + 1
unfolding add_at
weight-add_at i a [] h = omega (arith, h)
weight-add_at zero a (c ∷ v) h = omega (arith, weight-bump a c)
weight-add_at (suc i) a (c ∷ v) h = omega (arith, weight-add_at i a v (omega (arith, h)))

length-add_at : (i : ℕ) (a : Bool) (v : List Component) → length (add_at i a v) ≡ length v
unfolding add_at
length-add_at i a [] = refl
length-add_at zero a (c ∷ v) = refl
length-add_at (suc i) a (c ∷ v) = ap suc (length-add_at i a v)

zeros_lem : (n : ℕ) → (length (zeros n) ≡ n) × (weight (zeros n) ≡ 0)
zeros_lem zero = (refl, refl)
zeros_lem (suc n) = (omega (arith, (zeros_lem n).0), omega (arith, (zeros_lem n).1))

module _ (lower : String → String) (digest : String → List ℕ) (is_word : CharClass)
    (dimensions : ℕ) where
  abbrev add_all : List String → List Component → List Component
  add_all = add_tokens lower digest is_word dimensions

  add_all-Permᴰ :
      {ts us : List String} (v : List Component) → Permᴰ ts us → add_all ts v ≡ add_all us v
  unfolding add_tokens add_token
  add_all-Permᴰ v Permᴰ.nil = refl
  add_all-Permᴰ v (Permᴰ.cons {l₂ = us} same d) = rw same (add_all-Permᴰ _ d)
  add_all-Permᴰ v (Permᴰ.swap {l = rest} same again) =
      rw same (rw again (ap (add_all rest) (add_at_comm _ _ _ _ v)))
  add_all-Permᴰ v (Permᴰ.trans d e) = add_all-Permᴰ v d ∙ add_all-Permᴰ v e

  add_all-Perm :
      {ts us : List String} (v : List Component) → Perm ts us → add_all ts v ≡ add_all us v
  add_all-Perm v p = ∥∥₁_elim p (hlevel) (λ d. add_all-Permᴰ v d)

  add_all-weight :
      (ts : List String) (v : List Component)
      → 0 < dimensions
      → length v ≡ dimensions
      → (length (add_all ts v) ≡ dimensions) × (weight (add_all ts v) ≡ weight v + length ts)
  unfolding add_tokens add_token
  add_all-weight [] v h e = (e, omega arith)
  add_all-weight (t ∷ ts) v h e =
      let i = from_bytes 0 (take 4 (digest t)) % dimensions in
      let a = is_even_at 4 (digest t) in
      let rest = add_all-weight ts (add_at i a v) h (length-add_at i a v ∙ e) in
      (rest.0, omega (arith, rest.1, weight-add_at i a v (omega (arith, e, h))))

  -- Two texts whose tokens are the same up to order have the same vector. A vector has the configured
  -- number of components, and as many ones, of either sign, as the text has tokens.
  pub embed_one-bag :
      (s t : String)
      → 0 < dimensions
      → Perm (tokens lower digest is_word s) (tokens lower digest is_word t)
      → (embed_one lower digest is_word dimensions s ≡ embed_one lower digest is_word dimensions t)
        × (length (embed_one lower digest is_word dimensions s) ≡ dimensions)
        × (weight (embed_one lower digest is_word dimensions s)
            ≡ length (tokens lower digest is_word s))
  unfolding embed_one
  embed_one-bag s t h p =
      let (wide, none_yet) = zeros_lem dimensions in
      let (length_lem, weight_lem) =
        add_all-weight (tokens lower digest is_word s) (zeros dimensions) h wide in
      (add_all-Perm (zeros dimensions) p, length_lem, omega (arith, weight_lem, none_yet))
