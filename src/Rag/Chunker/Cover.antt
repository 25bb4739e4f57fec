-- ===== src/Rag/Chunker/Cover.antt =====
-- The pieces of a text: the loop ends, and the pieces without their overlaps are the text.
use eset_incident_ai.Prelude.{
  ℕ, zero, suc, ◌+◌, ◌-◌, ◌<◌, ◌≤◌, ◌≡◌, refl, sym, ap, ◌∙◌, subst, true, false, inl, inr, some,
  List, [], ◌∷◌, ◌++◌, take, drop, length, All, min, arith, ltb, ◌==◌, Bool-cases, length-take,
  length-drop, take_all, append_nil, take-append-drop, drop-take-append-drop, drop-drop,
}
use eset_incident_ai.Rag.Chunker.{TextChunker, slice, chunks_from, chunk}

module _ {ℓ} {A : Type ℓ} (overlap : ℕ) where
  -- The pieces after the first, each without the characters that it shares with the one before.
  abbrev pub tails : List (List A) → List A
  tails [] = []
  tails (c ∷ cs) = drop overlap c ++ tails cs

  abbrev pub joined : List (List A) → List A
  joined [] = []
  joined (c ∷ cs) = c ++ tails cs

-- A list of pieces of `text` from `start` on.
pub record Covers {ℓ} {A : Type ℓ} (c : TextChunker) (text : List A) (start : ℕ)
    (cs : List (List A)) : Type ℓ where
  pub sized : All (λ piece. (1 ≤ length piece) × (length piece ≤ c.max_chars)) cs
  pub whole : joined c.overlap_chars cs ≡ drop start text
  pub rest : tails c.overlap_chars cs ≡ drop (start + c.overlap_chars) text

module _ {ℓ} {A : Type ℓ} (c : TextChunker) (smaller : c.overlap_chars < c.max_chars)
    (text : List A) where
  -- The last round: the piece is all that is left.
  last_piece :
      (start : ℕ)
      → start < length text
      → length text ≤ start + c.max_chars
      → Covers c text start (slice c text start (length text) ∷ [])
  last_piece start inside near =
      subst (λ s. Covers c text start (s ∷ [])) (sym all)
        (record {
          sized =
              ((omega (arith, length-drop start text), omega (arith, length-drop start text)), tt);
          whole = append_nil _;
          rest = append_nil _ ∙ drop-drop c.overlap_chars start text;
        })
    where
      all : slice c text start (length text) ≡ drop start text
      all = take_all _ _ (omega (arith, length-drop start text))

  -- A round before the last one.
  next_piece :
      (start : ℕ) (cs : List (List A))
      → start + c.max_chars < length text
      → Covers c text (start + c.max_chars - c.overlap_chars) cs
      → Covers c text start (take c.max_chars (drop start text) ∷ cs)
  next_piece start cs far k = record {
    sized = ((omega (arith, size), omega (arith, size)), k.sized);
    whole = ap (λ ys. take c.max_chars (drop start text) ++ ys) shared ∙ take-append-drop _ _;
    rest =
        ap (λ ys. drop c.overlap_chars (take c.max_chars (drop start text)) ++ ys) shared
        ∙ drop-take-append-drop c.overlap_chars c.max_chars (drop start text) (omega arith)
        ∙ drop-drop c.overlap_chars start text;
  }
    where
      size : length (take c.max_chars (drop start text)) ≡ c.max_chars
      size = length-take c.max_chars (drop start text) ∙ omega (arith, length-drop start text)

      same : start + c.max_chars - c.overlap_chars + c.overlap_chars ≡ start + c.max_chars
      same = omega arith

      shared : tails c.overlap_chars cs ≡ drop c.max_chars (drop start text)
      shared = k.rest ∙ ap (λ n. drop n text) same ∙ sym (drop-drop c.max_chars start text)

  chunks_from-Covers :
      (fuel start : ℕ)
      → start < length text
      → length text - start ≤ fuel
      → (cs : List (List A)) × (chunks_from c text fuel start ≡ some cs) × Covers c text start cs
  unfolding chunks_from
  chunks_from-Covers zero start inside enough = absurd (omega arith)
  chunks_from-Covers (suc fuel) start inside enough =
      elim (Bool-cases (min (length text) (start + c.max_chars) == length text)) [
        | inl last ↦ (
          slice c text start end ∷ [],
          rw (starts, last) refl,
          subst (λ n. Covers c text start (slice c text start n ∷ [])) (sym (at_end last))
              (last_piece start inside (omega (arith, at_end last))),
        )
        | inr more ↦ further more (
            chunks_from-Covers fuel (end - c.overlap_chars) (omega (arith, before_end more))
              (omega (arith, before_end more)))
      ]
    where
      end : ℕ
      end = min (length text) (start + c.max_chars)

      starts : ltb start (length text) ≡ true
      starts = ground (arith, inside)

      at_end : (end == length text) ≡ true → end ≡ length text
      at_end last = ground (arith, last)

      before_end : (end == length text) ≡ false → start + c.max_chars < length text
      before_end more = ground (arith, more)

      further :
          (end == length text) ≡ false
          → (cs : List (List A)) × (chunks_from c text fuel (end - c.overlap_chars) ≡ some cs)
            × Covers c text (end - c.overlap_chars) cs
          → (cs : List (List A)) × (chunks_from c text (suc fuel) start ≡ some cs)
            × Covers c text start cs
      further more (cs, run, k) = (
        take (end - start) (drop start text) ∷ cs,
        rw (starts, more, run) refl,
        subst (λ n. Covers c text start (take n (drop start text) ∷ cs)) (sym size)
            (next_piece start cs (before_end more)
              (subst (λ n. Covers c text (n - c.overlap_chars) cs) far k)),
      )
        where
          far : end ≡ start + c.max_chars
          far = omega (arith, before_end more)

          size : end - start ≡ c.max_chars
          size = omega (arith, far)

-- With an overlap smaller than the pieces, the loop ends after at most as many rounds as the text has
-- characters. Every piece has between one and `max_chars` characters, and the pieces joined, each
-- after the first without the `overlap_chars` that it shares with the one before, are the text.
pub chunk-covers {ℓ} :
    {A : Type ℓ} (c : TextChunker) (text : List A)
    → c.overlap_chars < c.max_chars
    → (cs : List (List A)) × (chunk c text (length text) ≡ some cs)
      × All (λ piece. (1 ≤ length piece) × (length piece ≤ c.max_chars)) cs
      × (joined c.overlap_chars cs ≡ text)
unfolding chunk
chunk-covers c [] smaller = ([], refl, tt, refl)
chunk-covers c (x ∷ xs) smaller =
    let (cs, run, k) =
      chunks_from-Covers c smaller (x ∷ xs) (length (x ∷ xs)) 0 (omega arith) (omega arith) in
    (cs, run, k.sized, k.whole)
