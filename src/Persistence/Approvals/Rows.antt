-- ===== src/Persistence/Approvals/Rows.antt =====
-- The rows of a review table: ids and subjects stay unique, and a reviewed row is not found again.
use eset_incident_ai.Prelude.{
  ℕ, suc, String, ◌≡◌, ◌≢◌, refl, sym, ◌<◌, Bool, true, false, ◌⊎◌, inl, inr, none, some, List, [],
  ◌∷◌, arith, All, All-map, All-both, Bool-cases, str_eq, eq_iff,
}
use eset_incident_ai.Value.{Fields}
use eset_incident_ai.World.{Table, Approval, ReviewStatus}
use eset_incident_ai.Persistence.Approvals.{
  take_out, select_open, is_open, is_pending, review_row, upsert,
}

-- `rest` is `rows` without its first row that passes the test, `a`.
pub data Taken (test : Approval → Bool) : List Approval → Approval → List Approval → Type 0 where
  here : {a : Approval} {rows : List Approval} → test a ≡ true → Taken test (a ∷ rows) a rows
  there :
      {a b : Approval} {rows rest : List Approval}
      → test b ≡ false
      → Taken test rows a rest
      → Taken test (b ∷ rows) a (b ∷ rest)

abbrev pub Missed : (Approval → Bool) → List Approval → Type 0
Missed test rows = (take_out test rows ≡ none) × All (λ a. test a ≡ false) rows

abbrev pub Found : (Approval → Bool) → List Approval → Type 0
Found test rows =
    (a : Approval) × (rest : List Approval) × (take_out test rows ≡ some (a, rest))
    × Taken test rows a rest

pub take_out-cases :
    (test : Approval → Bool) (rows : List Approval) → Missed test rows ⊎ Found test rows
unfolding take_out
take_out-cases test [] = inl (refl, tt)
take_out-cases test (a ∷ rows) = elim (Bool-cases (test a)) [
  | inl e ↦ inr (a, rows, rw e, here e)
  | inr e ↦ elim (take_out-cases test rows) [
    | inl m ↦ inl (rw (e, m.0), (e, m.1))
    | inr f ↦ inr (f.0, a ∷ f.1, rw (e, f.2), there e f.3)
  ]
]

pub Taken-passes :
    {test : Approval → Bool} {rows rest : List Approval} {a : Approval}
    → Taken test rows a rest
    → test a ≡ true
Taken-passes (here e) = e
Taken-passes (there e t) = Taken-passes t

-- What holds of every row holds of the one taken out and of the others.
pub Taken-All :
    (P : Approval → Type 0) {test : Approval → Bool} {rows rest : List Approval} {a : Approval}
    → Taken test rows a rest
    → All P rows
    → P a × All P rest
Taken-All P (here e) h = h
Taken-All P (there e t) h = let (p, ps) = Taken-All P t h.1 in (p, (h.0, ps))

abbrev pub Apart : Approval → Approval → Type 0
Apart a b = (a.approval_id ≢ b.approval_id) × (a.subject_id ≢ b.subject_id)

abbrev pub Distinct : List Approval → Type 0
Distinct [] = Unit
Distinct (a ∷ rows) = All (λ b. Apart a b) rows × Distinct rows

Apart-sym : (a b : Approval) → Apart a b → Apart b a
Apart-sym a b h = (λ e. h.0 (sym e), λ e. h.1 (sym e))

pub Taken-Distinct :
    {test : Approval → Bool} {rows rest : List Approval} {a : Approval}
    → Taken test rows a rest
    → Distinct rows
    → Distinct (a ∷ rest)
Taken-Distinct (here e) h = h
Taken-Distinct (there {a} {b} e t) h =
    let (ba, bs) = Taken-All (λ c. Apart b c) t h.0 in
    let (as_apart, d) = Taken-Distinct t h.1 in ((Apart-sym b a ba, as_apart), (bs, d))

pub select_open-Taken :
    (id : ℕ) {rows rest : List Approval} {a : Approval}
    → Taken (is_open id) rows a rest
    → select_open id rows ≡ some a
unfolding select_open
select_open-Taken id (here e) = rw e
select_open-Taken id (there e t) = rw (e, select_open-Taken id t)

pub select_open-none :
    (id : ℕ) (rows : List Approval)
    → All (λ a. is_open id a ≡ false) rows
    → select_open id rows ≡ none
unfolding select_open
select_open-none id [] h = refl
select_open-none id (a ∷ rows) h = rw (h.0, select_open-none id rows h.1)

is_open-other :
    (id : ℕ) (a : Approval) (rows : List Approval)
    → a.approval_id ≡ id
    → All (λ b. Apart a b) rows
    → All (λ b. is_open id b ≡ false) rows
is_open-other id a [] e h = tt
is_open-other id a (b ∷ rows) e h = (ground (arith, h.0), is_open-other id a rows e h.1)

-- A table whose ids and subjects are unique, and whose sequence has not given an id twice.
pub record IsValid (t : Table Approval) : Type 0 where
  pub distinct : Distinct t.rows
  pub used : All (λ a. a.approval_id < t.next_id) t.rows

pub review_row-IsValid :
    (id : ℕ) (status : ReviewStatus) (t : Table Approval)
    → IsValid t
    → IsValid (record t { rows = review_row id status t.rows })
unfolding review_row
review_row-IsValid id status t v = elim (take_out-cases (is_open id) t.rows) [
  | inl m ↦ rw (m.0, review_row) v
  | inr f ↦
      rw (f.2, review_row)
        (record {
          distinct = Taken-Distinct f.3 v.distinct;
          used = Taken-All (λ a. a.approval_id < t.next_id) f.3 v.used;
        })
]

str_eq-apart : (s t : String) → str_eq s t ≡ false → s ≢ t
str_eq-apart s t e same = absurd (ground (arith, eq_iff s t, e, same))

abbrev Below : ℕ → Approval → Type 0
Below n a = a.approval_id < n

pub upsert-IsValid :
    (subject_id severity title : String) (payload : Fields) (t : Table Approval)
    → IsValid t
    → IsValid (upsert subject_id severity title payload t)
unfolding upsert
upsert-IsValid subject_id severity title payload t v = elim (take_out-cases named t.rows) [
  | inl m ↦
      rw (m.0, upsert)
        (record {
          distinct = (
            All-map _ (λ a. (t.next_id ≢ a.approval_id) × (subject_id ≢ a.subject_id)) t.rows
                (λ a h. (
                  λ e. absurd (omega (arith, h.0, e)),
                  λ e. str_eq-apart a.subject_id subject_id h.1 (sym e),
                ))
                (All-both (Below t.next_id) (λ a. named a ≡ false) t.rows v.used m.1),
            v.distinct,
          );
          used =
              (omega arith, All-map (Below t.next_id) (Below (suc t.next_id)) t.rows grow v.used);
        })
  | inr f ↦
      rw (f.2, upsert)
        (record {
          distinct = Taken-Distinct f.3 v.distinct;
          used =
              All-map (Below t.next_id) (Below (suc t.next_id)) (f.0 ∷ f.1) grow
                (Taken-All (Below t.next_id) f.3 v.used);
        })
]
  where
    named : Approval → Bool
    named a = str_eq a.subject_id subject_id

    grow : (a : Approval) → Below t.next_id a → Below (suc t.next_id) a
    grow a h = omega (arith, h)

not_open : (id : ℕ) (a : Approval) → is_pending a.status ≡ false → is_open id a ≡ false
not_open id a h = ground (arith, h)

open_id : (id : ℕ) (a : Approval) → is_open id a ≡ true → a.approval_id ≡ id
open_id id a h = ground (arith, h)

-- What a review of an open row does: `select_open` found that row, and does not find one again.
pub review_row-closes :
    (id : ℕ) (status : ReviewStatus) (rows : List Approval)
    → is_pending status ≡ false
    → Distinct rows
    → select_open id (review_row id status rows) ≡ none
unfolding review_row
review_row-closes id status rows closed d = elim (take_out-cases (is_open id) rows) [
  | inl m ↦ rw (m.0, review_row) (select_open-none id rows m.1)
  | inr f ↦
      rw (f.2, review_row)
        (select_open-none id (record f.0 { status = status } ∷ f.1) (
          not_open id (record f.0 { status = status }) closed,
          is_open-other id f.0 f.1 (open_id id f.0 (Taken-passes f.3)) (Taken-Distinct f.3 d).0,
        ))
]
