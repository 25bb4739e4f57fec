-- ===== src/Persistence/Approvals/Open.antt =====
-- The open rows of a review table, and what a review leaves of them.
use eset_incident_ai.Prelude.{
  ℕ, ◌≡◌, ◌≢◌, ◌∙◌, true, false, inl, inr, some, List, [], ◌∷◌, arith, All, All-map, All-both,
  Bool-cases,
}
use eset_incident_ai.World.{Approval, ReviewStatus}
use eset_incident_ai.Persistence.Approvals.{
  take_out, select_open, is_open, is_pending, open_rows, review_row,
}
use eset_incident_ai.Persistence.Approvals.Rows.{
  Taken, here, there, Apart, Distinct, take_out-cases,
}

pub open_rows-All :
    (P : Approval → Type 0) (rows : List Approval) → All P rows → All P (open_rows rows)
unfolding open_rows
open_rows-All P [] h = tt
open_rows-All P (a ∷ rows) h = elim (Bool-cases (is_pending a.status)) [
  | inl e ↦ rw e (h.0, open_rows-All P rows h.1)
  | inr e ↦ rw e (open_rows-All P rows h.1)
]

open_rows-pending : (rows : List Approval) → All (λ a. is_pending a.status ≡ true) (open_rows rows)
unfolding open_rows
open_rows-pending [] = tt
open_rows-pending (a ∷ rows) = elim (Bool-cases (is_pending a.status)) [
  | inl e ↦ rw e (e, open_rows-pending rows)
  | inr e ↦ rw e (open_rows-pending rows)
]

select_past :
    (a b : Approval) (rows : List Approval)
    → Apart b a
    → select_open a.approval_id rows ≡ some a
    → select_open a.approval_id (b ∷ rows) ≡ some a
unfolding select_open
select_past a b rows h e = ground (arith, h.0, e)

selected :
    (b : Approval) (rows : List Approval)
    → is_pending b.status ≡ true
    → select_open b.approval_id (b ∷ rows) ≡ some b
unfolding select_open
selected b rows e = ground (arith, e)

-- The query by id finds every open row, where the ids are unique.
pub open_rows-selected :
    (rows : List Approval)
    → Distinct rows
    → All (λ a. select_open a.approval_id rows ≡ some a) (open_rows rows)
unfolding open_rows
open_rows-selected [] d = tt
open_rows-selected (b ∷ rows) d = elim (Bool-cases (is_pending b.status)) [
  | inl e ↦ rw e (selected b rows e, others (open_rows-selected rows d.1))
  | inr e ↦ rw e (others (open_rows-selected rows d.1))
]
  where
    others :
        All (λ a. select_open a.approval_id rows ≡ some a) (open_rows rows)
        → All (λ a. select_open a.approval_id (b ∷ rows) ≡ some a) (open_rows rows)
    others ih =
        All-map (λ a. Apart b a × (select_open a.approval_id rows ≡ some a)) _ (open_rows rows)
          (λ a h. select_past a b rows h.0 h.1)
          (All-both (λ a. Apart b a) _ (open_rows rows) (open_rows-All (λ a. Apart b a) rows d.0)
            ih)

other_open : (j id : ℕ) (a : Approval) → j ≢ id → is_open id a ≡ true → is_open j a ≡ false
other_open j id a h e = ground (arith, h, e)

closed_row :
    (j : ℕ) (status : ReviewStatus) (a : Approval) (rows : List Approval)
    → is_pending status ≡ false
    → select_open j (record a { status = status } ∷ rows) ≡ select_open j rows
unfolding select_open
closed_row j status a rows e = ground (arith, e)

Taken-select_open :
    (j id : ℕ) {rows rest : List Approval} {a : Approval}
    → j ≢ id
    → Taken (is_open id) rows a rest
    → select_open j rest ≡ select_open j rows
unfolding select_open
Taken-select_open j id h (here {a} e) = rw (other_open j id a h e)
Taken-select_open j id h (there {b = b} e t) = rw (Taken-select_open j id h t)

-- A review closes no row but the one with its id.
pub select_open-review_row :
    (j id : ℕ) (status : ReviewStatus) (rows : List Approval)
    → is_pending status ≡ false
    → j ≢ id
    → select_open j (review_row id status rows) ≡ select_open j rows
unfolding review_row
select_open-review_row j id status rows closed h = elim (take_out-cases (is_open id) rows) [
  | inl m ↦ rw (m.0, review_row)
  | inr f ↦ rw (f.2, review_row) (closed_row j status f.0 f.1 closed ∙ Taken-select_open j id h f.3)
]

-- The row that `take_out` takes is the first open one, where its id is that row's.
first_open :
    (rows later : List Approval) (a : Approval)
    → open_rows rows ≡ a ∷ later
    → (rest : List Approval) × (take_out (is_open a.approval_id) rows ≡ some (a, rest))
      × (open_rows rest ≡ later)
unfolding open_rows take_out
first_open [] later a e = cc
first_open (b ∷ rows) later a e = elim (Bool-cases (is_pending b.status)) [
  | inl p ↦ (rows, ground (arith, e, p), ground (arith, e, p))
  | inr p ↦
      let (rest, took, left) = first_open rows later a (ground (arith, e, p)) in
      (b ∷ rest, ground (arith, took, p), ground (arith, left, p))
]

-- A review of the first open row leaves the other open rows, in their order.
pub open_rows-review_row :
    (status : ReviewStatus) (rows later : List Approval) (a : Approval)
    → is_pending status ≡ false
    → open_rows rows ≡ a ∷ later
    → open_rows (review_row a.approval_id status rows) ≡ later
unfolding review_row open_rows
open_rows-review_row status rows later a closed e =
    let (rest, took, left) = first_open rows later a e in rw (took, review_row, closed) left
