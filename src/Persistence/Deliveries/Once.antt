-- ===== src/Persistence/Deliveries/Once.antt =====
-- The delivery table keeps a key once, and for good.
use eset_incident_ai.Prelude.{
  String, ◌≡◌, false, ◌||◌, List, [], ◌∷◌, str_eq, eq_iff, arith, Bool-cases, inl, inr,
}
use eset_incident_ai.World.{Delivery}
use eset_incident_ai.Persistence.Deliveries.{is_delivered, insert_delivery}

-- No key stands twice: the `UNIQUE` constraint of the table.
abbrev pub KeysDiffer : List Delivery → Type 0
KeysDiffer [] = Unit
KeysDiffer (d ∷ ds) = (is_delivered d.idempotency_key ds ≡ false) × KeysDiffer ds

-- After a key is marked, it and what was delivered before count as delivered, and nothing else.
pub is_delivered-insert_delivery :
    (key j destination : String) (ds : List Delivery)
    → is_delivered j (insert_delivery key destination ds) ≡ (str_eq key j || is_delivered j ds)
unfolding is_delivered insert_delivery
is_delivered-insert_delivery key j destination ds = elim (Bool-cases (is_delivered key ds)) [
  | inl old ↦ ground (arith, eq_iff key j, old)
  | inr new ↦ rw new
]

pub insert_delivery-KeysDiffer :
    (key destination : String) (ds : List Delivery)
    → KeysDiffer ds
    → KeysDiffer (insert_delivery key destination ds)
unfolding insert_delivery
insert_delivery-KeysDiffer key destination ds h = ground arith
