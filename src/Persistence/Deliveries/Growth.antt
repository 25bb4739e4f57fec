-- ===== src/Persistence/Deliveries/Growth.antt =====
-- The delivery table over a run: it grows, and holds no key twice.
use eset_incident_ai.Prelude.{String, ◌+◌, ◌≡◌, true, false, List, arith, length}
use eset_incident_ai.World.{Delivery}
use eset_incident_ai.Persistence.Deliveries.{is_delivered, insert_delivery}
use eset_incident_ai.Persistence.Deliveries.Once.{
  KeysDiffer, is_delivered-insert_delivery, insert_delivery-KeysDiffer,
}

-- The delivery table has grown from `ds` to `now`, which holds no key twice.
pub record Grown (ds now : List Delivery) : Type 0 where
  pub differ : KeysDiffer now
  pub kept : (key : String) → is_delivered key ds ≡ true → is_delivered key now ≡ true

pub length-insert_delivery :
    (key destination : String) (ds : List Delivery)
    → is_delivered key ds ≡ false
    → length (insert_delivery key destination ds) ≡ length ds + 1
unfolding insert_delivery
length-insert_delivery key destination ds h = ground arith

pub Grown-insert_delivery :
    (ds now : List Delivery) (key destination : String)
    → Grown ds now
    → Grown ds (insert_delivery key destination now)
Grown-insert_delivery ds now key destination g = record {
  differ = insert_delivery-KeysDiffer key destination now g.differ;
  kept = λ j h. rw is_delivered-insert_delivery (ground (arith, g.kept j));
}

pub Grown-start : {ds now : List Delivery} → now ≡ ds → KeysDiffer now → Grown ds now
Grown-start e h = record { differ = h; kept = λ key k. rw e k }
