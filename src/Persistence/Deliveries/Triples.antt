-- ===== src/Persistence/Deliveries/Triples.antt =====
-- What the two operations of the delivery table do, under every list of faults.
use eset_incident_ai.Prelude.{String, ◌≡◌, refl}
use eset_incident_ai.World.{World}
use eset_incident_ai.Exec.Triple.{Triple, Stable, Triple-call, Triple-bind}
use eset_incident_ai.Persistence.Deliveries.{
  ensure_table, is_delivered, insert_delivery, was_delivered, mark_delivered,
}

abbrev pub add_delivery : String → String → World → World
add_delivery key destination w = record w {
  deliveries = insert_delivery key destination w.deliveries;
}

module _ {P : World → Type 0} (stable : Stable P) where
  ensure_table-Triple : Triple P ensure_table (λ _. P) P
  unfolding ensure_table
  ensure_table-Triple = Triple-call _ stable (λ w p. (p, p, p))

  pub was_delivered-Triple :
      (key : String)
      → Triple P (was_delivered key) (λ b w. P w × (b ≡ is_delivered key w.deliveries)) P
  unfolding was_delivered
  was_delivered-Triple key =
      Triple-bind _ _ ensure_table-Triple (λ _. Triple-call _ stable (λ w p. ((p, refl), p, p)))

  pub mark_delivered-Triple :
      {Q E : World → Type 0} (key destination : String)
      → ((w : World) → P w → E w)
      → ((w : World)
          → P w
          → Q (add_delivery key destination w) × E (add_delivery key destination w))
      → Triple P (mark_delivered key destination) (λ _. Q) E
  unfolding mark_delivered ensure_table
  mark_delivered-Triple key destination failed h =
      Triple-bind _ _ (Triple-call _ stable (λ w p. (p, failed w p, failed w p)))
        (λ _. Triple-call _ stable (λ w p. ((h w p).0, failed w p, (h w p).1)))
