-- ===== src/Persistence/Approvals/Frames.antt =====
-- What the statements on a review table leave alone, and how a lookup ends.
use eset_incident_ai.Prelude.{ℕ, String, ◌≡◌, refl, ◌∙◌, List, []}
use eset_incident_ai.Value.{Fields}
use eset_incident_ai.World.{World, Fault, ReviewStatus}
use eset_incident_ai.Exec.Triple.{Triple, Stable, Triple-call, Triple-bind}
use eset_incident_ai.Exec.Quiet.{Quiet, Quiet-call, Quiet-bind}
use eset_incident_ai.Discord.Webhook.Triples.{push}
use eset_incident_ai.Persistence.Deliveries.Triples.{add_delivery}
use eset_incident_ai.Persistence.Approvals.{
  Desk, incidents, detections, table_of, get_pending, mark_reviewed, reviewed, review_row,
  select_open, ensure_table,
}

pub table_of-faults :
    (desk : Desk) (w : World) (fs : List Fault)
    → table_of desk (record w { faults = fs }) ≡ table_of desk w
table_of-faults incidents w fs = refl
table_of-faults detections w fs = refl

pub table_of-push :
    (desk : Desk) (w : World) (payload : Fields) → table_of desk (push payload w) ≡ table_of desk w
table_of-push incidents w payload = refl
table_of-push detections w payload = refl

pub table_of-add_delivery :
    (desk : Desk) (w : World) (key destination : String)
    → table_of desk (add_delivery key destination w) ≡ table_of desk w
table_of-add_delivery incidents w key destination = refl
table_of-add_delivery detections w key destination = refl

module _ (id : ℕ) (status : ReviewStatus) where
  pub deliveries-reviewed :
      (desk : Desk) (w : World) → (reviewed desk id status w).deliveries ≡ w.deliveries
  deliveries-reviewed incidents w = refl
  deliveries-reviewed detections w = refl

  pub outbox-reviewed : (desk : Desk) (w : World) → (reviewed desk id status w).outbox ≡ w.outbox
  outbox-reviewed incidents w = refl
  outbox-reviewed detections w = refl

  pub faults-reviewed : (desk : Desk) (w : World) → (reviewed desk id status w).faults ≡ w.faults
  faults-reviewed incidents w = refl
  faults-reviewed detections w = refl

  pub rows-reviewed :
      (desk : Desk) (w : World)
      → (table_of desk (reviewed desk id status w)).rows
        ≡ review_row id status (table_of desk w).rows
  rows-reviewed incidents w = refl
  rows-reviewed detections w = refl

module _ {P : World → Type 0} (stable : Stable P) where
  pub get_pending-Triple :
      (desk : Desk) (id : ℕ)
      → Triple P (get_pending desk id) (λ o w. P w × (o ≡ select_open id (table_of desk w).rows)) P
  unfolding get_pending ensure_table
  get_pending-Triple desk id =
      Triple-bind _ _ (Triple-call _ stable (λ w p. (p, p, p)))
        (λ _. Triple-call _ stable (λ w p. ((p, refl), p, p)))

module _ (w : World) (calm : w.faults ≡ []) where
  pub get_pending-Quiet :
      (desk : Desk) (id : ℕ)
      → Quiet w (get_pending desk id) (select_open id (table_of desk w).rows) w
  unfolding get_pending ensure_table
  get_pending-Quiet desk id = Quiet-bind _ _ (Quiet-call w _ calm calm) (Quiet-call w _ calm calm)

  pub mark_reviewed-Quiet :
      (desk : Desk) (id : ℕ) (status : ReviewStatus)
      → Quiet w (mark_reviewed desk id status) tt (reviewed desk id status w)
  unfolding mark_reviewed ensure_table
  mark_reviewed-Quiet desk id status =
      Quiet-bind _ _ (Quiet-call w _ calm calm)
        (Quiet-call w _ calm (faults-reviewed id status desk w ∙ calm))
