-- ===== src/Scripts/Backfill/Safety.antt =====
-- Under every list of faults: the script closes an approval only when its key is delivered.
use eset_incident_ai.Prelude.{
  ℕ, String, ◌≡◌, refl, sym, ap, ◌∙◌, subst, Bool, true, false, ◌⊎◌, inl, inr, Option, some, List,
  [], ◌∷◌, ◌==◌, All, All-take, take, arith, Bool-cases, eq_refl,
}
use eset_incident_ai.Externals.{Externals}
use eset_incident_ai.World.{World, Approval, approved}
use eset_incident_ai.Exec.Triple.{
  Triple, Post, Triple-pure, Triple-bind, Triple-if, Triple-weaken, Triple-raise, Triple-call,
  Triple-catch,
}
use eset_incident_ai.Settings.{Settings}
use eset_incident_ai.Domain.Severity.{Severity}
use eset_incident_ai.Domain.Analysis.{IncidentAnalysisResult}
use eset_incident_ai.Discord.Webhook.{discord_webhook_client}
use eset_incident_ai.Discord.Webhook.Triples.{send-Triple}
use eset_incident_ai.Persistence.Deliveries.{is_delivered}
use eset_incident_ai.Persistence.Deliveries.Triples.{
  add_delivery, was_delivered-Triple, mark_delivered-Triple,
}
use eset_incident_ai.Persistence.Deliveries.Once.{is_delivered-insert_delivery}
use eset_incident_ai.Persistence.Approvals.{
  detections, select_open, open_rows, reviewed, mark_reviewed, list_pending, ensure_table,
}
use eset_incident_ai.Persistence.Approvals.Rows.{IsValid}
use eset_incident_ai.Persistence.Approvals.Open.{open_rows-selected, select_open-review_row}
use eset_incident_ai.UseCases.Ports.Triples.{analyze_incident-Triple}
use eset_incident_ai.Scripts.Backfill.{
  Tools, backfill_key, require, validate_settings, analyze_approval, deliver, process_approval,
  process_approvals, run,
}

module _ (x : Externals) (rows : List Approval) where
  abbrev pub Done : Approval → World → Type 0
  Done a w = is_delivered (backfill_key x a.payload) w.deliveries ≡ true

  abbrev pub Open : Approval → World → Type 0
  Open a w = select_open a.approval_id w.detection_approvals.rows ≡ some a

  -- An approval that was open before.
  abbrev pub WasOpen : Approval → Type 0
  WasOpen a = select_open a.approval_id rows ≡ some a

  abbrev pub Kept : World → Type 0
  Kept w = (a : Approval) → WasOpen a → Open a w ⊎ Done a w

  Done-marked :
      (a : Approval) (key destination : String) (w : World)
      → Done a w
      → Done a (add_delivery key destination w)
  Done-marked a key destination w h =
      is_delivered-insert_delivery key _ destination w.deliveries ∙ ground (arith, h)

  Kept-marked :
      (key destination : String) (w : World) → Kept w → Kept (add_delivery key destination w)
  Kept-marked key destination w k a o = elim (k a o) [
    | inl h ↦ inl h
    | inr h ↦ inr (Done-marked a key destination w h)
  ]

  Done-self :
      (a : Approval) (w : World) → Done a (add_delivery (backfill_key x a.payload) "discord" w)
  Done-self a w =
      is_delivered-insert_delivery (backfill_key x a.payload) _ "discord" w.deliveries
      ∙ rw (eq_refl (backfill_key x a.payload))

  same : (a b : Approval) → WasOpen a → WasOpen b → b.approval_id ≡ a.approval_id → a ≡ b
  same a b ha hb e = ground (arith, ha, hb, ap (λ n. select_open n rows) e)

  Kept-reviewed :
      (a : Approval) (w : World)
      → WasOpen a
      → Kept w
      → Done a w
      → Kept (reviewed detections a.approval_id approved w)
  Kept-reviewed a w o k d b ob = elim (Bool-cases (b.approval_id == a.approval_id)) [
    | inl e ↦ inr (subst (λ c. Done c w) (same a b o ob (ground (arith, e))) d)
    | inr e ↦ elim (k b ob) [
      | inl h ↦ inl (
          select_open-review_row b.approval_id a.approval_id approved w.detection_approvals.rows
            refl (λ q. absurd (ground (arith, e, q)))
          ∙ h)
      | inr h ↦ inr h
    ]
  ]

  module _ (a : Approval) (o : WasOpen a) where
    mark_reviewed-Triple :
        Triple
          (λ w. Kept w × Done a w)
          (mark_reviewed detections a.approval_id approved)
          (λ _. Kept)
          Kept
    unfolding mark_reviewed ensure_table
    mark_reviewed-Triple =
        Triple-bind {Q = λ _ w. Kept w × Done a w} _ _
          (Triple-call _ (λ w fs h. h) (λ w h. (h, h.0, h.0)))
          (λ _.
            Triple-call _ (λ w fs h. h) (λ w h. let k = Kept-reviewed a w o h.0 h.1 in (k, h.0, k)))

    module _ (t : Tools) where
      analyze_approval-Triple :
          (severity : Severity) → Triple Kept (analyze_approval x t a severity) (λ _. Kept) Kept
      unfolding analyze_approval
      analyze_approval-Triple severity =
          Triple-catch _ _
            (Triple-bind _ _ (analyze_incident-Triple (λ w fs h. h) t.analyzer _ "default")
              (λ _. Triple-pure _ (λ w h. h)))
            (λ _. Triple-pure _ (λ w h. h))

      -- If it came to its end, the key is delivered.
      deliver-Triple :
          (analysis : Option IncidentAnalysisResult)
          → Triple Kept (deliver x t a analysis) (λ b w. Kept w × (b ≡ true → Done a w)) Kept
      unfolding deliver
      deliver-Triple analysis =
          Triple-catch {E' = Kept} _ _
            (Triple-bind _ _
              (send-Triple {P = Kept} (λ w fs h. h) _ discord_webhook_client (λ w h. h))
              (λ _.
                Triple-bind _ _
                  (mark_delivered-Triple {P = Kept} (λ w fs h. h) {Q = λ w. Kept w × Done a w} _
                    "discord" (λ w h. h)
                    (λ w h.
                      let k = Kept-marked (backfill_key x a.payload) "discord" w h in
                      ((k, Done-self a w), k)))
                  (λ _. Triple-pure _ (λ w h. (h.0, λ _. h.1)))))
            (λ _. Triple-pure _ (λ w h. (h, λ e. cc)))

      process_approval-Triple : Triple Kept (process_approval x t a) (λ _. Kept) Kept
      unfolding process_approval
      process_approval-Triple =
          Triple-bind _ _ (was_delivered-Triple {P = Kept} (λ w fs h. h) _) (λ seen.
            Triple-if seen _ _
              (λ e.
                Triple-weaken _ mark_reviewed-Triple (λ w h. (h.0, sym h.1 ∙ e)) (λ _ w h. h)
                  (λ w h. h))
              (λ _.
                Triple-bind _ _
                  (Triple-weaken _ (analyze_approval-Triple _) (λ w h. h.0) (λ _ w h. h) (λ w h. h))
                  (λ analysis. Triple-bind _ _ (deliver-Triple analysis) (λ delivered.
                    Triple-if delivered _ _
                      (λ e.
                        Triple-weaken _ mark_reviewed-Triple (λ w h. (h.0, h.1 e)) (λ _ w h. h)
                          (λ w h. h))
                      (λ _. Triple-pure _ (λ w h. h.0))))))

  process_approvals-Triple :
      (t : Tools) (approvals : List Approval)
      → All WasOpen approvals
      → Triple Kept (process_approvals x t approvals) (λ _. Kept) Kept
  unfolding process_approvals
  process_approvals-Triple t [] h = Triple-pure _ (λ w k. k)
  process_approvals-Triple t (a ∷ approvals) h =
      Triple-bind _ _ (process_approval-Triple a h.0 t)
        (λ _. process_approvals-Triple t approvals h.1)

  abbrev Start : World → Type 0
  Start w = w.detection_approvals.rows ≡ rows

  Start-Kept : (w : World) → Start w → Kept w
  Start-Kept w e a o = inl (ap (select_open a.approval_id) e ∙ o)

  require-Triple :
      (condition : Bool) (message : String)
      → Triple Start (require condition message) (λ _. Start) Kept
  unfolding require
  require-Triple true message = Triple-pure _ (λ w h. h)
  require-Triple false message = Triple-raise _ Start-Kept

  validate_settings-Triple : (s : Settings) → Triple Start (validate_settings s) (λ _. Start) Kept
  unfolding validate_settings
  validate_settings-Triple s =
      Triple-bind _ _ (require-Triple _ _)
        (λ _. Triple-bind _ _ (require-Triple _ _) (λ _. require-Triple _ _))

  module _ (found : All WasOpen (open_rows rows)) where
    list_pending-Triple :
        (limit : ℕ)
        → Triple Start
            (list_pending detections limit)
            (λ found_rows w. Kept w × All WasOpen found_rows)
            Kept
    unfolding list_pending ensure_table
    list_pending-Triple limit =
        Triple-bind {Q = λ _. Start} _ _
          (Triple-call _ (λ w fs h. h) (λ w h. (h, Start-Kept w h, Start-Kept w h)))
          (λ _.
            Triple-call _ (λ w fs h. h)
              (λ w h. (
                (
                  Start-Kept w h,
                  subst (λ rs. All WasOpen (take limit (open_rows rs))) (sym h)
                      (All-take WasOpen limit (open_rows rows) found),
                ),
                Start-Kept w h,
                Start-Kept w h,
              )))

    run-Triple :
        (t : Tools) (s : Settings) (limit : ℕ) (dry_run : Bool)
        → Triple Start (run x t s limit dry_run) (λ _. Kept) Kept
    unfolding run
    run-Triple t s limit dry_run = Triple-bind _ _ (validate_settings-Triple s) (λ _.
        Triple-bind _ _ (list_pending-Triple limit) (λ approvals.
          Triple-if dry_run _ _ (λ _. Triple-pure _ (λ w h. h.0)) (λ _. listed approvals)))
      where
        listed :
            (approvals : List Approval)
            → Triple
                (λ w. Kept w × All WasOpen approvals)
                (process_approvals x t approvals)
                (λ _. Kept)
                Kept
        listed approvals = record {
          at = λ w h. (process_approvals-Triple t approvals h.1).at w h.0;
        }

-- Whatever the external calls do, and whether the script returns or raises: from a table with unique
-- ids, every approval of a detection that was open is still open, with its row unchanged, or the key
-- of its payload stands in the delivery table.
pub run-keeps :
    (x : Externals) (t : Tools) (s : Settings) (limit : ℕ) (dry_run : Bool) (w : World)
    → IsValid w.detection_approvals
    → let rows = w.detection_approvals.rows in
      Post
        (λ _ w'. Kept x rows w')
        (λ w'. Kept x rows w')
        (run x t s limit dry_run w).0
        (run x t s limit dry_run w).1
run-keeps x t s limit dry_run w v =
    (run-Triple x _ (open_rows-selected _ v.distinct) t s limit dry_run).at w refl
