-- ===== src/Scripts/Backfill/Drain.antt =====
-- Where no call fails: the script closes the newest pending approvals up to its limit, and no other.
use eset_incident_ai.Prelude.{
  ℕ, ◌≡◌, refl, sym, ◌∙◌, true, false, inl, inr, some, List, [], ◌∷◌, ◌++◌, All, take, drop,
  take-append-drop, arith, Bool-cases, eq_refl, is_empty,
}
use eset_incident_ai.Value.{Fields, text}
use eset_incident_ai.Externals.{Externals}
use eset_incident_ai.World.{World, Approval, approved}
use eset_incident_ai.Exec.Quiet.{Quiet, Quiet-pure, Quiet-call, Quiet-bind, Quiet-catch}
use eset_incident_ai.Settings.{Settings}
use eset_incident_ai.Domain.Severity.{Severity, parse}
use eset_incident_ai.Domain.Analysis.{IncidentAnalysisResult}
use eset_incident_ai.Discord.Webhook.{discord_webhook_client}
use eset_incident_ai.Discord.Webhook.Calm.{send-Quiet}
use eset_incident_ai.Discord.Webhook.Triples.{push}
use eset_incident_ai.Persistence.Deliveries.{is_delivered}
use eset_incident_ai.Persistence.Deliveries.Triples.{add_delivery}
use eset_incident_ai.Persistence.Deliveries.Once.{is_delivered-insert_delivery}
use eset_incident_ai.Persistence.Deliveries.Calm.{was_delivered-Quiet, mark_delivered-Quiet}
use eset_incident_ai.Persistence.Approvals.{
  detections, open_rows, reviewed, list_pending, ensure_table,
}
use eset_incident_ai.Persistence.Approvals.Frames.{mark_reviewed-Quiet}
use eset_incident_ai.Persistence.Approvals.Open.{open_rows-review_row}
use eset_incident_ai.UseCases.Ports.{analyze_incident}
use eset_incident_ai.Scripts.Backfill.{
  Tools, backfill_key, require, validate_settings, analyze_approval, deliver, process_approval,
  process_approvals, run, payload_to_analysis_incident,
}

module _ (x : Externals) (t : Tools) where
  abbrev pub Delivered : World → Approval → Type 0
  Delivered w a = is_delivered (backfill_key x a.payload) w.deliveries ≡ true

  -- What one approval leaves: it is closed and delivered, and what was delivered still is.
  abbrev Closed : Approval → List Approval → World → World → Type 0
  Closed a later w w' =
      (open_rows w'.detection_approvals.rows ≡ later)
      × Delivered w' a
      × ((b : Approval) → Delivered w b → Delivered w' b)

  module _ (w : World) (calm : w.faults ≡ []) (a : Approval) where
    abbrev analysis : Severity → IncidentAnalysisResult
    analysis severity =
        let i = payload_to_analysis_incident x a.payload severity in
        t.analyzer.analyze i (t.analyzer.search i.title "default" 10)

    abbrev message : Fields
    message = t.notification_builder.build a.payload (some (analysis (parse x (text a.severity))))

    analyze_approval-Quiet :
        (severity : Severity)
        → Quiet w (analyze_approval x t a severity) (some (analysis severity)) w
    unfolding analyze_approval analyze_incident
    analyze_approval-Quiet severity = Quiet-catch _ _ (
        Quiet-bind _ _ (Quiet-bind _ _ (Quiet-call w _ calm calm) (Quiet-call w _ calm calm))
          (Quiet-pure w _ calm))

    abbrev delivered_world : World
    delivered_world = add_delivery (backfill_key x a.payload) "discord" (push message w)

    deliver-Quiet :
        Quiet w (deliver x t a (some (analysis (parse x (text a.severity))))) true delivered_world
    unfolding deliver
    deliver-Quiet = Quiet-catch _ _ (
        Quiet-bind _ _ (send-Quiet w calm discord_webhook_client message) (
          Quiet-bind _ _ (mark_delivered-Quiet (push message w) calm _ "discord")
            (Quiet-pure _ _ calm)))

    process_approval-closes :
        (later : List Approval)
        → open_rows w.detection_approvals.rows ≡ a ∷ later
        → (w' : World) × Quiet w (process_approval x t a) tt w' × Closed a later w w'
    unfolding process_approval
    process_approval-closes later first =
        elim (Bool-cases (is_delivered (backfill_key x a.payload) w.deliveries)) [
          | inl seen ↦ (
            reviewed detections a.approval_id approved w,
            Quiet-bind _ _ (was_delivered-Quiet w calm _)
                (rw seen (mark_reviewed-Quiet w calm detections a.approval_id approved)),
            (
              open_rows-review_row approved w.detection_approvals.rows later a refl first,
              seen,
              λ b h. h,
            ),
          )
          | inr new ↦ (
            reviewed detections a.approval_id approved delivered_world,
            Quiet-bind _ _ (was_delivered-Quiet w calm _) (
                rw new (
                  Quiet-bind _ _ (analyze_approval-Quiet _) (
                    Quiet-bind _ _ deliver-Quiet (
                      mark_reviewed-Quiet delivered_world calm detections a.approval_id
                        approved)))),
            (
              open_rows-review_row approved w.detection_approvals.rows later a refl first,
              is_delivered-insert_delivery _ _ "discord" w.deliveries
                  ∙ rw (eq_refl (backfill_key x a.payload)),
              λ b h. is_delivered-insert_delivery _ _ "discord" w.deliveries ∙ ground (arith, h),
            ),
          )
        ]

  -- What the loop leaves.
  abbrev pub Drained : List Approval → List Approval → World → World → Type 0
  Drained approvals later w w' =
      (open_rows w'.detection_approvals.rows ≡ later)
      × All (Delivered w') approvals
      × ((b : Approval) → Delivered w b → Delivered w' b)

  process_approvals-drains :
      (approvals later : List Approval) (w : World)
      → w.faults ≡ []
      → open_rows w.detection_approvals.rows ≡ approvals ++ later
      → (w' : World) × Quiet w (process_approvals x t approvals) tt w'
        × Drained approvals later w w'
  unfolding process_approvals
  process_approvals-drains [] later w calm e = (w, Quiet-pure w tt calm, (e, tt, λ b h. h))
  process_approvals-drains (a ∷ approvals) later w calm e =
      let (w1, q1, (left, done, kept)) = process_approval-closes w calm a (approvals ++ later) e in
      let (w2, q2, (left2, done2, kept2)) =
        process_approvals-drains approvals later w1 q1.calm_after left in
      (w2, Quiet-bind _ _ q1 q2, (left2, (kept2 a done, done2), λ b h. kept2 b (kept b h)))

  module _ (s : Settings) (enabled : s.discord_enabled ≡ true)
      (url : is_empty s.discord_webhook_url ≡ false)
      (secret : is_empty s.sanitizer_hmac_secret ≡ false) (w : World) (calm : w.faults ≡ []) where
    validate_settings-Quiet : Quiet w (validate_settings s) tt w
    unfolding validate_settings require
    validate_settings-Quiet =
        rw (enabled, url, secret)
          (Quiet-bind _ _ (Quiet-pure w tt calm)
            (Quiet-bind _ _ (Quiet-pure w tt calm) (Quiet-pure w tt calm)))

    list_pending-Quiet :
        (limit : ℕ)
        → Quiet w
            (list_pending detections limit)
            (take limit (open_rows w.detection_approvals.rows))
            w
    unfolding list_pending ensure_table
    list_pending-Quiet limit = Quiet-bind _ _ (Quiet-call w _ calm calm) (Quiet-call w _ calm calm)

    -- Where Discord is enabled with its URL and its secret, and no call fails: the script returns; the
    -- approvals that were pending after the first `limit` are pending still, in their order, and no
    -- other is; and the key of each of the first `limit` is delivered.
    pub run-drains :
        (limit : ℕ)
        → let pending = open_rows w.detection_approvals.rows in
          (w' : World) × Quiet w (run x t s limit false) tt w'
          × (open_rows w'.detection_approvals.rows ≡ drop limit pending)
          × All (Delivered w') (take limit pending)
    unfolding run
    run-drains limit =
        let (w', q, (left, done, kept)) =
          process_approvals-drains (take limit (open_rows w.detection_approvals.rows))
            (drop limit (open_rows w.detection_approvals.rows)) w calm
            (sym (take-append-drop limit (open_rows w.detection_approvals.rows))) in
        (
          w',
          Quiet-bind _ _ validate_settings-Quiet (Quiet-bind _ _ (list_pending-Quiet limit) q),
          left,
          done,
        )
