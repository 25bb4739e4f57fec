-- ===== src/UseCases/Review/Outcomes.antt =====
-- What a review does where no call fails: an approval is reviewed once, and sends one message.
use eset_incident_ai.Prelude.{
  ℕ, ◌+◌, String, ◌≡◌, refl, sym, ap, ◌∙◌, subst, true, false, inl, inr, none, some, [], arith,
  length, Bool-cases, if◌then◌else◌,
}
use eset_incident_ai.Value.{Fields}
use eset_incident_ai.Externals.{Externals}
use eset_incident_ai.World.{World, Approval, ReviewStatus, approved, rejected}
use eset_incident_ai.Exec.{Exec, ok, err, ◌>>=◌}
use eset_incident_ai.Exec.Quiet.{Quiet, Quiet-pure, Quiet-bind, bind-ok, raise_lem}
use eset_incident_ai.Discord.Webhook.{discord_webhook_client, send}
use eset_incident_ai.Discord.Webhook.Calm.{send-Quiet}
use eset_incident_ai.Discord.Webhook.Triples.{push}
use eset_incident_ai.Persistence.Deliveries.{is_delivered}
use eset_incident_ai.Persistence.Deliveries.Triples.{add_delivery}
use eset_incident_ai.Persistence.Deliveries.Calm.{was_delivered-Quiet, mark_delivered-Quiet}
use eset_incident_ai.Persistence.Approvals.{
  table_of, select_open, reviewed, is_pending, get_pending,
}
use eset_incident_ai.Persistence.Approvals.Rows.{IsValid, review_row-closes}
use eset_incident_ai.Persistence.Approvals.Frames.{
  table_of-push, table_of-add_delivery, rows-reviewed, faults-reviewed, outbox-reviewed,
  get_pending-Quiet, mark_reviewed-Quiet,
}
use eset_incident_ai.UseCases.Review.{
  Reviewer, ReviewResult, review_key, review_result, not_found, approve_open, reject_open,
  with_open, approve, reject,
}

module _ (x : Externals) (r : Reviewer) (id : ℕ) where
  -- Both reviews refuse an id that is not open, and change nothing.
  abbrev pub Refused : World → Type 0
  Refused w =
      (approve x r id w ≡ (err (not_found r.desk), w))
      × (reject x r id w ≡ (err (not_found r.desk), w))

  closed-Refused :
      (w : World) → w.faults ≡ [] → select_open id (table_of r.desk w).rows ≡ none → Refused w
  unfolding approve reject with_open
  closed-Refused w calm closed =
      (bind-ok _ _ w w none asked ∙ raise_lem _ w, bind-ok _ _ w w none asked ∙ raise_lem _ w)
    where
      asked : get_pending r.desk id w ≡ (ok none, w)
      asked = (get_pending-Quiet w calm r.desk id).runs ∙ ap (λ o. (ok o, w)) closed

  -- A review that moved an open row out of the way, on a table that was valid.
  reviewed-Refused :
      (status : ReviewStatus) (w : World)
      → is_pending status ≡ false
      → w.faults ≡ []
      → IsValid (table_of r.desk w)
      → Refused (reviewed r.desk id status w)
  reviewed-Refused status w closed calm v =
      closed-Refused _ (faults-reviewed id status r.desk w ∙ calm) (
        ap (select_open id) (rows-reviewed id status r.desk w)
        ∙ review_row-closes id status (table_of r.desk w).rows closed v.distinct)

  -- How a review of an open row ends, where no call fails.
  abbrev pub Closes : Exec ReviewResult → World → Type 0
  Closes m w =
      (res : ReviewResult) × (w' : World) × Quiet w m res w'
      × Refused w'
      × (length w'.outbox ≡ length w.outbox + (if res.notification_sent then 1 else 0))

  module _ (webhook : r.notifier ≡ discord_webhook_client) (a : Approval) (w : World)
      (calm : w.faults ≡ []) (v : IsValid (table_of r.desk w)) where
    abbrev key : String
    key = review_key x r.desk r.destination a.payload

    abbrev message : Fields
    message = r.notification_builder.build a.payload none

    abbrev marked : World
    marked = add_delivery key r.destination (push message w)

    marked-IsValid : IsValid (table_of r.desk marked)
    marked-IsValid =
        subst IsValid
          (sym (
            table_of-add_delivery r.desk (push message w) key r.destination
            ∙ table_of-push r.desk w message))
          v

    send_webhook-Quiet : Quiet w (send r.notifier message) tt (push message w)
    send_webhook-Quiet =
        subst (λ n. Quiet w (send n message) tt (push message w)) (sym webhook)
          (send-Quiet w calm discord_webhook_client message)

    approve_open-Closes : Closes (approve_open x r id a) w
    unfolding approve_open
    approve_open-Closes = elim (Bool-cases (is_delivered key w.deliveries)) [
      | inl seen ↦ (
        review_result a approved false true,
        reviewed r.desk id approved w,
        Quiet-bind _ _ (was_delivered-Quiet w calm key) (
            rw seen (
              Quiet-bind _ _ (mark_reviewed-Quiet w calm r.desk id approved)
                (Quiet-pure _ _ (faults-reviewed id approved r.desk w ∙ calm)))),
        reviewed-Refused approved w refl calm v,
        rw (outbox-reviewed id approved r.desk w) (omega arith),
      )
      | inr new ↦ (
        review_result a approved true false,
        reviewed r.desk id approved marked,
        Quiet-bind _ _ (was_delivered-Quiet w calm key) (
            rw new (
              Quiet-bind _ _ send_webhook-Quiet (
                Quiet-bind _ _ (mark_delivered-Quiet (push message w) calm key r.destination) (
                  Quiet-bind _ _ (mark_reviewed-Quiet marked calm r.desk id approved)
                    (Quiet-pure _ _ (faults-reviewed id approved r.desk marked ∙ calm)))))),
        reviewed-Refused approved marked refl calm marked-IsValid,
        rw (outbox-reviewed id approved r.desk marked) (omega arith),
      )
    ]

    reject_open-Closes : Closes (reject_open x r id a) w
    unfolding reject_open
    reject_open-Closes = (
      review_result a rejected false false,
      reviewed r.desk id rejected w,
      Quiet-bind _ _ (mark_reviewed-Quiet w calm r.desk id rejected)
          (Quiet-pure _ _ (faults-reviewed id rejected r.desk w ∙ calm)),
      reviewed-Refused rejected w refl calm v,
      rw (outbox-reviewed id rejected r.desk w) (omega arith),
    )

    open-Closes :
        (f : Approval → Exec ReviewResult)
        → select_open id (table_of r.desk w).rows ≡ some a
        → Closes (f a) w
        → Closes (get_pending r.desk id >>= with_open x r id f) w
    unfolding with_open
    open-Closes f found (res, w', q, refused, count) =
        (res, w', Quiet-bind _ _ asked q, refused, count)
      where
        asked : Quiet w (get_pending r.desk id) (some a) w
        asked =
            subst (λ o. Quiet w (get_pending r.desk id) o w) found
              (get_pending-Quiet w calm r.desk id)

-- Where no call fails, with the Discord webhook as the notifier and a valid table, the approval and
-- the rejection of an open row each return. From then on both reviews refuse its id and change
-- nothing, and the channel has one message more if the review says so, and else none.
pub review-once :
    (x : Externals) (r : Reviewer) (id : ℕ) (a : Approval) (w : World)
    → r.notifier ≡ discord_webhook_client
    → w.faults ≡ []
    → IsValid (table_of r.desk w)
    → select_open id (table_of r.desk w).rows ≡ some a
    → Closes x r id (approve x r id) w × Closes x r id (reject x r id) w
unfolding approve reject
review-once x r id a w webhook calm v found = (
  open-Closes x r id webhook a w calm v _ found (approve_open-Closes x r id webhook a w calm v),
  open-Closes x r id webhook a w calm v _ found (reject_open-Closes x r id webhook a w calm v),
)
