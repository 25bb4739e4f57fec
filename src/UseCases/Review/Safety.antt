-- ===== src/UseCases/Review/Safety.antt =====
-- Under every list of faults: an approval counts as reviewed only when its message is accounted for.
use eset_incident_ai.Prelude.{
  ℕ, String, ◌≡◌, refl, sym, ap, ◌∙◌, eq_refl, true, false, not, ◌⊎◌, inl, inr, Option, none, some,
  List,
}
use eset_incident_ai.Value.{Fields}
use eset_incident_ai.Externals.{Externals}
use eset_incident_ai.World.{World, Table, Approval, Delivery, approved, rejected}
use eset_incident_ai.Exec.Triple.{
  Triple, Stable, Post, Triple-pure, Triple-bind, Triple-if, Triple-weaken, Triple-raise,
  Triple-call, Triple-at,
}
use eset_incident_ai.Discord.Webhook.Triples.{send-Triple}
use eset_incident_ai.Persistence.Deliveries.{is_delivered}
use eset_incident_ai.Persistence.Deliveries.Triples.{
  add_delivery, was_delivered-Triple, mark_delivered-Triple,
}
use eset_incident_ai.Persistence.Deliveries.Once.{is_delivered-insert_delivery}
use eset_incident_ai.Persistence.Approvals.{
  table_of, mark_reviewed, reviewed, select_open, ensure_table,
}
use eset_incident_ai.Persistence.Approvals.Frames.{
  table_of-faults, table_of-push, deliveries-reviewed, outbox-reviewed, get_pending-Triple,
}
use eset_incident_ai.UseCases.Review.{
  Reviewer, ReviewResult, review_key, approve_open, reject_open, with_open, approve, reject,
}

module _ (x : Externals) (r : Reviewer) (id : ℕ) (t : Table Approval) (a : Approval) where
  abbrev key : String
  key = review_key x r.desk r.destination a.payload

  abbrev Untouched : World → Type 0
  Untouched w = table_of r.desk w ≡ t

  abbrev pub Delivered : World → Type 0
  Delivered w = is_delivered key w.deliveries ≡ true

  abbrev pub Safe : World → Type 0
  Safe w = Untouched w ⊎ Delivered w

  abbrev pub OneFlag : ReviewResult → Type 0
  OneFlag res = (res.status ≡ approved) × (res.notification_sent ≡ not res.duplicate_skipped)

  Untouched-Stable : Stable Untouched
  Untouched-Stable w fs h = table_of-faults r.desk w fs ∙ h

  mark_reviewed-Triple : Triple Delivered (mark_reviewed r.desk id approved) (λ _. Delivered) Safe
  unfolding mark_reviewed ensure_table
  mark_reviewed-Triple =
      Triple-bind _ _ (Triple-call _ (λ w fs h. h) (λ w h. (h, inr h, inr h)))
        (λ _. Triple-call _ (λ w fs h. h) (λ w h. let k = still w h in (k, inr h, inr k)))
    where
      still : (w : World) → Delivered w → Delivered (reviewed r.desk id approved w)
      still w h = rw (deliveries-reviewed id approved r.desk w) h

  approve_open-Triple :
      Triple Untouched (approve_open x r id a) (λ res w. Delivered w × OneFlag res) Safe
  unfolding approve_open
  approve_open-Triple =
      Triple-bind _ _
        (Triple-weaken _ (was_delivered-Triple Untouched-Stable key) (λ w h. h) (λ b w h. h)
          (λ w h. inl h))
        (λ b.
          Triple-if b _ _
            (λ e.
              Triple-weaken {P' = Delivered} _
                (Triple-bind _ _ mark_reviewed-Triple
                  (λ _. Triple-pure _ (λ w h. (h, (refl, refl)))))
                (λ w h. sym h.1 ∙ e) (λ res w h. h) (λ w h. h))
            (λ e.
              Triple-bind _ _
                (Triple-weaken {P' = Untouched} _
                  (send-Triple Untouched-Stable _ r.notifier (λ w h. table_of-push r.desk w _ ∙ h))
                  (λ w h. h.0) (λ _ w h. h) (λ w h. inl h))
                (λ _.
                  Triple-bind _ _
                    (mark_delivered-Triple Untouched-Stable {Q = Delivered} key r.destination
                      (λ w h. inl h) (λ w h. let k = marked w in (k, inr k)))
                    (λ _.
                      Triple-bind _ _ mark_reviewed-Triple
                        (λ _. Triple-pure _ (λ w h. (h, (refl, refl))))))))
    where
      marked : (w : World) → Delivered (add_delivery key r.destination w)
      marked w = is_delivered-insert_delivery key key r.destination w.deliveries ∙ rw (eq_refl key)

  approve-Triple :
      select_open id t.rows ≡ some a
      → Triple Untouched (approve x r id) (λ res w. Delivered w × OneFlag res) Safe
  unfolding approve with_open
  approve-Triple found =
      Triple-bind _ _
        (Triple-weaken {Q = λ o w. (o ≡ some a) × Untouched w} _
          (get_pending-Triple Untouched-Stable r.desk id) (λ w h. h)
          (λ o w h. (h.1 ∙ ap (λ s. select_open id s.rows) h.0 ∙ found, h.0)) (λ w h. inl h))
        (Triple-at (some a) _ approve_open-Triple)

-- Whatever the external calls do while an open approval is approved: its table is as it was, or the
-- key of its message stands in the delivery table. If the review returns, the key stands there, the
-- status it reports is approved, and it reports either a message sent or a duplicate skipped, not
-- both.
pub approve-Safe :
    (x : Externals) (r : Reviewer) (id : ℕ) (a : Approval) (w : World)
    → select_open id (table_of r.desk w).rows ≡ some a
    → Post
        (λ res w'.
          Delivered x r id (table_of r.desk w) a w' × OneFlag x r id (table_of r.desk w) a res)
        (λ w'. Safe x r id (table_of r.desk w) a w')
        (approve x r id w).0
        (approve x r id w).1
approve-Safe x r id a w found = (approve-Triple x r id (table_of r.desk w) a found).at w refl

-- `reject` touches neither the channel nor the delivery table, and answers that it did neither.
module _ (x : Externals) (r : Reviewer) (id : ℕ) (ds : List Delivery) (messages : List Fields) where
  abbrev pub Silent : World → Type 0
  Silent w = (w.deliveries ≡ ds) × (w.outbox ≡ messages)

  abbrev pub NoFlag : ReviewResult → Type 0
  NoFlag res =
      (res.status ≡ rejected) × (res.notification_sent ≡ false) × (res.duplicate_skipped ≡ false)

  reject_open-Triple :
      (a : Approval) → Triple Silent (reject_open x r id a) (λ res w. Silent w × NoFlag res) Silent
  unfolding reject_open mark_reviewed ensure_table
  reject_open-Triple a =
      Triple-bind _ _
        (Triple-bind _ _ (Triple-call _ (λ w fs h. h) (λ w h. (h, h, h)))
          (λ _. Triple-call _ (λ w fs h. h) (λ w h. let k = still w h in (k, h, k))))
        (λ _. Triple-pure _ (λ w h. (h, (refl, refl, refl))))
    where
      still : (w : World) → Silent w → Silent (reviewed r.desk id rejected w)
      still w h = (
        deliveries-reviewed id rejected r.desk w ∙ h.0,
        outbox-reviewed id rejected r.desk w ∙ h.1,
      )

  with_reject_open-Triple :
      (o : Option Approval)
      → Triple Silent
          (with_open x r id (reject_open x r id) o)
          (λ res w. Silent w × NoFlag res)
          Silent
  unfolding with_open
  with_reject_open-Triple none = Triple-raise _ (λ w h. h)
  with_reject_open-Triple (some a) = reject_open-Triple a

  reject-Triple : Triple Silent (reject x r id) (λ res w. Silent w × NoFlag res) Silent
  unfolding reject
  reject-Triple =
      Triple-bind _ _ (get_pending-Triple {P = Silent} (λ w fs h. h) r.desk id)
        (λ o. Triple-weaken _ (with_reject_open-Triple o) (λ w h. h.0) (λ res w h. h) (λ w h. h))

-- Whatever the external calls do, a rejection sends no message and marks no key as delivered, whether
-- it returns or raises; if it returns, it reports the status rejected and neither flag.
pub reject-Silent :
    (x : Externals) (r : Reviewer) (id : ℕ) (w : World)
    → Post
        (λ res w'. Silent x r id w.deliveries w.outbox w' × NoFlag x r id w.deliveries w.outbox res)
        (Silent x r id w.deliveries w.outbox)
        (reject x r id w).0
        (reject x r id w).1
reject-Silent x r id w = (reject-Triple x r id w.deliveries w.outbox).at w (refl, refl)
