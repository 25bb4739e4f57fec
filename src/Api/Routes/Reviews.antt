-- ===== src/Api/Routes/Reviews.antt =====
-- A review by request: an approval is reviewed once, and after that its id is refused.
use eset_incident_ai.Prelude.{
  ℕ, ◌+◌, ◌≡◌, refl, ap, ◌∙◌, true, false, some, [], length, is_empty, if◌then◌else◌,
}
use eset_incident_ai.Value.{text}
use eset_incident_ai.World.{World, Approval}
use eset_incident_ai.Exec.{ok, err, Exec}
use eset_incident_ai.Settings.{Settings}
use eset_incident_ai.Security.Sanitizer.{Sanitizer, sanitizer}
use eset_incident_ai.Persistence.Approvals.{Desk, incidents, detections, table_of, select_open}
use eset_incident_ai.Persistence.Approvals.Rows.{IsValid}
use eset_incident_ai.UseCases.Review.{Reviewer, ReviewResult, approve, reject, not_found}
use eset_incident_ai.UseCases.Review.Outcomes.{Closes, review-once}
use eset_incident_ai.Api.Dependencies.{
  Platform, get_review_pending_approval, get_review_pending_detection_approval, incident_reviewer,
  detection_reviewer,
}
use eset_incident_ai.Api.Responses.{Response, success, failure, Route, serve, status_of, detail_of}
use eset_incident_ai.Api.Routes.{get_reviewer, approve_route, reject_route}

serve-ok {ℓ κ} :
    {C : Type ℓ} {A : Type κ} (c : C) (f : C → Exec A) (w w' : World) (a : A)
    → f c w ≡ (ok a, w')
    → serve (ok c) true f w ≡ (success a, w')
unfolding serve
serve-ok c f w w' a e = rw e refl

abbrev pub refusal : Desk → Response ReviewResult
refusal desk = failure 400 (text (not_found desk).message)

serve-refused :
    (r : Reviewer) (f : Reviewer → Exec ReviewResult) (w : World)
    → f r w ≡ (err (not_found r.desk), w)
    → serve (ok r) true f w ≡ (refusal r.desk, w)
unfolding serve status_of detail_of
serve-refused r f w e = rw e (ap (λ (a : Response ReviewResult). (a, w)) (refused r.desk))
  where
    refused :
        (desk : Desk)
        → failure
            (status_of (not_found desk).class)
            (text (detail_of (not_found desk).class (not_found desk).message))
          ≡ refusal desk
    refused incidents = refl
    refused detections = refl

module _ (p : Platform) (s : Settings) (id : ℕ) where
  -- A request that is answered with a result, after which both reviews are refused and change nothing;
  -- a message is sent exactly if the result says so.
  abbrev pub ClosedBy : Desk → Route ReviewResult → World → Type 0
  ClosedBy desk route w =
      (res : ReviewResult) × (w' : World) × (route w ≡ (success res, w'))
      × (length w'.outbox ≡ length w.outbox + (if res.notification_sent then 1 else 0))
      × (approve_route p s desk id w' ≡ (refusal desk, w'))
      × (reject_route p s desk id w' ≡ (refusal desk, w'))

  module _ (desk : Desk) (r : Reviewer) (made : get_reviewer p s desk ≡ ok r) (same : r.desk ≡ desk)
      (w : World) where
    Closes-ClosedBy :
        (m : Reviewer → Exec ReviewResult)
        → Closes p.externals r id (m r) w
        → ClosedBy desk (serve (get_reviewer p s desk) true m) w
    unfolding approve_route reject_route
    Closes-ClosedBy m (res, w', q, refused, count) = (
      res,
      w',
      rw made (serve-ok r m w w' res q.runs),
      count,
      rw made (serve-refused r _ w' refused.0 ∙ ap (λ d. (refusal d, w')) same),
      rw made (serve-refused r _ w' refused.1 ∙ ap (λ d. (refusal d, w')) same),
    )

-- Where Discord is enabled, the secret is set and no call fails: a request to approve and one to reject
-- an open row of a valid table are each answered with a result, and a message is sent exactly if the
-- result says so. After either, both requests are answered with 400 for its id and change nothing.
pub routes-review_once :
    (p : Platform) (s : Settings) (desk : Desk) (id : ℕ) (a : Approval) (w : World)
    → s.discord_enabled ≡ true
    → is_empty s.sanitizer_hmac_secret ≡ false
    → w.faults ≡ []
    → IsValid (table_of desk w)
    → select_open id (table_of desk w).rows ≡ some a
    → ClosedBy p s id desk (approve_route p s desk id) w
      × ClosedBy p s id desk (reject_route p s desk id) w
unfolding approve_route reject_route get_review_pending_approval
    get_review_pending_detection_approval sanitizer
routes-review_once p s incidents id a w enabled secret calm valid found =
    let z : Sanitizer = record {
      hmac_secret = s.sanitizer_hmac_secret;
      hmac_sha256 = p.hmac_sha256;
      is_word = p.is_word;
    } in
    let made : get_reviewer p s incidents ≡ ok (incident_reviewer p s z) = rw secret refl in
    let (closed, dropped) =
      review-once p.externals (incident_reviewer p s z) id a w (rw enabled refl) calm valid found in
    (
      Closes-ClosedBy p s id incidents _ made refl w (λ r. approve p.externals r id) closed,
      Closes-ClosedBy p s id incidents _ made refl w (λ r. reject p.externals r id) dropped,
    )
routes-review_once p s detections id a w enabled secret calm valid found =
    let z : Sanitizer = record {
      hmac_secret = s.sanitizer_hmac_secret;
      hmac_sha256 = p.hmac_sha256;
      is_word = p.is_word;
    } in
    let made : get_reviewer p s detections ≡ ok (detection_reviewer p s z) = rw secret refl in
    let (closed, dropped) =
      review-once p.externals (detection_reviewer p s z) id a w (rw enabled refl) calm valid
        found in
    (
      Closes-ClosedBy p s id detections _ made refl w (λ r. approve p.externals r id) closed,
      Closes-ClosedBy p s id detections _ made refl w (λ r. reject p.externals r id) dropped,
    )
