-- ===== src/Api/Routes/Limits.antt =====
-- A collection by request: what is checked first, and what the answer says of the tables.
use eset_incident_ai.Prelude.{
  is_empty, if◌then◌else◌, ℕ, ◌+◌, ◌≤◌, ◌≡◌, refl, ap, ◌∙◌, max, true, false, Option, none, some,
  List, length, arith,
}
use eset_incident_ai.Value.{Fields, text}
use eset_incident_ai.World.{World, Delivery}
use eset_incident_ai.Exec.{Outcome, ok, err, Exec}
use eset_incident_ai.Exec.Triple.{Post}
use eset_incident_ai.Settings.{Settings}
use eset_incident_ai.Results.{CollectionResult}
use eset_incident_ai.Discord.Webhook.{disabled_notifier}
use eset_incident_ai.Persistence.Deliveries.Growth.{Grown, Grown-start}
use eset_incident_ai.Persistence.Deliveries.Once.{KeysDiffer}
use eset_incident_ai.UseCases.Detections as Detections
use eset_incident_ai.UseCases.Detections.Safety.{Accounted}
use eset_incident_ai.UseCases.Detections.Muted.{execute-mutes}
use eset_incident_ai.Api.Dependencies.{
  Platform, built, get_sanitizer, detection_collector, get_collect_and_notify_detections,
}
use eset_incident_ai.Api.Responses.{Response, success, failure, answer_of, serve, unprocessable}
use eset_incident_ai.Api.Routes.{limit_valid, limit_or, detection_request, collect_detections_route}

-- What is known of an answer, from what is known of the run behind it.
abbrev pub Answered {ℓ} :
    {A : Type ℓ} → (A → World → Type 0) → (World → Type 0) → Response A → World → Type 0
Answered Q E (success a) w = Q a w
Answered Q E (failure n detail) w = E w

pub Answered-answer_of {ℓ} :
    {A : Type ℓ} (Q : A → World → Type 0) (E : World → Type 0) (o : Outcome A) (w : World)
    → Post Q E o w
    → Answered Q E (answer_of o) w
Answered-answer_of Q E (ok a) w h = h
Answered-answer_of Q E (err e) w h = h

Answered-map {ℓ} :
    {A : Type ℓ} (Q R : A → World → Type 0) (E F : World → Type 0) (a : Response A) (w : World)
    → ((b : A) → Q b w → R b w)
    → (E w → F w)
    → Answered Q E a w
    → Answered R F a w
Answered-map Q R E F (success b) w f g h = f b h
Answered-map Q R E F (failure n detail) w f g h = g h

module _ {ℓ κ} {C : Type ℓ} {A : Type κ} where
  -- A route ends as its handler does, or with the exception of its dependency.
  pub serve-Answered :
      (Q : A → World → Type 0) (E : World → Type 0) (o : Outcome C) (f : C → Exec A) (w : World)
      → ((c : C) → o ≡ ok c → Post Q E (f c w).0 (f c w).1)
      → E w
      → Answered Q E (serve o true f w).0 (serve o true f w).1
  unfolding serve
  serve-Answered Q E (ok c) f w h k = Answered-answer_of Q E (f c w).0 (f c w).1 (h c refl)
  serve-Answered Q E (err e) f w h k = k

  built-ok : (f : A → C) (o : Outcome A) (c : C) → built f o ≡ ok c → (a : A) × (c ≡ f a)
  built-ok f (ok a) c e = (a, cc)
  built-ok f (err b) c e = cc

limit_within :
    (limit : Option ℕ) (default : ℕ)
    → limit_valid limit ≡ true
    → limit_or limit default ≤ max 10000 default
limit_within none default h = omega arith
limit_within (some n) default h = ground (arith, h)

module _ (p : Platform) (s : Settings) (limit : Option ℕ) (w : World)
    (differ : KeysDiffer w.deliveries) where
  -- A run that answered.
  abbrev pub Collected : CollectionResult → List Delivery → Type 0
  Collected res now =
      Accounted w.deliveries (limit_or limit s.detection_notify_limit) res now
      × (res.notified_count ≤ max 10000 s.detection_notify_limit)

  -- A run that failed, and a request that was refused.
  abbrev pub Unchanged : World → Type 0
  Unchanged w' = Grown w.deliveries w'.deliveries

  abbrev run_of : Detections.Collector → Exec CollectionResult
  run_of c =
      Detections.execute p.externals c
        (detection_request p s (limit_or limit s.detection_notify_limit))

  module _ (valid : limit_valid limit ≡ true) where
    Accounted-Collected :
        (res : CollectionResult) (now : List Delivery)
        → Accounted w.deliveries (limit_or limit s.detection_notify_limit) res now
        → Collected res now
    Accounted-Collected res now h =
        (h, omega (arith, h.within_limit, limit_within limit s.detection_notify_limit valid))

    served-Answered :
        (o : List Fields → Type 0)
        → o w.outbox
        → ((c : Detections.Collector)
            → get_collect_and_notify_detections p s ≡ ok c
            → Post
                (λ res w'.
                  Accounted w.deliveries (limit_or limit s.detection_notify_limit) res w'.deliveries
                  × o w'.outbox)
                (λ w'. Unchanged w' × o w'.outbox)
                (run_of c w).0
                (run_of c w).1)
        → Answered
            (λ res w'. Collected res w'.deliveries × o w'.outbox)
            (λ w'. Unchanged w' × o w'.outbox)
            (collect_detections_route p s limit w).0
            (collect_detections_route p s limit w).1
    unfolding collect_detections_route
    served-Answered o start runs = rw valid (
        Answered-map
          (λ res w'.
            Accounted w.deliveries (limit_or limit s.detection_notify_limit) res w'.deliveries
            × o w'.outbox)
          (λ res w'. Collected res w'.deliveries × o w'.outbox) (λ w'. Unchanged w' × o w'.outbox)
          (λ w'. Unchanged w' × o w'.outbox)
          (serve (get_collect_and_notify_detections p s) true run_of w).0
          (serve (get_collect_and_notify_detections p s) true run_of w).1
          (λ res h. (Accounted-Collected res _ h.0, h.1)) (λ h. h)
          (serve-Answered _ (λ w'. Unchanged w' × o w'.outbox)
            (get_collect_and_notify_detections p s) run_of w runs (Grown-start refl differ, start)))

    muted :
        (c : Detections.Collector)
        → s.discord_enabled ≡ false
        → get_collect_and_notify_detections p s ≡ ok c
        → c.notifier ≡ disabled_notifier
    unfolding get_collect_and_notify_detections
    muted c off e =
        let (z, same) = built-ok (detection_collector p s) (get_sanitizer p s) c e in
        ap (λ (d : Detections.Collector). d.notifier) same ∙ rw off refl

-- With and without the secret of the sanitizer.
abbrev pub refused {ℓ} : {A : Type ℓ} → Settings → Response A
refused s =
    if is_empty s.sanitizer_hmac_secret
    then failure 500 (text "Internal Server Error")
    else unprocessable

-- Where Discord is disabled, whatever the external calls do, from a delivery table without a repeated
-- key, a request with a valid `limit` sends no message. If it is answered with a result, as many new
-- keys as it reports notified count as delivered.
pub collect_detections_route-mutes :
    (p : Platform) (s : Settings) (limit : Option ℕ) (w : World) (differ : KeysDiffer w.deliveries)
    → s.discord_enabled ≡ false
    → limit_valid limit ≡ true
    → Answered
        (λ res w'.
          (length w'.deliveries ≡ length w.deliveries + res.notified_count)
          × (w'.outbox ≡ w.outbox))
        (λ w'. w'.outbox ≡ w.outbox)
        (collect_detections_route p s limit w).0
        (collect_detections_route p s limit w).1
collect_detections_route-mutes p s limit w differ off valid =
    Answered-map (λ res w'. Collected p s limit w differ res w'.deliveries × (w'.outbox ≡ w.outbox))
      _ (λ w'. Grown w.deliveries w'.deliveries × (w'.outbox ≡ w.outbox)) _
      (collect_detections_route p s limit w).0 (collect_detections_route p s limit w).1
      (λ res h. (h.0.0.marked, h.1)) (λ h. h.1)
      (served-Answered p s limit w differ valid (λ o. o ≡ w.outbox) refl
        (λ c e. execute-mutes p.externals c _ w (muted p s limit w differ valid c off e) differ))
