-- ===== src/Eset/Requests/Paging.antt =====
-- The listings of src/eset_incident_ai/infrastructure/eset end, since each page takes a reply of the
-- server.
use eset_incident_ai.Prelude.{
  ℕ, zero, suc, ◌<◌, ◌≡◌, refl, ap, String, Bool, true, false, Option, none, some, List, ◌∷◌,
  length, arith, if◌then◌else◌,
}
use eset_incident_ai.Value.{Value, Fields}
use eset_incident_ai.World.{eset_api_error}
use eset_incident_ai.Exec.{Outcome, ok, err}
use eset_incident_ai.Eset.Http.{Connection, Http, raise}
use eset_incident_ai.Eset.Auth.{Credentials}
use eset_incident_ai.Eset.Requests.{
  Listing, and_then, yield_page, request_detections, get_detection_page, detection_params,
  has_unsupported, page_and_token, iter_detections,
}
use eset_incident_ai.UseCases.Detections.{DetectionPage}
use eset_incident_ai.Eset.Requests.Uses.{
  Uses, Uses-more, continue-first, give-Uses, request_once-Uses, attempts-Uses,
}

module _ (cr : Credentials) where
  module _ (str_of : ℕ → Value) (updated_after : Option String) (page_size : ℕ) where
    yield_page-ends :
        (n : ℕ) (o : Outcome (List Fields × Option String)) (c : Connection)
        (further : String → Connection → Option Listing)
        → Uses n (o, c)
        → ((token : String) (c : Connection)
            → length c.replies < n
            → (l : Listing) × (further token c ≡ some l))
        → (l : Listing) × (yield_page o c further ≡ some l)
    yield_page-ends n (err e) c further h k = (_, refl)
    yield_page-ends n (ok (page, none)) c further h k = (_, refl)
    yield_page-ends n (ok (page, some token)) c further h k =
        let (l, e) = k token c h in ((page ∷ l.0, l.1, l.2), ap (and_then page) e)

  module _ (str_of : ℕ → Value) (page_size : ℕ) where
    guarded-Uses :
        (refuses : Bool) (m : Http Fields)
        → ((c : Connection) → Uses (length c.replies) (m c))
        → (c : Connection)
        → Uses (length c.replies) (
            (if refuses
                then raise (eset_api_error none) "Unsupported ESET Detection query parameters"
                else m)
              c)
    guarded-Uses true m h c = omega arith
    guarded-Uses false m h c = h c

    get_detection_page-Uses :
        (page_token : Option String) (c : Connection)
        → Uses (length c.replies) (get_detection_page cr str_of page_token page_size c)
    unfolding get_detection_page request_detections
    get_detection_page-Uses page_token c =
        continue-first _ _ _ _
          (attempts-Uses cr 4 _
            (guarded-Uses (has_unsupported (detection_params cr str_of page_token page_size)) _
              (request_once-Uses cr _ _))
            c)
          (λ payload c1 fewer. give-Uses cr _ _ c1 fewer)

    page_and_token-Uses :
        (n : ℕ) (o : Outcome DetectionPage) (c : Connection)
        → Uses n (o, c)
        → Uses n (page_and_token o, c)
    page_and_token-Uses n (ok page) c h = h
    page_and_token-Uses n (err e) c h = h

    iter_detections-ends :
        (fuel : ℕ) (page_token : Option String) (c : Connection)
        → length c.replies < fuel
        → (l : Listing) × (iter_detections cr str_of fuel page_token page_size c ≡ some l)
    unfolding iter_detections
    iter_detections-ends zero page_token c enough = absurd (omega arith)
    iter_detections-ends (suc fuel) page_token c enough =
        let r = get_detection_page cr str_of page_token page_size c in
        yield_page-ends str_of none page_size fuel (page_and_token r.0) r.1 _
          (page_and_token-Uses _ r.0 r.1
            (Uses-more _ _ r.0 r.1 (omega arith) (get_detection_page-Uses page_token c)))
          (λ token c1 few. iter_detections-ends fuel (some token) c1 few)

-- So does the listing of the detections.
pub iter_detections-terminates :
    (cr : Credentials) (str_of : ℕ → Value) (page_size : ℕ) (page_token : Option String)
    (c : Connection)
    → (l : Listing) × (iter_detections cr str_of (suc (length c.replies)) page_token page_size c
        ≡ some l)
iter_detections-terminates cr str_of page_size page_token c =
    iter_detections-ends cr str_of page_size _ page_token c (omega arith)
