-- ===== src/Tests/Review.antt =====
-- Reviews of one approval, and their theorems at it.
use eset_incident_ai.Prelude.{◌≡◌, refl, some, List, [], ◌∷◌, arith}
use eset_incident_ai.World.{World, Approval, pending, Fault, works, fails, fails_late, other}
use eset_incident_ai.Exec.Triple.{Post}
use eset_incident_ai.Discord.Webhook.{discord_webhook_client}
use eset_incident_ai.Persistence.Approvals.{detections, table_of, select_open}
use eset_incident_ai.Persistence.Approvals.Rows.{IsValid}
use eset_incident_ai.Tests.Fixtures.{plain, builder, alert, world}
use eset_incident_ai.UseCases.Review.{Reviewer, approve, reject}
use eset_incident_ai.UseCases.Review.Safety.{
  Delivered, OneFlag, Safe, Silent, NoFlag, approve-Safe, reject-Silent,
}
use eset_incident_ai.UseCases.Review.Outcomes.{Closes, review-once}

abbrev reviewer : Reviewer
reviewer = record {
  desk = detections;
  notification_builder = builder;
  notifier = discord_webhook_client;
  destination = "discord";
}

abbrev waiting : Approval
waiting = record {
  approval_id = 7;
  subject_id = "a";
  severity = "high";
  title = "Malware";
  status = pending;
  payload = alert "a";
}

abbrev desk_world : List Fault → World
desk_world faults = record (world faults) {
  detection_approvals = record { next_id = 8; rows = waiting ∷ [] };
}

is_waiting : select_open 7 (waiting ∷ []) ≡ some waiting
unfolding select_open
is_waiting = refl

desk-IsValid : IsValid (record { next_id = 8; rows = waiting ∷ [] })
desk-IsValid = record { distinct = (tt, tt); used = (omega arith, tt) }

-- The statement that marks the row loses its answer.
abbrev dropped : List Fault
dropped =
    works
    ∷ works
    ∷ works
    ∷ works
    ∷ fails_late (record { class = other "ReadTimeout"; message = "timed out" })
    ∷ fails (record { class = other "OperationalError"; message = "closed" })
    ∷ []

approve-Safe_example :
    Post
      (λ res w'.
        Delivered plain reviewer 7 (table_of detections (desk_world dropped)) waiting w'
        × OneFlag plain reviewer 7 (table_of detections (desk_world dropped)) waiting res)
      (λ w'. Safe plain reviewer 7 (table_of detections (desk_world dropped)) waiting w')
      (approve plain reviewer 7 (desk_world dropped)).0
      (approve plain reviewer 7 (desk_world dropped)).1
approve-Safe_example = approve-Safe plain reviewer 7 waiting (desk_world dropped) is_waiting

reject-Silent_example :
    Post
      (λ res w'. Silent plain reviewer 7 [] [] w' × NoFlag plain reviewer 7 [] [] res)
      (Silent plain reviewer 7 [] [])
      (reject plain reviewer 7 (desk_world dropped)).0
      (reject plain reviewer 7 (desk_world dropped)).1
reject-Silent_example = reject-Silent plain reviewer 7 (desk_world dropped)

review-once_example :
    Closes plain reviewer 7 (approve plain reviewer 7) (desk_world [])
    × Closes plain reviewer 7 (reject plain reviewer 7) (desk_world [])
review-once_example =
    review-once plain reviewer 7 waiting (desk_world []) refl refl desk-IsValid is_waiting
