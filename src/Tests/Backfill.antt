-- ===== src/Tests/Backfill.antt =====
-- Runs of the backfill script on two pending approvals and one that was reviewed before.
use eset_incident_ai.Prelude.{
  ℕ, ◌≡◌, ◌≢◌, ◌<◌, ◌⊎◌, inl, inr, str_eq, eq_iff, refl, String, true, false, List, [], ◌∷◌, All,
  take, drop, arith,
}
use eset_incident_ai.World.{
  World, Approval, ReviewStatus, pending, rejected, Fault, works, fails, fails_late, other,
}
use eset_incident_ai.Exec.Quiet.{Quiet}
use eset_incident_ai.Exec.Triple.{Post}
use eset_incident_ai.Settings.{Settings, default_settings}
use eset_incident_ai.Persistence.Approvals.{open_rows}
use eset_incident_ai.Persistence.Approvals.Rows.{IsValid}
use eset_incident_ai.Tests.Fixtures.{plain, builder, alert, world}
use eset_incident_ai.UseCases.Ports.{Analyzer}
use eset_incident_ai.Llm.LocalGateway.{analyze}
use eset_incident_ai.Scripts.Backfill.{Tools, run}
use eset_incident_ai.Scripts.Backfill.Safety.{Kept, run-keeps}
use eset_incident_ai.Scripts.Backfill.Drain.{Delivered, run-drains}

abbrev analyzer : Analyzer
analyzer = record {
  search = λ query scope limit. [];
  analyze = λ i evidence. analyze (λ n. "0") i evidence;
}

abbrev tools : Tools
tools = record { notification_builder = builder; analyzer = analyzer }

abbrev enabled : Settings
enabled = record default_settings {
  discord_enabled = true;
  discord_webhook_url = "https://discord.example/hook";
  sanitizer_hmac_secret = "k";
}

abbrev row : ℕ → String → ReviewStatus → Approval
row id uuid status = record {
  approval_id = id;
  subject_id = uuid;
  severity = "high";
  title = "Malware";
  status = status;
  payload = alert uuid;
}

abbrev rows : List Approval
rows = row 3 "c" pending ∷ row 1 "a" rejected ∷ row 2 "b" pending ∷ []

abbrev backlog : List Fault → World
backlog faults = record (world faults) { detection_approvals = record { next_id = 4; rows = rows } }

apart : (i j : ℕ) (a b : String) → i < j ⊎ j < i → str_eq a b ≡ false → (i ≢ j) × (a ≢ b)
apart i j a b h e = (
  λ p. elim h [ inl q ↦ absurd (omega (arith, p, q)) | inr q ↦ absurd (omega (arith, p, q)) ],
  λ q. absurd (ground (arith, eq_iff a b, e, q)),
)

backlog-IsValid : IsValid (record { next_id = 4; rows = rows })
backlog-IsValid = record {
  distinct = (
    (apart 3 1 "c" "a" (inr (omega arith)) refl, (apart 3 2 "c" "b" (inr (omega arith)) refl, tt)),
    ((apart 1 2 "a" "b" (inl (omega arith)) refl, tt), (tt, tt)),
  );
  used = (omega arith, (omega arith, (omega arith, tt)));
}

-- The message of the first approval is accepted, and the statement that marks its key fails.
abbrev unmarked : List Fault
unmarked =
    works
    ∷ works
    ∷ works
    ∷ works
    ∷ works
    ∷ works
    ∷ fails_late (record { class = other "ReadTimeout"; message = "timed out" })
    ∷ works
    ∷ fails (record { class = other "OperationalError"; message = "closed" })
    ∷ []

run-keeps_example :
    Post
      (λ _ w'. Kept plain rows w')
      (λ w'. Kept plain rows w')
      (run plain tools enabled 10 false (backlog unmarked)).0
      (run plain tools enabled 10 false (backlog unmarked)).1
run-keeps_example = run-keeps plain tools enabled 10 false (backlog unmarked) backlog-IsValid

run-drains_example :
    (w' : World) × Quiet (backlog []) (run plain tools enabled 1 false) tt w'
    × (open_rows w'.detection_approvals.rows ≡ drop 1 (open_rows rows))
    × All (Delivered plain tools w') (take 1 (open_rows rows))
run-drains_example = run-drains plain tools enabled refl refl refl (backlog []) refl 1
