-- ===== src/Persistence/Schema/Undo.antt =====
-- Each `downgrade` of migrations/versions against its `upgrade`.
use eset_incident_ai.Prelude.{ℕ, zero, suc, Option, none, some, ◌≡◌, List, [], ◌∷◌}
use eset_incident_ai.Exec.{ok}
use eset_incident_ai.Persistence.Schema.{Tables, Step, Migration}

abbrev pub migration_at : ℕ → List Migration → Option Migration
migration_at i [] = none
migration_at zero (m ∷ ms) = some m
migration_at (suc i) (m ∷ ms) = migration_at i ms

-- Where `f` succeeds, `g` succeeds after it and gives back what was there.
abbrev Undoes : Step → Step → Type 0
Undoes f g = (ts ts' : Tables) → f ts ≡ ok ts' → g ts' ≡ ok ts
