-- ===== src/Persistence/Schema/Head.antt =====
-- `alembic upgrade head` of scripts/bootstrap_db.sh, from a database of any kind.
use eset_incident_ai.Prelude.{
  ℕ, ◌≤◌, ◌≡◌, refl, ap, Bool, true, false, ◌||◌, eq_iff, List, [], ◌∷◌, str_eq, str_len, ltb, any,
  arith,
}
use eset_incident_ai.World.{Error, other}
use eset_incident_ai.Exec.{Outcome, ok, err}
use eset_incident_ai.Persistence.Schema.{
  Tables, Migration, Database, then_run, stamp, run_upgrades, still_to_run, upgrade_head, committed,
}
use eset_incident_ai.Persistence.Schema.Migrations.{migrations}

abbrev Fails {ℓ} : {A : Type ℓ} → Outcome A → Type ℓ
Fails {A = A} o = (e : Error) × (o ≡ err e)

abbrev pub is_too_long : ℕ → Migration → Bool
is_too_long width m = ltb width (str_len m.revision)

module _ (width : ℕ) where
  stamped-Fails :
      (m : Migration) (o : Outcome Tables)
      → is_too_long width m ≡ true
      → Fails (then_run o (stamp width m.revision))
  stamped-Fails m (err e) h = (e, refl)
  stamped-Fails m (ok ts) h =
      (record { class = other "StringDataRightTruncation"; message = "" }, rw h refl)

  then-Fails :
      {A B : Type 0} (o : Outcome A) (f : A → Outcome B)
      → ((a : A) → Fails (f a))
      → Fails (then_run o f)
  then-Fails (ok a) f h = h a
  then-Fails (err e) f h = (e, refl)

  then_first-Fails :
      {A B : Type 0} (o : Outcome A) (f : A → Outcome B) → Fails o → Fails (then_run o f)
  then_first-Fails o f (e, h) = (e, rw h refl)

  -- One revision that does not fit is enough.
  run_upgrades-Fails :
      (ms : List Migration) (db : Database)
      → any (is_too_long width) ms ≡ true
      → Fails (run_upgrades width ms db)
  unfolding run_upgrades
  run_upgrades-Fails [] db h = cc
  run_upgrades-Fails (m ∷ ms) db h =
      go (is_too_long width m) refl h (λ k db'. run_upgrades-Fails ms db' k)
    where
      go :
          (b : Bool)
          → is_too_long width m ≡ b
          → (b || any (is_too_long width) ms) ≡ true
          → (any (is_too_long width) ms ≡ true
              → (db' : Database) → Fails (run_upgrades width ms db'))
          → Fails (run_upgrades width (m ∷ ms) db)
      go true e h later =
          then_first-Fails (then_run (m.upgrade db.tables) (stamp width m.revision))
            (λ db'. run_upgrades width ms db') (stamped-Fails m (m.upgrade db.tables) e)
      go false e h later =
          then-Fails (then_run (m.upgrade db.tables) (stamp width m.revision))
            (λ db'. run_upgrades width ms db') (λ db'. later h db')

any_mono :
    (p q : Migration → Bool) (ms : List Migration)
    → ((m : Migration) → p m ≡ true → q m ≡ true)
    → any p ms ≡ true
    → any q ms ≡ true
any_mono p q [] f h = h
any_mono p q (m ∷ ms) f h = ground (arith, f m, any_mono p q ms f, h)

too_long-006 :
    (width : ℕ)
    → width ≤ 35
    → (m : Migration) → str_eq m.revision "006_add_collection_run_error_message" ≡ true
    → is_too_long width m ≡ true
too_long-006 width narrow m h =
    rw ((eq_iff m.revision "006_add_collection_run_error_message").0 h) (ground (arith, narrow))

-- Whatever the tables are: where the revision column of Alembic holds fewer than 36 characters and the
-- migration 006 is still to run, the upgrade fails, and nothing of the database changes.
pub upgrade_head-fails :
    (width : ℕ) (db : Database)
    → width ≤ 35
    → any
        (λ (m : Migration). str_eq m.revision "006_add_collection_run_error_message")
        (still_to_run db.version migrations)
      ≡ true
    → (e : Error) × (upgrade_head width migrations db ≡ (err e, db))
upgrade_head-fails width db narrow waits =
    let (e, h) = run_upgrades-Fails width (still_to_run db.version migrations) db (
      any_mono _ (is_too_long width) (still_to_run db.version migrations)
        (too_long-006 width narrow) waits) in
    (e, ap (committed db) h)
