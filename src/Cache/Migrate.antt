-- ===== src/Cache/Migrate.antt =====
-- src/cache.rs, `migrate_to_latest`.
use soroban_cost_estimator.Prelude.{◌≤◌, ◌<◌, ◌≡◌, arith, ltb, if◌then◌else◌}
use soroban_cost_estimator.Error.{Externals, ok, err, AppResult}
use soroban_cost_estimator.Cache.{
  CachedEstimate, with_version, with_duration_defaults, migrate_one_step, migrate_steps,
  migrate_to_latest,
}

-- An entry in the current schema: one from before schema 2 has the defaults of the fields that
-- schema 2 added, and nothing else differs.
abbrev pub current : CachedEstimate → CachedEstimate
current c = with_version 3 (if ltb c.version 2 then with_duration_defaults c else c)

abbrev pub Migrated : {x : Externals} → CachedEstimate → AppResult x CachedEstimate → Type 0
Migrated c (ok m) = (c.version ≤ 3) × (m ≡ current c)
Migrated c (err e) = 3 < c.version

-- Every entry is read or refused: an entry of a version up to 3 becomes the entry of version 3 that
-- has, from a version below 2, the duration 0 and success, and is otherwise unchanged; an entry of a
-- higher version gives an error.
pub migrate_to_latest-Migrated :
    (x : Externals) (c : CachedEstimate) → Migrated c (migrate_to_latest {x = x} c)
unfolding migrate_to_latest migrate_steps migrate_one_step
migrate_to_latest-Migrated x c = ground arith
