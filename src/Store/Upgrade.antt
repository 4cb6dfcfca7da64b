-- ===== src/Store/Upgrade.antt =====
-- src/edge_store.c: the outcomes of `edge_store_init_schema`, by the version that it finds.
use opcua_edge.Base.{ℕ, ◌≤◌, ◌<◌, ◌≡◌, ◌≢◌, ◌⊎◌, true, false, [], ◌∷◌, arith, if◌then◌else◌, ◌==◌}
use opcua_edge.Types.{EdgeStatus, ok, error}
use opcua_edge.World.{
  create_schema, migrate_to_2, set_user_version, select_user_version, sqlite_exec, sqlite_prepare,
  sqlite_step, sqlite_finalize, tail, Log, Env,
}
use opcua_edge.Store.Key.{exec_sql, prepare}
use opcua_edge.Store.Schema.{version_of, upgrade, edge_store_init_schema}

-- The calls up to the query of the version, up to its step, and up to the statement's end.
abbrev pub queried : Log → Log
queried log = sqlite_prepare select_user_version ∷ sqlite_exec create_schema ∷ log

abbrev pub asked : Log → Log
asked log = sqlite_step select_user_version [] ∷ queried log

abbrev pub version_read : Log → Log
version_read log = sqlite_finalize select_user_version ∷ asked log

-- The calls behind it that mark the schema as version 2: with the migration first from version 1.
abbrev pub marked : ℕ → Log → Log
marked version log =
    if version == 1
    then sqlite_exec set_user_version ∷ sqlite_exec migrate_to_2 ∷ version_read log
    else sqlite_exec set_user_version ∷ version_read log

-- The schema was created and the version was asked for.
abbrev pub Asks : Env → Log → Type 0
Asks env log = (env.executes log ≡ true) × (env.prepares (sqlite_exec create_schema ∷ log) ≡ true)

-- The migration of a version 1 succeeded; no other version has one.
abbrev pub Migrates : Env → ℕ → Log → Type 0
Migrates env version log = (version ≢ 1) ⊎ (env.executes (version_read log) ≡ true)

abbrev pub SchemaPost : Env → ℕ → Log → EdgeStatus → Log → Type 0
SchemaPost env version log status log' =
    ((status ≡ error) × (log' ≡ sqlite_exec create_schema ∷ log) × (env.executes log ≡ false))
    ⊎ ((status ≡ error)
        × (log' ≡ queried log)
        × (env.executes log ≡ true)
        × (env.prepares (tail log') ≡ false))
    ⊎ ((status ≡ error)
        × Asks env log
        × (version ≡ 1)
        × (log' ≡ sqlite_exec migrate_to_2 ∷ version_read log)
        × (env.executes (version_read log) ≡ false))
    ⊎ ((status ≡ error)
        × Asks env log
        × (version ≤ 2)
        × Migrates env version log
        × (log' ≡ marked version log)
        × (env.executes (tail log') ≡ false))
    ⊎ ((status ≡ ok)
        × Asks env log
        × (version ≤ 2)
        × Migrates env version log
        × (log' ≡ marked version log)
        × (env.executes (tail log') ≡ true))
    ⊎ ((status ≡ error)
        × Asks env log
        × (2 < version)
        × (version ≤ 2147483647)
        × (log' ≡ version_read log))
    ⊎ ((status ≡ ok) × Asks env log × (2147483647 < version) × (log' ≡ version_read log))

upgrade-cases :
    (env : Env) (version : ℕ) (log : Log)
    → env.executes log ≡ true
    → env.prepares (sqlite_exec create_schema ∷ log) ≡ true
    → SchemaPost env version log
        (upgrade env version (version_read log)).0
        (upgrade env version (version_read log)).1
unfolding upgrade exec_sql
upgrade-cases env version log h k = ground arith

-- `edge_store_init_schema` fails, with nothing called behind it, at the first of its calls that
-- fails: creating the schema, preparing the query of the version, migrating a version 1, and setting
-- the version to 2. It succeeds when the version is 0 to 2 and all of them succeed. A newer version
-- is refused and a negative one passes, each with nothing executed behind the query.
pub init_schema-SchemaPost :
    (env : Env) (log : Log)
    → let (status, log') = edge_store_init_schema env log in
      SchemaPost env (version_of (env.steps_row (asked log))) log status log'
unfolding edge_store_init_schema exec_sql prepare
init_schema-SchemaPost env log =
    ground (arith, upgrade-cases env (version_of (env.steps_row (asked log))) log)
