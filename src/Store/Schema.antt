-- ===== src/Store/Schema.antt =====
-- src/edge_store.c: `edge_store_open`, `edge_store_close`, `edge_store_init_schema`. The handle
-- `db` is whether it is set; sqlite3_open_v2 sets it also where it fails. The version is read as
-- an int, its sign apart: `below_zero`.
use opcua_edge.Base.{
  ℕ, Bool, true, false, not, ◌&&◌, ◌||◌, Option, none, some, [], ◌∷◌, ltb, ◌==◌, if◌then◌else◌,
  Bytes,
}
use opcua_edge.Types.{EdgeStatus, ok, error, invalid}
use opcua_edge.World.{
  create_schema, migrate_to_2, set_user_version, select_user_version, sqlite_open, sqlite_close,
  sqlite_step, sqlite_finalize, Log, Env,
}
use opcua_edge.Store.Key.{exec_sql, prepare, status_of}

pub record EdgeStore : Type 0 where
  pub db : Bool

abbrev pub edge_store_schema_version : ℕ
edge_store_schema_version = 2

unfoldable pub edge_store_open : Env → EdgeStore → Bytes → Log → EdgeStatus × EdgeStore × Log
edge_store_open env store path log =
    if store.db
    then (invalid, store, log)
    else (status_of (env.opens log), record { db = true }, sqlite_open path ∷ log)

unfoldable pub edge_store_close : EdgeStore → Log → EdgeStore × Log
edge_store_close store log =
    if store.db then (record { db = false }, sqlite_close ∷ log) else (store, log)

-- The user_version that the query returns: 0 with no row. Bit 31 is the sign.
unfoldable pub version_of : Option ℕ → ℕ
version_of none = 0
version_of (some v) = v

abbrev pub below_zero : ℕ → Bool
below_zero v = ltb 2147483647 v

-- From the tests on the version on.
unfoldable pub upgrade : Env → ℕ → Log → EdgeStatus × Log
upgrade env version log =
    let newer = not (below_zero version) && ltb edge_store_schema_version version in
    let (migrated, log') = exec_sql env migrate_to_2 log in
    let (versioned, log'') = exec_sql env set_user_version log in
    let marked = exec_sql env set_user_version log' in
    if newer
    then (error, log)
    else if version == 1
    then (elim migrated [ ok ↦ marked | other ↦ (other, log') ])
    else if version == 0 || version == edge_store_schema_version
    then (versioned, log'')
    else (ok, log)

unfoldable pub edge_store_init_schema : Env → Log → EdgeStatus × Log
unfolding upgrade version_of
edge_store_init_schema env log =
    let (created, log1) = exec_sql env create_schema log in
    let (prepared, log2) = prepare env select_user_version log1 in
    let stepped = sqlite_step select_user_version [] ∷ log2 in
    let upgraded =
      upgrade env (version_of (env.steps_row stepped))
        (sqlite_finalize select_user_version ∷ stepped) in
    elim created [
      | ok ↦ elim prepared [ ok ↦ upgraded | _ ↦ (error, log2) ]
      | other ↦ (other, log1)
    ]
