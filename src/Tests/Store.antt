-- ===== src/Tests/Store.antt =====
-- src/edge_store.c: the operations on the template's model, with a SQLite that works and one in
-- which no row is stored.
use opcua_edge.Base.{ℕ, ◌≡◌, ◌∙◌, refl, sym, ap, false, Option, none, map, [], ◌∷◌, arith, codes}
use opcua_edge.Types.{ok, EdgeNode}
use opcua_edge.Config.Bounds.{ModelFits}
use opcua_edge.Config.Validate.{node_clash}
use opcua_edge.Store.Key.{make_node_key}
use opcua_edge.Store.Schema.{version_of, edge_store_init_schema}
use opcua_edge.Store.Persist.{edge_store_persist_model}
use opcua_edge.Store.Latest.{edge_store_load_latest_values, edge_store_persist_latest_values}
use opcua_edge.Store.Trace.{
  made, finalized, opened, initializing, persisting_model, StoreRun-finalized,
}
use opcua_edge.Store.Transaction.{Ends, persist_model-Ends, persist_latest-Ends}
use opcua_edge.Store.Table.{Table, tables, stored}
use opcua_edge.Store.Restore.{Keeps, load_latest-persist_latest}
use opcua_edge.Double.{is_nan, of_signed, of_nat, normalise}
use opcua_edge.Value.{edge_node_as_double}
use opcua_edge.World.{
  sqlite_exec, sqlite_step, begin_immediate, rollback, upsert_latest_value, select_latest_value,
  text, real, Log, Env,
}
use opcua_edge.Store.Success.{store-succeeds}
use opcua_edge.Store.Upgrade.{asked, SchemaPost, init_schema-SchemaPost}
use opcua_edge.Store.Naming.{node_key-injective, node_key-collides}
use opcua_edge.Tests.Data.{wired, waiting, works, refuses, node_t, loaded}

loaded-ModelFits : ModelFits loaded
loaded-ModelFits = ground arith

StoreRun-finalized_example :
    made refuses (edge_store_persist_model refuses loaded (edge_store_init_schema refuses []).1).1
    ≡ finalized (edge_store_persist_model refuses loaded (edge_store_init_schema refuses []).1).1
StoreRun-finalized_example = StoreRun-finalized (persisting_model loaded (initializing opened))

persist_model-Ends_example :
    Ends refuses
      (edge_store_persist_model refuses loaded []).0
      (edge_store_persist_model refuses loaded []).1
persist_model-Ends_example = persist_model-Ends refuses loaded [] refl

persist_latest-Ends_example :
    Ends works
      (edge_store_persist_latest_values works loaded []).0
      (edge_store_persist_latest_values works loaded []).1
persist_latest-Ends_example = persist_latest-Ends works loaded [] refl

store-succeeds_example :
    ((edge_store_persist_model works loaded []).0 ≡ ok)
    × ((edge_store_persist_latest_values works loaded []).0 ≡ ok)
    × ((edge_store_load_latest_values works loaded []).0 ≡ ok)
store-succeeds_example =
    store-succeeds works ((λ l. refl), (λ l. refl), (λ l. refl)) loaded [] loaded-ModelFits

init_schema-SchemaPost_example :
    let (status, log') = edge_store_init_schema works [] in
    SchemaPost works (version_of (works.steps_row (asked []))) [] status log'
init_schema-SchemaPost_example = init_schema-SchemaPost works []

node_key-injective_example : (codes "a" ≡ codes "a") × (codes "b.c" ≡ codes "b.c")
node_key-injective_example =
    node_key-injective (codes "a") (codes "a") (codes "b.c") (codes "b.c") (ground arith)
      (ground arith) refl

abbrev node_bc : EdgeNode
node_bc = record node_t { asset_id = codes "a"; id = codes "b.c" }

abbrev node_c : EdgeNode
node_c = record node_t { asset_id = codes "a.b"; id = codes "c" }

node_key-collides_example :
    (make_node_key node_bc ≡ make_node_key node_c) × (node_clash node_bc node_c ≡ false)
node_key-collides_example =
    node_key-collides (codes "a") (codes "b") (codes "c") node_bc node_c refl refl refl refl

waiting_number : is_nan (edge_node_as_double waiting) ≡ false
unfolding edge_node_as_double is_nan of_signed of_nat normalise
waiting_number = ground arith

wired-ModelFits : ModelFits wired
wired-ModelFits = ground arith

-- A database that holds nothing at first and returns what is stored.
abbrev nothing : Table
nothing key = none

abbrev returned : Log → Option ℕ
returned (sqlite_step select_latest_value (text key ∷ []) ∷ log) = stored works nothing log key
returned log = none

abbrev keeping : Env
keeping = record works { steps_row = λ log. returned log }

keeping-tables : (log : Log) → tables keeping nothing log ≡ tables works nothing log
unfolding tables
keeping-tables [] = refl
keeping-tables (sqlite_exec begin_immediate ∷ log) = ground (arith, keeping-tables log)
keeping-tables (sqlite_exec rollback ∷ log) = ground (arith, keeping-tables log)
keeping-tables (sqlite_step upsert_latest_value (text key ∷ real v ∷ rest) ∷ log) =
    ground (arith, keeping-tables log)
keeping-tables (_ ∷ log) = keeping-tables log

keeping-Keeps : Keeps keeping nothing
keeping-Keeps key v log h number =
    ap (λ (t : Table × Table). t.0 key) (sym (keeping-tables log)) ∙ h

-- The model after a run, with the value 9, and the template loaded again.
load_latest-persist_latest_example :
    let (saved, log) = edge_store_persist_latest_values keeping wired [] in
    let (read, model, log') = edge_store_load_latest_values keeping loaded log in
    (saved ≡ ok)
    × (read ≡ ok)
    × (map edge_node_as_double model.nodes ≡ map edge_node_as_double wired.nodes)
load_latest-persist_latest_example =
    load_latest-persist_latest keeping ((λ l. refl), (λ l. refl), (λ l. refl)) nothing wired loaded
      [] (edge_store_persist_latest_values keeping wired []).1 keeping-Keeps wired-ModelFits
      loaded-ModelFits (tt, tt) ((refl, refl, refl), tt) ((tt, waiting_number), tt) refl
