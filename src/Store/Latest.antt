-- ===== src/Store/Latest.antt =====
-- src/edge_store.c: `edge_store_load_latest_values` and `edge_store_persist_latest_values`.
use opcua_edge.Base.{ℕ, Option, none, some, List, [], ◌∷◌}
use opcua_edge.Types.{EdgeStatus, ok, error, limit, EdgeNode, EdgeModel}
use opcua_edge.World.{
  select_latest_value, upsert_latest_value, begin_immediate, commit, rollback, Binding, text,
  integer, real, sqlite_step, sqlite_finalize, Log, Env,
}
use opcua_edge.Clock.{edge_time_now_ms}
use opcua_edge.Value.{edge_node_as_double, edge_node_set_from_double}
use opcua_edge.Store.Key.{make_node_key, exec_sql, prepare}
use opcua_edge.Store.Persist.{step_rows}

-- A step that returns a row sets the node's value; any other leaves it.
abbrev pub set_from_row : Env → EdgeNode → Option ℕ → EdgeNode
set_from_row env node none = node
set_from_row env node (some d) = edge_node_set_from_double env.fpu node d

-- The loop; a key that does not fit ends it.
unfoldable pub load_rows : Env → List EdgeNode → Log → EdgeStatus × List EdgeNode × Log
load_rows env [] log = (ok, [], sqlite_finalize select_latest_value ∷ log)
load_rows env (node ∷ rest) log =
    let (fits, key) = make_node_key node in
    let log' = sqlite_step select_latest_value (text key ∷ []) ∷ log in
    let (status, rest', log'') = load_rows env rest log' in
    elim fits [
      | ok ↦ (status, set_from_row env node (env.steps_row log') ∷ rest', log'')
      | _ ↦ (limit, node ∷ rest, sqlite_finalize select_latest_value ∷ log)
    ]

unfoldable pub edge_store_load_latest_values : Env → EdgeModel → Log → EdgeStatus × EdgeModel × Log
edge_store_load_latest_values env model log =
    let (prepared, log') = prepare env select_latest_value log in
    let (status, nodes, log'') = load_rows env model.nodes log' in
    elim prepared [
      | ok ↦ (status, record model { nodes = nodes }, log'')
      | _ ↦ (error, model, log')
    ]

abbrev pub latest_row : ℕ → EdgeNode → EdgeStatus × List Binding
latest_row now_ms node =
    let (status, key) = make_node_key node in
    (status, text key ∷ real (edge_node_as_double node) ∷ integer now_ms ∷ [])

-- After the loop, which has finalized the statement: COMMIT, or ROLLBACK and the loop's status.
abbrev pub close_latest : Env → EdgeStatus × Log → EdgeStatus × Log
close_latest env (ok, log) = exec_sql env commit log
close_latest env (status, log) = let (_, log') = exec_sql env rollback log in (status, log')

unfoldable pub edge_store_persist_latest_values : Env → EdgeModel → Log → EdgeStatus × Log
edge_store_persist_latest_values env model log =
    let (now_ms, log1) = edge_time_now_ms env log in
    let (prepared, log2) = prepare env upsert_latest_value log1 in
    let (begun, log3) = exec_sql env begin_immediate log2 in
    let done =
      close_latest env (step_rows env upsert_latest_value (latest_row now_ms) model.nodes log3) in
    elim prepared [
      | ok ↦ elim begun [ ok ↦ done | _ ↦ (error, sqlite_finalize upsert_latest_value ∷ log3) ]
      | _ ↦ (error, log2)
    ]
