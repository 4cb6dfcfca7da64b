-- ===== src/Store/Trace.antt =====
-- src/edge_store.c: what the calls of an operation leave open, told by the log.
use opcua_edge.Base.{ℕ, ◌+◌, ◌≡◌, ◌∙◌, refl, Bool, true, false, List, [], ◌∷◌, arith, if◌then◌else◌}
use opcua_edge.Types.{EdgeStatus, ok, EdgeNode, EdgeEvent, EdgeModel}
use opcua_edge.World.{
  Statement, insert_plant, insert_asset, insert_node, insert_event_definition, upsert_latest_value,
  select_latest_value, begin_immediate, commit, rollback, Binding, text, sqlite_exec,
  sqlite_prepare, sqlite_finalize, sqlite_step, Log, Env,
}
use opcua_edge.Clock.{edge_time_now_ms}
use opcua_edge.Store.Key.{make_node_key, exec_sql, prepare, step_done}
use opcua_edge.Store.Schema.{edge_store_init_schema, upgrade}
use opcua_edge.Store.Persist.{
  step_rows, insert_rows, insert_one, asset_row, node_row, event_row, persist_plant, persist_assets,
  persist_nodes, persist_events, then_do, persist_parts, edge_store_persist_model,
  edge_store_insert_event_history,
}
use opcua_edge.Store.Latest.{
  load_rows, edge_store_load_latest_values, latest_row, edge_store_persist_latest_values,
}

-- The statements that a call of `sqlite3_prepare_v2` has made, and those finalized.
abbrev pub made : Env → Log → ℕ
made env [] = 0
made env (sqlite_prepare stmt ∷ log) = made env log + (if env.prepares log then 1 else 0)
made env (call ∷ log) = made env log

abbrev pub finalized : Log → ℕ
finalized [] = 0
finalized (sqlite_finalize stmt ∷ log) = finalized log + 1
finalized (call ∷ log) = finalized log

-- From one log to a later one, as many statements are made as are finalized.
abbrev pub Balanced : Env → Log → Log → Type 0
Balanced env log log' = made env log' + finalized log ≡ made env log + finalized log'

-- A transaction is open: BEGIN succeeded, and no COMMIT or ROLLBACK has since.
abbrev pub in_transaction : Env → Log → Bool
in_transaction env [] = false
in_transaction env (sqlite_exec begin_immediate ∷ log) =
    if env.executes log then true else in_transaction env log
in_transaction env (sqlite_exec commit ∷ log) =
    if env.executes log then false else in_transaction env log
in_transaction env (sqlite_exec rollback ∷ log) =
    if env.executes log then false else in_transaction env log
in_transaction env (call ∷ log) = in_transaction env log

-- The part from a prepared statement on: it is finalized once, and no transaction is begun or ended.
abbrev Closes : Env → Log → Log → Type 0
Closes env log log' =
    (made env log' ≡ made env log)
    × (finalized log' ≡ finalized log + 1)
    × (in_transaction env log' ≡ in_transaction env log)

-- The same for a part that makes its statement too.
abbrev Keeps : Env → Log → Log → Type 0
Keeps env log log' = Balanced env log log' × (in_transaction env log' ≡ in_transaction env log)

module _ (env : Env) where
  step_rows-Closes {ℓ} :
      {A : Type ℓ} (stmt : Statement) (row : A → EdgeStatus × List Binding) (xs : List A)
      (log : Log)
      → Closes env log (step_rows env stmt row xs log).1
  unfolding step_rows step_done
  step_rows-Closes stmt row [] log = (refl, refl, refl)
  step_rows-Closes stmt row (x ∷ xs) log =
      ground (arith, step_rows-Closes stmt row xs (sqlite_step stmt (row x).1 ∷ log))

  load_rows-Closes :
      (nodes : List EdgeNode) (log : Log) → Closes env log (load_rows env nodes log).2
  unfolding load_rows
  load_rows-Closes [] log = (refl, refl, refl)
  load_rows-Closes (n ∷ rest) log = ground (
    arith,
    load_rows-Closes rest (sqlite_step select_latest_value (text (make_node_key n).1 ∷ []) ∷ log),
  )

  insert_rows-Keeps {ℓ} :
      {A : Type ℓ} (stmt : Statement) (row : A → EdgeStatus × List Binding) (xs : List A)
      (log : Log)
      → Keeps env log (insert_rows env stmt row xs log).1
  unfolding insert_rows prepare
  insert_rows-Keeps stmt row xs log =
      ground (arith, step_rows-Closes stmt row xs (sqlite_prepare stmt ∷ log))

  insert_one-Keeps :
      (stmt : Statement) (row : List Binding) (log : Log)
      → Keeps env log (insert_one env stmt row log).1
  unfolding insert_one prepare step_done
  insert_one-Keeps stmt row log = ground arith

  then_do-Keeps :
      (first : EdgeStatus × Log) (next : Log → EdgeStatus × Log) (log : Log)
      → Keeps env log first.1
      → ((l : Log) → Keeps env l (next l).1)
      → Keeps env log (then_do first next).1
  then_do-Keeps (ok, l) next log h k = let (b, t) = k l in (omega (arith, b, h.0), t ∙ h.1)
  then_do-Keeps (status, l) next log h k = h

  persist_parts-Keeps : (m : EdgeModel) (log : Log) → Keeps env log (persist_parts env m log).1
  unfolding persist_parts persist_plant persist_assets persist_nodes persist_events
  persist_parts-Keeps m log =
      let plant = insert_one-Keeps insert_plant (text m.id ∷ text m.name ∷ []) log in
      let assets = λ (l : Log). insert_rows-Keeps insert_asset (asset_row m) m.assets l in
      let nodes = λ (l : Log). insert_rows-Keeps insert_node node_row m.nodes l in
      let events = λ (l : Log). insert_rows-Keeps insert_event_definition event_row m.events l in
      then_do-Keeps
        (then_do (then_do (persist_plant env m log) (persist_assets env m)) (persist_nodes env m))
        (persist_events env m) log
        (then_do-Keeps (then_do (persist_plant env m log) (persist_assets env m))
          (persist_nodes env m) log
          (then_do-Keeps (persist_plant env m log) (persist_assets env m) log plant assets) nodes)
        events

  persist_model-Balanced :
      (m : EdgeModel) (log : Log) → Balanced env log (edge_store_persist_model env m log).1
  unfolding edge_store_persist_model exec_sql
  persist_model-Balanced m log =
      ground (arith, persist_parts-Keeps m (sqlite_exec begin_immediate ∷ log))

  persist_latest-Balanced :
      (m : EdgeModel) (log : Log) → Balanced env log (edge_store_persist_latest_values env m log).1
  unfolding edge_store_persist_latest_values exec_sql prepare edge_time_now_ms
  persist_latest-Balanced m log =
      let now = (edge_time_now_ms env log).0 in
      ground (
        arith,
        step_rows-Closes upsert_latest_value (latest_row now) m.nodes (
            sqlite_exec begin_immediate
            ∷ sqlite_prepare upsert_latest_value
            ∷ (edge_time_now_ms env log).1),
      )

  load_latest-Balanced :
      (m : EdgeModel) (log : Log) → Balanced env log (edge_store_load_latest_values env m log).2
  unfolding edge_store_load_latest_values prepare
  load_latest-Balanced m log =
      ground (arith, load_rows-Closes m.nodes (sqlite_prepare select_latest_value ∷ log))

  history-Balanced :
      (e : EdgeEvent) (value now : ℕ) (log : Log)
      → Balanced env log (edge_store_insert_event_history env e value now log).1
  unfolding edge_store_insert_event_history insert_one prepare step_done
  history-Balanced e value now log = ground arith

  init_schema-Balanced : (log : Log) → Balanced env log (edge_store_init_schema env log).1
  unfolding edge_store_init_schema upgrade exec_sql prepare
  init_schema-Balanced log = ground arith

-- The calls that the program makes of the store, one after the other.
pub data StoreRun (env : Env) : Log → Type 0 where
  opened : StoreRun env []
  initializing : {log : Log} → StoreRun env log → StoreRun env (edge_store_init_schema env log).1
  persisting_model :
      {log : Log} (m : EdgeModel)
      → StoreRun env log
      → StoreRun env (edge_store_persist_model env m log).1
  loading :
      {log : Log} (m : EdgeModel)
      → StoreRun env log
      → StoreRun env (edge_store_load_latest_values env m log).2
  persisting_latest :
      {log : Log} (m : EdgeModel)
      → StoreRun env log
      → StoreRun env (edge_store_persist_latest_values env m log).1
  inserting :
      {log : Log} (e : EdgeEvent) (value now : ℕ)
      → StoreRun env log
      → StoreRun env (edge_store_insert_event_history env e value now log).1

-- After any sequence of the store's operations, whatever fails in them, every statement that was
-- prepared has been finalized, and exactly as many were.
pub StoreRun-finalized : {env : Env} {log : Log} → StoreRun env log → made env log ≡ finalized log
StoreRun-finalized opened = refl
StoreRun-finalized {env} (initializing {log} r) =
    omega (arith, StoreRun-finalized r, init_schema-Balanced env log)
StoreRun-finalized {env} (persisting_model {log} m r) =
    omega (arith, StoreRun-finalized r, persist_model-Balanced env m log)
StoreRun-finalized {env} (loading {log} m r) =
    omega (arith, StoreRun-finalized r, load_latest-Balanced env m log)
StoreRun-finalized {env} (persisting_latest {log} m r) =
    omega (arith, StoreRun-finalized r, persist_latest-Balanced env m log)
StoreRun-finalized {env} (inserting {log} e value now r) =
    omega (arith, StoreRun-finalized r, history-Balanced env e value now log)
