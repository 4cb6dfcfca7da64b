-- ===== src/Books/Kept.antt =====
-- src/edge_store.c, src/edge_events.c, src/edge_address_space.c: operations that acquire and release
-- nothing that the books count.
use opcua_edge.Base.{ℕ, ◌≡◌, refl, ◌∙◌, Bool, true, false, Option, none, some, List, [], ◌∷◌, arith}
use opcua_edge.Types.{EdgeStatus, ok, EdgeNode, EdgeAsset, EdgeEvent, EdgeModel}
use opcua_edge.World.{
  Statement, insert_plant, insert_asset, insert_node, insert_event_definition, insert_event_history,
  upsert_latest_value, select_latest_value, begin_immediate, Binding, text, sqlite_exec,
  sqlite_prepare, sqlite_step, ua_add_namespace, Log, Env,
}
use opcua_edge.Clock.{edge_time_now_ms}
use opcua_edge.Store.Key.{make_node_key, exec_sql, prepare, step_done}
use opcua_edge.Store.Schema.{edge_store_init_schema, upgrade}
use opcua_edge.Store.Persist.{
  step_rows, insert_rows, insert_one, asset_row, node_row, event_row, persist_plant, persist_assets,
  persist_nodes, persist_events, then_do, persist_parts, edge_store_persist_model,
  edge_store_insert_event_history,
}
use opcua_edge.Store.Latest.{
  load_rows, edge_store_load_latest_values, latest_row, edge_store_persist_latest_values,
}
use opcua_edge.Events.{
  EventState, no_stats, fire, emit_opcua_event, create_event, evaluate_event, evaluate_events,
  edge_events_evaluate, value_of,
}
use opcua_edge.AddressSpace.{
  add_plant_object, add_asset_object, add_variable_node, add_all, edge_address_space_load,
}
use opcua_edge.Books.{Entry, books}

abbrev pub Kept : Env → Entry → Log → Log → Type 0
Kept env r log log' = books env r log' ≡ books env r log

module _ (env : Env) (r : Entry) where
  step_rows-Kept {ℓ} :
      {A : Type ℓ} (stmt : Statement) (row : A → EdgeStatus × List Binding) (xs : List A)
      (log : Log)
      → Kept env r log (step_rows env stmt row xs log).1
  unfolding step_rows step_done
  step_rows-Kept stmt row [] log = ground arith
  step_rows-Kept stmt row (x ∷ xs) log =
      ground (arith, step_rows-Kept stmt row xs (sqlite_step stmt (row x).1 ∷ log))

  load_rows-Kept : (nodes : List EdgeNode) (log : Log) → Kept env r log (load_rows env nodes log).2
  unfolding load_rows
  load_rows-Kept [] log = ground arith
  load_rows-Kept (n ∷ rest) log = ground (
    arith,
    load_rows-Kept rest (sqlite_step select_latest_value (text (make_node_key n).1 ∷ []) ∷ log),
  )

  insert_rows-Kept {ℓ} :
      {A : Type ℓ} (stmt : Statement) (row : A → EdgeStatus × List Binding) (xs : List A)
      (log : Log)
      → Kept env r log (insert_rows env stmt row xs log).1
  unfolding insert_rows prepare
  insert_rows-Kept stmt row xs log =
      ground (arith, step_rows-Kept stmt row xs (sqlite_prepare stmt ∷ log))

  insert_one-Kept :
      (stmt : Statement) (row : List Binding) (log : Log)
      → Kept env r log (insert_one env stmt row log).1
  unfolding insert_one prepare step_done
  insert_one-Kept stmt row log = ground arith

  then_do-Kept :
      (first : EdgeStatus × Log) (next : Log → EdgeStatus × Log) (log : Log)
      → Kept env r log first.1
      → ((l : Log) → Kept env r l (next l).1)
      → Kept env r log (then_do first next).1
  then_do-Kept (ok, l) next log h k = k l ∙ h
  then_do-Kept (status, l) next log h k = h

  parts-Kept : (m : EdgeModel) (log : Log) → Kept env r log (persist_parts env m log).1
  unfolding persist_parts persist_plant persist_assets persist_nodes persist_events
  parts-Kept m log =
      then_do-Kept
        (then_do (then_do (persist_plant env m log) (persist_assets env m)) (persist_nodes env m))
        (persist_events env m) log
        (then_do-Kept (then_do (persist_plant env m log) (persist_assets env m))
          (persist_nodes env m) log
          (then_do-Kept (persist_plant env m log) (persist_assets env m) log
            (insert_one-Kept insert_plant (text m.id ∷ text m.name ∷ []) log)
            (λ l. insert_rows-Kept insert_asset (asset_row m) m.assets l))
          (λ l. insert_rows-Kept insert_node node_row m.nodes l))
        (λ l. insert_rows-Kept insert_event_definition event_row m.events l)

  pub persist_model-Kept :
      (m : EdgeModel) (log : Log) → Kept env r log (edge_store_persist_model env m log).1
  unfolding edge_store_persist_model exec_sql
  persist_model-Kept m log = ground (arith, parts-Kept m (sqlite_exec begin_immediate ∷ log))

  pub persist_latest-Kept :
      (m : EdgeModel) (log : Log) → Kept env r log (edge_store_persist_latest_values env m log).1
  unfolding edge_store_persist_latest_values exec_sql prepare edge_time_now_ms
  persist_latest-Kept m log =
      let (now, log1) = edge_time_now_ms env log in
      ground (
        arith,
        step_rows-Kept upsert_latest_value (latest_row now) m.nodes
            (sqlite_exec begin_immediate ∷ sqlite_prepare upsert_latest_value ∷ log1),
      )

  pub load_latest-Kept :
      (m : EdgeModel) (log : Log) → Kept env r log (edge_store_load_latest_values env m log).2
  unfolding edge_store_load_latest_values prepare
  load_latest-Kept m log =
      ground (arith, load_rows-Kept m.nodes (sqlite_prepare select_latest_value ∷ log))

  pub init_schema-Kept : (log : Log) → Kept env r log (edge_store_init_schema env log).1
  unfolding edge_store_init_schema upgrade exec_sql prepare
  init_schema-Kept log = ground arith

  create_event-Kept :
      (nodes : List EdgeNode) (e : EdgeEvent) (log : Log)
      → Kept env r log (create_event env nodes e log).1
  unfolding create_event
  create_event-Kept nodes e log = ground arith

  emit-Kept :
      (server : Option Bool) (nodes : List EdgeNode) (e : EdgeEvent) (log : Log)
      → Kept env r log (emit_opcua_event env server nodes e log).1
  unfolding emit_opcua_event
  emit-Kept none nodes e log = refl
  emit-Kept (some false) nodes e log = refl
  emit-Kept (some true) nodes e log = create_event-Kept nodes e log

  history-Kept :
      (e : EdgeEvent) (value now : ℕ) (log : Log)
      → Kept env r log (edge_store_insert_event_history env e value now log).1
  unfolding edge_store_insert_event_history
  history-Kept e value now log = insert_one-Kept insert_event_history _ log

  fire-Kept :
      (server : Option Bool) (nodes : List EdgeNode) (now : ℕ) (e : EdgeEvent) (log : Log)
      → Kept env r log (fire env server nodes now e log).1
  unfolding fire
  fire-Kept server nodes now e log =
      let (stored, log') = edge_store_insert_event_history env e (value_of nodes e) now log in
      ground (arith, history-Kept e (value_of nodes e) now log, emit-Kept server nodes e log')

  evaluate_event-Kept :
      (server : Option Bool) (nodes : List EdgeNode) (now : ℕ) (e : EdgeEvent) (s : EventState)
      → Kept env r s.log (evaluate_event env server nodes now e s).1.log
  unfolding evaluate_event
  evaluate_event-Kept server nodes now e s =
      ground (arith, fire-Kept server nodes now (record e { active = true }) s.log)

  evaluate_events-Kept :
      (server : Option Bool) (nodes : List EdgeNode) (now : ℕ) (events : List EdgeEvent)
      (s : EventState)
      → Kept env r s.log (evaluate_events env server nodes now events s).1.log
  unfolding evaluate_events
  evaluate_events-Kept server nodes now [] s = refl
  evaluate_events-Kept server nodes now (e ∷ rest) s =
      let s' = (evaluate_event env server nodes now e s).1 in
      ground (
        arith,
        evaluate_event-Kept server nodes now e s,
        evaluate_events-Kept server nodes now rest s',
      )

  pub evaluate-Kept :
      (server : Option Bool) (m : EdgeModel) (log : Log)
      → Kept env r log (edge_events_evaluate env server m log).3
  unfolding edge_events_evaluate edge_time_now_ms
  evaluate-Kept server m log =
      let (now, log1) = edge_time_now_ms env log in
      let start : EventState = record { status = ok; stats = no_stats; log = log1 } in
      ground (arith, evaluate_events-Kept server m.nodes now m.events start)

  add_all-Kept {ℓ} :
      {A : Type ℓ} (add : A → Log → EdgeStatus × Log) (xs : List A) (log : Log)
      → ((x : A) (l : Log) → Kept env r l (add x l).1)
      → Kept env r log (add_all add xs log).1
  unfolding add_all
  add_all-Kept add [] log h = refl
  add_all-Kept add (x ∷ xs) log h = ground (arith, h x log, add_all-Kept add xs (add x log).1 h)

  add_asset-Kept :
      (m : EdgeModel) (a : EdgeAsset) (log : Log) → Kept env r log (add_asset_object env m a log).1
  unfolding add_asset_object
  add_asset-Kept m a log = ground arith

  add_variable-Kept :
      (m : EdgeModel) (n : EdgeNode) (log : Log) → Kept env r log (add_variable_node env m n log).1
  unfolding add_variable_node
  add_variable-Kept m n log = ground arith

  pub address_space-Kept :
      (m : EdgeModel) (log : Log) → Kept env r log (edge_address_space_load env m log).1
  unfolding edge_address_space_load add_plant_object
  address_space-Kept m log =
      let log1 = (add_plant_object env m (ua_add_namespace ∷ log)).1 in
      let log2 = (add_all (add_asset_object env m) m.assets log1).1 in
      ground (
        arith,
        add_all-Kept (add_asset_object env m) m.assets log1 (λ a l. add_asset-Kept m a l),
        add_all-Kept (add_variable_node env m) m.nodes log2 (λ n l. add_variable-Kept m n l),
      )
