-- ===== src/Runtime/Calls.antt =====
-- src/edge_runtime.c: which of a tick's steps persist the latest values, told by the log.
use opcua_edge.Base.{
  ℕ, ◌+◌, ◌≡◌, refl, ◌∙◌, Bool, true, false, Option, none, some, List, [], ◌∷◌, arith,
}
use opcua_edge.Types.{EdgeStatus, ok, EdgeNode, EdgeEvent, EdgeModel}
use opcua_edge.World.{Binding, begin_immediate, sqlite_prepare, upsert_latest_value, Log, Env}
use opcua_edge.Clock.{edge_time_now_ms}
use opcua_edge.Modbus.Link.{
  EdgeModbus, increment, edge_modbus_connect, edge_modbus_disconnect, note_connect_failure, now_us,
}
use opcua_edge.Modbus.Poll.{
  PollState, poll_node, poll_nodes, poll_start, poll_all, edge_modbus_poll, write_linked,
  edge_modbus_write_node,
}
use opcua_edge.Events.{
  EventState, no_stats, fire, emit_opcua_event, create_event, evaluate_event, evaluate_events,
  edge_events_evaluate, value_of,
}
use opcua_edge.Store.Key.{prepare, step_done, exec_sql}
use opcua_edge.Store.Persist.{edge_store_insert_event_history, insert_one, step_rows}
use opcua_edge.Store.Latest.{edge_store_persist_latest_values, latest_row}
use opcua_edge.Runtime.{drain_node, drain_nodes}

-- How often the statement that persists the latest values was prepared.
abbrev pub persists : Log → ℕ
persists [] = 0
persists (sqlite_prepare upsert_latest_value ∷ log) = persists log + 1
persists (call ∷ log) = persists log

module _ (env : Env) where
  connect-persists :
      (m : EdgeModbus) (log : Log) → persists (edge_modbus_connect env m log).2 ≡ persists log
  unfolding edge_modbus_connect note_connect_failure now_us
  connect-persists m log = ground arith

  write_linked-persists :
      (m : EdgeModbus) (n : EdgeNode) (log : Log)
      → persists (write_linked env m n log).2 ≡ persists log
  unfolding write_linked edge_modbus_disconnect
  write_linked-persists m n log = ground arith

  write_node-persists :
      (m : EdgeModbus) (n : EdgeNode) (log : Log)
      → persists (edge_modbus_write_node env m n log).2 ≡ persists log
  unfolding edge_modbus_write_node
  write_node-persists m n log =
      let (status, linked, log') = edge_modbus_connect env m log in
      ground (
        arith,
        connect-persists m log,
        write_linked-persists m n log,
        write_linked-persists linked n log',
      )

  pub drain_nodes-persists :
      (nodes : List EdgeNode) (m : EdgeModbus) (log : Log)
      → persists (drain_nodes env nodes m log).2 ≡ persists log
  unfolding drain_nodes drain_node
  drain_nodes-persists [] m log = refl
  drain_nodes-persists (n ∷ rest) m log =
      let (n', m', log') = drain_node env n m log in
      drain_nodes-persists rest m' log' ∙ ground (arith, write_node-persists m n log)

  poll_node-persists :
      (n : EdgeNode) (s : PollState) → persists (poll_node env n s).1.log ≡ persists s.log
  unfolding poll_node edge_modbus_disconnect
  poll_node-persists n s = ground arith

  poll_nodes-persists :
      (nodes : List EdgeNode) (s : PollState)
      → persists (poll_nodes env nodes s).1.log ≡ persists s.log
  unfolding poll_nodes
  poll_nodes-persists [] s = refl
  poll_nodes-persists (n ∷ rest) s =
      let s' = (poll_node env n s).1 in
      ground (arith, poll_node-persists n s, poll_nodes-persists rest s')

  poll_all-persists :
      (m : EdgeModbus) (model : EdgeModel) (log : Log)
      → persists (poll_all env m model log).3 ≡ persists log
  unfolding poll_all
  poll_all-persists m model log = poll_nodes-persists model.nodes (poll_start m log)

  pub poll-persists :
      (m : EdgeModbus) (model : EdgeModel) (log : Log)
      → persists (edge_modbus_poll env m model log).3 ≡ persists log
  unfolding edge_modbus_poll
  poll-persists m model log =
      let counted = record m { poll_count = increment m.poll_count } in
      let (status, linked, log') = edge_modbus_connect env counted log in
      ground (
        arith,
        connect-persists counted log,
        poll_all-persists counted model log,
        poll_all-persists linked model log',
      )

  create_event-persists :
      (nodes : List EdgeNode) (e : EdgeEvent) (log : Log)
      → persists (create_event env nodes e log).1 ≡ persists log
  unfolding create_event
  create_event-persists nodes e log = ground arith

  emit-persists :
      (server : Option Bool) (nodes : List EdgeNode) (e : EdgeEvent) (log : Log)
      → persists (emit_opcua_event env server nodes e log).1 ≡ persists log
  unfolding emit_opcua_event
  emit-persists none nodes e log = refl
  emit-persists (some false) nodes e log = refl
  emit-persists (some true) nodes e log = create_event-persists nodes e log

  history-persists :
      (e : EdgeEvent) (value now : ℕ) (log : Log)
      → persists (edge_store_insert_event_history env e value now log).1 ≡ persists log
  unfolding edge_store_insert_event_history insert_one prepare step_done
  history-persists e value now log = ground arith

  fire-persists :
      (server : Option Bool) (nodes : List EdgeNode) (now : ℕ) (e : EdgeEvent) (log : Log)
      → persists (fire env server nodes now e log).1 ≡ persists log
  unfolding fire
  fire-persists server nodes now e log =
      let (stored, log') = edge_store_insert_event_history env e (value_of nodes e) now log in
      ground
        (arith, history-persists e (value_of nodes e) now log, emit-persists server nodes e log')

  evaluate_event-persists :
      (server : Option Bool) (nodes : List EdgeNode) (now : ℕ) (e : EdgeEvent) (s : EventState)
      → persists (evaluate_event env server nodes now e s).1.log ≡ persists s.log
  unfolding evaluate_event
  evaluate_event-persists server nodes now e s =
      ground (arith, fire-persists server nodes now (record e { active = true }) s.log)

  evaluate_events-persists :
      (server : Option Bool) (nodes : List EdgeNode) (now : ℕ) (events : List EdgeEvent)
      (s : EventState)
      → persists (evaluate_events env server nodes now events s).1.log ≡ persists s.log
  unfolding evaluate_events
  evaluate_events-persists server nodes now [] s = refl
  evaluate_events-persists server nodes now (e ∷ rest) s =
      let s' = (evaluate_event env server nodes now e s).1 in
      ground (
        arith,
        evaluate_event-persists server nodes now e s,
        evaluate_events-persists server nodes now rest s',
      )

  pub evaluate-persists :
      (server : Option Bool) (m : EdgeModel) (log : Log)
      → persists (edge_events_evaluate env server m log).3 ≡ persists log
  unfolding edge_events_evaluate edge_time_now_ms
  evaluate-persists server m log =
      let (now, log1) = edge_time_now_ms env log in
      evaluate_events-persists server m.nodes now m.events
        (record { status = ok; stats = no_stats; log = log1 })

  step_rows-persists {ℓ} :
      {A : Type ℓ} (row : A → EdgeStatus × List Binding) (xs : List A) (log : Log)
      → persists (step_rows env upsert_latest_value row xs log).1 ≡ persists log
  unfolding step_rows step_done
  step_rows-persists row [] log = refl
  step_rows-persists row (x ∷ xs) log =
      let (stepped, log') = step_done env upsert_latest_value (row x).1 log in
      ground (arith, step_rows-persists row xs log')

  pub persist-persists :
      (m : EdgeModel) (log : Log)
      → persists (edge_store_persist_latest_values env m log).1 ≡ persists log + 1
  unfolding edge_store_persist_latest_values edge_time_now_ms prepare exec_sql
  persist-persists m log =
      let (now, log1) = edge_time_now_ms env log in
      let (prepared, log2) = prepare env upsert_latest_value log1 in
      let (begun, log3) = exec_sql env begin_immediate log2 in
      ground (arith, step_rows-persists (latest_row now) m.nodes log3)
