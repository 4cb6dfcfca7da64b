-- ===== src/Runtime.antt =====
-- src/edge_runtime.c: the tick. The pointers of EdgeRuntime are the objects themselves, so a tick
-- returns the new model and link; its null tests are left out but for the server's `ua`.
pub mod Calls
pub mod Tick
pub mod Schedule
use opcua_edge.Base.{
  ℕ, ◌+◌, ◌%◌, ◌^◌, Bool, true, false, not, ◌&&◌, ◌||◌, none, some, List, [], ◌∷◌, ◌==◌,
  if◌then◌else◌,
}
use opcua_edge.Types.{EdgeStatus, ok, error, invalid, EdgeNode, EdgeModel}
use opcua_edge.World.{ua_add_repeated_callback, ua_remove_callback, Log, Env}
use opcua_edge.Modbus.Link.{EdgeModbus}
use opcua_edge.Modbus.Poll.{edge_modbus_poll, edge_modbus_write_node}
use opcua_edge.Events.{EdgeEventStats, no_stats, edge_events_evaluate}
use opcua_edge.Store.Latest.{edge_store_persist_latest_values}

-- `server` is whether the server's `ua` is set.
pub record EdgeRuntime : Type 0 where
  pub server : Bool
  pub model : EdgeModel
  pub modbus : EdgeModbus
  pub tick_count : ℕ
  pub persist_every_n_ticks : ℕ
  pub last_event_stats : EdgeEventStats

unfoldable pub edge_runtime_init : Bool → EdgeModel → EdgeModbus → ℕ → EdgeRuntime
edge_runtime_init server model modbus n = record {
  server = server;
  model = model;
  modbus = modbus;
  tick_count = 0;
  persist_every_n_ticks = n;
  last_event_stats = no_stats;
}

-- One node of `drain_pending_writes`; the status of the write is dropped.
unfoldable pub drain_node : Env → EdgeNode → EdgeModbus → Log → EdgeNode × EdgeModbus × Log
drain_node env node modbus log =
    let (_, modbus', log') = edge_modbus_write_node env modbus node log in
    if not node.writable || not node.pending_write
    then (node, modbus, log)
    else (record node { pending_write = false }, modbus', log')

unfoldable pub drain_nodes :
    Env → List EdgeNode → EdgeModbus → Log → List EdgeNode × EdgeModbus × Log
drain_nodes env [] modbus log = ([], modbus, log)
drain_nodes env (node ∷ rest) modbus log =
    let (node', modbus', log') = drain_node env node modbus log in
    let (rest', modbus'', log'') = drain_nodes env rest modbus' log' in
    (node' ∷ rest', modbus'', log'')

unfoldable pub drain_pending_writes :
    Env → EdgeModel → EdgeModbus → Log → EdgeModel × EdgeModbus × Log
drain_pending_writes env model modbus log =
    let (nodes, modbus', log') = drain_nodes env model.nodes modbus log in
    (record model { nodes = nodes }, modbus', log')

-- `edge_runtime_register`: the callback's id. A runtime whose server is not set is `invalid`.
unfoldable pub edge_runtime_register : Env → EdgeRuntime → ℕ → ℕ → Log → EdgeStatus × ℕ × Log
edge_runtime_register env r interval_ms callback_id log =
    let called = ua_add_repeated_callback interval_ms ∷ log in
    if not r.server then (invalid, callback_id, log) else elim (env.adds_callback log) [
      | none ↦ (error, callback_id, called)
      | some ua_id ↦ (ok, ua_id, called)
    ]

unfoldable pub edge_runtime_unregister : EdgeRuntime → ℕ → Log → Log
edge_runtime_unregister r callback_id log =
    if not r.server || callback_id == 0 then log else ua_remove_callback callback_id ∷ log

-- `persist_every_n_ticks != 0 && tick_count % persist_every_n_ticks == 0`
unfoldable pub persist_due : ℕ → ℕ → Bool
persist_due every count = not (every == 0) && count % every == 0

-- The model, the link, the statistics and the log behind the three steps of each tick.
unfoldable pub tick_steps : Env → EdgeRuntime → Log → EdgeModel × EdgeModbus × EdgeEventStats × Log
tick_steps env r log =
    let (drained, modbus1, log1) = drain_pending_writes env r.model r.modbus log in
    let (_, modbus2, polled, log2) = edge_modbus_poll env modbus1 drained log1 in
    let (_, evaluated, stats, log3) = edge_events_evaluate env (some r.server) polled log2 in
    (evaluated, modbus2, stats, log3)

unfoldable pub edge_runtime_tick : Env → EdgeRuntime → Log → EdgeRuntime × Log
edge_runtime_tick env r log =
    let count = (r.tick_count + 1) % 2 ^ 64 in
    let (model, modbus, stats, log') = tick_steps env r log in
    let (_, log'') = edge_store_persist_latest_values env model log' in
    (
      record r { model = model; modbus = modbus; last_event_stats = stats; tick_count = count },
      if persist_due r.persist_every_n_ticks count then log'' else log',
    )
