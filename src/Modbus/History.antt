-- ===== src/Modbus/History.antt =====
-- src/edge_modbus.c: the link as its history of calls tells it, against the fields that the code keeps.
pub mod Runs
use opcua_edge.Base.{
  ℕ, suc, ◌+◌, ◌%◌, ◌^◌, ◌≤◌, ◌≡◌, ◌⊎◌, inl, inr, refl, Bool, true, false, Option, none, some, List,
  [], ◌∷◌, arith, Bytes, Bool-cases, if◌then◌else◌,
}
use opcua_edge.Types.{EdgeNode, EdgeModel}
use opcua_edge.World.{
  Call, clock_gettime, modbus_new_tcp, modbus_connect, modbus_close, modbus_free, tail, Log, Env,
}
use opcua_edge.Modbus.Link.{
  EdgeModbus, increment, cleared, now_us, next_backoff, note_connect_failure, must_wait, attempt,
  edge_modbus_init, edge_modbus_connect, edge_modbus_disconnect, edge_modbus_clear,
}
use opcua_edge.Modbus.Poll.{
  PollState, read_node, poll_node, poll_nodes, poll_start, poll_all, edge_modbus_poll,
  write_registers, write_linked, edge_modbus_write_node,
}
use opcua_edge.Modbus.Backoff.{backoff_after}
use opcua_edge.Modbus.Connection.{counted}

-- Down after a number of failures in a row, with the time from which the next attempt is due, or up.
pub data LinkState : Type 0 where
  down : ℕ → ℕ → LinkState
  up : LinkState

abbrev pub failures : LinkState → ℕ
failures (down k due) = k
failures up = 0

-- One more failure, its time being read behind `log`.
abbrev pub failed_at : Env → Log → LinkState → LinkState
failed_at env log s =
    let k = suc (failures s) in down k (((now_us env log).0 + backoff_after k) % 2 ^ 64)

-- What the calls of libmodbus and their replies say.
pub replay : Env → Log → LinkState
replay env [] = down 0 0
replay env (modbus_new_tcp host port ∷ log) =
    let s = replay env log in
    if env.new_tcp log then s else failed_at env (modbus_new_tcp host port ∷ log) s
replay env (modbus_connect ∷ log) =
    let s = replay env log in
    if env.connects log then up else failed_at env (modbus_free ∷ modbus_connect ∷ log) s
replay env (modbus_close ∷ log) = down 0 0
replay env (call ∷ log) = replay env log

-- The fields of a link that is enabled, in each state.
abbrev pub Agrees : EdgeModbus → LinkState → Type 0
Agrees m (down k due) =
    (m.connected ≡ false)
    × (m.ctx ≡ false)
    × (m.connect_backoff_us ≡ backoff_after k)
    × (m.next_connect_attempt_us ≡ due)
Agrees m up =
    (m.connected ≡ true)
    × (m.ctx ≡ true)
    × (m.connect_backoff_us ≡ 0)
    × (m.next_connect_attempt_us ≡ 0)

-- A disabled link is down; an enabled one is as its history says.
abbrev pub Refines : Env → EdgeModbus → Log → Type 0
Refines env m log =
    ((m.enabled ≡ false) × (m.connected ≡ false) × (m.ctx ≡ false))
    ⊎ ((m.enabled ≡ true) × Agrees m (replay env log))

-- An attempt to connect is due: the link is down, and its due time is 0 or the clock, read just before,
-- shows that time or a later one.
abbrev pub Due : Env → LinkState → Log → Type 0
Due env up log = ⊥
Due env (down k due) log =
    (due ≡ 0) ⊎ ((log ≡ clock_gettime ∷ tail log) × (due ≤ (now_us env (tail log)).0))

-- Every attempt in the log was due when it was made.
pub Patient : Env → Log → Type 0
Patient env [] = Unit
Patient env (modbus_new_tcp host port ∷ log) = Due env (replay env log) log × Patient env log
Patient env (call ∷ log) = Patient env log

abbrev pub History : Env → EdgeModbus → Log → Type 0
History env m log = Refines env m log × Patient env log

module _ (env : Env) where
  pub connect-History :
      (m : EdgeModbus) (log : Log)
      → History env m log
      → let (status, m', log') = edge_modbus_connect env m log in History env m' log'
  unfolding edge_modbus_connect attempt note_connect_failure must_wait now_us replay backoff_after
      Patient
  connect-History m log h = ground arith

  disconnect-History :
      (m : EdgeModbus) (log : Log)
      → History env m log
      → let (m', log') = edge_modbus_disconnect m log in History env m' log'
  unfolding edge_modbus_disconnect replay backoff_after Patient
  disconnect-History m log h = ground arith

  poll_node-History :
      (n : EdgeNode) (s : PollState)
      → History env s.modbus s.log
      → let s' = (poll_node env n s).1 in History env s'.modbus s'.log
  unfolding poll_node read_node edge_modbus_disconnect replay backoff_after Patient
  poll_node-History n s h = ground arith

  poll_nodes-History :
      (nodes : List EdgeNode) (s : PollState)
      → History env s.modbus s.log
      → let s' = (poll_nodes env nodes s).1 in History env s'.modbus s'.log
  unfolding poll_nodes
  poll_nodes-History [] s h = h
  poll_nodes-History (n ∷ rest) s h =
      let s' = (poll_node env n s).1 in
      let first = poll_node-History n s h in ground (arith, first, poll_nodes-History rest s' first)

  poll_all-History :
      (m : EdgeModbus) (model : EdgeModel) (log : Log)
      → History env m log
      → let (status, m', model', log') = poll_all env m model log in History env m' log'
  unfolding poll_all
  poll_all-History m model log h = poll_nodes-History model.nodes (poll_start m log) h

  counted-History : (m : EdgeModbus) (log : Log) → History env m log → History env (counted m) log
  counted-History m log h = ground arith

  pub poll-History :
      (m : EdgeModbus) (model : EdgeModel) (log : Log)
      → History env m log
      → let (status, m', model', log') = edge_modbus_poll env m model log in History env m' log'
  unfolding edge_modbus_poll
  poll-History m model log h =
      let start = counted-History m log h in
      let (status, linked, log') = edge_modbus_connect env (counted m) log in
      let linking = connect-History (counted m) log start in
      ground (
        arith,
        start,
        linking,
        poll_all-History (counted m) model log start,
        poll_all-History linked model log' linking,
      )

  write_linked-History :
      (m : EdgeModbus) (n : EdgeNode) (log : Log)
      → History env m log
      → let (status, m', log') = write_linked env m n log in History env m' log'
  unfolding write_linked write_registers edge_modbus_disconnect replay backoff_after Patient
  write_linked-History m n log h = ground arith

  pub write_node-History :
      (m : EdgeModbus) (n : EdgeNode) (log : Log)
      → History env m log
      → let (status, m', log') = edge_modbus_write_node env m n log in History env m' log'
  unfolding edge_modbus_write_node
  write_node-History m n log h =
      let (status, linked, log') = edge_modbus_connect env m log in
      let linking = connect-History m log h in
      ground
        (arith, linking, write_linked-History m n log h, write_linked-History linked n log' linking)
