-- ===== src/Modbus/Outcomes.antt =====
-- src/edge_modbus.c: what a poll leaves of the model, and the outcomes of a write.
use opcua_edge.Base.{
  ◌<◌, ◌≤◌, ◌≡◌, ◌≢◌, ◌⊎◌, inl, inr, refl, Bool, true, false, List, [], ◌∷◌, map, arith, Bool-cases,
  if◌then◌else◌, ◌==◌,
}
use opcua_edge.Types.{EdgeStatus, ok, error, invalid, EdgeNode, EdgeModel}
use opcua_edge.World.{
  Call, modbus_set_slave, modbus_write_register, modbus_write_registers, tail, Log, Env,
}
use opcua_edge.Modbus.Registers.{apply_registers_to_node, pack_node_to_registers}
use opcua_edge.Modbus.Link.{
  EdgeModbus, increment, edge_modbus_register_base, edge_modbus_connect, edge_modbus_disconnect,
}
use opcua_edge.Modbus.Link.{note_connect_failure}
use opcua_edge.Modbus.Poll.{
  PollState, is_count, write_failed, offset_of, read_node, poll_node, poll_nodes, poll_start,
  poll_all, edge_modbus_poll, write_linked, edge_modbus_write_node,
}

-- A node without its value.
abbrev pub frame : EdgeNode → EdgeNode
frame node = record node { value = 0 }

poll_node-frame :
    (env : Env) (node : EdgeNode) (s : PollState) → frame (poll_node env node s).0 ≡ frame node
unfolding poll_node read_node apply_registers_to_node
poll_node-frame env node s = ground arith

poll_node-below :
    (env : Env) (node : EdgeNode) (s : PollState)
    → node.modbus_register < edge_modbus_register_base
    → (poll_node env node s).0 ≡ node
unfolding poll_node
poll_node-below env node s h = ground arith

poll_nodes-frame :
    (env : Env) (nodes : List EdgeNode) (s : PollState)
    → map frame (poll_nodes env nodes s).0 ≡ map frame nodes
unfolding poll_nodes
poll_nodes-frame env [] s = refl
poll_nodes-frame env (n ∷ rest) s =
    let (n', s') = poll_node env n s in
    elim (Bool-cases s'.stopped) [
      | inl e ↦ rw e (λ i. poll_node-frame env n s i ∷ map frame rest)
      | inr e ↦ rw e (λ i. poll_node-frame env n s i ∷ poll_nodes-frame env rest s' i)
    ]

poll_all-frame :
    (env : Env) (m : EdgeModbus) (model : EdgeModel) (log : Log)
    → map frame (poll_all env m model log).2.nodes ≡ map frame model.nodes
unfolding poll_all
poll_all-frame env m model log = poll_nodes-frame env model.nodes (poll_start m log)

poll_all-rest :
    (env : Env) (m : EdgeModbus) (model : EdgeModel) (log : Log)
    → ((poll_all env m model log).0 ≡ ok)
      × (record ((poll_all env m model log).2) { nodes = [] } ≡ record model { nodes = [] })
unfolding poll_all
poll_all-rest env m model log = (refl, refl)

-- A poll reports success whatever the PLC does, and of the model it changes no more than values of
-- nodes.
pub poll-frame :
    (env : Env) (m : EdgeModbus) (model : EdgeModel) (log : Log)
    → let (status, m', model', log') = edge_modbus_poll env m model log in
      (status ≡ ok)
      × (map frame model'.nodes ≡ map frame model.nodes)
      × (record model' { nodes = [] } ≡ record model { nodes = [] })
unfolding edge_modbus_poll
poll-frame env m model log =
    let counted = record m { poll_count = increment m.poll_count } in
    let (status, linked, log') = edge_modbus_connect env counted log in
    ground (
      arith,
      poll_all-frame env counted model log,
      poll_all-frame env linked model log',
      poll_all-rest env counted model log,
      poll_all-rest env linked model log',
    )

-- The call that writes the packed registers of a node.
abbrev pub write_call : Env → EdgeNode → Call
write_call env node =
    let (width, value0, value1) = pack_node_to_registers env.fpu node in
    if width == 1
    then modbus_write_register (offset_of node) value0
    else modbus_write_registers (offset_of node) width value0 value1

-- The value went out, to the unit selected just before, and was counted.
abbrev pub Written : Env → EdgeModbus → EdgeNode → EdgeModbus → Log → Type 0
Written env m node m' log' =
    (m'.write_ok_count ≡ increment m.write_ok_count)
    × (m'.write_error_count ≡ m.write_error_count)
    × (log' ≡ write_call env node ∷ modbus_set_slave node.modbus_unit ∷ tail (tail log'))

-- It did not, and the failure was counted.
abbrev pub NotWritten : EdgeModbus → EdgeModbus → Type 0
NotWritten m m' =
    (m'.write_ok_count ≡ m.write_ok_count) × (m'.write_error_count ≡ increment m.write_error_count)

write_linked-post :
    (env : Env) (m : EdgeModbus) (node : EdgeNode) (log : Log)
    → let (status, m', log') = write_linked env m node log in
      ((status ≡ ok) × Written env m node m' log') ⊎ ((status ≡ error) × NotWritten m m')
unfolding write_linked edge_modbus_disconnect
write_linked-post env m node log = ground arith

connect-counts :
    (env : Env) (m : EdgeModbus) (log : Log)
    → let (status, m', log') = edge_modbus_connect env m log in
      (m'.write_ok_count ≡ m.write_ok_count) × (m'.write_error_count ≡ m.write_error_count)
unfolding edge_modbus_connect note_connect_failure
connect-counts env m log = ground arith

-- The guards that a write has to pass.
abbrev pub Writes : EdgeModbus → EdgeNode → Type 0
Writes m node =
    (m.enabled ≡ true) × (node.writable ≡ true) × (edge_modbus_register_base ≤ node.modbus_register)

write_cases :
    (env : Env) (m : EdgeModbus) (node : EdgeNode) (log : Log)
    → let (status, m', log') = edge_modbus_write_node env m node log in
      ((status ≡ ok) × (m.enabled ≡ false) × (m' ≡ m) × (log' ≡ log))
      ⊎ ((status ≡ invalid)
          × (m.enabled ≡ true)
          × ((node.writable ≡ false) ⊎ (node.modbus_register < edge_modbus_register_base))
          × (m' ≡ m)
          × (log' ≡ log))
      ⊎ ((status ≡ ok) × Writes m node × Written env m node m' log')
      ⊎ ((status ≡ error) × Writes m node × NotWritten m m')
unfolding edge_modbus_write_node
write_cases env m node log =
    let (status, linked, log') = edge_modbus_connect env m log in
    ground (
      arith,
      connect-counts env m log,
      write_linked-post env m node log,
      write_linked-post env linked node log',
    )

-- Whether the PLC takes the registers of a node.
abbrev pub takes : Env → EdgeNode → Log → Bool
takes env node log =
    let (width, value0, value1) = pack_node_to_registers env.fpu node in
    if width == 1 then is_count (env.writes_one log) 1 else is_count (env.writes_many log) width

-- What is tried on a link that is up: the unit is selected and the registers are sent, which goes
-- well; or the unit is refused; or the registers are, and the link is disconnected.
abbrev pub Tries : Env → EdgeModbus → EdgeNode → Log → EdgeStatus → EdgeModbus → Log → Type 0
Tries env m node log status m' log' =
    let called = modbus_set_slave node.modbus_unit ∷ log in
    let (closed, log1) = edge_modbus_disconnect (write_failed m) (write_call env node ∷ called) in
    ((status ≡ ok)
      × (env.sets_slave log ≡ true)
      × (takes env node called ≡ true)
      × (m' ≡ record m { write_ok_count = increment m.write_ok_count })
      × (log' ≡ write_call env node ∷ called))
    ⊎ ((status ≡ error) × (env.sets_slave log ≡ false) × (m' ≡ write_failed m) × (log' ≡ called))
    ⊎ ((status ≡ error)
        × (env.sets_slave log ≡ true)
        × (takes env node called ≡ false)
        × (m' ≡ closed)
        × (log' ≡ log1))

-- The same, behind the connection; where that fails, the failure is counted and nothing more called.
abbrev pub Attempts : Env → EdgeModbus → EdgeNode → Log → EdgeStatus → EdgeModbus → Log → Type 0
Attempts env m node log status m' log' =
    let (connected, linked, log1) = edge_modbus_connect env m log in
    ((m.connected ≡ true) × Tries env m node log status m' log')
    ⊎ ((m.connected ≡ false) × (connected ≡ ok) × Tries env linked node log1 status m' log')
    ⊎ ((m.connected ≡ false)
        × (connected ≢ ok)
        × (status ≡ error)
        × (m' ≡ write_failed linked)
        × (log' ≡ log1))

write_linked-Tries :
    (env : Env) (m : EdgeModbus) (node : EdgeNode) (log : Log)
    → let (status, m', log') = write_linked env m node log in Tries env m node log status m' log'
unfolding write_linked
write_linked-Tries env m node log = ground arith

write-Attempts :
    (env : Env) (m : EdgeModbus) (node : EdgeNode) (log : Log)
    → Writes m node
    → let (status, m', log') = edge_modbus_write_node env m node log in
      Attempts env m node log status m' log'
unfolding edge_modbus_write_node
write-Attempts env m node log w =
    let (status, linked, log') = edge_modbus_connect env m log in
    ground (arith, write_linked-Tries env m node log, write_linked-Tries env linked node log')

abbrev pub WritePost : Env → EdgeModbus → EdgeNode → Log → EdgeStatus → EdgeModbus → Log → Type 0
WritePost env m node log status m' log' =
    ((status ≡ ok) × (m.enabled ≡ false) × (m' ≡ m) × (log' ≡ log))
    ⊎ ((status ≡ invalid)
        × (m.enabled ≡ true)
        × ((node.writable ≡ false) ⊎ (node.modbus_register < edge_modbus_register_base))
        × (m' ≡ m)
        × (log' ≡ log))
    ⊎ ((status ≡ ok)
        × Writes m node
        × Written env m node m' log'
        × Attempts env m node log status m' log')
    ⊎ ((status ≡ error) × Writes m node × NotWritten m m' × Attempts env m node log status m' log')

-- A write on a disabled link succeeds and does nothing; on an enabled link it is refused, with no
-- effect, for a node that is not writable or has a register below 40001. Every other write is tried
-- on the link, which is connected first where it is down. It succeeds when the link is up or
-- connects, the node's unit is selected and the PLC takes the packed registers; it fails with an
-- error when the link does not connect, the unit is refused, or the registers are, and then the link
-- is disconnected. A success adds one to the writes that went well, an error one to those that
-- failed.
pub write_node-WritePost :
    (env : Env) (m : EdgeModbus) (node : EdgeNode) (log : Log)
    → let (status, m', log') = edge_modbus_write_node env m node log in
      WritePost env m node log status m' log'
write_node-WritePost env m node log = elim (write_cases env m node log) [
  | inl off ↦ inl off
  | inr (inl refused) ↦ inr (inl refused)
  | inr (inr (inl (s, w, h))) ↦ inr (inr (inl (s, w, h, write-Attempts env m node log w)))
  | inr (inr (inr (s, w, h))) ↦ inr (inr (inr (s, w, h, write-Attempts env m node log w)))
]
