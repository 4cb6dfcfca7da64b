-- ===== src/Modbus/Poll.antt =====
-- src/edge_modbus.c: `edge_modbus_poll` and `edge_modbus_write_node`.
use opcua_edge.Base.{
  ℕ, ◌-◌, ◌%◌, ◌^◌, Bool, true, false, not, ◌&&◌, Option, none, some, List, [], ◌∷◌, ltb, ◌==◌,
  if◌then◌else◌,
}
use opcua_edge.Types.{EdgeStatus, ok, error, invalid, EdgeNode, EdgeModel}
use opcua_edge.World.{
  modbus_set_slave, modbus_read_registers, modbus_write_register, modbus_write_registers, Log, Env,
}
use opcua_edge.Modbus.Registers.{
  register_width_for_node, apply_registers_to_node, pack_node_to_registers,
}
use opcua_edge.Modbus.Link.{
  EdgeModbus, increment, edge_modbus_register_base, edge_modbus_connect, edge_modbus_disconnect,
}

-- The variables of the poll loop; `stopped` is its return on a failed read.
pub record PollState : Type 0 where
  pub modbus : EdgeModbus
  pub log : Log
  pub current_unit : ℕ
  pub unit_set : Bool
  pub stopped : Bool

-- An int reply of libmodbus equals the count.
abbrev pub is_count : Option ℕ → ℕ → Bool
is_count none count = false
is_count (some n) count = n == count

-- The int of the source, as the natural number of the same 32 bits.
abbrev pub offset_of : EdgeNode → ℕ
offset_of node = node.modbus_register - edge_modbus_register_base

-- The read of one node, its unit being selected.
unfoldable pub read_node : Env → EdgeNode → PollState → EdgeNode × PollState
read_node env node s =
    let width = register_width_for_node node in
    let (count, raw0, raw1) = env.reads s.log in
    let called = modbus_read_registers (offset_of node) width ∷ s.log in
    let counted = record (s.modbus) { read_error_count = increment s.modbus.read_error_count } in
    let (closed, log') = edge_modbus_disconnect counted called in
    if not (is_count count width)
    then (node, record s { modbus = closed; log = log'; stopped = true })
    else (
      apply_registers_to_node env.fpu node (raw0 % 2 ^ 16) (raw1 % 2 ^ 16),
      record s {
        modbus = record (s.modbus) { read_ok_count = increment s.modbus.read_ok_count };
        log = called;
      },
    )

-- The body of the loop.
unfoldable pub poll_node : Env → EdgeNode → PollState → EdgeNode × PollState
unfolding read_node
poll_node env node s =
    let called = modbus_set_slave node.modbus_unit ∷ s.log in
    if ltb node.modbus_register edge_modbus_register_base
    then (node, s)
    else if s.unit_set && s.current_unit == node.modbus_unit
    then read_node env node s
    else if not (env.sets_slave s.log)
    then (
      node,
      record s {
        modbus = record (s.modbus) { read_error_count = increment s.modbus.read_error_count };
        log = called;
      },
    )
    else read_node env node
        (record s { log = called; current_unit = node.modbus_unit; unit_set = true })

unfoldable pub poll_nodes : Env → List EdgeNode → PollState → List EdgeNode × PollState
poll_nodes env [] s = ([], s)
poll_nodes env (node ∷ rest) s =
    let (node', s') = poll_node env node s in
    let (rest', s'') = poll_nodes env rest s' in
    if s'.stopped then (node' ∷ rest, s') else (node' ∷ rest', s'')

abbrev pub poll_start : EdgeModbus → Log → PollState
poll_start modbus log = record {
  modbus = modbus;
  log = log;
  current_unit = 0;
  unit_set = false;
  stopped = false;
}

-- The loop, on a link that is up.
unfoldable pub poll_all :
    Env → EdgeModbus → EdgeModel → Log → EdgeStatus × EdgeModbus × EdgeModel × Log
poll_all env modbus model log =
    let (nodes, s) = poll_nodes env model.nodes (poll_start modbus log) in
    (ok, s.modbus, record model { nodes = nodes }, s.log)

unfoldable pub edge_modbus_poll :
    Env → EdgeModbus → EdgeModel → Log → EdgeStatus × EdgeModbus × EdgeModel × Log
edge_modbus_poll env modbus model log =
    let counted = record modbus { poll_count = increment modbus.poll_count } in
    let (status, linked, log') = edge_modbus_connect env counted log in
    let polled = poll_all env linked model log' in
    if not modbus.enabled
    then (ok, counted, model, log)
    else if modbus.connected
    then poll_all env counted model log
    else elim status [ ok ↦ polled | _ ↦ (ok, linked, model, log') ]

abbrev pub write_failed : EdgeModbus → EdgeModbus
write_failed modbus = record modbus { write_error_count = increment modbus.write_error_count }

-- The write of the registers, the unit being selected.
unfoldable pub write_registers : Env → EdgeModbus → EdgeNode → Log → EdgeStatus × EdgeModbus × Log
write_registers env modbus node log =
    let (width, value0, value1) = pack_node_to_registers env.fpu node in
    let one = modbus_write_register (offset_of node) value0 ∷ log in
    let many = modbus_write_registers (offset_of node) width value0 value1 ∷ log in
    let called = if width == 1 then one else many in
    let written =
      if width == 1
      then is_count (env.writes_one log) 1
      else is_count (env.writes_many log) width in
    let (closed, log') = edge_modbus_disconnect (write_failed modbus) called in
    if written
    then (ok, record modbus { write_ok_count = increment modbus.write_ok_count }, called)
    else (error, closed, log')

-- From `modbus_set_slave` on.
unfoldable pub write_linked : Env → EdgeModbus → EdgeNode → Log → EdgeStatus × EdgeModbus × Log
unfolding write_registers
write_linked env modbus node log =
    let called = modbus_set_slave node.modbus_unit ∷ log in
    if not (env.sets_slave log)
    then (error, write_failed modbus, called)
    else write_registers env modbus node called

unfoldable pub edge_modbus_write_node :
    Env → EdgeModbus → EdgeNode → Log → EdgeStatus × EdgeModbus × Log
edge_modbus_write_node env modbus node log =
    let (status, linked, log') = edge_modbus_connect env modbus log in
    let written = write_linked env linked node log' in
    if not modbus.enabled
    then (ok, modbus, log)
    else if not node.writable
    then (invalid, modbus, log)
    else if ltb node.modbus_register edge_modbus_register_base
    then (invalid, modbus, log)
    else if modbus.connected
    then write_linked env modbus node log
    else elim status [ ok ↦ written | _ ↦ (error, write_failed linked, log') ]
