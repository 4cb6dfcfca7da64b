-- ===== src/Tests/Modbus.antt =====
-- src/edge_modbus.c: connections that are accepted and refused, polls, writes and registers.
use opcua_edge.Base.{◌<◌, ◌^◌, ◌≡◌, refl, some, [], ◌∷◌, map, arith, codes, if◌then◌else◌, ◌==◌}
use opcua_edge.Types.{EdgeStatus}
use opcua_edge.Modbus.Registers.{
  pack_node_to_registers, apply_registers_to_node, register_width_for_node,
}
use opcua_edge.Modbus.Link.{EdgeModbus, edge_modbus_init, edge_modbus_connect}
use opcua_edge.Modbus.Poll.{edge_modbus_poll, edge_modbus_write_node}
use opcua_edge.Modbus.Codec.{
  is_int16, apply_registers-pack_node, pack_node-apply_registers, pack_node-fits,
}
use opcua_edge.Modbus.Backoff.{
  backoff_after, schedule, backoff_after-schedule, ConnectPost, connect-ConnectPost,
}
use opcua_edge.Modbus.Connection.{LinkInv, LinkReach, initial, polling, writing, LinkReach-Inv}
use opcua_edge.Modbus.Connection
use opcua_edge.Modbus.History.{Refines, Patient}
use opcua_edge.Modbus.History.Runs.{LinkRun, elsewhere, run-Refines, run-Patient}
use opcua_edge.Modbus.History.Runs
use opcua_edge.World.{sqlite_close, Log}
use opcua_edge.Modbus.Addressing.{Addressed, poll-Addressed}
use opcua_edge.Modbus.Outcomes.{frame, WritePost, write_node-WritePost}
use opcua_edge.Modbus.Polled.{PollPost, poll-PollPost}
use opcua_edge.Value.{edge_node_as_double}
use opcua_edge.Tests.Data.{first_operand, works, refuses, down, waiting, node_t, wired}

-- A link from its start: a poll that reads, then one write.
reached :
    LinkReach works
      (edge_modbus_write_node works
        (edge_modbus_poll works (edge_modbus_init (some (codes "plc")) 502).1 wired []).1
        waiting
        []).1
reached =
    Connection.next
      (Connection.next (initial (some (codes "plc")) 502)
        (polling (edge_modbus_init (some (codes "plc")) 502).1 wired []))
      (writing (edge_modbus_poll works (edge_modbus_init (some (codes "plc")) 502).1 wired []).1
        waiting [])

LinkReach-Inv_example :
    LinkInv
      (edge_modbus_write_node works
        (edge_modbus_poll works (edge_modbus_init (some (codes "plc")) 502).1 wired []).1
        waiting
        []).1
LinkReach-Inv_example = LinkReach-Inv reached

connect-ConnectPost_example :
    let (status, m', log') = edge_modbus_connect refuses down [] in
    ConnectPost refuses down [] status m' log'
connect-ConnectPost_example = connect-ConnectPost refuses down []

backoff_after-schedule_example : backoff_after 5 ≡ schedule 4
backoff_after-schedule_example = backoff_after-schedule 4

poll-Addressed_example : Addressed works wired.nodes (edge_modbus_poll works down wired []).3
poll-Addressed_example = poll-Addressed works down wired [] tt

poll-PollPost_example :
    let (status, m', model', log') = edge_modbus_poll works down wired [] in
    (status ≡ EdgeStatus.ok)
    × (map frame model'.nodes ≡ map frame wired.nodes)
    × (record model' { nodes = [] } ≡ record wired { nodes = [] })
    × PollPost works down wired [] m' model' log'
poll-PollPost_example = poll-PollPost works down wired [] (λ e. absurd (ground arith))

write_node-WritePost_example :
    let (status, m', log') = edge_modbus_write_node works down waiting [] in
    WritePost works down waiting [] status m' log'
write_node-WritePost_example = write_node-WritePost works down waiting []

apply_registers-pack_node_example :
    let (w, r0, r1) = pack_node_to_registers first_operand waiting in
    edge_node_as_double (apply_registers_to_node first_operand node_t r0 r1)
    ≡ edge_node_as_double waiting
apply_registers-pack_node_example =
    apply_registers-pack_node first_operand waiting node_t is_int16 refl

pack_node-apply_registers_example :
    pack_node_to_registers first_operand (apply_registers_to_node first_operand node_t 65535 0)
    ≡ (register_width_for_node node_t, 65535, if register_width_for_node node_t == 2 then 0 else 0)
pack_node-apply_registers_example =
    pack_node-apply_registers first_operand node_t 65535 0 is_int16 (omega arith) (omega arith)

pack_node-fits_example :
    let (width, value0, value1) = pack_node_to_registers first_operand waiting in
    (width ≡ register_width_for_node waiting) × (value0 < 2 ^ 16) × (value1 < 2 ^ 16)
pack_node-fits_example = pack_node-fits first_operand waiting

-- A link whose first poll fails to connect and whose second one comes behind another call.
abbrev fresh : EdgeModbus
fresh = (edge_modbus_init (some (codes "plc")) 502).1

abbrev tried : EdgeModbus × Log
tried = let (status, m, model, log) = edge_modbus_poll refuses fresh wired [] in (m, log)

abbrev retried : EdgeModbus × Log
retried =
    let (status, m, model, log) = edge_modbus_poll refuses tried.0 wired (sqlite_close ∷ tried.1) in
    (m, log)

retried-LinkRun : LinkRun refuses retried.0 retried.1
retried-LinkRun =
    Runs.polling wired
      (elsewhere sqlite_close refl (Runs.polling wired (Runs.initial (some (codes "plc")) 502)))

run-Refines_example : Refines refuses retried.0 retried.1
run-Refines_example = run-Refines retried-LinkRun

run-Patient_example : Patient refuses retried.1
run-Patient_example = run-Patient retried-LinkRun
