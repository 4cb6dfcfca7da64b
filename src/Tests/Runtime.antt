-- ===== src/Tests/Runtime.antt =====
-- src/edge_runtime.c: a tick with a value to write out, and five ticks that persist every second
-- time.
use opcua_edge.Base.{◌≡◌, ◌+◌, true, false, some, [], map, All, arith, codes}
use opcua_edge.Runtime.{EdgeRuntime, edge_runtime_init, edge_runtime_tick}
use opcua_edge.Modbus.Link.{edge_modbus_init}
use opcua_edge.Modbus.Poll.{edge_modbus_poll}
use opcua_edge.Modbus.Connection.{LinkReach, initial}
use opcua_edge.Runtime.Calls.{persists}
use opcua_edge.Runtime.Schedule.{after, due_in, persists-every}
use opcua_edge.Runtime.Tick.{waits, fixed, settled, write_all, tick-drains}
use opcua_edge.Tests.Data.{works, down, wired}

abbrev runtime : EdgeRuntime
runtime = edge_runtime_init true wired (edge_modbus_init (some (codes "plc")) 502).1 2

started : LinkReach works runtime.modbus
unfolding edge_runtime_init
started = initial (some (codes "plc")) 502

tick-drains_example :
    let (r', log') = edge_runtime_tick works runtime [] in
    let (m1, log1) = write_all works runtime.model.nodes runtime.modbus [] in
    let (status, m2, model, log2) =
      edge_modbus_poll works m1
        (record runtime.model { nodes = map settled runtime.model.nodes })
        log1 in
    (r'.modbus ≡ m2)
    × All (λ n. waits n ≡ false) r'.model.nodes
    × (map fixed r'.model.nodes ≡ map fixed runtime.model.nodes)
    × (r'.model.assets ≡ runtime.model.assets)
    × LinkReach works r'.modbus
tick-drains_example = tick-drains works runtime [] started

persists-every_example :
    ((after works true wired down 2 [] 5).0.tick_count ≡ 5)
    × (persists (after works true wired down 2 [] 5).1 ≡ 0 + due_in 2 5)
persists-every_example = persists-every works true wired down 2 [] 5 (omega arith)
