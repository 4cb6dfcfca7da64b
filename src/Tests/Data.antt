-- ===== src/Tests/Data.antt =====
-- Test data: a small template with its model, links, and an environment in which every call
-- succeeds.
use opcua_edge.Base.{ℕ, ltb, ◌+◌, true, false, none, some, [], ◌∷◌, ◌++◌, length, Bytes, codes}
use opcua_edge.Types.{
  int16, greater_than, EdgeNode, EdgeAsset, EdgeEvent, EdgeModel, edge_invalid_index,
}
use opcua_edge.Config.Fields.{Parsed}
use opcua_edge.World.{Log, Env, repeated, ua_run_iterate}
use opcua_edge.Double.{Fpu, one}
use opcua_edge.Modbus.Link.{EdgeModbus}

-- A reader of doubles that knows the one text of the template below.
abbrev pub reads_five : Bytes → Parsed
reads_five text = record {
  value = 0x4014000000000000;
  out_of_range = false;
  converted = true;
  rest = [];
}

abbrev pub line : Bytes → Bytes → Bytes
line text rest = text ++ (b'\n' ∷ rest)

abbrev pub template : Bytes
template = line (codes "# demo") (
    line (codes "[plant]") (
      line (codes "id=p") (
        line (codes "name=Plant") (
          line (codes "[asset]") (
            line (codes "id=a") (
              line (codes "type=pump") (
                line (codes "name=A") (
                  line (codes "[asset]") (
                    line (codes "id=b") (
                      line (codes "type=pump") (
                        line (codes "name=B") (
                          line (codes "parent=a") (
                            line (codes "[node]") (
                              line (codes "asset=b") (
                                line (codes "id=t") (
                                  line (codes "name=T") (
                                    line (codes "data_type=int16") (
                                      line (codes "access=read_write") (
                                        line (codes "modbus_unit=2") (
                                          line (codes "modbus_register=40003") (
                                            line (codes "[event]") (
                                              line (codes "asset=b") (
                                                line (codes "id=e") (
                                                  line (codes "source_node=t") (
                                                    line (codes "condition=greater_than") (
                                                      line (codes "threshold=5.0") (
                                                        line (codes "severity=300")
                                                          [])))))))))))))))))))))))))))

abbrev pub asset_a : EdgeAsset
asset_a = record {
  id = codes "a";
  type = codes "pump";
  name = codes "A";
  parent_id = [];
  parent_index = edge_invalid_index;
  parent = none;
  first_node_index = 0;
  node_count = 0;
}

abbrev pub asset_b : EdgeAsset
asset_b = record {
  id = codes "b";
  type = codes "pump";
  name = codes "B";
  parent_id = codes "a";
  parent_index = 0;
  parent = none;
  first_node_index = 0;
  node_count = 0;
}

abbrev pub node_t : EdgeNode
node_t = record {
  id = codes "t";
  name = codes "T";
  asset_id = codes "b";
  asset_index = 1;
  asset = none;
  data_type = int16;
  writable = true;
  modbus_unit = 2;
  modbus_register = 40003;
  scale = one;
  value = 0;
  pending_write = false;
}

abbrev pub event_e : EdgeEvent
event_e = record {
  id = codes "e";
  asset_id = codes "b";
  source_node_id = codes "t";
  asset_index = 1;
  source_node_index = 0;
  asset = none;
  source_node = none;
  condition = greater_than;
  threshold = 0x4014000000000000;
  severity = 300;
  active = false;
}

abbrev pub loaded : EdgeModel
loaded = record {
  id = codes "p";
  name = codes "Plant";
  assets = asset_a ∷ asset_b ∷ [];
  nodes = node_t ∷ [];
  events = event_e ∷ [];
}

-- The node with the value 9 of a client that is still to be written out, and its event wired.
abbrev pub waiting : EdgeNode
waiting = record node_t { asset = some 1; value = 9; pending_write = true }

abbrev pub wired_event : EdgeEvent
wired_event = record event_e { asset = some 1; source_node = some 0 }

abbrev pub wired : EdgeModel
wired = record loaded { nodes = waiting ∷ []; events = wired_event ∷ [] }

-- Exact where one operand is 1.0 or the result is not looked at.
abbrev pub first_operand : Fpu
first_operand = record {
  mul = λ a b. a;
  div = λ a b. a;
  add = λ a b. a;
  sub = λ a b. a;
  undefined_int = λ w d. 0;
}

-- How often the server has iterated.
abbrev pub iterations : Log → ℕ
iterations [] = 0
iterations (ua_run_iterate ∷ log) = iterations log + 1
iterations (call ∷ log) = iterations log

-- A clock that goes one second from call to call, and registers that hold 7.
abbrev pub works : Env
works = record {
  fpu = first_operand;
  format_double = λ d. codes "0.000";
  clock = λ log. (length log + 1, 0);
  new_tcp = λ log. true;
  connects = λ log. true;
  sets_slave = λ log. true;
  reads = λ log. (some 1, 7, 0);
  writes_one = λ log. some 1;
  writes_many = λ log. some 2;
  opens = λ log. true;
  executes = λ log. true;
  prepares = λ log. true;
  steps_done = λ log. true;
  steps_row = λ log. none;
  finds_namespace = λ log. true;
  sets_scalar = λ log. true;
  creates_event = λ log. true;
  adds_object = λ log. true;
  adds_variable = λ log. true;
  sets_minimal = λ log. true;
  creates_server = λ log. true;
  starts_server = λ log. true;
  adds_callback = λ log. some 1;
  iterates = λ log. repeated ∷ [];
  running = λ log. ltb (iterations log) 2;
  installs_handler = λ log. true;
}

-- The same, but no connection is accepted and no row is stored.
abbrev pub refuses : Env
refuses = record works { connects = λ log. false; steps_done = λ log. false }

abbrev pub down : EdgeModbus
down = record {
  host = codes "plc";
  port = 502;
  connected = false;
  enabled = true;
  poll_count = 0;
  read_ok_count = 0;
  read_error_count = 0;
  write_ok_count = 0;
  write_error_count = 0;
  next_connect_attempt_us = 0;
  connect_backoff_us = 0;
  ctx = false;
}
