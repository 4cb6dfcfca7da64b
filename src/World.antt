-- ===== src/World.antt =====
-- What the program calls and does not implement: libmodbus, the clock, SQLite and open62541. The
-- calls made so far are the log, newest first, and a reply may depend on it in any way: `Env` is
-- the environment's behaviour, a function of the history of calls.
use opcua_edge.Base.{ℕ, Bool, Option, List, [], ◌∷◌, Bytes}
use opcua_edge.Double.{Fpu}

-- The statements that edge_store.c prepares, and the scripts that it executes.
pub data Statement : Type 0 where
  insert_plant insert_asset insert_node insert_event_definition : Statement
  insert_event_history select_latest_value upsert_latest_value select_user_version : Statement

pub data Script : Type 0 where
  create_schema migrate_to_2 set_user_version begin_immediate commit rollback : Script

-- A value bound to a statement's parameter.
pub data Binding : Type 0 where
  text : Bytes → Binding
  integer : ℕ → Binding
  real : ℕ → Binding
  null : Binding

-- The OPC UA types of the program. A `UA_Variant` is a type with the bits of its scalar; `scalar` is
-- `none` where the variant is no scalar of a type of the program.
pub data UaType : Type 0 where
  ua_boolean ua_int16 ua_int32 ua_uint32 ua_double : UaType

pub record UaVariant : Type 0 where
  pub scalar : Option (UaType × ℕ)

-- What the server calls back in one `UA_Server_run_iterate`: the repeated callback, or the write of a
-- client to the variable of a node, with the value of its data value if there is one.
pub data Callback : Type 0 where
  repeated : Callback
  written : ℕ → Option UaVariant → Callback

pub data Call : Type 0 where
  clock_gettime : Call
  modbus_new_tcp : Bytes → ℕ → Call
  modbus_connect modbus_close modbus_free : Call
  modbus_set_slave : ℕ → Call
  modbus_read_registers : ℕ → ℕ → Call
  modbus_write_register : ℕ → ℕ → Call
  modbus_write_registers : ℕ → ℕ → ℕ → ℕ → Call
  sqlite_open : Bytes → Call
  sqlite_close : Call
  sqlite_exec : Script → Call
  sqlite_prepare : Statement → Call
  -- A step, with the values bound since the last reset.
  sqlite_step : Statement → List Binding → Call
  sqlite_finalize : Statement → Call
  ua_config_minimal : ℕ → Call
  ua_new_server ua_config_clear ua_delete_server : Call
  ua_run_startup ua_run_iterate ua_run_shutdown : Call
  -- The interval in milliseconds, as a double; and the id to remove.
  ua_add_repeated_callback : ℕ → Call
  ua_remove_callback : ℕ → Call
  sigaction_int sigaction_term : Call
  ua_get_namespace ua_add_namespace ua_set_scalar : Call
  ua_create_event : Bytes → ℕ → Bytes → Call
  -- Node id, parent's node id and display name; the parent of the plant is the objects folder.
  ua_add_object : Bytes → Option Bytes → Bytes → Call
  -- Node id, parent's node id, display name, and whether it can be written.
  ua_add_variable : Bytes → Bytes → Bytes → Bool → Call

abbrev pub Log : Type 0
Log = List Call

-- The calls before the last one.
abbrev pub tail : Log → Log
tail [] = []
tail (c ∷ log) = log

-- A reply `none` for a count is the error -1. The Boolean replies say whether the call succeeded.
pub record Env : Type 0 where
  pub fpu : Fpu
  -- `printf` of a double by "%.3f".
  pub format_double : ℕ → Bytes
  -- CLOCK_MONOTONIC as seconds and nanoseconds.
  pub clock : Log → ℕ × ℕ
  pub new_tcp : Log → Bool
  pub connects : Log → Bool
  pub sets_slave : Log → Bool
  pub reads : Log → Option ℕ × ℕ × ℕ
  pub writes_one : Log → Option ℕ
  pub writes_many : Log → Option ℕ
  pub opens : Log → Bool
  pub executes : Log → Bool
  pub prepares : Log → Bool
  -- SQLITE_DONE; and SQLITE_ROW with the row's one column, told by the calls up to the step itself.
  pub steps_done : Log → Bool
  pub steps_row : Log → Option ℕ
  pub finds_namespace : Log → Bool
  pub sets_scalar : Log → Bool
  pub creates_event : Log → Bool
  pub adds_object : Log → Bool
  pub adds_variable : Log → Bool
  pub sets_minimal : Log → Bool
  pub creates_server : Log → Bool
  pub starts_server : Log → Bool
  -- The id of a repeated callback that was added.
  pub adds_callback : Log → Option ℕ
  pub iterates : Log → List Callback
  -- Whether no signal has set `g_running` to 0 yet.
  pub running : Log → Bool
  pub installs_handler : Log → Bool
