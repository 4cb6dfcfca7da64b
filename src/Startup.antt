-- ===== src/Startup.antt =====
-- src/main.c. The process is its exit code and the calls that it made; the globals start cleared. The
-- file system's files are `files`, by path, and the environment's variables `getenv`.
pub mod Settings
pub mod Owed
pub mod Release
pub mod Success
use opcua_edge.Base.{
  ℕ, Bool, true, false, not, Option, none, some, List, [], ◌∷◌, if◌then◌else◌, Bytes,
}
use opcua_edge.Types.{EdgeStatus, ok, error, EdgeModel}
use opcua_edge.World.{sigaction_int, sigaction_term, Log, Env}
use opcua_edge.Config.Fields.{Parsed}
use opcua_edge.Config.Loader.{empty_model}
use opcua_edge.Config.Resolve.{edge_config_load}
use opcua_edge.Config.Wire.{edge_config_wire_runtime}
use opcua_edge.Modbus.Link.{EdgeModbus, edge_modbus_init, edge_modbus_clear}
use opcua_edge.Store.Schema.{EdgeStore, edge_store_open, edge_store_close, edge_store_init_schema}
use opcua_edge.Store.Persist.{edge_store_persist_model}
use opcua_edge.Store.Latest.{edge_store_load_latest_values, edge_store_persist_latest_values}
use opcua_edge.AddressSpace.{edge_address_space_load}
use opcua_edge.Runtime.{
  EdgeRuntime, edge_runtime_init, edge_runtime_register, edge_runtime_unregister,
}
use opcua_edge.Server.{EdgeServer, edge_server_init, edge_server_run, edge_server_clear}
use opcua_edge.Startup.Settings.{Options, options}

-- `none` where the server's loop ran out of fuel.
abbrev pub Exit : Type 0
Exit = Option (ℕ × Log)

-- `||`: the second handler is installed if the first one was.
unfoldable pub install_signal_handlers : Env → Log → Bool × Log
install_signal_handlers env log =
    let first = sigaction_int ∷ log in
    if not (env.installs_handler log)
    then (false, first)
    else (env.installs_handler first, sigaction_term ∷ first)

-- Closing what is open, in the order of main.c's failing branches.
abbrev pub close_store : EdgeStore → Log → Log
close_store store log = let (_, log') = edge_store_close store log in log'

abbrev pub clear_server : EdgeServer → EdgeStore → Log → Log
clear_server server store log =
    let (_, log') = edge_server_clear server log in close_store store log'

abbrev pub clear_all : EdgeModbus → EdgeServer → EdgeStore → Log → Log
clear_all modbus server store log =
    let (_, log') = edge_modbus_clear modbus log in clear_server server store log'

-- 100.0, and 50 ticks between two persists.
abbrev pub tick_interval_ms : ℕ
tick_interval_ms = 0x4059000000000000

abbrev pub persist_every : ℕ
persist_every = 50

-- From the end of `edge_server_run` on.
unfoldable pub stop : Env → EdgeServer → EdgeStore → ℕ → EdgeRuntime → Log → Log
stop env server store callback_id r log =
    let unregistered = edge_runtime_unregister r callback_id log in
    let (_, persisted) = edge_store_persist_latest_values env r.model unregistered in
    clear_all r.modbus server store persisted

-- From `edge_runtime_init` on, which does not fail here. The server's status is dropped.
unfoldable pub serve : Env → ℕ → EdgeServer → EdgeStore → EdgeModel → EdgeModbus → Log → Exit
unfolding stop
serve env fuel server store model modbus log =
    let r = edge_runtime_init server.ua model modbus persist_every in
    let (registered, callback_id, log1) = edge_runtime_register env r tick_interval_ms 0 log in
    let run = edge_server_run env fuel r log1 in
    elim registered [
      | ok ↦ elim run [
        | none ↦ none
        | some (_, r', log2) ↦ some (0, stop env server store callback_id r' log2)
      ]
      | _ ↦ some (1, clear_all modbus server store log1)
    ]

-- From `edge_server_init` on.
unfoldable pub expose : Env → ℕ → Options → EdgeStore → EdgeModel → EdgeModbus → Log → Exit
unfolding serve
expose env fuel opts store model modbus log =
    let (made, server, log1) =
      edge_server_init env (record { ua = false; model = false }) opts.opcua_port log in
    let (loaded, log2) = edge_address_space_load env model log1 in
    elim made [
      | ok ↦ elim loaded [
        | ok ↦ serve env fuel server store model modbus log2
        | _ ↦ some (1, clear_server server store log2)
      ]
      | _ ↦ some (1, close_store store log1)
    ]

-- From `edge_modbus_init` on.
unfoldable pub link : Env → ℕ → Options → EdgeStore → EdgeModel → Log → Exit
unfolding expose
link env fuel opts store model log =
    let (linked, modbus) = edge_modbus_init (some opts.modbus_host) opts.modbus_port in
    elim linked [
      | ok ↦ expose env fuel opts store model modbus log
      | _ ↦ some (1, close_store store log)
    ]

-- From `edge_store_init_schema` on, the store being open.
unfoldable pub restore : Env → ℕ → Options → EdgeStore → EdgeModel → Log → Exit
unfolding link
restore env fuel opts store model log =
    let (schema, log1) = edge_store_init_schema env log in
    let (persisted, log2) = edge_store_persist_model env model log1 in
    let (loaded, model', log3) = edge_store_load_latest_values env model log2 in
    elim schema [
      | ok ↦ elim persisted [
        | ok ↦ elim loaded [
          | ok ↦ link env fuel opts store model' log3
          | _ ↦ some (1, close_store store log3)
        ]
        | _ ↦ some (1, close_store store log2)
      ]
      | _ ↦ some (1, close_store store log1)
    ]

-- From `edge_store_open` on. A store that fails to open is not closed.
unfoldable pub open_store : Env → ℕ → Options → EdgeModel → Log → Exit
unfolding restore
open_store env fuel opts model log =
    let (opened, store, log1) = edge_store_open env (record { db = false }) opts.db_path log in
    elim opened [ ok ↦ restore env fuel opts store model log1 | _ ↦ some (1, log1) ]

-- From `edge_config_wire_runtime` on, with the status of the load.
unfoldable pub wire_model : Env → ℕ → Options → EdgeStatus → EdgeModel → Log → Exit
unfolding open_store
wire_model env fuel opts ok model log = elim (edge_config_wire_runtime model) [
  | none ↦ none
  | some (wired, model') ↦ elim wired [
    | ok ↦ open_store env fuel opts model' log
    | _ ↦ some (1, log)
  ]
]
wire_model env fuel opts _ model log = some (1, log)

-- From `edge_config_load` on.
unfoldable pub load_model :
    Env → (Bytes → Parsed) → (Bytes → Option Bytes) → ℕ → Options → Log → Exit
unfolding wire_model
load_model env strtod files fuel opts log =
    elim (edge_config_load strtod (files opts.config_path) empty_model) [
      | none ↦ none
      | some (status, model) ↦ wire_model env fuel opts status model log
    ]

unfoldable pub main :
    Env → (Bytes → Parsed) → (Bytes → Option Bytes) → (Bytes → Option Bytes) → List Bytes → ℕ → Exit
unfolding load_model install_signal_handlers
main env strtod files getenv argv fuel =
    let (installed, log) = install_signal_handlers env [] in
    if not installed
    then some (1, log)
    else load_model env strtod files fuel (options getenv argv) log
