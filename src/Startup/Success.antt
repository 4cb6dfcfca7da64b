-- ===== src/Startup/Success.antt =====
-- src/main.c: a process whose template loads serves it and exits with code 0, where SQLite and the
-- server take every call.
use opcua_edge.Base.{
  ℕ, suc, ◌<◌, ◌≤◌, ◌≡◌, refl, true, not, none, some, List, [], ◌∷◌, arith, length, All, Bytes,
  Option, if_both,
}
use opcua_edge.Types.{EdgeStatus, ok, EdgeNode, EdgeModel}
use opcua_edge.World.{
  ua_config_minimal, sigaction_int, sigaction_term, sqlite_exec, create_schema, migrate_to_2,
  sqlite_open, sqlite_step, select_latest_value, text, Log, Env,
}
use opcua_edge.Config.Fields.{Parsed}
use opcua_edge.Config.Loader.{empty_model}
use opcua_edge.Config.Resolve.{edge_config_load}
use opcua_edge.Config.Bounds.{ModelFits}
use opcua_edge.Config.Load.{load-IsResolved, load-ModelFits}
use opcua_edge.Config.Wired.{wire-Wired}
use opcua_edge.Store.Key.{make_node_key, exec_sql, prepare}
use opcua_edge.Store.Schema.{
  EdgeStore, version_of, upgrade, edge_store_open, edge_store_init_schema,
}
use opcua_edge.Store.Upgrade.{asked, version_read}
use opcua_edge.Store.Persist.{edge_store_persist_model}
use opcua_edge.Store.Latest.{set_from_row, load_rows, edge_store_load_latest_values}
use opcua_edge.Store.Success.{Works, store-succeeds}
use opcua_edge.Double.{is_finite}
use opcua_edge.Value.{edge_node_set_from_double}
use opcua_edge.Modbus.Link.{EdgeModbus, edge_modbus_init}
use opcua_edge.Modbus.Connection.{LinkInv, init-Inv}
use opcua_edge.AddressSpace.{edge_address_space_load}
use opcua_edge.AddressSpace.Success.{NodeLoads, Loadable, Takes, address_space-ok}
use opcua_edge.AddressSpace.Ready.{wired-Loadable, wired-ModelFits}
use opcua_edge.Runtime.{edge_runtime_init, edge_runtime_register}
use opcua_edge.Server.{EdgeServer, edge_server_init, edge_server_run}
use opcua_edge.Books.{database}
use opcua_edge.Books.Run.{Returns, Returns-then, Signalled, run-Steady}
use opcua_edge.Startup.Settings.{Options, options}
use opcua_edge.Startup.Owed.{no_server, either_status, when_ok}
use opcua_edge.Startup.Release.{empty_fits}
use opcua_edge.Startup.{
  Exit, serve, expose, link, restore, open_store, wire_model, load_model, main,
  install_signal_handlers, persist_every, tick_interval_ms, stop,
}

-- SQLite and the server take every call; the database is of version 0 to 2. The PLC may fail in any
-- way, and so may the server's run.
pub record Willing (env : Env) : Type 0 where
  pub handlers : (l : Log) → env.installs_handler l ≡ true
  pub opens : (l : Log) → env.opens l ≡ true
  pub works : Works env
  pub version : (l : Log) → version_of (env.steps_row (asked l)) ≤ 2
  pub configures : (l : Log) → env.sets_minimal l ≡ true
  pub creates : (l : Log) → env.creates_server l ≡ true
  pub takes : Takes env
  pub registers : (l : Log) → (id : ℕ) × (env.adds_callback l ≡ some id)

-- The process exits, with code 0.
abbrev pub ExitsWell : Exit → Type 0
ExitsWell = Returns (λ (code, log). code ≡ 0)

module _ (env : Env) where
  set_from_row-keeps :
      (P : EdgeNode → Type 0) (n : EdgeNode) (row : Option ℕ)
      → ((n : EdgeNode) (v : ℕ) → P n → P (record n { value = v }))
      → P n
      → P (set_from_row env n row)
  unfolding edge_node_set_from_double
  set_from_row-keeps P n none keep h = h
  set_from_row-keeps P n (some d) keep h =
      if_both P (not (is_finite d)) _ _ (keep n _ h) (keep n _ h)

  load_rows-All :
      (P : EdgeNode → Type 0) (nodes : List EdgeNode) (log : Log)
      → ((n : EdgeNode) (v : ℕ) → P n → P (record n { value = v }))
      → All P nodes
      → All P (load_rows env nodes log).1
  unfolding load_rows
  load_rows-All P [] log keep h = tt
  load_rows-All P (n ∷ rest) log keep h =
      either_status (λ (r : EdgeStatus × List EdgeNode × Log). All P r.1) (make_node_key n).0 _ _
        (
          set_from_row-keeps P n
              (env.steps_row
                (sqlite_step select_latest_value (text (make_node_key n).1 ∷ []) ∷ log))
              keep h.0,
          load_rows-All P rest
              (sqlite_step select_latest_value (text (make_node_key n).1 ∷ []) ∷ log) keep h.1,
        )
        h

  upgrade-ok :
      (version : ℕ) (log : Log) → Willing env → version ≤ 2 → (upgrade env version log).0 ≡ ok
  unfolding upgrade exec_sql
  upgrade-ok version log w h =
      ground (arith, w.works.0 log, w.works.0 (sqlite_exec migrate_to_2 ∷ log))

  init_schema-ok : Willing env → (log : Log) → (edge_store_init_schema env log).0 ≡ ok
  unfolding edge_store_init_schema upgrade exec_sql prepare
  init_schema-ok w log = ground (
    arith,
    w.works.0 log,
    w.works.1 (sqlite_exec create_schema ∷ log),
    upgrade-ok (version_of (env.steps_row (asked log))) (version_read log) w (w.version log),
  )

  -- Loading values changes no id and no pointer.
  load_latest-Loadable :
      (m : EdgeModel) (log : Log)
      → Loadable m
      → Loadable (edge_store_load_latest_values env m log).1
  unfolding edge_store_load_latest_values prepare
  load_latest-Loadable m log h =
      either_status (λ (r : EdgeStatus × EdgeModel × Log). Loadable r.1)
        (prepare env select_latest_value log).0 _ _
        (record {
          plant_id = h.plant_id;
          assets_load = h.assets_load;
          nodes_load =
              load_rows-All (NodeLoads m.assets) m.nodes (prepare env select_latest_value log).1
                (λ n v k. k) h.nodes_load;
        })
        h

  module _ (w : Willing env) (n : ℕ) (signal : Signalled env n) where
    serve-well :
        (server : EdgeServer) (store : EdgeStore) (model : EdgeModel) (m : EdgeModbus) (log : Log)
        → server.ua ≡ true
        → LinkInv m
        → ExitsWell (serve env (suc n) server store model m log)
    unfolding serve edge_runtime_init edge_runtime_register
    serve-well server store model m log up inv =
        let rt = edge_runtime_init server.ua model m persist_every in
        let (registered, id, log1) = edge_runtime_register env rt tick_interval_ms 0 log in
        when_ok ExitsWell registered _ _ (let (id, e) = w.registers log in ground (arith, e)) (
          Returns-then _ (edge_server_run env (suc n) rt log1)
            (λ (status, rt', log2). some (0, stop env server store id rt' log2))
            (λ run steady. refl) (run-Steady env database n rt log1 inv signal))

    server_init-ok :
        (port : ℕ) (log : Log)
        → let (made, server, log') = edge_server_init env no_server port log in
          (made ≡ ok) × (server.ua ≡ true)
    unfolding edge_server_init
    server_init-ok port log =
        ground (arith, w.configures log, w.creates (ua_config_minimal port ∷ log))

    expose-well :
        (opts : Options) (store : EdgeStore) (model : EdgeModel) (m : EdgeModbus) (log : Log)
        → LinkInv m
        → Loadable model
        → ExitsWell (expose env (suc n) opts store model m log)
    unfolding expose
    expose-well opts store model m log inv h =
        let (made, server, log1) = edge_server_init env no_server opts.opcua_port log in
        let (loaded, log2) = edge_address_space_load env model log1 in
        let (fine, up) = server_init-ok opts.opcua_port log in
        when_ok ExitsWell made _ _ fine (
          when_ok ExitsWell loaded _ _ (address_space-ok env w.takes model log1 h)
            (serve-well server store model m log2 up inv))

    link-well :
        (opts : Options) (store : EdgeStore) (model : EdgeModel) (log : Log)
        → length opts.modbus_host < 64
        → Loadable model
        → ExitsWell (link env (suc n) opts store model log)
    unfolding link edge_modbus_init
    link-well opts store model log host h =
        let (linked, m) = edge_modbus_init (some opts.modbus_host) opts.modbus_port in
        when_ok ExitsWell linked _ _ (ground arith)
          (expose-well opts store model m log (init-Inv (some opts.modbus_host) opts.modbus_port) h)

    restore-well :
        (opts : Options) (store : EdgeStore) (model : EdgeModel) (log : Log)
        → length opts.modbus_host < 64
        → ModelFits model
        → Loadable model
        → ExitsWell (restore env (suc n) opts store model log)
    unfolding restore
    restore-well opts store model log host fits h =
        let (schema, log1) = edge_store_init_schema env log in
        let (persisted, log2) = edge_store_persist_model env model log1 in
        let (loaded, model', log3) = edge_store_load_latest_values env model log2 in
        when_ok ExitsWell schema _ _ (init_schema-ok w log) (
          when_ok ExitsWell persisted _ _ (store-succeeds env w.works model log1 fits).0 (
            when_ok ExitsWell loaded _ _ (store-succeeds env w.works model log2 fits).2
              (link-well opts store model' log3 host (load_latest-Loadable model log2 h))))

    wire-well :
        (strtod : Bytes → Parsed) (file : Option Bytes) (opts : Options) (model : EdgeModel)
        (log : Log)
        → length opts.modbus_host < 64
        → edge_config_load strtod file empty_model ≡ some (ok, model)
        → ExitsWell (wire_model env (suc n) opts ok model log)
    unfolding wire_model open_store edge_store_open
    wire-well strtod file opts model log host e =
        let fits = load-ModelFits strtod file empty_model model empty_fits e in
        let resolved = load-IsResolved strtod file empty_model model e in
        let (assets, wired, pairs) = wire-Wired model resolved fits in
        rw (wired, w.opens log, Returns)
          (restore-well opts (record { db = true }) _ (sqlite_open opts.db_path ∷ log) host
            (wired-ModelFits model fits assets pairs)
            (wired-Loadable model fits assets pairs resolved))

-- Where the file at the chosen path is a template that loads, the Modbus host is shorter than 64 bytes,
-- SQLite and the server take every call, the database has a version of 0 to 2 and a signal has come by
-- the n-th iteration, the process exits with code 0, with fuel above n: whatever the PLC does, also
-- where it never answers.
pub main-ExitsWell :
    (env : Env) (strtod : Bytes → Parsed) (files getenv : Bytes → Option Bytes) (argv : List Bytes)
    (n : ℕ) (model : EdgeModel)
    → Willing env
    → Signalled env n
    → length (options getenv argv).modbus_host < 64
    → edge_config_load strtod (files (options getenv argv).config_path) empty_model
      ≡ some (ok, model)
    → ExitsWell (main env strtod files getenv argv (suc n))
unfolding main install_signal_handlers load_model
main-ExitsWell env strtod files getenv argv n model w signal host e =
    rw (w.handlers [], w.handlers (sigaction_int ∷ []), e, Returns)
      (wire-well env w n signal strtod (files (options getenv argv).config_path)
        (options getenv argv) model (sigaction_term ∷ sigaction_int ∷ []) host e)
