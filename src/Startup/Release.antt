-- ===== src/Startup/Release.antt =====
-- src/main.c: what the process has released when it ends, by whichever branch.
use opcua_edge.Base.{
  ℕ, suc, ◌≡◌, refl, subst, if_both, not, inl, inr, true, false, Option, none, some, List, [], ◌∷◌,
  arith, Bool-cases, Bytes,
}
use opcua_edge.Types.{EdgeStatus, ok, EdgeModel}
use opcua_edge.World.{Log, Env}
use opcua_edge.Modbus.Link.{EdgeModbus, edge_modbus_init, cleared}
use opcua_edge.Store.Schema.{EdgeStore, edge_store_init_schema, edge_store_open}
use opcua_edge.Server.{EdgeServer}
use opcua_edge.Books.{Resource, database, ua_server, server_run, modbus_context, held}
use opcua_edge.Books.Kept.{
  persist_model-Kept, load_latest-Kept, init_schema-Kept, address_space-Kept,
}
use opcua_edge.Books.Run.{Returns, Signalled}
use opcua_edge.Modbus.Connection.{LinkInv, init-Inv}
use opcua_edge.Server.{edge_server_init}
use opcua_edge.Store.Latest.{edge_store_load_latest_values}
use opcua_edge.AddressSpace.{edge_address_space_load}
use opcua_edge.Startup.Settings.{Options, options}
use opcua_edge.Store.Persist.{edge_store_persist_model}
use opcua_edge.World.{sqlite_open}
use opcua_edge.Config.Fields.{Parsed}
use opcua_edge.Config.Loader.{empty_model}
use opcua_edge.Config.Resolve.{edge_config_load}
use opcua_edge.Config.Bounds.{ModelFits}
use opcua_edge.Config.Load.{load-IsResolved, load-ModelFits, load-Finishes}
use opcua_edge.Config.Wired.{wire-Wired}
use opcua_edge.Startup.{
  expose, link, restore, open_store, load_model, wire_model, main, install_signal_handlers,
  close_store,
}
use opcua_edge.Startup.Owed.{
  Owes, Settled, Released, either_status, ok_or, closed, no_server, clear_server-Settled,
  close_store-Settled, Owes-Kept, serve-Released, server_init-Owes,
}

pub empty_fits : ModelFits empty_model
empty_fits = ground arith

module _ (env : Env) where
  expose-Released :
      (r : Resource) (n : ℕ) (opts : Options) (store : EdgeStore) (model : EdgeModel)
      (m : EdgeModbus) (log : Log)
      → LinkInv m
      → m.ctx ≡ false
      → Signalled env n
      → Owes env r store no_server m log
      → Released env r (expose env (suc n) opts store model m log)
  unfolding expose
  expose-Released r n opts store model m log inv down signal h =
      let (made, server, log1) = edge_server_init env no_server opts.opcua_port log in
      let (loaded, log2) = edge_address_space_load env model log1 in
      let (before, outcome) = server_init-Owes env r opts.opcua_port store m log h in
      let after =
        Owes-Kept env r store server m log1 log2 (address_space-Kept env (held r) model log1)
          before in
      ok_or (Released env r) made _ _
        (either_status (Released env r) loaded _ _
          (serve-Released env r n server store model m log2 inv signal after)
          (omega arith, clear_server-Settled env r store server m log2 down after))
        (elim outcome [
          | inl e ↦ inl e
          | inr e ↦ inr (
            omega arith,
            close_store-Settled env r store m log1 down
                (subst (λ (s : EdgeServer). Owes env r store s m log1) e before),
          )
        ])

  init-down : (host : Option Bytes) (port : ℕ) → (edge_modbus_init host port).1.ctx ≡ false
  unfolding edge_modbus_init
  init-down none port = refl
  init-down (some host) port = ground arith

  -- Before the link and the server are made.
  Opened : Resource → EdgeStore → Log → Type 0
  Opened r store log = Owes env r store no_server cleared log

  link-Owes :
      (r : Resource) (store : EdgeStore) (m : EdgeModbus) (log : Log)
      → m.ctx ≡ false
      → Opened r store log
      → Owes env r store no_server m log
  unfolding Opened
  link-Owes database store m log down h = h
  link-Owes ua_server store m log down h = h
  link-Owes modbus_context store m log down h = rw down h
  link-Owes server_run store m log down h = h

  closed_store :
      (r : Resource) (store : EdgeStore) (log : Log)
      → Opened r store log
      → Settled env r (close_store store log)
  unfolding Opened
  closed_store r store log h = close_store-Settled env r store cleared log refl h

  link-Released :
      (r : Resource) (n : ℕ) (opts : Options) (store : EdgeStore) (model : EdgeModel) (log : Log)
      → Signalled env n
      → Opened r store log
      → Released env r (link env (suc n) opts store model log)
  unfolding link
  link-Released r n opts store model log signal h =
      let (linked, m) = edge_modbus_init (some opts.modbus_host) opts.modbus_port in
      let down = init-down (some opts.modbus_host) opts.modbus_port in
      either_status (Released env r) linked _ _
        (expose-Released r n opts store model m log
          (init-Inv (some opts.modbus_host) opts.modbus_port) down signal
          (link-Owes r store m log down h))
        (omega arith, closed_store r store log h)

  restore-Released :
      (r : Resource) (n : ℕ) (opts : Options) (store : EdgeStore) (model : EdgeModel) (log : Log)
      → Signalled env n
      → Opened r store log
      → Released env r (restore env (suc n) opts store model log)
  unfolding restore Opened
  restore-Released r n opts store model log signal h =
      let (schema, log1) = edge_store_init_schema env log in
      let (persisted, log2) = edge_store_persist_model env model log1 in
      let (loaded, model', log3) = edge_store_load_latest_values env model log2 in
      let keep = Owes-Kept env r store no_server cleared in
      let h1 = keep log log1 (init_schema-Kept env (held r) log) h in
      let h2 = keep log1 log2 (persist_model-Kept env (held r) model log1) h1 in
      let h3 = keep log2 log3 (load_latest-Kept env (held r) model log2) h2 in
      either_status (Released env r) schema _ _
        (either_status (Released env r) persisted _ _
          (either_status (Released env r) loaded _ _
            (link-Released r n opts store model' log3 signal h3)
            (omega arith, closed_store r store log3 h3))
          (omega arith, closed_store r store log2 h2))
        (omega arith, closed_store r store log1 h1)

  -- Before anything is held.
  abbrev Untouched : Resource → Log → Type 0
  Untouched r log = Owes env r closed no_server cleared log

  Untouched-Settled : (r : Resource) (log : Log) → Untouched r log → Settled env r log
  Untouched-Settled database log h = omega (arith, h)
  Untouched-Settled ua_server log h = omega (arith, h)
  Untouched-Settled modbus_context log h = omega (arith, h)
  Untouched-Settled server_run log h = omega (arith, h)

  handlers-Untouched : (r : Resource) → Untouched r (install_signal_handlers env []).1
  unfolding install_signal_handlers
  handlers-Untouched database = ground arith
  handlers-Untouched ua_server = ground arith
  handlers-Untouched modbus_context = ground arith
  handlers-Untouched server_run = ground arith

  Opened-Owes :
      (r : Resource) (path : Bytes) (log : Log)
      → env.opens log ≡ true
      → Untouched r log
      → Opened r (record { db = true }) (sqlite_open path ∷ log)
  unfolding Opened
  Opened-Owes database path log e h = ground arith
  Opened-Owes ua_server path log e h = ground arith
  Opened-Owes modbus_context path log e h = ground arith
  Opened-Owes server_run path log e h = ground arith

  refused-Settled :
      (r : Resource) (path : Bytes) (log : Log)
      → env.opens log ≡ false
      → Untouched r log
      → Settled env r (sqlite_open path ∷ log)
  refused-Settled database path log e h = ground arith
  refused-Settled ua_server path log e h = ground arith
  refused-Settled modbus_context path log e h = ground arith
  refused-Settled server_run path log e h = ground arith

  open_store-Released :
      (r : Resource) (n : ℕ) (opts : Options) (model : EdgeModel) (log : Log)
      → Signalled env n
      → Untouched r log
      → Released env r (open_store env (suc n) opts model log)
  unfolding open_store edge_store_open Opened
  open_store-Released r n opts model log signal h =
      let opened = sqlite_open opts.db_path ∷ log in
      let store : EdgeStore = record { db = true } in
      elim (Bool-cases (env.opens log)) [
        | inl e ↦
            rw (e, Returns)
              (restore-Released r n opts store model opened signal
                (Opened-Owes r opts.db_path log e h))
        | inr e ↦ rw (e, Returns) (omega arith, refused-Settled r opts.db_path log e h)
      ]

  loaded-Released :
      (r : Resource) (n : ℕ) (opts : Options) (strtod : Bytes → Parsed) (file : Option Bytes)
      (status : EdgeStatus) (model : EdgeModel) (log : Log)
      → Signalled env n
      → Untouched r log
      → edge_config_load strtod file empty_model ≡ some (status, model)
      → Released env r (wire_model env (suc n) opts status model log)
  unfolding wire_model
  loaded-Released r n opts strtod file ok model log signal h e =
      let fits = load-ModelFits strtod file empty_model model empty_fits e in
      let resolved = load-IsResolved strtod file empty_model model e in
      let (assets, wired, _) = wire-Wired model resolved fits in
      rw (wired, Returns) (open_store-Released r n opts _ log signal h)
  loaded-Released r n opts strtod file _ model log signal h e =
      (omega arith, Untouched-Settled r log h)

  load_model-Released :
      (strtod : Bytes → Parsed) (files : Bytes → Option Bytes) (r : Resource) (n : ℕ)
      (opts : Options) (log : Log)
      → Signalled env n
      → Untouched r log
      → Released env r (load_model env strtod files (suc n) opts log)
  unfolding load_model
  load_model-Released strtod files r n opts log signal h =
      let file = files opts.config_path in
      let ((status, model), e) = load-Finishes strtod file empty_model empty_fits in
      rw (e, Returns) (loaded-Released r n opts strtod file status model log signal h e)

-- If a signal has come by the n-th iteration of the server, the process exits, with code 0 or 1,
-- whatever else its environment replies and whatever the files, variables and arguments hold: with fuel
-- above n the loop ends. It has then released every database that it opened, every server that it
-- created or started and every Modbus context that it made, by whichever branch it exits; the handle of
-- a database that fails to open is not counted.
pub main-Released :
    (env : Env) (strtod : Bytes → Parsed) (files getenv : Bytes → Option Bytes) (argv : List Bytes)
    (n : ℕ) (r : Resource)
    → Signalled env n
    → Released env r (main env strtod files getenv argv (suc n))
unfolding main
main-Released env strtod files getenv argv n r signal =
    let (installed, log) = install_signal_handlers env [] in
    let fresh = handlers-Untouched env r in
    if_both (Released env r) (not installed) _ _ (omega arith, Untouched-Settled env r log fresh)
      (load_model-Released env strtod files r n (options getenv argv) log signal fresh)
