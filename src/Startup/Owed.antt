-- ===== src/Startup/Owed.antt =====
-- src/main.c: what the process holds, up to the end of the server's run, and the calls that release it.
use opcua_edge.Base.{ℕ, suc, ◌+◌, ◌≤◌, ◌≡◌, ◌⊎◌, refl, ◌∙◌, inl, inr, false, some, arith}
use opcua_edge.Types.{EdgeStatus, ok, error, invalid, limit, EdgeModel}
use opcua_edge.World.{Log, Env}
use opcua_edge.Modbus.Link.{EdgeModbus, edge_modbus_clear}
use opcua_edge.Store.Schema.{EdgeStore, edge_store_close}
use opcua_edge.Server.{EdgeServer, edge_server_clear}
use opcua_edge.Books.{
  Resource, Entry, database, ua_server, server_run, modbus_context, held, bit, books,
}
use opcua_edge.Books.Kept.{Kept, persist_latest-Kept}
use opcua_edge.Books.Link.{Balance, clear-Balance}
use opcua_edge.Books.Run.{Returns, Returns-then, Signalled, run-Steady}
use opcua_edge.Modbus.Connection.{LinkInv}
use opcua_edge.Runtime.{
  EdgeRuntime, edge_runtime_init, edge_runtime_register, edge_runtime_unregister,
}
use opcua_edge.Server.{edge_server_run, edge_server_init}
use opcua_edge.Store.Latest.{edge_store_persist_latest_values}
use opcua_edge.Startup.{
  Exit, stop, serve, persist_every, tick_interval_ms, close_store, clear_server, clear_all,
}

-- What is held besides a run of the server.
abbrev pub owed : Resource → EdgeStore → EdgeServer → EdgeModbus → ℕ
owed database store server modbus = bit store.db
owed ua_server store server modbus = bit server.ua
owed modbus_context store server modbus = bit modbus.ctx
owed server_run store server modbus = 0

abbrev pub Owes : Env → Resource → EdgeStore → EdgeServer → EdgeModbus → Log → Type 0
Owes env r store server modbus log =
    let (gained, lost) = books env (held r) log in gained ≡ lost + owed r store server modbus

-- All is released.
abbrev pub Settled : Env → Resource → Log → Type 0
Settled env r log = let (gained, lost) = books env (held r) log in gained ≡ lost

-- The process exits, with a code of 0 or 1, and all is released.
abbrev pub Released : Env → Resource → Exit → Type 0
Released env r = Returns (λ (code, log). (code ≤ 1) × Settled env r log)

pub either_status {ℓ} :
    {A : Type ℓ} (P : A → Type 0) (status : EdgeStatus) (a b : A)
    → P a
    → P b
    → P (elim status [ ok ↦ a | _ ↦ b ])
either_status P ok a b h k = h
either_status P _ a b h k = k

-- The first branch, on a status that is OK.
pub when_ok {ℓ} :
    {A : Type ℓ} (P : A → Type 0) (status : EdgeStatus) (a b : A)
    → status ≡ ok
    → P a
    → P (elim status [ ok ↦ a | _ ↦ b ])
when_ok P ok a b e h = h
when_ok P error a b e h = absurd (ground arith)
when_ok P invalid a b e h = absurd (ground arith)
when_ok P limit a b e h = absurd (ground arith)

-- Either branch, where the second branch is right unless the status is OK.
pub ok_or {ℓ} :
    {A : Type ℓ} (P : A → Type 0) (status : EdgeStatus) (a b : A)
    → P a
    → (status ≡ ok) ⊎ P b
    → P (elim status [ ok ↦ a | _ ↦ b ])
ok_or P ok a b h k = h
ok_or P error a b h k = elim k [ inl e ↦ absurd (ground arith) | inr p ↦ p ]
ok_or P invalid a b h k = elim k [ inl e ↦ absurd (ground arith) | inr p ↦ p ]
ok_or P limit a b h k = elim k [ inl e ↦ absurd (ground arith) | inr p ↦ p ]

abbrev pub closed : EdgeStore
closed = record { db = false }

abbrev pub no_server : EdgeServer
no_server = record { ua = false; model = false }

module _ (env : Env) where
  register-Kept :
      (r : Entry) (rt : EdgeRuntime) (interval id : ℕ) (log : Log)
      → Kept env r log (edge_runtime_register env rt interval id log).2
  unfolding edge_runtime_register
  register-Kept r rt interval id log = ground arith

  unregister-Kept :
      (r : Entry) (rt : EdgeRuntime) (id : ℕ) (log : Log)
      → Kept env r log (edge_runtime_unregister rt id log)
  unfolding edge_runtime_unregister
  unregister-Kept r rt id log = ground arith

  pub Owes-Balance :
      (r : Resource) (store : EdgeStore) (server : EdgeServer) (m : EdgeModbus) (log : Log)
      (m' : EdgeModbus) (log' : Log)
      → Owes env r store server m log
      → Balance env (held r) m log m' log'
      → Owes env r store server m' log'
  Owes-Balance database store server m log m' log' h b = omega (arith, h, b)
  Owes-Balance ua_server store server m log m' log' h b = omega (arith, h, b)
  Owes-Balance modbus_context store server m log m' log' h b = omega (arith, h, b)
  Owes-Balance server_run store server m log m' log' h b = omega (arith, h, b)

  pub clear_server-Settled :
      (r : Resource) (store : EdgeStore) (server : EdgeServer) (m : EdgeModbus) (log : Log)
      → m.ctx ≡ false
      → Owes env r store server m log
      → Settled env r (clear_server server store log)
  unfolding edge_server_clear edge_store_close
  clear_server-Settled database store server m log down h = ground arith
  clear_server-Settled ua_server store server m log down h = ground arith
  clear_server-Settled modbus_context store server m log down h = ground arith
  clear_server-Settled server_run store server m log down h = ground arith

  pub close_store-Settled :
      (r : Resource) (store : EdgeStore) (m : EdgeModbus) (log : Log)
      → m.ctx ≡ false
      → Owes env r store no_server m log
      → Settled env r (close_store store log)
  unfolding edge_server_clear
  close_store-Settled r store m log down h = clear_server-Settled r store no_server m log down h

  pub clear_all-Settled :
      (r : Resource) (store : EdgeStore) (server : EdgeServer) (m : EdgeModbus) (log : Log)
      → Owes env r store server m log
      → Settled env r (clear_all m server store log)
  unfolding edge_modbus_clear
  clear_all-Settled r store server m log h =
      let (m', log') = edge_modbus_clear m log in
      clear_server-Settled r store server m' log' refl
        (Owes-Balance r store server m log m' log' h (clear-Balance env (held r) m log))

  pub Owes-Kept :
      (r : Resource) (store : EdgeStore) (server : EdgeServer) (m : EdgeModbus) (log log' : Log)
      → Kept env (held r) log log'
      → Owes env r store server m log
      → Owes env r store server m log'
  Owes-Kept r store server m log log' k h = rw k h

  stop-Settled :
      (r : Resource) (server : EdgeServer) (store : EdgeStore) (id : ℕ) (rt : EdgeRuntime)
      (log : Log)
      → Owes env r store server rt.modbus log
      → Settled env r (stop env server store id rt log)
  unfolding stop
  stop-Settled r server store id rt log h =
      let unregistered = edge_runtime_unregister rt id log in
      let (status, persisted) = edge_store_persist_latest_values env rt.model unregistered in
      clear_all-Settled r store server rt.modbus persisted (
        Owes-Kept r store server rt.modbus log persisted
          (persist_latest-Kept env (held r) rt.model unregistered
            ∙ unregister-Kept (held r) rt id log)
          h)

  pub serve-Released :
      (r : Resource) (n : ℕ) (server : EdgeServer) (store : EdgeStore) (model : EdgeModel)
      (m : EdgeModbus) (log : Log)
      → LinkInv m
      → Signalled env n
      → Owes env r store server m log
      → Released env r (serve env (suc n) server store model m log)
  unfolding serve edge_runtime_init
  serve-Released r n server store model m log inv signal h =
      let rt = edge_runtime_init server.ua model m persist_every in
      let (registered, id, log1) = edge_runtime_register env rt tick_interval_ms 0 log in
      let before =
        Owes-Kept r store server m log log1 (register-Kept (held r) rt tick_interval_ms 0 log) h in
      either_status (Released env r) registered _ _
        (Returns-then _ (edge_server_run env (suc n) rt log1)
          (λ (status, rt', log2). some (0, stop env server store id rt' log2))
          (λ (status, rt', log2) (_, balance). (
            omega arith,
            stop-Settled r server store id rt' log2
                (Owes-Balance r store server m log1 rt'.modbus log2 before balance),
          ))
          (run-Steady env r n rt log1 inv signal))
        (omega arith, clear_all-Settled r store server m log1 before)

  -- A server that is not created is not set.
  pub server_init-Owes :
      (r : Resource) (port : ℕ) (store : EdgeStore) (m : EdgeModbus) (log : Log)
      → Owes env r store no_server m log
      → let (made, server, log') = edge_server_init env no_server port log in
        Owes env r store server m log' × ((made ≡ ok) ⊎ (server ≡ no_server))
  unfolding edge_server_init
  server_init-Owes database port store m log h = ground arith
  server_init-Owes ua_server port store m log h = ground arith
  server_init-Owes modbus_context port store m log h = ground arith
  server_init-Owes server_run port store m log h = ground arith
