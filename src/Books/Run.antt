-- ===== src/Books/Run.antt =====
-- src/edge_runtime.c, src/edge_server.c: the books behind a tick, a callback and the server's loop.
use opcua_edge.Base.{
  ℕ, zero, suc, ◌+◌, ◌≤◌, ◌≡◌, refl, inl, inr, true, false, Option, none, some, List, [], ◌∷◌,
  arith, Bool-cases,
}
use opcua_edge.Types.{ok, EdgeNode}
use opcua_edge.World.{
  Call, sqlite_close, ua_delete_server, modbus_free, Callback, repeated, written, ua_run_iterate,
  ua_run_startup, ua_run_shutdown, Log, Env,
}
use opcua_edge.Modbus.Link.{EdgeModbus}
use opcua_edge.Modbus.Poll.{edge_modbus_poll}
use opcua_edge.Modbus.Connection.{LinkInv, poll-Inv, write_node-Inv}
use opcua_edge.Events.{edge_events_evaluate}
use opcua_edge.Runtime.{
  EdgeRuntime, drain_node, drain_nodes, drain_pending_writes, tick_steps, edge_runtime_tick,
}
use opcua_edge.Server.{run_callback, run_callbacks, iterate, server_loop, edge_server_run}
use opcua_edge.Books.{
  Resource, Entry, database, ua_server, server_run, modbus_context, held, iteration, gains, losses,
  books,
}
use opcua_edge.Books.Kept.{evaluate-Kept, persist_latest-Kept}
use opcua_edge.Books.Link.{Balance, poll-Balance, write_node-Balance}

-- The link keeps its invariant, and the books balance.
abbrev pub Steady : Env → Entry → EdgeModbus → Log → EdgeModbus → Log → Type 0
Steady env r m log m' log' = LinkInv m' × Balance env r m log m' log'

abbrev pub Returns {ℓ} : {A : Type ℓ} → (A → Type 0) → Option A → Type 0
Returns P none = ⊥
Returns P (some a) = P a

pub Returns-map {ℓ} :
    {A : Type ℓ} {P Q : A → Type 0} (o : Option A)
    → ((a : A) → P a → Q a)
    → Returns P o
    → Returns Q o
Returns-map none f p = p
Returns-map (some a) f p = f a p

pub Returns-then {ℓ ℓ'} :
    {A : Type ℓ} {B : Type ℓ'} {P : A → Type 0} (Q : B → Type 0) (o : Option A) (f : A → Option B)
    → ((a : A) → P a → Returns Q (f a))
    → Returns P o
    → Returns Q (elim o [ none ↦ none | some a ↦ f a ])
Returns-then Q none f h p = p
Returns-then Q (some a) f h p = h a p

abbrev pub SteadyRun : Env → Entry → EdgeRuntime → Log → EdgeRuntime × Log → Type 0
SteadyRun env r rt log (rt', log') = Steady env r rt.modbus log rt'.modbus log'

-- A signal has cleared `g_running` by the n-th iteration.
abbrev pub Signalled : Env → ℕ → Type 0
Signalled env n = (log : Log) → n ≤ (books env iteration log).0 → env.running log ≡ false

module _ (env : Env) (r : Entry) where
  Steady-trans :
      (m : EdgeModbus) (log : Log) (m' : EdgeModbus) (log' : Log) (m'' : EdgeModbus) (log'' : Log)
      → Steady env r m log m' log'
      → Steady env r m' log' m'' log''
      → Steady env r m log m'' log''
  Steady-trans m log m' log' m'' log'' (i, b) (j, c) = (j, omega (arith, b, c))

  drain_node-Steady :
      (n : EdgeNode) (m : EdgeModbus) (log : Log)
      → LinkInv m
      → let (n', m', log') = drain_node env n m log in Steady env r m log m' log'
  unfolding drain_node
  drain_node-Steady n m log h =
      ground (arith, h, write_node-Inv env m n log h, write_node-Balance env r m n log h)

  drain_nodes-Steady :
      (nodes : List EdgeNode) (m : EdgeModbus) (log : Log)
      → LinkInv m
      → let (nodes', m', log') = drain_nodes env nodes m log in Steady env r m log m' log'
  unfolding drain_nodes
  drain_nodes-Steady [] m log h = (h, refl)
  drain_nodes-Steady (n ∷ rest) m log h =
      let (n', m', log') = drain_node env n m log in
      let first = drain_node-Steady n m log h in
      let (rest', m'', log'') = drain_nodes env rest m' log' in
      Steady-trans m log m' log' m'' log'' first (drain_nodes-Steady rest m' log' first.0)

  tick-Steady :
      (rt : EdgeRuntime) (log : Log)
      → LinkInv rt.modbus
      → SteadyRun env r rt log (edge_runtime_tick env rt log)
  unfolding edge_runtime_tick tick_steps drain_pending_writes
  tick-Steady rt log h =
      let (nodes, m1, log1) = drain_nodes env rt.model.nodes rt.modbus log in
      let drained = record (rt.model) { nodes = nodes } in
      let (status, m2, polled, log2) = edge_modbus_poll env m1 drained log1 in
      let (status', evaluated, stats, log3) =
        edge_events_evaluate env (some rt.server) polled log2 in
      let first = drain_nodes-Steady rt.model.nodes rt.modbus log h in
      ground (
        arith,
        first,
        poll-Inv env m1 drained log1 first.0,
        poll-Balance env r m1 drained log1 first.0,
        evaluate-Kept env r (some rt.server) polled log2,
        persist_latest-Kept env r evaluated log3,
      )

  callback-Steady :
      (c : Callback) (rt : EdgeRuntime) (log : Log)
      → LinkInv rt.modbus
      → SteadyRun env r rt log (run_callback env c rt log)
  unfolding run_callback
  callback-Steady repeated rt log h = tick-Steady rt log h
  callback-Steady (written i value) rt log h = (h, refl)

  callbacks-Steady :
      (cs : List Callback) (rt : EdgeRuntime) (log : Log)
      → LinkInv rt.modbus
      → SteadyRun env r rt log (run_callbacks env cs rt log)
  unfolding run_callbacks
  callbacks-Steady [] rt log h = (h, refl)
  callbacks-Steady (c ∷ rest) rt log h =
      let (rt', log') = run_callback env c rt log in
      let first = callback-Steady c rt log h in
      let (rt'', log'') = run_callbacks env rest rt' log' in
      Steady-trans rt.modbus log rt'.modbus log' rt''.modbus log'' first
        (callbacks-Steady rest rt' log' first.0)

iteration-loss : (call : Call) → losses call iteration ≡ 0
iteration-loss sqlite_close = refl
iteration-loss ua_delete_server = refl
iteration-loss ua_run_shutdown = refl
iteration-loss modbus_free = refl
iteration-loss _ = refl

iterations_kept : (env : Env) (log : Log) → (books env iteration log).1 ≡ 0
iterations_kept env [] = refl
iterations_kept env (call ∷ log) = omega (arith, iteration-loss call, iterations_kept env log)

-- A run that starts is shut down.
startup-shutdown :
    (env : Env) (r : Resource) (log : Log)
    → env.starts_server log ≡ true
    → gains env ua_run_startup (held r) log ≡ losses ua_run_shutdown (held r)
startup-shutdown env server_run log e = rw e refl
startup-shutdown env database log e = refl
startup-shutdown env ua_server log e = refl
startup-shutdown env modbus_context log e = refl

startup-fails :
    (env : Env) (r : Resource) (log : Log)
    → env.starts_server log ≡ false
    → gains env ua_run_startup (held r) log ≡ 0
startup-fails env server_run log e = rw e refl
startup-fails env database log e = refl
startup-fails env ua_server log e = refl
startup-fails env modbus_context log e = refl

module _ (env : Env) (r : Resource) where
  -- The loop returns within the fuel, with a steady run behind it.
  loop-Steady :
      (fuel n : ℕ) (rt : EdgeRuntime) (log : Log)
      → LinkInv rt.modbus
      → Signalled env n
      → n ≤ (books env iteration log).0 + fuel
      → Returns (SteadyRun env (held r) rt log) (server_loop env (suc fuel) rt log)
  unfolding server_loop iterate
  loop-Steady zero n rt log h signal le =
      let off : env.running log ≡ false = signal log (omega (arith, le)) in
      rw (off, Returns) (h, refl)
  loop-Steady (suc fuel) n rt log h signal le =
      let begun = ua_run_iterate ∷ log in
      let (rt', log') = run_callbacks env (env.iterates log) rt begun in
      let first = callbacks-Steady env (held r) (env.iterates log) rt begun h in
      let counted = callbacks-Steady env iteration (env.iterates log) rt begun h in
      elim (Bool-cases (env.running log)) [
        | inl e ↦
            rw (e, Returns)
              (Returns-map (server_loop env (suc fuel) rt' log')
                (λ (rt'', log'') next.
                  Steady-trans env (held r) rt.modbus log rt'.modbus log' rt''.modbus log''
                    (first.0, omega (arith, first.1)) next)
                (loop-Steady fuel n rt' log' first.0 signal (
                  omega (arith, le, counted.1, iterations_kept env log, iterations_kept env log'))))
        | inr e ↦ rw (e, Returns) (h, refl)
      ]

  pub run-Steady :
      (n : ℕ) (rt : EdgeRuntime) (log : Log)
      → LinkInv rt.modbus
      → Signalled env n
      → Returns
          (λ (status, rt', log'). Steady env (held r) rt.modbus log rt'.modbus log')
          (edge_server_run env (suc n) rt log)
  unfolding edge_server_run
  run-Steady n rt log h signal =
      let started = ua_run_startup ∷ log in
      let looped = loop-Steady n n rt started h signal (omega arith) in
      elim (Bool-cases (env.starts_server log)) [
        | inl e ↦ rw e (
            Returns-then _ (server_loop env (suc n) rt started)
              (λ (rt', log'). some (ok, rt', ua_run_shutdown ∷ log'))
              (λ (rt', log') (i, b). (i, ground (arith, b, startup-shutdown env r log e))) looped)
        | inr e ↦ rw e (h, ground (arith, startup-fails env r log e))
      ]
