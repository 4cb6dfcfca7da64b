-- ===== src/Runtime/Schedule.antt =====
-- src/edge_runtime.c: how often the ticks persist the latest values.
use native.Mathlib.Nat.{
  suc-mod, mod-eq_of_lt, mod-lt, mod_self, div_self, div-eq_of_lt, mod-add-div', add-mul-div_right,
}
use native.Mathlib.Decide.{dec_lt}
use opcua_edge.Base.{
  ap, ◌*◌, ◌≢◌, ◌⊎◌, inl, inr, some, ℕ, zero, suc, ◌+◌, ◌/◌, ◌%◌, ◌^◌, ◌<◌, ◌≡◌, refl, ◌∙◌, Bool,
  arith, if◌then◌else◌, ◌==◌,
}
use opcua_edge.Types.{EdgeModel}
use opcua_edge.World.{Log, Env}
use opcua_edge.Modbus.Link.{EdgeModbus}
use opcua_edge.Modbus.Poll.{edge_modbus_poll}
use opcua_edge.Runtime.{
  EdgeRuntime, edge_runtime_init, drain_pending_writes, tick_steps, edge_runtime_tick, persist_due,
}
use opcua_edge.Runtime.Calls.{
  persists, drain_nodes-persists, poll-persists, evaluate-persists, persist-persists,
}

-- The runtime after `n` ticks.
pub run_ticks : Env → ℕ → EdgeRuntime × Log → EdgeRuntime × Log
run_ticks env zero s = s
run_ticks env (suc n) s = let (r, log) = run_ticks env n s in edge_runtime_tick env r log

steps-persists :
    (env : Env) (r : EdgeRuntime) (log : Log) → persists (tick_steps env r log).3 ≡ persists log
unfolding tick_steps drain_pending_writes
steps-persists env r log =
    let (model1, modbus1, log1) = drain_pending_writes env r.model r.modbus log in
    let (_, modbus2, model2, log2) = edge_modbus_poll env modbus1 model1 log1 in
    evaluate-persists env (some r.server) model2 log2
    ∙ poll-persists env modbus1 model1 log1
    ∙ drain_nodes-persists env r.model.nodes r.modbus log

abbrev bit : Bool → ℕ
bit b = if b then 1 else 0

tick-persists :
    (env : Env) (r : EdgeRuntime) (log : Log)
    → persists (edge_runtime_tick env r log).1
      ≡ persists log + bit (persist_due r.persist_every_n_ticks ((r.tick_count + 1) % 2 ^ 64))
unfolding edge_runtime_tick
tick-persists env r log =
    let (model, modbus, stats, log') = tick_steps env r log in
    ground (arith, steps-persists env r log, persist-persists env model log')

tick-counts :
    (env : Env) (r : EdgeRuntime) (log : Log)
    → ((edge_runtime_tick env r log).0.tick_count ≡ (r.tick_count + 1) % 2 ^ 64)
      × ((edge_runtime_tick env r log).0.persist_every_n_ticks ≡ r.persist_every_n_ticks)
unfolding edge_runtime_tick
tick-counts env r log = (refl, refl)

-- The number of ticks, out of the first `n`, that persist.
abbrev pub due_in : ℕ → ℕ → ℕ
due_in every n = if every == 0 then 0 else n / every

suc-div : (n k : ℕ) → 0 < k → suc n / k ≡ suc (n % k) / k + n / k
suc-div n k h =
    ap (λ (x : ℕ). x / k)
      (let e : suc n ≡ suc (n % k) + n / k * k = omega (arith, mod-add-div' n k) in e)
    ∙ add-mul-div_right (suc (n % k)) (n / k) h

-- The quotient grows exactly where the remainder returns to 0.
suc-div_cases :
    (n k : ℕ)
    → 0 < k
    → ((suc n % k ≡ 0) × (suc n / k ≡ n / k + 1)) ⊎ ((suc n % k ≢ 0) × (suc n / k ≡ n / k))
suc-div_cases n k h = elim (dec_lt (suc (n % k)) k) [
  | yes b ↦
      let small = mod-eq_of_lt b in
      inr (omega (arith, suc-mod n k, small), omega (arith, suc-div n k h, div-eq_of_lt b))
  | no b ↦
      let e : suc (n % k) ≡ k = omega (arith, mod-lt n h) in
      let m : suc (n % k) % k ≡ 0 = rw e (mod_self k) in
      let d : suc (n % k) / k ≡ 1 = rw e (div_self h) in
      inl (omega (arith, suc-mod n k, m), omega (arith, suc-div n k h, d))
]

next_due : (every n : ℕ) → due_in every (suc n) ≡ due_in every n + bit (persist_due every (suc n))
unfolding persist_due
next_due zero n = refl
next_due (suc k) n = ground (arith, suc-div_cases n (suc k) (omega arith))

module _ (env : Env) (server : Bool) (model : EdgeModel) (modbus : EdgeModbus) (every : ℕ)
    (log : Log) where
  abbrev pub after : ℕ → EdgeRuntime × Log
  after n = run_ticks env n (edge_runtime_init server model modbus every, log)

  after-counts :
      (n : ℕ)
      → n < 2 ^ 64
      → ((after n).0.tick_count ≡ n) × ((after n).0.persist_every_n_ticks ≡ every)
  unfolding run_ticks edge_runtime_init
  after-counts zero h = (refl, refl)
  after-counts (suc n) h =
      let (count, same) = after-counts n (omega arith) in
      let (count', same') = tick-counts env (after n).0 (after n).1 in
      (omega (arith, count, count'), same' ∙ same)

  -- From its start the runtime counts its ticks and persists the latest values in every `every`-th
  -- of them and in no other: n div `every` times in n ticks, for n below 2^64, and never where `every`
  -- is 0.
  pub persists-every :
      (n : ℕ)
      → n < 2 ^ 64
      → ((after n).0.tick_count ≡ n) × (persists (after n).1 ≡ persists log + due_in every n)
  unfolding run_ticks edge_runtime_init
  persists-every zero h = ground arith
  persists-every (suc n) h =
      let (count, so_far) = persists-every n (omega arith) in
      let (r, log') = after n in
      let same = (after-counts n (omega arith)).1 in
      let count' : (r.tick_count + 1) % 2 ^ 64 ≡ suc n = omega (arith, count) in
      let due : persists (edge_runtime_tick env r log').1
          ≡ persists log' + bit (persist_due every (suc n)) =
        tick-persists env r log' ∙ rw (same, count') in
      ((tick-counts env r log').0 ∙ count', omega (arith, due, so_far, next_due every n))
