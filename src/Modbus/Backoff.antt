-- ===== src/Modbus/Backoff.antt =====
-- src/edge_modbus.c: the reconnect backoff.
use native.Mathlib.Nat.{pow-suc}
use opcua_edge.Base.{
  ℕ, zero, suc, ◌+◌, ◌*◌, ◌%◌, ◌^◌, ◌<◌, ◌≤◌, ◌≡◌, ◌⊎◌, refl, sym, ap, ◌∙◌, true, false, ◌∷◌, arith,
  if◌then◌else◌, leb, ◌==◌,
}
use opcua_edge.Types.{EdgeStatus, ok, error}
use opcua_edge.World.{clock_gettime, modbus_new_tcp, modbus_connect, modbus_free, tail, Log, Env}
use opcua_edge.Modbus.Link.{
  EdgeModbus, now_us, next_backoff, note_connect_failure, edge_modbus_connect,
  edge_modbus_backoff_max_us,
}

-- The wait after `n` failures in a row, from a link that was up.
unfoldable pub backoff_after : ℕ → ℕ
backoff_after zero = 0
backoff_after (suc n) = next_backoff (backoff_after n)

-- The documented schedule: 0.5 s, doubled by each failure, and 30 s at most.
abbrev pub schedule : ℕ → ℕ
schedule n = if leb edge_modbus_backoff_max_us (500000 * 2 ^ n) then 30000000 else 500000 * 2 ^ n

pow_twice : (n : ℕ) → 2 ^ suc n ≡ 2 * 2 ^ n
pow_twice n = omega (arith, pow-suc 2 n)

next_schedule :
    (p : ℕ)
    → 0 < p
    → next_backoff (if leb 30000000 (500000 * p) then 30000000 else 500000 * p)
      ≡ (if leb 30000000 (500000 * (2 * p)) then 30000000 else 500000 * (2 * p))
unfolding next_backoff
next_schedule p h = ground arith

pow_pos : (n : ℕ) → 0 < 2 ^ n
pow_pos zero = omega arith
pow_pos (suc n) = omega (arith, pow_twice n, pow_pos n)

-- After n + 1 failures in a row the wait is the smaller of 500000 * 2^n and 30000000 microseconds.
pub backoff_after-schedule : (n : ℕ) → backoff_after (suc n) ≡ schedule n
unfolding backoff_after next_backoff
backoff_after-schedule zero = refl
backoff_after-schedule (suc n) =
    ap next_backoff (backoff_after-schedule n)
    ∙ next_schedule (2 ^ n) (pow_pos n)
    ∙ ap (λ (p : ℕ). if leb 30000000 (500000 * p) then 30000000 else 500000 * p) (sym (pow_twice n))

-- The log behind the question whether the link has to wait.
abbrev pub waited : EdgeModbus → Log → Log
waited m log = if m.next_connect_attempt_us == 0 then log else clock_gettime ∷ log

-- The calls of an attempt, up to `modbus_connect`.
abbrev pub created : EdgeModbus → Log → Log
created m log = modbus_new_tcp m.host m.port ∷ waited m log

-- The link is down, and its next attempt is due.
abbrev pub Due : Env → EdgeModbus → Log → Type 0
Due env m log =
    (m.enabled ≡ true) × (m.connected ≡ false) × (m.next_connect_attempt_us ≤ (now_us env log).0)

-- The attempt went wrong: no context, or a context that does not connect and is freed.
abbrev pub Fails : Env → EdgeModbus → Log → Log → Type 0
Fails env m log log' =
    ((log' ≡ clock_gettime ∷ created m log) × (env.new_tcp (waited m log) ≡ false))
    ⊎ ((log' ≡ clock_gettime ∷ modbus_free ∷ modbus_connect ∷ created m log)
        × (env.new_tcp (waited m log) ≡ true)
        × (env.connects (created m log) ≡ false))

-- One call of `edge_modbus_connect`: what each status says of the link and of the calls made.
abbrev pub ConnectPost : Env → EdgeModbus → Log → EdgeStatus → EdgeModbus → Log → Type 0
ConnectPost env m log status m' log' =
    ((status ≡ ok) × ((m.enabled ≡ false) ⊎ (m.connected ≡ true)) × (m' ≡ m) × (log' ≡ log))
    ⊎ ((status ≡ error)
        × (m.enabled ≡ true)
        × (m.connected ≡ false)
        × ((now_us env log).0 < m.next_connect_attempt_us)
        × (m' ≡ m)
        × (log' ≡ clock_gettime ∷ log))
    ⊎ ((status ≡ ok)
        × Due env m log
        × (env.new_tcp (waited m log) ≡ true)
        × (env.connects (created m log) ≡ true)
        × (log' ≡ modbus_connect ∷ created m log)
        × (m' ≡ record m {
          ctx = true;
          connected = true;
          connect_backoff_us = 0;
          next_connect_attempt_us = 0;
        }))
    ⊎ ((status ≡ error)
        × Due env m log
        × Fails env m log log'
        × (m' ≡ record m {
          connect_backoff_us = next_backoff m.connect_backoff_us;
          next_connect_attempt_us =
              ((now_us env (tail log')).0 + next_backoff m.connect_backoff_us) % 2 ^ 64;
        }))

-- `edge_modbus_connect` succeeds and does nothing where the link is disabled or up. Else it fails,
-- with no contact, where its next attempt is not due yet; where it is due, it makes one attempt,
-- which succeeds with the link up and the backoff reset when the context is made and connects, and
-- else fails, with a context that was made freed, the next backoff set and due from that time on, and nothing
-- else changed.
pub connect-ConnectPost :
    (env : Env) (m : EdgeModbus) (log : Log)
    → let (status, m', log') = edge_modbus_connect env m log in ConnectPost env m log status m' log'
unfolding edge_modbus_connect note_connect_failure now_us
connect-ConnectPost env m log = ground arith
