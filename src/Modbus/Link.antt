-- ===== src/Modbus/Link.antt =====
-- src/edge_modbus.c: the connection, its backoff and its counters. The tests of pointer arguments
-- for null are left out: a model argument is an object. `ctx` says whether the pointer is set.
use opcua_edge.Base.{
  ℕ, ◌+◌, ◌*◌, ◌/◌, ◌%◌, ◌^◌, Bool, true, false, not, ◌||◌, Option, none, some, [], ◌∷◌, ltb, leb,
  ◌==◌, if◌then◌else◌, length, Bytes, is_empty,
}
use opcua_edge.Types.{EdgeStatus, ok, error, limit}
use opcua_edge.World.{
  clock_gettime, modbus_new_tcp, modbus_connect, modbus_close, modbus_free, Log, Env,
}

abbrev pub edge_modbus_host_len : ℕ
edge_modbus_host_len = 64

abbrev pub edge_modbus_register_base : ℕ
edge_modbus_register_base = 40001

abbrev pub edge_modbus_backoff_initial_us : ℕ
edge_modbus_backoff_initial_us = 500000

abbrev pub edge_modbus_backoff_max_us : ℕ
edge_modbus_backoff_max_us = 30000000

pub record EdgeModbus : Type 0 where
  pub host : Bytes
  pub port : ℕ
  pub connected : Bool
  pub enabled : Bool
  pub poll_count : ℕ
  pub read_ok_count : ℕ
  pub read_error_count : ℕ
  pub write_ok_count : ℕ
  pub write_error_count : ℕ
  pub next_connect_attempt_us : ℕ
  pub connect_backoff_us : ℕ
  pub ctx : Bool

-- `memset(modbus, 0, sizeof(*modbus))`
abbrev pub cleared : EdgeModbus
cleared = record {
  host = [];
  port = 0;
  connected = false;
  enabled = false;
  poll_count = 0;
  read_ok_count = 0;
  read_error_count = 0;
  write_ok_count = 0;
  write_error_count = 0;
  next_connect_attempt_us = 0;
  connect_backoff_us = 0;
  ctx = false;
}

-- `count++` of a uint64_t.
abbrev pub increment : ℕ → ℕ
increment count = (count + 1) % 2 ^ 64

unfoldable pub now_us : Env → Log → ℕ × Log
now_us env log =
    let (sec, nsec) = env.clock log in ((sec * 1000000 + nsec / 1000) % 2 ^ 64, clock_gettime ∷ log)

-- A host that is null is `none`.
unfoldable pub edge_modbus_init : Option Bytes → ℕ → EdgeStatus × EdgeModbus
edge_modbus_init none port = (ok, cleared)
edge_modbus_init (some host) port =
    if is_empty host || port == 0
    then (ok, cleared)
    else if leb edge_modbus_host_len (length host)
    then (limit, cleared)
    else (ok, record cleared { host = host; port = port; enabled = true })

-- The wait after one more failure.
unfoldable pub next_backoff : ℕ → ℕ
next_backoff backoff =
    let next = if backoff == 0 then edge_modbus_backoff_initial_us else backoff * 2 % 2 ^ 64 in
    if ltb edge_modbus_backoff_max_us next then edge_modbus_backoff_max_us else next

unfoldable pub note_connect_failure : Env → EdgeModbus → Log → EdgeModbus × Log
note_connect_failure env modbus log =
    let next = next_backoff modbus.connect_backoff_us in
    let (now, log') = now_us env log in
    (
      record modbus { connect_backoff_us = next; next_connect_attempt_us = (now + next) % 2 ^ 64 },
      log',
    )

-- `next_connect_attempt_us != 0 && now_us() < next_connect_attempt_us`, with the clock's call.
unfoldable pub must_wait : Env → EdgeModbus → Log → Bool × Log
must_wait env modbus log =
    let (now, log') = now_us env log in
    if modbus.next_connect_attempt_us == 0
    then (false, log)
    else (ltb now modbus.next_connect_attempt_us, log')

abbrev failed : EdgeModbus × Log → EdgeStatus × EdgeModbus × Log
failed (modbus, log) = (error, modbus, log)

-- From `modbus_new_tcp` on.
unfoldable pub attempt : Env → EdgeModbus → Log → EdgeStatus × EdgeModbus × Log
attempt env modbus log =
    let created = modbus_new_tcp modbus.host modbus.port ∷ log in
    let tried = modbus_connect ∷ created in
    if not (env.new_tcp log)
    then failed (note_connect_failure env modbus created)
    else if not (env.connects created)
    then failed (note_connect_failure env modbus (modbus_free ∷ tried))
    else (
      ok,
      record modbus {
        ctx = true;
        connected = true;
        connect_backoff_us = 0;
        next_connect_attempt_us = 0;
      },
      tried,
    )

unfoldable pub edge_modbus_connect : Env → EdgeModbus → Log → EdgeStatus × EdgeModbus × Log
unfolding attempt must_wait
edge_modbus_connect env modbus log =
    let (wait, log') = must_wait env modbus log in
    if not modbus.enabled
    then (ok, modbus, log)
    else if modbus.connected
    then (ok, modbus, log)
    else if wait
    then (error, modbus, log')
    else attempt env modbus log'

unfoldable pub edge_modbus_disconnect : EdgeModbus → Log → EdgeModbus × Log
edge_modbus_disconnect modbus log =
    if not modbus.ctx
    then (modbus, log)
    else (record modbus { ctx = false; connected = false }, modbus_free ∷ modbus_close ∷ log)

unfoldable pub edge_modbus_clear : EdgeModbus → Log → EdgeModbus × Log
edge_modbus_clear modbus log = let (_, log') = edge_modbus_disconnect modbus log in (cleared, log')
