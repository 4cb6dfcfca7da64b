-- ===== src/Modbus/Connection.antt =====
-- src/edge_modbus.c: the states that a link can be in.
use opcua_edge.Base.{
  ℕ, ◌≤◌, ◌≡◌, ◌⊎◌, inl, inr, true, false, Option, none, some, List, [], ◌∷◌, arith, Bytes,
  Bool-cases,
}
use opcua_edge.Types.{EdgeNode, EdgeModel}
use opcua_edge.World.{Log, Env}
use opcua_edge.Modbus.Link.{
  EdgeModbus, increment, cleared, next_backoff, note_connect_failure, attempt, edge_modbus_init,
  edge_modbus_connect, edge_modbus_disconnect, edge_modbus_clear,
}
use opcua_edge.Modbus.Poll.{
  PollState, read_node, poll_node, poll_nodes, poll_start, poll_all, edge_modbus_poll, write_linked,
  edge_modbus_write_node,
}

-- The link is up exactly when it has a context, then with no backoff; a disabled link is down; the
-- backoff stays within its maximum.
pub record LinkInv (m : EdgeModbus) : Type 0 where
  pub ctx_set : m.ctx ≡ m.connected
  pub disabled_down : (m.enabled ≡ true) ⊎ (m.connected ≡ false)
  pub up_fresh :
      (m.connected ≡ false) ⊎ ((m.connect_backoff_us ≡ 0) × (m.next_connect_attempt_us ≡ 0))
  pub bounded : m.connect_backoff_us ≤ 30000000

cleared-Inv : LinkInv cleared
cleared-Inv = ground arith

pub init-Inv : (host : Option Bytes) (port : ℕ) → LinkInv (edge_modbus_init host port).1
unfolding edge_modbus_init
init-Inv none port = cleared-Inv
init-Inv (some h) port = ground arith

next_backoff-le : (b : ℕ) → next_backoff b ≤ 30000000
unfolding next_backoff
next_backoff-le b = ground arith

note-Inv :
    (env : Env) (m : EdgeModbus) (log : Log)
    → m.connected ≡ false
    → LinkInv m
    → LinkInv (note_connect_failure env m log).0
unfolding note_connect_failure
note-Inv env m log down h = ground (arith, next_backoff-le m.connect_backoff_us)

attempt-Inv :
    (env : Env) (m : EdgeModbus) (log : Log)
    → m.connected ≡ false
    → m.enabled ≡ true
    → LinkInv m
    → LinkInv (attempt env m log).1
unfolding attempt note_connect_failure
attempt-Inv env m log down on h = ground (arith, next_backoff-le m.connect_backoff_us)

pub connect-Inv :
    (env : Env) (m : EdgeModbus) (log : Log) → LinkInv m → LinkInv (edge_modbus_connect env m log).1
unfolding edge_modbus_connect note_connect_failure
connect-Inv env m log h = ground (arith, next_backoff-le m.connect_backoff_us)

pub disconnect-Inv :
    (m : EdgeModbus) (log : Log) → LinkInv m → LinkInv (edge_modbus_disconnect m log).0
unfolding edge_modbus_disconnect
disconnect-Inv m log h = ground arith

pub read_node-Inv :
    (env : Env) (n : EdgeNode) (s : PollState)
    → LinkInv s.modbus
    → LinkInv (read_node env n s).1.modbus
unfolding read_node edge_modbus_disconnect
read_node-Inv env n s h = ground arith

pub poll_node-Inv :
    (env : Env) (n : EdgeNode) (s : PollState)
    → LinkInv s.modbus
    → LinkInv (poll_node env n s).1.modbus
unfolding poll_node read_node edge_modbus_disconnect
poll_node-Inv env n s h = ground arith

poll_nodes-Inv :
    (env : Env) (nodes : List EdgeNode) (s : PollState)
    → LinkInv s.modbus
    → LinkInv (poll_nodes env nodes s).1.modbus
unfolding poll_nodes
poll_nodes-Inv env [] s h = h
poll_nodes-Inv env (n ∷ rest) s h =
    let first = poll_node-Inv env n s h in
    elim (Bool-cases (poll_node env n s).1.stopped) [
      | inl e ↦ rw e first
      | inr e ↦ rw e (poll_nodes-Inv env rest (poll_node env n s).1 first)
    ]

poll_all-Inv :
    (env : Env) (m : EdgeModbus) (model : EdgeModel) (log : Log)
    → LinkInv m
    → LinkInv (poll_all env m model log).1
unfolding poll_all
poll_all-Inv env m model log h = poll_nodes-Inv env model.nodes (poll_start m log) h

abbrev pub counted : EdgeModbus → EdgeModbus
counted m = record m { poll_count = increment m.poll_count }

pub counted-Inv : (m : EdgeModbus) → LinkInv m → LinkInv (counted m)
counted-Inv m h = record {
  ctx_set = h.ctx_set;
  disabled_down = h.disabled_down;
  up_fresh = h.up_fresh;
  bounded = h.bounded;
}

pub poll-Inv :
    (env : Env) (m : EdgeModbus) (model : EdgeModel) (log : Log)
    → LinkInv m
    → LinkInv (edge_modbus_poll env m model log).1
unfolding edge_modbus_poll
poll-Inv env m model log h =
    let start = counted-Inv m h in
    let (status, linked, log') = edge_modbus_connect env (counted m) log in
    let up = connect-Inv env (counted m) log start in
    ground (
      arith,
      start,
      up,
      poll_all-Inv env (counted m) model log start,
      poll_all-Inv env linked model log' up,
    )

write_linked-Inv :
    (env : Env) (m : EdgeModbus) (n : EdgeNode) (log : Log)
    → LinkInv m
    → LinkInv (write_linked env m n log).1
unfolding write_linked edge_modbus_disconnect
write_linked-Inv env m n log h = ground arith

pub write_node-Inv :
    (env : Env) (m : EdgeModbus) (n : EdgeNode) (log : Log)
    → LinkInv m
    → LinkInv (edge_modbus_write_node env m n log).1
unfolding edge_modbus_write_node
write_node-Inv env m n log h =
    let (status, linked, log') = edge_modbus_connect env m log in
    let up = connect-Inv env m log h in
    ground (arith, up, write_linked-Inv env m n log h, write_linked-Inv env linked n log' up)

-- What the program does with a link, whatever the environment replies and whatever is polled or
-- written.
pub data LinkStep (env : Env) : EdgeModbus → EdgeModbus → Type 0 where
  connecting : (m : EdgeModbus) (log : Log) → LinkStep env m (edge_modbus_connect env m log).1
  disconnecting : (m : EdgeModbus) (log : Log) → LinkStep env m (edge_modbus_disconnect m log).0
  polling :
      (m : EdgeModbus) (model : EdgeModel) (log : Log)
      → LinkStep env m (edge_modbus_poll env m model log).1
  writing :
      (m : EdgeModbus) (node : EdgeNode) (log : Log)
      → LinkStep env m (edge_modbus_write_node env m node log).1
  clearing : (m : EdgeModbus) (log : Log) → LinkStep env m (edge_modbus_clear m log).0

-- The links that `edge_modbus_init` and any run of these calls reach.
pub data LinkReach (env : Env) : EdgeModbus → Type 0 where
  initial : (host : Option Bytes) (port : ℕ) → LinkReach env (edge_modbus_init host port).1
  next : {m m' : EdgeModbus} → LinkReach env m → LinkStep env m m' → LinkReach env m'

step-Inv : {env : Env} {m m' : EdgeModbus} → LinkStep env m m' → LinkInv m → LinkInv m'
unfolding edge_modbus_clear
step-Inv {env} (connecting m log) h = connect-Inv env m log h
step-Inv {env} (disconnecting m log) h = disconnect-Inv m log h
step-Inv {env} (polling m model log) h = poll-Inv env m model log h
step-Inv {env} (writing m node log) h = write_node-Inv env m node log h
step-Inv {env} (clearing m log) h = cleared-Inv

-- In every reachable link `connected` says whether `ctx` is set, a disabled link is down, a link
-- that is up has no backoff and no next attempt, and the backoff is at most 30 seconds.
pub LinkReach-Inv : {env : Env} {m : EdgeModbus} → LinkReach env m → LinkInv m
LinkReach-Inv (initial host port) = init-Inv host port
LinkReach-Inv (next r s) = step-Inv s (LinkReach-Inv r)
