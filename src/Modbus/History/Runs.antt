-- ===== src/Modbus/History/Runs.antt =====
-- src/edge_modbus.c: every run of a link agrees with its history.
use opcua_edge.Base.{ℕ, ◌≡◌, Bool, true, false, Option, none, some, [], ◌∷◌, arith, Bytes}
use opcua_edge.Types.{EdgeNode, EdgeModel}
use opcua_edge.World.{Call, modbus_new_tcp, modbus_connect, modbus_close, Log, Env}
use opcua_edge.Modbus.Link.{EdgeModbus, edge_modbus_init, edge_modbus_disconnect, edge_modbus_clear}
use opcua_edge.Modbus.Poll.{edge_modbus_poll, edge_modbus_write_node}
use opcua_edge.Modbus.Backoff.{backoff_after}
use opcua_edge.Modbus.History.{Refines, Patient, History, replay, poll-History, write_node-History}

-- The calls that open and close a link.
abbrev is_link_call : Call → Bool
is_link_call (modbus_new_tcp host port) = true
is_link_call modbus_connect = true
is_link_call modbus_close = true
is_link_call _ = false

-- The operations on a link in any order, with any other calls of the process between them.
pub data LinkRun (env : Env) : EdgeModbus → Log → Type 0 where
  initial : (host : Option Bytes) (port : ℕ) → LinkRun env (edge_modbus_init host port).1 []
  elsewhere :
      {m : EdgeModbus} {log : Log} (call : Call)
      → is_link_call call ≡ false
      → LinkRun env m log
      → LinkRun env m (call ∷ log)
  polling :
      {m : EdgeModbus} {log : Log} (model : EdgeModel)
      → LinkRun env m log
      → LinkRun env (edge_modbus_poll env m model log).1 (edge_modbus_poll env m model log).3
  writing :
      {m : EdgeModbus} {log : Log} (node : EdgeNode)
      → LinkRun env m log
      → LinkRun env
          (edge_modbus_write_node env m node log).1
          (edge_modbus_write_node env m node log).2
  clearing :
      {m : EdgeModbus} {log : Log}
      → LinkRun env m log
      → LinkRun env (edge_modbus_clear m log).0 (edge_modbus_clear m log).1

init-History :
    (env : Env) (host : Option Bytes) (port : ℕ) → History env (edge_modbus_init host port).1 []
unfolding edge_modbus_init replay Patient backoff_after
init-History env none port = ground arith
init-History env (some host) port = ground arith

elsewhere-History :
    (env : Env) (m : EdgeModbus) (log : Log) (call : Call)
    → is_link_call call ≡ false
    → History env m log
    → History env m (call ∷ log)
unfolding replay Patient
elsewhere-History env m log (modbus_new_tcp host port) e h = absurd (ground arith)
elsewhere-History env m log modbus_connect e h = absurd (ground arith)
elsewhere-History env m log modbus_close e h = absurd (ground arith)
elsewhere-History env m log _ e h = h

clear-History :
    (env : Env) (m : EdgeModbus) (log : Log)
    → History env m log
    → let (m', log') = edge_modbus_clear m log in History env m' log'
unfolding edge_modbus_clear edge_modbus_disconnect replay Patient
clear-History env m log h = ground arith

run-History : {env : Env} {m : EdgeModbus} {log : Log} → LinkRun env m log → History env m log
run-History {env} (initial host port) = init-History env host port
run-History {env} (elsewhere {m} {log} call e r) =
    elsewhere-History env m log call e (run-History r)
run-History {env} (polling {m} {log} model r) = poll-History env m model log (run-History r)
run-History {env} (writing {m} {log} node r) = write_node-History env m node log (run-History r)
run-History {env} (clearing {m} {log} r) = clear-History env m log (run-History r)

-- After any run of polls, writes and clears, with any other calls between them, the fields of the link
-- are what its calls and their replies alone say: a disabled link is down, and an enabled one is up or
-- down with the backoff after as many failures as came in a row since it was last up or closed, and with
-- its next attempt due that long after the last failure.
pub run-Refines : {env : Env} {m : EdgeModbus} {log : Log} → LinkRun env m log → Refines env m log
run-Refines r = (run-History r).0

-- In any such run each attempt to connect is made on a link that is down, and not before it is due: at
-- once where the due time is 0, as it is with no failure since the link was up or closed, and else when
-- the clock, read just before, shows the due time or a later one.
pub run-Patient : {env : Env} {m : EdgeModbus} {log : Log} → LinkRun env m log → Patient env log
run-Patient r = (run-History r).1
