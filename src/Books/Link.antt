-- ===== src/Books/Link.antt =====
-- src/edge_modbus.c, src/edge_runtime.c: the Modbus contexts on the books. A link that is up holds one.
use opcua_edge.Base.{ℕ, ◌+◌, ◌≡◌, refl, List, [], ◌∷◌, arith, if◌then◌else◌}
use opcua_edge.Types.{EdgeNode, EdgeModel}
use opcua_edge.World.{Log, Env}
use opcua_edge.Modbus.Link.{
  EdgeModbus, now_us, note_connect_failure, must_wait, attempt, edge_modbus_connect,
  edge_modbus_disconnect, edge_modbus_clear,
}
use opcua_edge.Modbus.Poll.{
  PollState, read_node, poll_node, poll_nodes, poll_start, poll_all, edge_modbus_poll,
  write_registers, write_failed, write_linked, edge_modbus_write_node,
}
use opcua_edge.Modbus.Connection.{LinkInv, counted, counted-Inv, connect-Inv, poll_node-Inv}
use opcua_edge.Books.{Entry, is_context, bit, books}

abbrev pub holds : EdgeModbus → Entry → ℕ
holds m r = if is_context r then bit m.ctx else 0

-- What is acquired from the one log to the other is released or newly held.
abbrev pub Balance : Env → Entry → EdgeModbus → Log → EdgeModbus → Log → Type 0
Balance env r m log m' log' =
    let (gained, lost) = books env r log in
    let (gained', lost') = books env r log' in
    gained' + lost + holds m r ≡ gained + lost' + holds m' r

module _ (env : Env) where
  pub connect-Balance :
      (r : Entry) (m : EdgeModbus) (log : Log)
      → LinkInv m
      → let (status, m', log') = edge_modbus_connect env m log in Balance env r m log m' log'
  unfolding edge_modbus_connect attempt note_connect_failure now_us must_wait
  connect-Balance r m log h = ground arith

  pub disconnect-Balance :
      (r : Entry) (m : EdgeModbus) (log : Log)
      → let (m', log') = edge_modbus_disconnect m log in Balance env r m log m' log'
  unfolding edge_modbus_disconnect
  disconnect-Balance r m log = ground arith

  poll_node-Balance :
      (r : Entry) (n : EdgeNode) (s : PollState)
      → LinkInv s.modbus
      → let s' = (poll_node env n s).1 in Balance env r s.modbus s.log s'.modbus s'.log
  unfolding poll_node read_node edge_modbus_disconnect
  poll_node-Balance r n s h = ground arith

  poll_nodes-Balance :
      (r : Entry) (nodes : List EdgeNode) (s : PollState)
      → LinkInv s.modbus
      → let s' = (poll_nodes env nodes s).1 in Balance env r s.modbus s.log s'.modbus s'.log
  unfolding poll_nodes
  poll_nodes-Balance r [] s h = refl
  poll_nodes-Balance r (n ∷ rest) s h =
      let s' = (poll_node env n s).1 in
      ground
        (arith, poll_node-Balance r n s h, poll_nodes-Balance r rest s' (poll_node-Inv env n s h))

  poll_all-Balance :
      (r : Entry) (m : EdgeModbus) (model : EdgeModel) (log : Log)
      → LinkInv m
      → let (status, m', model', log') = poll_all env m model log in Balance env r m log m' log'
  unfolding poll_all
  poll_all-Balance r m model log h = poll_nodes-Balance r model.nodes (poll_start m log) h

  counted-holds : (r : Entry) (m : EdgeModbus) → holds (counted m) r ≡ holds m r
  counted-holds r m = refl

  pub poll-Balance :
      (r : Entry) (m : EdgeModbus) (model : EdgeModel) (log : Log)
      → LinkInv m
      → let (status, m', model', log') = edge_modbus_poll env m model log in
        Balance env r m log m' log'
  unfolding edge_modbus_poll
  poll-Balance r m model log h =
      let start = counted-Inv m h in
      let (status, linked, log') = edge_modbus_connect env (counted m) log in
      ground (
        arith,
        counted-holds r m,
        connect-Balance r (counted m) log start,
        poll_all-Balance r (counted m) model log start,
        poll_all-Balance r linked model log' (connect-Inv env (counted m) log start),
      )

  write_linked-Balance :
      (r : Entry) (m : EdgeModbus) (n : EdgeNode) (log : Log)
      → let (status, m', log') = write_linked env m n log in Balance env r m log m' log'
  unfolding write_linked write_registers edge_modbus_disconnect
  write_linked-Balance r m n log = ground arith

  failed-holds : (r : Entry) (m : EdgeModbus) → holds (write_failed m) r ≡ holds m r
  failed-holds r m = refl

  pub write_node-Balance :
      (r : Entry) (m : EdgeModbus) (n : EdgeNode) (log : Log)
      → LinkInv m
      → let (status, m', log') = edge_modbus_write_node env m n log in Balance env r m log m' log'
  unfolding edge_modbus_write_node
  write_node-Balance r m n log h =
      let (status, linked, log') = edge_modbus_connect env m log in
      ground (
        arith,
        connect-Balance r m log h,
        failed-holds r linked,
        write_linked-Balance r m n log,
        write_linked-Balance r linked n log',
      )

  pub clear-Balance :
      (r : Entry) (m : EdgeModbus) (log : Log)
      → let (m', log') = edge_modbus_clear m log in Balance env r m log m' log'
  unfolding edge_modbus_clear edge_modbus_disconnect
  clear-Balance r m log = ground arith
