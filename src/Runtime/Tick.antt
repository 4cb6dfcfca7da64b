-- ===== src/Runtime/Tick.antt =====
-- src/edge_runtime.c: what one tick leaves of pending writes, of the model and of the link.
use opcua_edge.Base.{
  ◌≡◌, refl, ap, ◌∙◌, Bool, false, Bool-cases, inl, inr, if◌then◌else◌, ◌&&◌, some, List, [], ◌∷◌,
  map, arith, All,
}
use opcua_edge.Types.{EdgeNode, EdgeModel}
use opcua_edge.World.{Log, Env}
use opcua_edge.Modbus.Link.{EdgeModbus}
use opcua_edge.Modbus.Poll.{edge_modbus_poll, edge_modbus_write_node}
use opcua_edge.Modbus.Connection.{LinkReach, polling, writing}
use opcua_edge.Modbus.Connection
use opcua_edge.Modbus.Outcomes.{frame, poll-frame}
use opcua_edge.Events.{edge_events_evaluate}
use opcua_edge.Runtime.{
  EdgeRuntime, drain_node, drain_nodes, drain_pending_writes, tick_steps, edge_runtime_tick,
}

-- A value from a client that is still to be written out.
abbrev pub waits : EdgeNode → Bool
waits node = node.writable && node.pending_write

-- All that a tick keeps of a node.
abbrev pub fixed : EdgeNode → EdgeNode
fixed node = record node { value = 0; pending_write = false }

drain_nodes-none :
    (env : Env) (nodes : List EdgeNode) (m : EdgeModbus) (log : Log)
    → All (λ n. waits n ≡ false) (drain_nodes env nodes m log).0
unfolding drain_nodes drain_node
drain_nodes-none env [] m log = tt
drain_nodes-none env (n ∷ rest) m log =
    let (n', m', log') = drain_node env n m log in (ground arith, drain_nodes-none env rest m' log')

drain_nodes-fixed :
    (env : Env) (nodes : List EdgeNode) (m : EdgeModbus) (log : Log)
    → map fixed (drain_nodes env nodes m log).0 ≡ map fixed nodes
unfolding drain_nodes drain_node
drain_nodes-fixed env [] m log = refl
drain_nodes-fixed env (n ∷ rest) m log =
    let (n', m', log') = drain_node env n m log in
    let same : fixed n' ≡ fixed n = ground arith in
    λ i. same i ∷ drain_nodes-fixed env rest m' log' i

drain_nodes-reach :
    (env : Env) (nodes : List EdgeNode) (m : EdgeModbus) (log : Log)
    → LinkReach env m
    → LinkReach env (drain_nodes env nodes m log).1
unfolding drain_nodes drain_node
drain_nodes-reach env [] m log r = r
drain_nodes-reach env (n ∷ rest) m log r =
    let (n', m', log') = drain_node env n m log in
    let written = Connection.next r (writing m n log) in
    drain_nodes-reach env rest m' log' (ground (arith, r, written))

-- What depends on the frames of nodes alone passes from one list to another with the same frames.
frames_wait :
    (xs ys : List EdgeNode)
    → map frame xs ≡ map frame ys
    → All (λ n. waits n ≡ false) ys
    → All (λ n. waits n ≡ false) xs
frames_wait [] ys e h = tt
frames_wait (x ∷ xs) [] e h = absurd (ground arith)
frames_wait (x ∷ xs) (y ∷ ys) e h = (ground arith, frames_wait xs ys (ground arith) h.1)

frames_fixed : (xs ys : List EdgeNode) → map frame xs ≡ map frame ys → map fixed xs ≡ map fixed ys
frames_fixed [] [] e = refl
frames_fixed [] (y ∷ ys) e = absurd (ground arith)
frames_fixed (x ∷ xs) [] e = absurd (ground arith)
frames_fixed (x ∷ xs) (y ∷ ys) e =
    let same : fixed x ≡ fixed y = ground arith in
    let rest = frames_fixed xs ys (ground arith) in λ i. same i ∷ rest i

evaluate-nodes :
    (env : Env) (m : EdgeModel) (server : Bool) (log : Log)
    → (edge_events_evaluate env (some server) m log).1.nodes ≡ m.nodes
unfolding edge_events_evaluate
evaluate-nodes env m server log = refl

evaluate-assets :
    (env : Env) (m : EdgeModel) (server : Bool) (log : Log)
    → (edge_events_evaluate env (some server) m log).1.assets ≡ m.assets
unfolding edge_events_evaluate
evaluate-assets env m server log = refl

-- The node without its pending flag, where its value waits.
abbrev pub settled : EdgeNode → EdgeNode
settled node = if waits node then record node { pending_write = false } else node

-- A write of the node, where its value waits.
abbrev pub write_waiting : Env → EdgeNode → EdgeModbus → Log → EdgeModbus × Log
write_waiting env n m log =
    let (status, m', log') = edge_modbus_write_node env m n log in
    if waits n then (m', log') else (m, log)

-- The same for every node, in order.
abbrev pub write_all : Env → List EdgeNode → EdgeModbus → Log → EdgeModbus × Log
write_all env [] m log = (m, log)
write_all env (n ∷ rest) m log =
    let (m', log') = write_waiting env n m log in write_all env rest m' log'

drain_node-lem :
    (env : Env) (n : EdgeNode) (m : EdgeModbus) (log : Log)
    → let (m', log') = write_waiting env n m log in drain_node env n m log ≡ (settled n, m', log')
unfolding drain_node
drain_node-lem env n m log = elim (Bool-cases n.writable) [
  | inr off ↦ ground arith
  | inl on ↦ elim (Bool-cases n.pending_write) [ inl p ↦ ground arith | inr p ↦ ground arith ]
]

drain_nodes-lem :
    (env : Env) (nodes : List EdgeNode) (m : EdgeModbus) (log : Log)
    → let (m', log') = write_all env nodes m log in
      drain_nodes env nodes m log ≡ (map settled nodes, m', log')
unfolding drain_nodes
drain_nodes-lem env [] m log = refl
drain_nodes-lem env (n ∷ rest) m log =
    let (m', log') = write_waiting env n m log in
    ap
      (λ (r : EdgeNode × EdgeModbus × Log).
        let (rest', m2, log2) = drain_nodes env rest r.1 r.2 in (r.0 ∷ rest', m2, log2))
      (drain_node-lem env n m log)
    ∙ ap (λ (r : List EdgeNode × EdgeModbus × Log). (settled n ∷ r.0, r.1, r.2))
        (drain_nodes-lem env rest m' log')

-- The link behind the writes and the poll.
link_after :
    (env : Env) (r : EdgeRuntime) (log : Log)
    → let (m1, log1) = write_all env r.model.nodes r.modbus log in
      let (status, m2, model, log2) =
        edge_modbus_poll env m1 (record r.model { nodes = map settled r.model.nodes }) log1 in
      (edge_runtime_tick env r log).0.modbus ≡ m2
unfolding edge_runtime_tick tick_steps drain_pending_writes
link_after env r log =
    ap
      (λ (d : List EdgeNode × EdgeModbus × Log).
        (edge_modbus_poll env d.1 (record r.model { nodes = d.0 }) d.2).1)
      (drain_nodes-lem env r.model.nodes r.modbus log)

-- After a tick on a link that the calls of the Modbus module reach, the link is as one write of each
-- node whose value waits, in order, and then one poll leave it, and no value waits to be written
-- out any more, whether or not its write went through; the assets are the same, of the nodes only
-- values and pending flags have changed, and the link is again one that these calls reach.
pub tick-drains :
    (env : Env) (r : EdgeRuntime) (log : Log)
    → LinkReach env r.modbus
    → let (r', log') = edge_runtime_tick env r log in
      let (m1, log1) = write_all env r.model.nodes r.modbus log in
      let (status, m2, model, log2) =
        edge_modbus_poll env m1 (record r.model { nodes = map settled r.model.nodes }) log1 in
      (r'.modbus ≡ m2)
      × All (λ n. waits n ≡ false) r'.model.nodes
      × (map fixed r'.model.nodes ≡ map fixed r.model.nodes)
      × (r'.model.assets ≡ r.model.assets)
      × LinkReach env r'.modbus
unfolding edge_runtime_tick tick_steps drain_pending_writes
tick-drains env r log reach =
    let (nodes1, modbus1, log1) = drain_nodes env r.model.nodes r.modbus log in
    let drained = record (r.model) { nodes = nodes1 } in
    let (status, modbus2, polled, log2) = edge_modbus_poll env modbus1 drained log1 in
    let (_, same, kept) = poll-frame env modbus1 drained log1 in
    let empty = drain_nodes-none env r.model.nodes r.modbus log in
    let nodes = evaluate-nodes env polled r.server log2 in
    (
      link_after env r log,
      rw nodes (frames_wait polled.nodes nodes1 same empty),
      rw nodes (frames_fixed polled.nodes nodes1 same)
          ∙ drain_nodes-fixed env r.model.nodes r.modbus log,
      evaluate-assets env polled r.server log2 ∙ ap (λ (m : EdgeModel). m.assets) kept,
      Connection.next (drain_nodes-reach env r.model.nodes r.modbus log reach)
          (polling modbus1 drained log1),
    )
