-- ===== src/Modbus/Addressing.antt =====
-- src/edge_modbus.c: which registers of which unit a poll reads, told by the calls in the log, and
-- what it does to the model. The loop keeps the selected unit in `current_unit`.
use opcua_edge.Base.{
  ℕ, suc, ◌+◌, ◌≤◌, ◌≡◌, ◌⊎◌, inl, inr, refl, ◌∙◌, subst, true, false, Option, none, some, List, [],
  ◌∷◌, arith, Bool-cases, if◌then◌else◌, get_elem?, ltb, ◌==◌, ◌&&◌,
}
use opcua_edge.Types.{EdgeNode, EdgeModel}
use opcua_edge.World.{modbus_set_slave, modbus_read_registers, Log, Env}
use opcua_edge.Modbus.Registers.{register_width_for_node}
use opcua_edge.Modbus.Link.{
  EdgeModbus, increment, edge_modbus_register_base, edge_modbus_connect, edge_modbus_disconnect,
  note_connect_failure, now_us,
}
use opcua_edge.Modbus.Poll.{
  PollState, is_count, offset_of, read_node, poll_node, poll_nodes, poll_start, poll_all,
  edge_modbus_poll,
}

-- The unit selected by the last call of `modbus_set_slave` that succeeded.
abbrev pub selected : Env → Log → Option ℕ
selected env [] = none
selected env (modbus_set_slave unit ∷ log) =
    if env.sets_slave log then some unit else selected env log
selected env (c ∷ log) = selected env log

-- The node is one that the poll has to read, and `unit`, `offset` and `width` are its own.
abbrev pub Wanted : List EdgeNode → Option ℕ → ℕ → ℕ → Type 0
Wanted nodes unit offset width =
    (i : ℕ) × (node : EdgeNode) × (get_elem? nodes i ≡ some node)
    × (edge_modbus_register_base ≤ node.modbus_register)
    × (unit ≡ some node.modbus_unit)
    × (offset ≡ offset_of node)
    × (width ≡ register_width_for_node node)

-- Every read in the log is one of a node of the list, from the node's unit.
abbrev pub Addressed : Env → List EdgeNode → Log → Type 0
Addressed env nodes [] = Unit
Addressed env nodes (modbus_read_registers offset width ∷ log) =
    Wanted nodes (selected env log) offset width × Addressed env nodes log
Addressed env nodes (c ∷ log) = Addressed env nodes log

-- `current_unit` is the unit selected.
abbrev Tracks : Env → PollState → Type 0
Tracks env s = (s.unit_set ≡ false) ⊎ (selected env s.log ≡ some s.current_unit)

module _ (env : Env) (nodes : List EdgeNode) where
  record PollInv (s : PollState) : Type 0 where
    pub tracks : Tracks env s
    pub addressed : Addressed env nodes s.log

  disconnect-Addressed :
      (m : EdgeModbus) (log : Log)
      → Addressed env nodes log
      → Addressed env nodes (edge_modbus_disconnect m log).1
  unfolding edge_modbus_disconnect
  disconnect-Addressed m log h = elim (Bool-cases m.ctx) [ inl e ↦ rw e h | inr e ↦ rw e h ]

  disconnect-selected :
      (m : EdgeModbus) (log : Log)
      → selected env (edge_modbus_disconnect m log).1 ≡ selected env log
  unfolding edge_modbus_disconnect
  disconnect-selected m log = ground arith

  read_node-PollInv :
      (i : ℕ) (node : EdgeNode) (s : PollState)
      → get_elem? nodes i ≡ some node
      → edge_modbus_register_base ≤ node.modbus_register
      → selected env s.log ≡ some node.modbus_unit
      → (s.current_unit ≡ node.modbus_unit)
      → Addressed env nodes s.log
      → PollInv (read_node env node s).1
  unfolding read_node
  read_node-PollInv i node s g b e c h =
      let width = register_width_for_node node in
      let read : Addressed env nodes (modbus_read_registers (offset_of node) width ∷ s.log) =
        ((i, node, g, b, e, refl, refl), h) in
      let same : selected env s.log ≡ some s.current_unit = rw c e in
      let counted = record (s.modbus) { read_error_count = increment s.modbus.read_error_count } in
      let called = modbus_read_registers (offset_of node) width ∷ s.log in
      elim (Bool-cases (is_count (env.reads s.log).0 width)) [
        | inl y ↦ rw y (record { tracks = inr same; addressed = read })
        | inr y ↦ rw y (record {
          tracks = inr (disconnect-selected counted called ∙ same);
          addressed = disconnect-Addressed counted called read;
        })
      ]

  poll_node-PollInv :
      (i : ℕ) (node : EdgeNode) (s : PollState)
      → get_elem? nodes i ≡ some node
      → PollInv s
      → PollInv (poll_node env node s).1
  unfolding poll_node
  poll_node-PollInv i node s g h = elim (Bool-cases (ltb node.modbus_register 40001)) [
    | inl low ↦ rw low h
    | inr high ↦ elim (Bool-cases (s.unit_set && s.current_unit == node.modbus_unit)) [
      | inl kept ↦
          rw (high, kept)
            (read_node-PollInv i node s g (ground arith) (ground arith) (ground arith) h.addressed)
      | inr other ↦ elim (Bool-cases (env.sets_slave s.log)) [
        | inl set ↦
            let there = record s {
              log = modbus_set_slave node.modbus_unit ∷ s.log;
              current_unit = node.modbus_unit;
              unit_set = true;
            } in
            rw (high, other, set)
              (read_node-PollInv i node there g (ground arith) (rw set) refl h.addressed)
        | inr unset ↦
            rw (high, other, unset)
              (record {
                tracks = elim h.tracks [ inl t ↦ inl t | inr t ↦ inr (rw unset t) ];
                addressed = h.addressed;
              })
      ]
    ]
  ]

  poll_nodes-PollInv :
      (i : ℕ) (rest : List EdgeNode) (s : PollState)
      → ((j : ℕ) (n : EdgeNode) → get_elem? rest j ≡ some n → get_elem? nodes (i + j) ≡ some n)
      → PollInv s
      → PollInv (poll_nodes env rest s).1
  unfolding poll_nodes
  poll_nodes-PollInv i [] s at h = h
  poll_nodes-PollInv i (n ∷ rest) s at h =
      let first = poll_node-PollInv (i + 0) n s (at 0 n refl) h in
      let behind : (j : ℕ) (x : EdgeNode)
          → get_elem? rest j ≡ some x
          → get_elem? nodes (i + 1 + j) ≡ some x =
        λ j x e. subst (λ (k : ℕ). get_elem? nodes k ≡ some x) (omega arith) (at (suc j) x e) in
      elim (Bool-cases (poll_node env n s).1.stopped) [
        | inl e ↦ rw e first
        | inr e ↦ rw e (poll_nodes-PollInv (i + 1) rest (poll_node env n s).1 behind first)
      ]

  connect-Addressed :
      (m : EdgeModbus) (log : Log)
      → Addressed env nodes log
      → Addressed env nodes (edge_modbus_connect env m log).2
  unfolding edge_modbus_connect note_connect_failure now_us
  connect-Addressed m log h = ground arith

poll_all-Addressed :
    (env : Env) (m : EdgeModbus) (model : EdgeModel) (log : Log)
    → Addressed env model.nodes log
    → Addressed env model.nodes (poll_all env m model log).3
unfolding poll_all
poll_all-Addressed env m model log h =
    (poll_nodes-PollInv env model.nodes 0 model.nodes (poll_start m log)
      (λ j n e. subst (λ (k : ℕ). get_elem? model.nodes k ≡ some n) (omega arith) e)
      (record { tracks = inl refl; addressed = h })).addressed

-- Every register read that a poll makes is one of a node of the model with a register from 40001
-- on: it is sent to that node's unit, which the last accepted `modbus_set_slave` selected, at the
-- node's offset and over the node's width. So every read in the log is such a read behind the poll,
-- if every one was before it.
pub poll-Addressed :
    (env : Env) (m : EdgeModbus) (model : EdgeModel) (log : Log)
    → Addressed env model.nodes log
    → Addressed env model.nodes (edge_modbus_poll env m model log).3
unfolding edge_modbus_poll
poll-Addressed env m model log h =
    let counted = record m { poll_count = increment m.poll_count } in
    let (status, linked, log') = edge_modbus_connect env counted log in
    let up = connect-Addressed env model.nodes counted log h in
    ground (
      arith,
      up,
      poll_all-Addressed env counted model log h,
      poll_all-Addressed env linked model log' up,
    )
