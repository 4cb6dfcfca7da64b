-- ===== src/Modbus/Polled.antt =====
-- src/edge_modbus.c: what a poll does, node by node.
use opcua_edge.Base.{
  ◌%◌, ◌^◌, ◌<◌, ◌≤◌, ◌≡◌, ◌⊎◌, inl, inr, refl, sym, ap, subst, ◌∙◌, Bool, true, false, ◌&&◌,
  Bool-cases, if◌then◌else◌, List, [], ◌∷◌, arith, ltb, ◌==◌, map,
}
use opcua_edge.Types.{EdgeStatus, ok, error, EdgeNode, EdgeModel}
use opcua_edge.World.{
  Call, modbus_set_slave, modbus_read_registers, modbus_close, modbus_free, Log, Env,
}
use opcua_edge.Modbus.Registers.{register_width_for_node, apply_registers_to_node}
use opcua_edge.Modbus.Link.{
  EdgeModbus, increment, edge_modbus_register_base, edge_modbus_connect, edge_modbus_disconnect,
}
use opcua_edge.Modbus.Backoff.{connect-ConnectPost}
use opcua_edge.Modbus.Poll.{
  PollState, is_count, offset_of, read_node, poll_node, poll_nodes, poll_start, poll_all,
  edge_modbus_poll,
}
use opcua_edge.Modbus.Outcomes.{frame, poll-frame}

abbrev pub count_ok : EdgeModbus → EdgeModbus
count_ok m = record m { read_ok_count = increment m.read_ok_count }

abbrev pub count_error : EdgeModbus → EdgeModbus
count_error m = record m { read_error_count = increment m.read_error_count }

-- The read of a node, and the calls behind it that close the connection.
abbrev pub read_call : EdgeNode → Call
read_call n = modbus_read_registers (offset_of n) (register_width_for_node n)

abbrev pub closing : EdgeNode → Log → Log
closing n log = modbus_free ∷ modbus_close ∷ read_call n ∷ log

-- The PLC gave all the registers of the node, and what they say.
abbrev pub gives : Env → EdgeNode → Log → Bool
gives env n log = is_count (env.reads log).0 (register_width_for_node n)

abbrev pub told : Env → EdgeNode → Log → EdgeNode
told env n log =
    let (count, raw0, raw1) = env.reads log in
    apply_registers_to_node env.fpu n (raw0 % 2 ^ 16) (raw1 % 2 ^ 16)

-- Nothing is called to select the unit of a node, or the unit is selected and accepted.
abbrev pub Selects : Env → EdgeNode → Log → Log → Type 0
Selects env n log log1 =
    (log1 ≡ log) ⊎ ((log1 ≡ modbus_set_slave n.modbus_unit ∷ log) × (env.sets_slave log ≡ true))

-- The poll of a link that is up: nodes, link and log before and behind it. A node below 40001 is
-- left alone; so is one whose unit is refused, which is counted as an error. A read that goes well is
-- counted and its registers are put into the node. A read that fails is counted as an error, the
-- connection is closed and freed, and neither that node nor any behind it changes.
pub data Polled (env : Env)
    : List EdgeNode → EdgeModbus → Log → List EdgeNode → EdgeModbus → Log → Type 0 where
  ended : {m : EdgeModbus} {log : Log} → Polled env [] m log [] m log
  skipped :
      {n : EdgeNode} {rest rest' : List EdgeNode} {m m' : EdgeModbus} {log log' : Log}
      → n.modbus_register < edge_modbus_register_base
      → Polled env rest m log rest' m' log'
      → Polled env (n ∷ rest) m log (n ∷ rest') m' log'
  refused :
      {n : EdgeNode} {rest rest' : List EdgeNode} {m m' : EdgeModbus} {log log' : Log}
      → edge_modbus_register_base ≤ n.modbus_register
      → env.sets_slave log ≡ false
      → Polled env rest (count_error m) (modbus_set_slave n.modbus_unit ∷ log) rest' m' log'
      → Polled env (n ∷ rest) m log (n ∷ rest') m' log'
  read :
      {n : EdgeNode} {rest rest' : List EdgeNode} {m m' : EdgeModbus} {log log1 log' : Log}
      → edge_modbus_register_base ≤ n.modbus_register
      → Selects env n log log1
      → gives env n log1 ≡ true
      → Polled env rest (count_ok m) (read_call n ∷ log1) rest' m' log'
      → Polled env (n ∷ rest) m log (told env n log1 ∷ rest') m' log'
  broken :
      {n : EdgeNode} {rest : List EdgeNode} {m : EdgeModbus} {log log1 : Log}
      → edge_modbus_register_base ≤ n.modbus_register
      → Selects env n log log1
      → gives env n log1 ≡ false
      → Polled env
          (n ∷ rest)
          m
          log
          (n ∷ rest)
          (record (count_error m) { ctx = false; connected = false })
          (closing n log1)

module _ (env : Env) where
  -- The read of a node, and then the rest of the loop.
  read_node-lem :
      (n : EdgeNode) (s : PollState)
      → s.modbus.ctx ≡ true
      → ((gives env n s.log ≡ true)
          × (read_node env n s ≡ (
            told env n s.log,
            record s { modbus = count_ok s.modbus; log = read_call n ∷ s.log },
          )))
        ⊎ ((gives env n s.log ≡ false)
            × (read_node env n s ≡ (
              n,
              record s {
                modbus = record (count_error s.modbus) { ctx = false; connected = false };
                log = closing n s.log;
                stopped = true;
              },
            )))
  unfolding read_node edge_modbus_disconnect
  read_node-lem n s ctx = elim (Bool-cases (gives env n s.log)) [
    | inl took ↦ inl (took, ground arith)
    | inr failed ↦ inr (failed, ground arith)
  ]

  -- The three ways of one round.
  poll_node-lem :
      (n : EdgeNode) (s : PollState)
      → ((n.modbus_register < edge_modbus_register_base) × (poll_node env n s ≡ (n, s)))
        ⊎ ((edge_modbus_register_base ≤ n.modbus_register)
            × (env.sets_slave s.log ≡ false)
            × (poll_node env n s ≡ (
              n,
              record s {
                modbus = count_error s.modbus;
                log = modbus_set_slave n.modbus_unit ∷ s.log;
              },
            )))
        ⊎ ((s1 : PollState) × (edge_modbus_register_base ≤ n.modbus_register)
            × Selects env n s.log s1.log
            × (s1.modbus ≡ s.modbus)
            × (s1.stopped ≡ s.stopped)
            × (poll_node env n s ≡ read_node env n s1))
  unfolding poll_node
  poll_node-lem n s = elim (Bool-cases (ltb n.modbus_register edge_modbus_register_base)) [
    | inl below ↦ inl (ground arith, ground arith)
    | inr above ↦ elim (Bool-cases (s.unit_set && s.current_unit == n.modbus_unit)) [
      | inl same ↦
          inr (inr (s, ground arith, inl refl, refl, refl, rw (above, same, poll_node) refl))
      | inr other ↦ elim (Bool-cases (env.sets_slave s.log)) [
        | inl took ↦
            let s1 : PollState = record s {
              log = modbus_set_slave n.modbus_unit ∷ s.log;
              current_unit = n.modbus_unit;
              unit_set = true;
            } in
            inr (
              inr (
                s1,
                ground arith,
                inr (refl, took),
                refl,
                refl,
                rw (above, other, took, poll_node) refl,
              ))
        | inr refuses ↦
            inr (inl (ground arith, refuses, rw (above, other, refuses, poll_node) refl))
      ]
    ]
  ]

  -- A state of the loop and what it leaves.
  abbrev Leaves : List EdgeNode → PollState → List EdgeNode × PollState → Type 0
  Leaves nodes s r = Polled env nodes s.modbus s.log r.0 r.1.modbus r.1.log

  after_node : List EdgeNode → EdgeNode × PollState → List EdgeNode × PollState
  after_node rest (n, s) =
      let (rest', s') = poll_nodes env rest s in
      if s.stopped then (n ∷ rest, s) else (n ∷ rest', s')

  poll_nodes-next :
      (n : EdgeNode) (rest : List EdgeNode) (s : PollState) {r : EdgeNode × PollState}
      → poll_node env n s ≡ r
      → poll_nodes env (n ∷ rest) s ≡ after_node rest r
  unfolding poll_nodes after_node
  poll_nodes-next n rest s e = ap (after_node rest) e

  poll_nodes-on :
      (n n' : EdgeNode) (rest : List EdgeNode) (s s' : PollState)
      → poll_node env n s ≡ (n', s')
      → s'.stopped ≡ false
      → poll_nodes env (n ∷ rest) s ≡ (n' ∷ (poll_nodes env rest s').0, (poll_nodes env rest s').1)
  unfolding after_node
  poll_nodes-on n n' rest s s' e going =
      poll_nodes-next n rest s e
      ∙ ap
          (λ (b : Bool).
            if b
            then (n' ∷ rest, s')
            else (n' ∷ (poll_nodes env rest s').0, (poll_nodes env rest s').1))
          going

  poll_nodes-Polled :
      (nodes : List EdgeNode) (s : PollState)
      → s.stopped ≡ false
      → s.modbus.ctx ≡ true
      → Leaves nodes s (poll_nodes env nodes s)
  unfolding poll_nodes after_node
  poll_nodes-Polled [] s going ctx = ended
  poll_nodes-Polled (n ∷ rest) s going ctx = elim (poll_node-lem n s) [
    | inl (below, same) ↦
        subst (Leaves (n ∷ rest) s) (sym (poll_nodes-on n n rest s s same going))
          (skipped below (poll_nodes-Polled rest s going ctx))
    | inr (inl (above, refuses, same)) ↦
        let s1 : PollState = record s {
          modbus = count_error s.modbus;
          log = modbus_set_slave n.modbus_unit ∷ s.log;
        } in
        subst (Leaves (n ∷ rest) s) (sym (poll_nodes-on n n rest s s1 same going))
          (refused above refuses (poll_nodes-Polled rest s1 going ctx))
    | inr (inr (s1, above, selects, link, run, same)) ↦
        let linked : s1.modbus.ctx ≡ true = ap (λ (m : EdgeModbus). m.ctx) link ∙ ctx in
        elim (read_node-lem n s1 linked) [
          | inl (took, done) ↦
              let s2 : PollState = record s1 {
                modbus = count_ok s1.modbus;
                log = read_call n ∷ s1.log;
              } in
              let left = poll_nodes-Polled rest s2 (run ∙ going) linked in
              subst (Leaves (n ∷ rest) s)
                (sym (poll_nodes-on n (told env n s1.log) rest s s2 (same ∙ done) (run ∙ going)))
                (subst
                  (λ (m : EdgeModbus).
                    Polled env (n ∷ rest) m s.log (told env n s1.log ∷ (poll_nodes env rest s2).0)
                      (poll_nodes env rest s2).1.modbus (poll_nodes env rest s2).1.log)
                  link (read above selects took left))
          | inr (failed, done) ↦
              subst (Leaves (n ∷ rest) s) (sym (poll_nodes-next n rest s (same ∙ done))) (
                subst
                  (λ (m : EdgeModbus).
                    Polled env (n ∷ rest) m s.log (n ∷ rest)
                      (record (count_error s1.modbus) { ctx = false; connected = false })
                      (closing n s1.log))
                  link (broken above selects failed))
        ]
  ]

  poll_all-Polled :
      (m : EdgeModbus) (model : EdgeModel) (log : Log)
      → m.ctx ≡ true
      → let (status, m', model', log') = poll_all env m model log in
        Polled env model.nodes m log model'.nodes m' log'
  unfolding poll_all
  poll_all-Polled m model log ctx = poll_nodes-Polled model.nodes (poll_start m log) refl ctx

-- The link at a poll's connection.
abbrev pub counted : EdgeModbus → EdgeModbus
counted m = record m { poll_count = increment m.poll_count }

-- What a poll does, by the state of the link.
abbrev pub PollPost : Env → EdgeModbus → EdgeModel → Log → EdgeModbus → EdgeModel → Log → Type 0
PollPost env m model log m' model' log' =
    let (status, linked, log1) = edge_modbus_connect env (counted m) log in
    ((m.enabled ≡ false) × (m' ≡ counted m) × (model' ≡ model) × (log' ≡ log))
    ⊎ ((m.enabled ≡ true)
        × (m.connected ≡ true)
        × Polled env model.nodes (counted m) log model'.nodes m' log')
    ⊎ ((m.enabled ≡ true)
        × (m.connected ≡ false)
        × (status ≡ ok)
        × Polled env model.nodes linked log1 model'.nodes m' log')
    ⊎ ((m.enabled ≡ true)
        × (m.connected ≡ false)
        × (status ≡ error)
        × (m' ≡ linked)
        × (model' ≡ model)
        × (log' ≡ log1))

connect-linked :
    (env : Env) (m : EdgeModbus) (log : Log)
    → m.enabled ≡ true
    → m.connected ≡ false
    → let (status, m', log') = edge_modbus_connect env m log in
      ((status ≡ ok) × (m'.ctx ≡ true)) ⊎ (status ≡ error)
connect-linked env m log enabled down = elim (connect-ConnectPost env m log) [
  | inl (_, idle, _, _) ↦ absurd (ground arith)
  | inr (inl h) ↦ inr h.0
  | inr (inr (inl h)) ↦ inl (h.0, ap (λ (x : EdgeModbus). x.ctx) h.5)
  | inr (inr (inr h)) ↦ inr h.0
]

poll-off :
    (env : Env) (m : EdgeModbus) (model : EdgeModel) (log : Log)
    → m.enabled ≡ false
    → edge_modbus_poll env m model log ≡ (ok, counted m, model, log)
unfolding edge_modbus_poll
poll-off env m model log off = rw (off, edge_modbus_poll) refl

poll-up :
    (env : Env) (m : EdgeModbus) (model : EdgeModel) (log : Log)
    → m.enabled ≡ true
    → m.connected ≡ true
    → edge_modbus_poll env m model log ≡ poll_all env (counted m) model log
unfolding edge_modbus_poll
poll-up env m model log on up = ground arith

poll-down :
    (env : Env) (m : EdgeModbus) (model : EdgeModel) (log : Log)
    → m.enabled ≡ true
    → m.connected ≡ false
    → let (status, m1, log1) = edge_modbus_connect env (counted m) log in
      edge_modbus_poll env m model log
      ≡ elim status [ ok ↦ poll_all env m1 model log1 | _ ↦ (ok, m1, model, log1) ]
unfolding edge_modbus_poll
poll-down env m model log on down = ground arith

poll_cases :
    (env : Env) (m : EdgeModbus) (model : EdgeModel) (log : Log)
    → (m.connected ≡ true → m.ctx ≡ true)
    → let (status, m', model', log') = edge_modbus_poll env m model log in
      PollPost env m model log m' model' log'
poll_cases env m model log has_ctx =
    let goal : EdgeStatus × EdgeModbus × EdgeModel × Log → Type 0 =
      λ (r : EdgeStatus × EdgeModbus × EdgeModel × Log). PollPost env m model log r.1 r.2 r.3 in
    let (status, m1, log1) = edge_modbus_connect env (counted m) log in
    elim (Bool-cases m.enabled) [
      | inr off ↦ subst goal (sym (poll-off env m model log off)) (inl (off, refl, refl, refl))
      | inl on ↦ elim (Bool-cases m.connected) [
        | inl up ↦
            subst goal (sym (poll-up env m model log on up))
              (inr (inl (on, up, poll_all-Polled env (counted m) model log (has_ctx up))))
        | inr down ↦ elim (connect-linked env (counted m) log on down) [
          | inl (linked, ctx) ↦
              let result : edge_modbus_poll env m model log ≡ poll_all env m1 model log1 =
                ground (arith, poll-down env m model log on down, linked) in
              subst goal (sym result)
                (inr (inr (inl (on, down, linked, poll_all-Polled env m1 model log1 ctx))))
          | inr failed ↦
              let result : edge_modbus_poll env m model log ≡ (ok, m1, model, log1) =
                ground (arith, poll-down env m model log on down, failed) in
              subst goal (sym result) (inr (inr (inr (on, down, failed, refl, refl, refl))))
        ]
      ]
    ]

-- A poll reports success whatever the PLC does, and of the model it changes no more than values of
-- nodes. On a disabled link it counts itself and does nothing more; where the link is down and does
-- not connect, it changes nothing more of the model, the link and the calls than the connection has.
-- On a link that has a context when it is up, a poll that is connected does every node in turn: one
-- below 40001 is left alone; one whose unit is refused is left alone and counted as an error; one
-- whose read goes well is counted and gets the registers read. The first read that fails is counted
-- as an error, the connection is closed and freed behind it, and it ends the poll with nothing more
-- called and neither its node nor a later one changed.
pub poll-PollPost :
    (env : Env) (m : EdgeModbus) (model : EdgeModel) (log : Log)
    → (m.connected ≡ true → m.ctx ≡ true)
    → let (status, m', model', log') = edge_modbus_poll env m model log in
      (status ≡ ok)
      × (map frame model'.nodes ≡ map frame model.nodes)
      × (record model' { nodes = [] } ≡ record model { nodes = [] })
      × PollPost env m model log m' model' log'
poll-PollPost env m model log has_ctx =
    let (success, nodes, rest) = poll-frame env m model log in
    (success, nodes, rest, poll_cases env m model log has_ctx)
