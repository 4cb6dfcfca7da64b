-- ===== src/Events/Success.antt =====
-- src/edge_events.c: where the store and the server take every call, an evaluation succeeds.
use opcua_edge.Base.{
  ℕ, ◌+◌, ◌≤◌, ◌<◌, ◌≡◌, ◌≢◌, inl, inr, ap, Bool-cases, refl, Bool, true, false, Option, none, some,
  List, [], ◌∷◌, ◌++◌, arith, All, length, length-append, Bytes, codes,
}
use opcua_edge.Types.{EdgeStatus, ok, invalid, EdgeNode, EdgeEvent, EdgeModel}
use opcua_edge.World.{Log, Env, insert_event_history, ua_get_namespace, ua_set_scalar}
use opcua_edge.Clock.{edge_time_now_ms}
use opcua_edge.Value.{edge_node_as_double}
use opcua_edge.Config.Bounds.{EventFits, ModelFits}
use opcua_edge.Store.Key.{snprintf}
use opcua_edge.Store.Persist.{edge_store_insert_event_history}
use opcua_edge.Store.Success.{Works, insert_one-ok}
use opcua_edge.Events.{
  EventState, no_stats, source_of, event_condition_met, condition_word, message_text, compare_value,
  edge_event_message_len, make_event_source_nodeid, make_event_message, create_event,
  emit_opcua_event, fire, value_of, evaluate_event, evaluate_events, edge_events_evaluate,
}

-- The server takes every call.
abbrev pub Serves : Env → Type 0
Serves env =
    ((l : Log) → env.finds_namespace l ≡ true)
    × ((l : Log) → env.sets_scalar l ≡ true)
    × ((l : Log) → env.creates_event l ≡ true)

-- The two numbers of an event's message take 110 bytes at most, printed by "%.3f".
abbrev pub PrintsShort : Env → List EdgeNode → EdgeEvent → Type 0
PrintsShort env nodes e =
    length (env.format_double (value_of nodes e)) + length (env.format_double e.threshold) ≤ 110

message-length :
    (env : Env) (event : EdgeEvent) (node : EdgeNode)
    → length event.id < 64
    → length (env.format_double (edge_node_as_double node))
        + length (env.format_double event.threshold)
      ≤ 110
    → length (message_text env event node) < 192
message-length env event node h short =
    let last = codes " threshold " ++ env.format_double event.threshold in
    let printed = env.format_double (edge_node_as_double node) in
    let middle = codes " " ++ (printed ++ last) in
    let word : length (condition_word event.condition) ≡ 5 = ground arith in
    omega (
      arith,
      word,
      length-append event.id (codes " " ++ (condition_word event.condition ++ middle)),
      length-append (condition_word event.condition) middle,
      length-append printed last,
    )

short_text : (size : ℕ) (text : Bytes) → length text < size → snprintf size text ≡ (ok, text)
unfolding snprintf
short_text size text h = ground arith

message-ok :
    (env : Env) (nodes : List EdgeNode) (event : EdgeEvent)
    → length event.id < 64
    → PrintsShort env nodes event
    → event_condition_met nodes event ≡ true
    → (make_event_message env nodes event).0 ≡ ok
unfolding event_condition_met make_event_message
message-ok env nodes event h short met = go (source_of nodes event) short met
  where
    go :
        (o : Option EdgeNode)
        → length (env.format_double (elim o [ none ↦ 0 | some node ↦ edge_node_as_double node ]))
            + length (env.format_double event.threshold)
          ≤ 110
        → elim o [
          | none ↦ false
          | some node ↦ compare_value event.condition (edge_node_as_double node) event.threshold
        ]
          ≡ true
        → (elim o as (λ x. EdgeStatus × Bytes) [
          | none ↦ (invalid, [])
          | some node ↦ snprintf edge_event_message_len (message_text env event node)
        ]).0
          ≡ ok
    go none s e = absurd (ground arith)
    go (some node) s e =
        ap (λ (r : EdgeStatus × Bytes). r.0)
          (short_text 192 (message_text env event node) (message-length env event node h s))

module _ (env : Env) (works : Works env) (serves : Serves env) where
  create_event-ok :
      (nodes : List EdgeNode) (event : EdgeEvent) (log : Log)
      → EventFits event
      → PrintsShort env nodes event
      → event_condition_met nodes event ≡ true
      → (create_event env nodes event log).0 ≡ ok
  unfolding create_event make_event_source_nodeid
  create_event-ok nodes event log fits short met = ground (
    arith,
    serves.0 log,
    serves.1 (ua_get_namespace ∷ log),
    serves.2 (ua_set_scalar ∷ ua_get_namespace ∷ log),
    short_text 160 (codes "asset:" ++ event.asset_id) (omega (arith, fits.1)),
    short_text 160 event.asset_id (omega (arith, fits.1)),
    message-ok env nodes event fits.0 short met,
  )

  history-ok :
      (event : EdgeEvent) (value now : ℕ) (log : Log)
      → (edge_store_insert_event_history env event value now log).0 ≡ ok
  unfolding edge_store_insert_event_history
  history-ok event value now log = insert_one-ok env works insert_event_history _ log

  emit-ok :
      (server : Option Bool) (nodes : List EdgeNode) (event : EdgeEvent) (log : Log)
      → server ≢ some false
      → EventFits event
      → PrintsShort env nodes event
      → event_condition_met nodes event ≡ true
      → (emit_opcua_event env server nodes event log).0 ≡ ok
  unfolding emit_opcua_event
  emit-ok none nodes event log up fits short met = refl
  emit-ok (some false) nodes event log up fits short met = absurd (up refl)
  emit-ok (some true) nodes event log up fits short met =
      create_event-ok nodes event log fits short met

  fire-ok :
      (server : Option Bool) (nodes : List EdgeNode) (now : ℕ) (event : EdgeEvent) (log : Log)
      → server ≢ some false
      → EventFits event
      → PrintsShort env nodes event
      → event_condition_met nodes event ≡ true
      → (fire env server nodes now event log).0 ≡ ok
  unfolding fire
  fire-ok server nodes now event log up fits short met =
      let value = value_of nodes event in
      let log' = (edge_store_insert_event_history env event value now log).1 in
      ground
        (arith, history-ok event value now log, emit-ok server nodes event log' up fits short met)

  evaluate_event-ok :
      (server : Option Bool) (nodes : List EdgeNode) (now : ℕ) (event : EdgeEvent) (s : EventState)
      → server ≢ some false
      → EventFits event
      → PrintsShort env nodes event
      → s.status ≡ ok
      → (evaluate_event env server nodes now event s).1.status ≡ ok
  unfolding evaluate_event source_of event_condition_met
  evaluate_event-ok server nodes now event s up fits short h =
      elim (Bool-cases (event_condition_met nodes event)) [
        | inl met ↦
            let fired =
              fire-ok server nodes now (record event { active = true }) s.log up fits short met in
            ground arith
        | inr quiet ↦ ground arith
      ]

  evaluate_events-ok :
      (server : Option Bool) (nodes : List EdgeNode) (now : ℕ) (events : List EdgeEvent)
      (s : EventState)
      → server ≢ some false
      → All EventFits events
      → All (PrintsShort env nodes) events
      → s.status ≡ ok
      → (evaluate_events env server nodes now events s).1.status ≡ ok
  unfolding evaluate_events
  evaluate_events-ok server nodes now [] s up fits short h = h
  evaluate_events-ok server nodes now (e ∷ rest) s up fits short h =
      let one = evaluate_event-ok server nodes now e s up fits.0 short.0 h in
      let s' = (evaluate_event env server nodes now e s).1 in
      ground (arith, one, evaluate_events-ok server nodes now rest s' up fits.1 short.1 one)

  -- Where the store and the server take every call, the server is absent or running, and the
  -- printed value and threshold of each event take 110 bytes at most, an evaluation of a model that
  -- fits its arrays succeeds.
  pub evaluate-succeeds :
      (server : Option Bool) (m : EdgeModel) (log : Log)
      → server ≢ some false
      → ModelFits m
      → All (PrintsShort env m.nodes) m.events
      → (edge_events_evaluate env server m log).0 ≡ ok
  unfolding edge_events_evaluate
  evaluate-succeeds server m log up fits short =
      let (now, log') = edge_time_now_ms env log in
      evaluate_events-ok server m.nodes now m.events
        (record { status = ok; stats = no_stats; log = log' }) up fits.events_fit short refl
