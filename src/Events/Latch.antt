-- ===== src/Events/Latch.antt =====
-- src/edge_events.c: an event fires once for each time that its condition becomes true.
use opcua_edge.Base.{
  ◌^◌, ℕ, ◌+◌, ◌≤◌, ◌<◌, ◌≡◌, refl, ap, Bool, true, false, not, ◌&&◌, Option, none, some, List, [],
  ◌∷◌, map, arith, if◌then◌else◌, length,
}
use opcua_edge.Types.{ok, error, EdgeNode, EdgeEvent, EdgeModel}
use opcua_edge.World.{Log, Env, insert_event_history, sqlite_step}
use opcua_edge.Clock.{edge_time_now_ms}
use opcua_edge.Events.{
  EventState, source_of, event_condition_met, fire, emit_opcua_event, create_event, evaluate_event,
  evaluate_events, edge_events_evaluate, value_of, check, no_stats, is_some,
}
use opcua_edge.Store.Key.{prepare, step_done}
use opcua_edge.Store.Persist.{edge_store_insert_event_history, insert_one}

-- The event after its condition was tested: `active` says what the condition was.
abbrev pub tested : List EdgeNode → EdgeEvent → EdgeEvent
tested nodes event = record event { active = event_condition_met nodes event }

-- The condition has become true since the last test.
abbrev pub rises : List EdgeNode → EdgeEvent → Bool
rises nodes event = event_condition_met nodes event && not event.active

evaluate_event-tested :
    (env : Env) (server : Option Bool) (nodes : List EdgeNode) (now : ℕ) (event : EdgeEvent)
    (s : EventState)
    → (evaluate_event env server nodes now event s).0 ≡ tested nodes event
unfolding evaluate_event
evaluate_event-tested env server nodes now event s = ground arith

-- With no rising condition nothing is called, and only the check is counted.
evaluate_event-quiet :
    (env : Env) (server : Option Bool) (nodes : List EdgeNode) (now : ℕ) (event : EdgeEvent)
    (s : EventState)
    → rises nodes event ≡ false
    → (evaluate_event env server nodes now event s).1 ≡ record s { stats = check s.stats }
unfolding evaluate_event
evaluate_event-quiet env server nodes now event s h = ground arith

abbrev pub bit : Bool → ℕ
bit true = 1
bit false = 0

-- How many of the events rise.
abbrev pub risings : List EdgeNode → List EdgeEvent → ℕ
risings nodes [] = 0
risings nodes (e ∷ rest) = bit (rises nodes e) + risings nodes rest

-- The rows that the calls have put into event_history.
abbrev pub rows : Log → ℕ
rows [] = 0
rows (sqlite_step insert_event_history row ∷ log) = rows log + 1
rows (call ∷ log) = rows log

create_event-rows :
    (env : Env) (nodes : List EdgeNode) (event : EdgeEvent) (log : Log)
    → rows (create_event env nodes event log).1 ≡ rows log
unfolding create_event
create_event-rows env nodes event log = ground arith

emit-rows :
    (env : Env) (server : Option Bool) (nodes : List EdgeNode) (event : EdgeEvent) (log : Log)
    → rows (emit_opcua_event env server nodes event log).1 ≡ rows log
unfolding emit_opcua_event
emit-rows env none nodes event log = refl
emit-rows env (some false) nodes event log = refl
emit-rows env (some true) nodes event log = create_event-rows env nodes event log

insert-rows :
    (env : Env) (event : EdgeEvent) (value now : ℕ) (log : Log)
    → let (status, log') = edge_store_insert_event_history env event value now log in
      status ≡ ok → rows log' ≡ rows log + 1
unfolding edge_store_insert_event_history insert_one prepare step_done
insert-rows env event value now log h = ground arith

fire-rows :
    (env : Env) (server : Option Bool) (nodes : List EdgeNode) (now : ℕ) (event : EdgeEvent)
    (log : Log)
    → (fire env server nodes now event log).0 ≡ ok
    → rows (fire env server nodes now event log).1 ≡ rows log + 1
unfolding fire
fire-rows env server nodes now event log h =
    let value = value_of nodes event in
    let (stored, log') = edge_store_insert_event_history env event value now log in
    ground (arith, insert-rows env event value now log, emit-rows env server nodes event log')

-- `n` events checked, `k` of them risen, each with its row in the history and, where there is a
-- server, its notification.
abbrev pub Counts : Option Bool → ℕ → ℕ → EventState → EventState → Type 0
Counts server n k s t =
    (t.stats.checked_count ≡ s.stats.checked_count + n)
    × (t.stats.fired_count ≡ s.stats.fired_count + k)
    × (t.stats.emitted_count ≡ s.stats.emitted_count + (if is_some server then k else 0))
    × (rows t.log ≡ rows s.log + k)

-- Room for `n` more in each counter.
abbrev pub HasRoom : ℕ → EventState → Type 0
HasRoom n s =
    (s.stats.checked_count + n < 2 ^ 32)
    × (s.stats.fired_count + n < 2 ^ 32)
    × (s.stats.emitted_count + n < 2 ^ 32)

evaluate_event-Counts :
    (env : Env) (server : Option Bool) (nodes : List EdgeNode) (now : ℕ) (event : EdgeEvent)
    (s : EventState)
    → HasRoom 1 s
    → (evaluate_event env server nodes now event s).1.status ≡ ok
    → Counts server 1 (bit (rises nodes event)) s (evaluate_event env server nodes now event s).1
unfolding evaluate_event
evaluate_event-Counts env server nodes now event s room h =
    ground (arith, fire-rows env server nodes now (record event { active = true }) s.log)

evaluate_events-status :
    (env : Env) (server : Option Bool) (nodes : List EdgeNode) (now : ℕ) (e : EdgeEvent)
    (rest : List EdgeEvent) (s : EventState)
    → (evaluate_events env server nodes now (e ∷ rest) s).1.status ≡ ok
    → (evaluate_event env server nodes now e s).1.status ≡ ok
unfolding evaluate_events
evaluate_events-status env server nodes now e rest s h = ground arith

-- A pass that ends well.
evaluate_events-lem :
    (env : Env) (server : Option Bool) (nodes : List EdgeNode) (now : ℕ) (events : List EdgeEvent)
    (s : EventState)
    → HasRoom (length events) s
    → (evaluate_events env server nodes now events s).1.status ≡ ok
    → ((evaluate_events env server nodes now events s).0 ≡ map (tested nodes) events)
      × Counts server
          (length events)
          (risings nodes events)
          s
          (evaluate_events env server nodes now events s).1
unfolding evaluate_events
evaluate_events-lem env server nodes now [] s room h = ground arith
evaluate_events-lem env server nodes now (e ∷ rest) s room h =
    let good = evaluate_events-status env server nodes now e rest s h in
    let s' = (evaluate_event env server nodes now e s).1 in
    let one = evaluate_event-Counts env server nodes now e s (omega arith) good in
    let room' : HasRoom (length rest) s' = ground (arith, room, one) in
    let later : (evaluate_events env server nodes now rest s').1.status ≡ ok =
      rw (good, evaluate_events) at h in
    let (list, counts) = evaluate_events-lem env server nodes now rest s' room' later in
    rw (good, evaluate_events)
      (λ i. evaluate_event-tested env server nodes now e s i ∷ list i, ground (arith, one, counts))

-- An evaluation of at most 4096 events that succeeds sets each event's `active` to whether its condition holds now and
-- changes nothing else of the model; it counts every event as checked, and those whose condition
-- has become true since the last evaluation as fired (and as emitted, where there is a server),
-- with exactly one row in the event history for each of these.
pub evaluate-fires_once :
    (env : Env) (server : Option Bool) (m : EdgeModel) (log : Log)
    → length m.events ≤ 4096
    → (edge_events_evaluate env server m log).0 ≡ ok
    → let (status, m', stats, log') = edge_events_evaluate env server m log in
      (m' ≡ record m { events = map (tested m.nodes) m.events })
      × (stats.checked_count ≡ length m.events)
      × (stats.fired_count ≡ risings m.nodes m.events)
      × (stats.emitted_count ≡ (if is_some server then risings m.nodes m.events else 0))
      × (rows log' ≡ rows log + risings m.nodes m.events)
unfolding edge_events_evaluate edge_time_now_ms
evaluate-fires_once env server m log room h =
    let (now, log1) = edge_time_now_ms env log in
    let start : EventState = record { status = ok; stats = no_stats; log = log1 } in
    let (list, counts) =
      evaluate_events-lem env server m.nodes now m.events start
        (omega arith, omega arith, omega arith) h in
    (
      ap (λ (l : List EdgeEvent). record m { events = l }) list,
      omega (arith, counts.0),
      omega (arith, counts.1),
      ground (arith, counts.2),
      omega (arith, counts.3),
    )

-- An event whose history row cannot be written is lost: the evaluation fails with the event already
-- latched, so that the same values do not fire it again.
pub fire_failure_latches :
    (env : Env) (server : Option Bool) (nodes : List EdgeNode) (now : ℕ) (event : EdgeEvent)
    (s : EventState)
    → rises nodes event ≡ true
    → (fire env server nodes now (record event { active = true }) s.log).0 ≡ error
    → let (event', s') = evaluate_event env server nodes now event s in
      (s'.status ≡ error)
      × (rises nodes event' ≡ false)
      × ((later : ℕ) (t : EventState)
          → (evaluate_event env server nodes later event' t).1.log ≡ t.log)
unfolding evaluate_event event_condition_met source_of
fire_failure_latches env server nodes now event s up bad = ground arith
