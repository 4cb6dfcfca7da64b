-- ===== src/Events.antt =====
-- src/edge_events.c: the evaluation of threshold events. The test of pointer arguments for null is
-- left out but for `server`, which may be null: `none`. A server is whether its `ua` is set.
pub mod Latch
pub mod Success
use opcua_edge.Base.{
  ℕ, ◌+◌, ◌%◌, ◌^◌, Bool, true, false, not, Option, none, some, List, [], ◌∷◌, ◌++◌, if◌then◌else◌,
  get_elem?, Bytes, codes,
}
use opcua_edge.Types.{
  EdgeStatus, ok, error, limit, invalid, EdgeEventCondition, greater_than, less_than, EdgeNode,
  EdgeEvent, EdgeModel,
}
use opcua_edge.World.{ua_get_namespace, ua_set_scalar, ua_create_event, Log, Env}
use opcua_edge.Double.{less}
use opcua_edge.Clock.{edge_time_now_ms}
use opcua_edge.Value.{edge_node_as_double}
use opcua_edge.Store.Key.{snprintf, status_of}
use opcua_edge.Store.Persist.{edge_store_insert_event_history}

abbrev pub edge_event_nodeid_len : ℕ
edge_event_nodeid_len = 160

abbrev pub edge_event_message_len : ℕ
edge_event_message_len = 192

pub record EdgeEventStats : Type 0 where
  pub checked_count : ℕ
  pub fired_count : ℕ
  pub emitted_count : ℕ

-- `count++` of a uint32_t.
abbrev pub increment : ℕ → ℕ
increment count = (count + 1) % 2 ^ 32

-- The node that `event->source_node` points at.
unfoldable pub source_of : List EdgeNode → EdgeEvent → Option EdgeNode
source_of nodes event = elim event.source_node [ none ↦ none | some i ↦ get_elem? nodes i ]

-- The test on the value, for each condition.
unfoldable pub compare_value : EdgeEventCondition → ℕ → ℕ → Bool
compare_value greater_than value threshold = less threshold value
compare_value less_than value threshold = less value threshold
compare_value _ value threshold = false

unfoldable pub event_condition_met : List EdgeNode → EdgeEvent → Bool
event_condition_met nodes event = elim (source_of nodes event) [
  | none ↦ false
  | some node ↦ compare_value event.condition (edge_node_as_double node) event.threshold
]

unfoldable pub make_event_source_nodeid : EdgeEvent → EdgeStatus × Bytes
make_event_source_nodeid event = snprintf edge_event_nodeid_len (codes "asset:" ++ event.asset_id)

abbrev pub condition_word : EdgeEventCondition → Bytes
condition_word less_than = codes "below"
condition_word _ = codes "above"

abbrev pub message_text : Env → EdgeEvent → EdgeNode → Bytes
message_text env event node =
    event.id
    ++ (codes " "
        ++ (condition_word event.condition
            ++ (codes " "
                ++ (env.format_double (edge_node_as_double node)
                    ++ (codes " threshold " ++ env.format_double event.threshold)))))

unfoldable pub make_event_message : Env → List EdgeNode → EdgeEvent → EdgeStatus × Bytes
make_event_message env nodes event = elim (source_of nodes event) [
  | none ↦ (invalid, [])
  | some node ↦ snprintf edge_event_message_len (message_text env event node)
]

-- From `UA_Server_getNamespaceByName` on; the texts are made only if that call succeeds.
unfoldable pub create_event : Env → List EdgeNode → EdgeEvent → Log → EdgeStatus × Log
create_event env nodes event log =
    let named = ua_get_namespace ∷ log in
    let (source_status, source_id) = make_event_source_nodeid event in
    let (message_status, message) = make_event_message env nodes event in
    let (name_status, source_name) = snprintf edge_event_nodeid_len event.asset_id in
    let scalar = ua_set_scalar ∷ named in
    let created = ua_create_event source_id event.severity message ∷ scalar in
    if not (env.finds_namespace log) then (error, named) else elim source_status [
      | ok ↦ elim message_status [
        | ok ↦ elim name_status [
          | ok ↦
              if not (env.sets_scalar named)
              then (error, scalar)
              else (status_of (env.creates_event scalar), created)
          | _ ↦ (error, named)
        ]
        | _ ↦ (error, named)
      ]
      | _ ↦ (error, named)
    ]

unfoldable pub emit_opcua_event :
    Env → Option Bool → List EdgeNode → EdgeEvent → Log → EdgeStatus × Log
emit_opcua_event env none nodes event log = (ok, log)
emit_opcua_event env (some false) nodes event log = (invalid, log)
emit_opcua_event env (some true) nodes event log = create_event env nodes event log

abbrev pub is_some {ℓ} : {A : Type ℓ} → Option A → Bool
is_some none = false
is_some (some a) = true

abbrev pub value_of : List EdgeNode → EdgeEvent → ℕ
value_of nodes event = elim (source_of nodes event) [
  | none ↦ 0
  | some node ↦ edge_node_as_double node
]

-- A transition to active: the history row, then the notification.
unfoldable pub fire : Env → Option Bool → List EdgeNode → ℕ → EdgeEvent → Log → EdgeStatus × Log
fire env server nodes now_ms event log =
    let value = value_of nodes event in
    let (stored, log') = edge_store_insert_event_history env event value now_ms log in
    let (emitted, log'') = emit_opcua_event env server nodes event log' in
    elim stored [ ok ↦ elim emitted [ ok ↦ (ok, log'') | _ ↦ (error, log'') ] | _ ↦ (error, log') ]

-- The variables of the loop; `status` is not OK once it has returned.
pub record EventState : Type 0 where
  pub status : EdgeStatus
  pub stats : EdgeEventStats
  pub log : Log

abbrev pub check : EdgeEventStats → EdgeEventStats
check stats = record stats { checked_count = increment stats.checked_count }

abbrev pub count_fired : Option Bool → EdgeEventStats → EdgeEventStats
count_fired server stats = record stats {
  fired_count = increment stats.fired_count;
  emitted_count = if is_some server then increment stats.emitted_count else stats.emitted_count;
}

-- The body of the loop. The event is latched before it is stored and emitted.
unfoldable pub evaluate_event :
    Env → Option Bool → List EdgeNode → ℕ → EdgeEvent → EventState → EdgeEvent × EventState
evaluate_event env server nodes now_ms event s =
    let met = event_condition_met nodes event in
    let latched = record event { active = true } in
    let (fired, log') = fire env server nodes now_ms latched s.log in
    let failed : EventState = record { status = error; stats = check s.stats; log = log' } in
    let done : EventState = record {
      status = ok;
      stats = count_fired server (check s.stats);
      log = log';
    } in
    let checked = record s { stats = check s.stats } in
    if met
    then (if event.active
        then (event, checked)
        else (latched, elim fired [ ok ↦ done | _ ↦ failed ]))
    else (record event { active = false }, checked)

unfoldable pub evaluate_events :
    Env
    → Option Bool
    → List EdgeNode
    → ℕ
    → List EdgeEvent
    → EventState
    → List EdgeEvent × EventState
evaluate_events env server nodes now_ms [] s = ([], s)
evaluate_events env server nodes now_ms (event ∷ rest) s =
    let (event', s') = evaluate_event env server nodes now_ms event s in
    let (rest', s'') = evaluate_events env server nodes now_ms rest s' in
    elim s'.status [ ok ↦ (event' ∷ rest', s'') | _ ↦ (event' ∷ rest, s') ]

abbrev pub no_stats : EdgeEventStats
no_stats = record { checked_count = 0; fired_count = 0; emitted_count = 0 }

unfoldable pub edge_events_evaluate :
    Env → Option Bool → EdgeModel → Log → EdgeStatus × EdgeModel × EdgeEventStats × Log
edge_events_evaluate env server model log =
    let (now_ms, log') = edge_time_now_ms env log in
    let start : EventState = record { status = ok; stats = no_stats; log = log' } in
    let (events, s) = evaluate_events env server model.nodes now_ms model.events start in
    (s.status, record model { events = events }, s.stats, s.log)
