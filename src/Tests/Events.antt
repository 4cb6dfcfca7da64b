-- ===== src/Tests/Events.antt =====
-- src/edge_events.c: a value that rises above its threshold, with a store that takes the row and
-- with one that does not.
use opcua_edge.Base.{
  ◌≡◌, ℕ, ◌+◌, true, false, refl, some, none, [], ◌∷◌, map, length, arith, if◌then◌else◌,
}
use opcua_edge.Types.{ok, error}
use opcua_edge.Clock.{edge_time_now_ms}
use opcua_edge.Double.{is_nan, less, of_signed, of_nat, is_zero, normalise}
use opcua_edge.Value.{edge_node_as_double, as_double}
use opcua_edge.Store.Key.{prepare, step_done, snprintf}
use opcua_edge.Store.Persist.{insert_one, edge_store_insert_event_history}
use opcua_edge.Events.{
  EventState, no_stats, is_some, source_of, compare_value, event_condition_met, fire,
  emit_opcua_event, create_event, make_event_source_nodeid, make_event_message, evaluate_event,
  evaluate_events, edge_events_evaluate,
}
use opcua_edge.Events.Latch.{
  tested, rises, risings, rows, evaluate-fires_once, fire_failure_latches,
}
use opcua_edge.Config.Bounds.{ModelFits}
use opcua_edge.Events.Success.{evaluate-succeeds}
use opcua_edge.Tests.Data.{works, refuses, waiting, wired_event, wired}

evaluation_succeeds : (edge_events_evaluate works (some true) wired []).0 ≡ ok
unfolding edge_events_evaluate evaluate_events evaluate_event event_condition_met source_of
    compare_value edge_node_as_double as_double of_signed of_nat normalise less is_nan is_zero fire
    emit_opcua_event create_event make_event_source_nodeid make_event_message snprintf
    edge_store_insert_event_history insert_one prepare step_done edge_time_now_ms
evaluation_succeeds = refl

evaluate-fires_once_example :
    let (status, m', stats, log') = edge_events_evaluate works (some true) wired [] in
    (m' ≡ record wired { events = map (tested wired.nodes) wired.events })
    × (stats.checked_count ≡ length wired.events)
    × (stats.fired_count ≡ risings wired.nodes wired.events)
    × (stats.emitted_count ≡ (if is_some (some true) then risings wired.nodes wired.events else 0))
    × (rows log' ≡ 0 + risings wired.nodes wired.events)
evaluate-fires_once_example =
    evaluate-fires_once works (some true) wired [] (omega arith) evaluation_succeeds

abbrev at_start : EventState
at_start = record { status = ok; stats = no_stats; log = [] }

event_rises : rises (waiting ∷ []) wired_event ≡ true
unfolding event_condition_met source_of compare_value edge_node_as_double as_double of_signed of_nat
    normalise less is_nan is_zero
event_rises = refl

row_refused :
    (fire refuses none (waiting ∷ []) 1000 (record wired_event { active = true }) []).0 ≡ error
unfolding fire edge_store_insert_event_history insert_one prepare step_done
row_refused = refl

fire_failure_latches_example :
    let (event', s') = evaluate_event refuses none (waiting ∷ []) 1000 wired_event at_start in
    (s'.status ≡ error)
    × (rises (waiting ∷ []) event' ≡ false)
    × ((later : ℕ) (t : EventState)
        → (evaluate_event refuses none (waiting ∷ []) later event' t).1.log ≡ t.log)
fire_failure_latches_example =
    fire_failure_latches refuses none (waiting ∷ []) 1000 wired_event at_start event_rises
      row_refused

wired-ModelFits : ModelFits wired
wired-ModelFits = ground arith

evaluate-succeeds_example : (edge_events_evaluate works (some true) wired []).0 ≡ ok
evaluate-succeeds_example =
    evaluate-succeeds works ((λ l. refl), (λ l. refl), (λ l. refl))
      ((λ l. refl), (λ l. refl), (λ l. refl)) (some true) wired [] (λ e. ground arith)
      wired-ModelFits (omega arith, tt)
