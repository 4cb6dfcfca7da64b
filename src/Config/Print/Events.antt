-- ===== src/Config/Print/Events.antt =====
-- src/edge_config.c: the lines of an [event] section.
use opcua_edge.Base.{
  ℕ, ◌+◌, ◌<◌, ◌≤◌, ◌≡◌, ◌≢◌, refl, ap, ◌∙◌, none, some, List, [], ◌∷◌, arith, length, Bytes,
  str_eq, codes,
}
use opcua_edge.Types.{
  ok, EdgeEventCondition, unset_condition, greater_than, less_than, EdgeEvent, EdgeModel,
}
use opcua_edge.Config.Fields.{
  Parsed, split_at_equals, split_key_value, parse_u16, parse_double, parse_condition,
  parse_event_key, stored,
}
use opcua_edge.Config.Loader.{
  section_event, on_key, Loader, new_event, begin_event, on_line, starts_with,
}
use opcua_edge.Config.Print.{Plain, Text, Takes, Reads, done, next}
use opcua_edge.Config.Print.Numbers.{decimal, decimal-Text, parse_bounded-decimal}
use opcua_edge.Config.Print.Keys.{key_line, copied, in_event, event_key, takes_key}
use opcua_edge.Config.Print.Nodes.{Doubles}

abbrev pub condition_text : EdgeEventCondition → Bytes
condition_text greater_than = codes "greater_than"
condition_text less_than = codes "less_than"
condition_text unset_condition = []

abbrev pub event_lines : (ℕ → Bytes) → EdgeEvent → List Bytes
event_lines print e =
    codes "[event]"
    ∷ key_line (codes "asset") e.asset_id
    ∷ key_line (codes "id") e.id
    ∷ key_line (codes "source_node") e.source_node_id
    ∷ key_line (codes "condition") (condition_text e.condition)
    ∷ key_line (codes "threshold") (print e.threshold)
    ∷ key_line (codes "severity") (decimal e.severity)
    ∷ []

-- What a template says of an event.
abbrev pub written_event : EdgeEvent → EdgeEvent
written_event e = record new_event {
  asset_id = e.asset_id;
  id = e.id;
  source_node_id = e.source_node_id;
  condition = e.condition;
  threshold = e.threshold;
  severity = e.severity;
}

abbrev pub EventText : (Bytes → Parsed) → (ℕ → Bytes) → EdgeEvent → Type 0
EventText strtod print e =
    Text 64 e.asset_id
    × Text 64 e.id
    × Text 64 e.source_node_id
    × (e.condition ≢ unset_condition)
    × Doubles strtod print e.threshold
    × (e.severity ≤ 65535)

condition-Text : (c : EdgeEventCondition) → c ≢ unset_condition → Text 14 (condition_text c)
condition-Text unset_condition h = absurd (h refl)
condition-Text greater_than h = ground arith
condition-Text less_than h = ground arith

condition_back :
    (c old : EdgeEventCondition)
    → c ≢ unset_condition
    → parse_condition (condition_text c) old ≡ (ok, c)
unfolding parse_condition str_eq
condition_back unset_condition old h = absurd (h refl)
condition_back greater_than old h = refl
condition_back less_than old h = refl

module _ (strtod : Bytes → Parsed) where
  event_opens :
      (l : Loader)
      → length l.model.events < 4096
      → on_line strtod l (codes "[event]") ≡ some (ok, in_event l.model new_event)
  unfolding on_line starts_with str_eq begin_event
  event_opens l room = ground arith

  event_text :
      (m : EdgeModel) (e e' : EdgeEvent) (key value : Bytes) {size : ℕ}
      → Plain key
      → length key + size < 510
      → Text size value
      → on_line strtod (in_event m e) (key_line key value)
        ≡ on_key strtod section_event none none (some (length m.events)) (in_event m e) key value
      → parse_event_key strtod e key value ≡ (ok, e')
      → Takes strtod (key_line key value) (in_event m e) (in_event m e')
  event_text m e e' key value p short t line h =
      takes_key strtod key value (in_event m e) (in_event m e') p short t
        (line ∙ event_key strtod m e e' key value h)

  pub event_section :
      (print : ℕ → Bytes) (l : Loader) (e : EdgeEvent)
      → EventText strtod print e
      → length l.model.events < 4096
      → Reads strtod (event_lines print e) l (in_event l.model (written_event e))
  unfolding on_line starts_with split_key_value split_at_equals str_eq parse_event_key parse_u16
      parse_double
  event_section print l e (asset, id, source, condition, (shown, read), severity) room =
      let m = l.model in
      let e1 = record new_event { asset_id = e.asset_id } in
      let e2 = record e1 { id = e.id } in
      let e3 = record e2 { source_node_id = e.source_node_id } in
      let e4 = record e3 { condition = e.condition } in
      let e5 = record e4 { threshold = e.threshold } in
      let e6 = record e5 { severity = e.severity } in
      next (ground arith, omega arith, event_opens l room)
        (next
          (event_text m new_event e1 (codes "asset") e.asset_id (ground arith) (omega arith) asset
            refl (copied [] 64 e.asset_id (λ x. record new_event { asset_id = x }) asset))
          (next
            (event_text m e1 e2 (codes "id") e.id (ground arith) (omega arith) id refl
              (copied [] 64 e.id (λ x. record e1 { id = x }) id))
            (next
              (event_text m e2 e3 (codes "source_node") e.source_node_id (ground arith)
                (omega arith) source refl
                (copied [] 64 e.source_node_id (λ x. record e2 { source_node_id = x }) source))
              (next
                (event_text m e3 e4 (codes "condition") (condition_text e.condition) (ground arith)
                  (omega arith) (condition-Text e.condition condition) refl
                  (ap (λ r. stored r (λ x. record e3 { condition = x }))
                    (condition_back e.condition unset_condition condition)))
                (next
                  (event_text m e4 e5 (codes "threshold") (print e.threshold) (ground arith)
                    (omega arith) shown refl (ground (arith, read)))
                  (next
                    (event_text m e5 e6 (codes "severity") (decimal e.severity) (ground arith)
                      (omega arith) (decimal-Text e.severity) refl
                      (ap (λ r. stored r (λ x. record e5 { severity = x }))
                        (parse_bounded-decimal 65535 e.severity 0 severity (omega arith))))
                    done))))))
