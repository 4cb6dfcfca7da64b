-- ===== src/Config/Print/Nodes.antt =====
-- src/edge_config.c: the lines of a [node] section.
use opcua_edge.Base.{
  ℕ, ◌+◌, ◌<◌, ◌≤◌, ◌≡◌, ◌≢◌, refl, ap, ◌∙◌, Bool, true, false, none, some, List, [], ◌∷◌, arith,
  length, Bytes, str_eq, codes,
}
use opcua_edge.Types.{
  ok, EdgeDataType, unset_type, bool, int16, int32, uint32, double, EdgeNode, EdgeModel,
}
use opcua_edge.Config.Fields.{
  Parsed, split_at_equals, split_key_value, parse_u16, parse_u32, parse_double, parse_data_type,
  parse_access, parse_modbus_unit, parse_node_key, stored,
}
use opcua_edge.Config.Loader.{
  section_node, on_key, Loader, new_node, begin_node, on_line, starts_with,
}
use opcua_edge.Config.Print.{Plain, Text, Takes, Reads, done, next}
use opcua_edge.Config.Print.Numbers.{decimal, decimal-Text, parse_bounded-decimal}
use opcua_edge.Config.Print.Keys.{key_line, copied, in_node, node_key, takes_key}

-- How doubles are written, and that `strtod` reads them back.
abbrev pub Doubles : (Bytes → Parsed) → (ℕ → Bytes) → ℕ → Type 0
Doubles strtod print d =
    Text 400 (print d)
    × (strtod (print d) ≡ record { value = d; out_of_range = false; converted = true; rest = [] })

abbrev pub type_text : EdgeDataType → Bytes
type_text bool = codes "bool"
type_text int16 = codes "int16"
type_text int32 = codes "int32"
type_text uint32 = codes "uint32"
type_text double = codes "double"
type_text unset_type = []

abbrev pub access_text : Bool → Bytes
access_text true = codes "read_write"
access_text false = codes "read"

abbrev pub node_lines : (ℕ → Bytes) → EdgeNode → List Bytes
node_lines print n =
    codes "[node]"
    ∷ key_line (codes "asset") n.asset_id
    ∷ key_line (codes "id") n.id
    ∷ key_line (codes "name") n.name
    ∷ key_line (codes "data_type") (type_text n.data_type)
    ∷ key_line (codes "access") (access_text n.writable)
    ∷ key_line (codes "source") (codes "modbus")
    ∷ key_line (codes "modbus_unit") (decimal n.modbus_unit)
    ∷ key_line (codes "modbus_register") (decimal n.modbus_register)
    ∷ key_line (codes "scale") (print n.scale)
    ∷ []

-- What a template says of a node.
abbrev pub written_node : EdgeNode → EdgeNode
written_node n = record new_node {
  asset_id = n.asset_id;
  id = n.id;
  name = n.name;
  data_type = n.data_type;
  writable = n.writable;
  modbus_unit = n.modbus_unit;
  modbus_register = n.modbus_register;
  scale = n.scale;
}

abbrev pub NodeText : (Bytes → Parsed) → (ℕ → Bytes) → EdgeNode → Type 0
NodeText strtod print n =
    Text 64 n.asset_id
    × Text 64 n.id
    × Text 128 n.name
    × (n.data_type ≢ unset_type)
    × (0 < n.modbus_unit)
    × (n.modbus_unit ≤ 247)
    × (n.modbus_register ≤ 4294967295)
    × Doubles strtod print n.scale

type-Text : (t : EdgeDataType) → t ≢ unset_type → Text 8 (type_text t)
type-Text unset_type h = absurd (h refl)
type-Text bool h = ground arith
type-Text int16 h = ground arith
type-Text int32 h = ground arith
type-Text uint32 h = ground arith
type-Text double h = ground arith

access-Text : (writable : Bool) → Text 12 (access_text writable)
access-Text true = ground arith
access-Text false = ground arith

type_back : (t old : EdgeDataType) → t ≢ unset_type → parse_data_type (type_text t) old ≡ (ok, t)
unfolding parse_data_type str_eq
type_back unset_type old h = absurd (h refl)
type_back bool old h = refl
type_back int16 old h = refl
type_back int32 old h = refl
type_back uint32 old h = refl
type_back double old h = refl

access_back : (writable old : Bool) → parse_access (access_text writable) old ≡ (ok, writable)
unfolding parse_access str_eq
access_back true old = refl
access_back false old = refl

unit_back :
    (n : EdgeNode) (unit : ℕ)
    → 0 < unit
    → unit ≤ 247
    → parse_modbus_unit n (decimal unit) ≡ (ok, record n { modbus_unit = unit })
unfolding parse_modbus_unit parse_u16
unit_back n unit h k =
    ground (arith, parse_bounded-decimal 65535 unit n.modbus_unit (omega arith) (omega arith))

module _ (strtod : Bytes → Parsed) where
  node_opens :
      (l : Loader)
      → length l.model.nodes < 65536
      → on_line strtod l (codes "[node]") ≡ some (ok, in_node l.model new_node)
  unfolding on_line starts_with str_eq begin_node
  node_opens l room = ground arith

  node_text :
      (m : EdgeModel) (n n' : EdgeNode) (key value : Bytes) {size : ℕ}
      → Plain key
      → length key + size < 510
      → Text size value
      → on_line strtod (in_node m n) (key_line key value)
        ≡ on_key strtod section_node none (some (length m.nodes)) none (in_node m n) key value
      → parse_node_key strtod n key value ≡ (ok, n')
      → Takes strtod (key_line key value) (in_node m n) (in_node m n')
  node_text m n n' key value p short t line h =
      takes_key strtod key value (in_node m n) (in_node m n') p short t
        (line ∙ node_key strtod m n n' key value h)

  pub node_section :
      (print : ℕ → Bytes) (l : Loader) (n : EdgeNode)
      → NodeText strtod print n
      → length l.model.nodes < 65536
      → Reads strtod (node_lines print n) l (in_node l.model (written_node n))
  unfolding on_line starts_with split_key_value split_at_equals str_eq parse_node_key parse_u32
      parse_double
  node_section print l n (asset, id, name, type, least, most, register, (shown, read)) room =
      let m = l.model in
      let n1 = record new_node { asset_id = n.asset_id } in
      let n2 = record n1 { id = n.id } in
      let n3 = record n2 { name = n.name } in
      let n4 = record n3 { data_type = n.data_type } in
      let n5 = record n4 { writable = n.writable } in
      let n6 = record n5 { modbus_unit = n.modbus_unit } in
      let n7 = record n6 { modbus_register = n.modbus_register } in
      let n8 = record n7 { scale = n.scale } in
      next (ground arith, omega arith, node_opens l room)
        (next
          (node_text m new_node n1 (codes "asset") n.asset_id (ground arith) (omega arith) asset
            refl (copied [] 64 n.asset_id (λ x. record new_node { asset_id = x }) asset))
          (next
            (node_text m n1 n2 (codes "id") n.id (ground arith) (omega arith) id refl
              (copied [] 64 n.id (λ x. record n1 { id = x }) id))
            (next
              (node_text m n2 n3 (codes "name") n.name (ground arith) (omega arith) name refl
                (copied [] 128 n.name (λ x. record n2 { name = x }) name))
              (next
                (node_text m n3 n4 (codes "data_type") (type_text n.data_type) (ground arith)
                  (omega arith) (type-Text n.data_type type) refl
                  (ap (λ r. stored r (λ x. record n3 { data_type = x }))
                    (type_back n.data_type unset_type type)))
                (next
                  (node_text m n4 n5 (codes "access") (access_text n.writable) (ground arith)
                    (omega arith) (access-Text n.writable) refl
                    (ap (λ r. stored r (λ x. record n4 { writable = x }))
                      (access_back n.writable false)))
                  (next
                    (node_text m n5 n5 (codes "source") (codes "modbus") {size = 7} (ground arith)
                      (omega arith) (ground arith) refl refl)
                    (next
                      (node_text m n5 n6 (codes "modbus_unit") (decimal n.modbus_unit)
                        (ground arith) (omega arith) (decimal-Text n.modbus_unit) refl
                        (unit_back n5 n.modbus_unit least most))
                      (next
                        (node_text m n6 n7 (codes "modbus_register") (decimal n.modbus_register)
                          (ground arith) (omega arith) (decimal-Text n.modbus_register) refl
                          (ap (λ r. stored r (λ x. record n6 { modbus_register = x }))
                            (parse_bounded-decimal 4294967295 n.modbus_register 0 register
                              (omega arith))))
                        (next
                          (node_text m n7 n8 (codes "scale") (print n.scale) (ground arith)
                            (omega arith) shown refl (ground (arith, read)))
                          done)))))))))
