-- ===== src/AddressSpace/Callbacks.antt =====
-- src/edge_address_space.c: what a client's write does, and what a read returns after it.
use opcua_edge.Base.{
  ℕ, ◌≡◌, ◌≢◌, ◌⊎◌, inl, inr, refl, sym, subst, Bool-cases, true, false, Option, none, some, arith,
}
use opcua_edge.Types.{EdgeDataType, unset_type, EdgeNode, low, set_low}
use opcua_edge.World.{UaType, ua_boolean, ua_int16, ua_int32, ua_uint32, ua_double, UaVariant}
use opcua_edge.AddressSpace.{
  ua_type, ua_type_for_node, bits_of, set_variant_from_edge_value, UaStatus, good, bad_not_writable,
  bad_type_mismatch, read_edge_node, accepted_width, write_scalar, write_edge_node,
}

-- The value is one of the node's own type.
abbrev pub Matches : EdgeNode → UaType → Type 0
Matches node t = (node.data_type ≢ unset_type) × (ua_type_for_node node ≡ t)

-- The node holds the scalar, which a read returns, and waits for it to be written out.
abbrev pub Holds : EdgeNode → UaType → ℕ → EdgeNode → Type 0
Holds node t x node' =
    (read_edge_node (some node') ≡ (good, some (record { scalar = some (t, low (bits_of t) x) })))
    × (node' ≡ record node { value = node'.value; pending_write = true })

low-set_low :
    (t : UaType) (v x : ℕ)
    → low (bits_of t) (set_low (bits_of t) v (low (bits_of t) x)) ≡ low (bits_of t) x
low-set_low ua_boolean v x = omega arith
low-set_low ua_int16 v x = omega arith
low-set_low ua_int32 v x = omega arith
low-set_low ua_uint32 v x = omega arith
low-set_low ua_double v x = omega arith

accepted-cases :
    (d : EdgeDataType) (t : UaType)
    → ((d ≢ unset_type) × (ua_type d ≡ t) × (accepted_width d t ≡ some (bits_of t)))
      ⊎ (¬ ((d ≢ unset_type) × (ua_type d ≡ t)) × (accepted_width d t ≡ none))
unfolding ua_type accepted_width
accepted-cases d t = ground arith

-- A client's write, by what it is given.
abbrev pub WriteOutcome : EdgeNode → Option UaVariant → UaStatus → EdgeNode → Type 0
WriteOutcome node given status node' =
    ((status ≡ bad_not_writable) × ((node.writable ≡ false) ⊎ (given ≡ none)) × (node' ≡ node))
    ⊎ ((status ≡ bad_type_mismatch)
        × (node.writable ≡ true)
        × (given ≢ none)
        × ((t : UaType) (x : ℕ) → Matches node t → given ≢ some (record { scalar = some (t, x) }))
        × (node' ≡ node))
    ⊎ ((status ≡ good)
        × (node.writable ≡ true)
        × ((t : UaType) × (x : ℕ) × (given ≡ some (record { scalar = some (t, x) }))
            × Matches node t
            × Holds node t x node'))

accepted : EdgeNode → UaType → ℕ → EdgeNode
accepted node t x = record node {
  value = set_low (bits_of t) node.value (low (bits_of t) x);
  pending_write = true;
}

write_scalar-accepted :
    (node : EdgeNode) (t : UaType) (x : ℕ)
    → accepted_width node.data_type t ≡ some (bits_of t)
    → write_scalar node (some (t, x)) ≡ (good, accepted node t x)
unfolding write_scalar accepted
write_scalar-accepted node t x w = rw (w, write_scalar) refl

write_scalar-refused :
    (node : EdgeNode) (t : UaType) (x : ℕ)
    → accepted_width node.data_type t ≡ none
    → write_scalar node (some (t, x)) ≡ (bad_type_mismatch, node)
unfolding write_scalar
write_scalar-refused node t x w = rw (w, write_scalar) refl

accepted-Holds :
    (node : EdgeNode) (t : UaType) (x : ℕ) → Matches node t → Holds node t x (accepted node t x)
unfolding read_edge_node set_variant_from_edge_value ua_type_for_node accepted
accepted-Holds node t x m = (rw (m.1, low-set_low t node.value x) refl, refl)

-- The outcome of a pair that a write returns.
abbrev Outcome : EdgeNode → Option UaVariant → UaStatus × EdgeNode → Type 0
Outcome node given r = WriteOutcome node given r.0 r.1

write_scalar-Outcome :
    (node : EdgeNode) (scalar : Option (UaType × ℕ))
    → node.writable ≡ true
    → Outcome node (some (record { scalar = scalar })) (write_scalar node scalar)
unfolding write_scalar ua_type_for_node
write_scalar-Outcome node none h =
    inr (inl (refl, h, ground arith, (λ t x m e. ground arith), refl))
write_scalar-Outcome node (some (t, x)) h = elim (accepted-cases node.data_type t) [
  | inl (set, same, w) ↦
      subst (Outcome node (some (record { scalar = some (t, x) })))
        (sym (write_scalar-accepted node t x w))
        (inr (inr (refl, h, (t, x, refl, (set, same), accepted-Holds node t x (set, same)))))
  | inr (differs, w) ↦
      subst (Outcome node (some (record { scalar = some (t, x) })))
        (sym (write_scalar-refused node t x w))
        (inr (inl (refl, h, ground arith, (λ t' x' m e. differs (ground arith)), refl)))
]

write-writable :
    (node : EdgeNode) (v : UaVariant)
    → node.writable ≡ true
    → write_edge_node node (some v) ≡ write_scalar node v.scalar
unfolding write_edge_node
write-writable node v h = ground arith

write-read_only :
    (node : EdgeNode) (v : UaVariant)
    → node.writable ≡ false
    → write_edge_node node (some v) ≡ (bad_not_writable, node)
unfolding write_edge_node
write-read_only node v h = ground arith

-- A write through the server is refused as not writable, with no effect, where the node is not
-- writable or no value is given; refused as a type mismatch, with no effect, where the value is no
-- scalar of the node's type; and else accepted: the next read returns the value, the node is marked
-- for writing out, and nothing else of it has changed.
pub write-WriteOutcome :
    (node : EdgeNode) (given : Option UaVariant)
    → let (status, node') = write_edge_node node given in WriteOutcome node given status node'
unfolding write_edge_node
write-WriteOutcome node none = inl (refl, inr refl, refl)
write-WriteOutcome node (some v) = elim (Bool-cases node.writable) [
  | inl y ↦
      subst (Outcome node (some v)) (sym (write-writable node v y))
        (write_scalar-Outcome node v.scalar y)
  | inr n ↦ subst (Outcome node (some v)) (sym (write-read_only node v n)) (inl (refl, inl n, refl))
]
