-- ===== src/Value/RoundTrip.antt =====
-- include/edge_value.h: a node set from the double of another one.
use opcua_edge.Base.{
  ℕ, zero, suc, ◌<◌, ◌≡◌, ◌⊎◌, refl, inl, inr, true, not, arith, if_both, if◌then◌else◌,
}
use opcua_edge.Types.{
  EdgeDataType, unset_type, bool, int16, int32, uint32, double, EdgeNode, low, set_low,
}
use opcua_edge.Double.{Fpu, normalise, is_finite, is_zero, of_nat}
use opcua_edge.Double.Exact.{
  of_nat-finite, to_signed-of_signed_16, to_signed-of_signed_32, to_unsigned-of_nat,
  of_signed-finite,
}
use opcua_edge.Value.{
  as_double, edge_node_as_double, is_double, converted, edge_node_set_from_double,
}

-- A value that a C program can hold: a bool is 0 or 1.
abbrev pub Proper : EdgeDataType → ℕ → Type 0
Proper bool v = low 8 v < 2
Proper _ v = Unit

bool_back :
    (b old : ℕ)
    → b < 2
    → of_nat (low 8 (set_low 8 old (if is_zero (of_nat b) then 0 else 1))) ≡ of_nat b
unfolding of_nat normalise is_zero
bool_back zero old h = ground arith
bool_back (suc zero) old h = ground arith
bool_back (suc (suc b)) old h = absurd (ground arith)

as_double-converted :
    (fpu : Fpu) (t : EdgeDataType) (v old : ℕ)
    → Proper t v
    → as_double t (converted fpu t old (as_double t v)) ≡ as_double t v
unfolding as_double converted
as_double-converted fpu bool v old h = bool_back (low 8 v) old h
as_double-converted fpu int16 v old h =
    ground (arith, to_signed-of_signed_16 fpu (low 16 v) (omega arith))
as_double-converted fpu int32 v old h =
    ground (arith, to_signed-of_signed_32 fpu (low 32 v) (omega arith))
as_double-converted fpu uint32 v old h =
    ground (arith, to_unsigned-of_nat fpu (low 32 v) (omega arith))
as_double-converted fpu double v old h = omega arith
as_double-converted fpu unset_type v old h = refl

is_finite-as_double :
    (t : EdgeDataType) (v : ℕ) → (is_double t ≡ true) ⊎ (is_finite (as_double t v) ≡ true)
unfolding as_double is_finite
is_finite-as_double bool v = inr (of_nat-finite (low 8 v) (omega arith)).0
is_finite-as_double int16 v = inr (of_signed-finite 16 (low 16 v) (omega arith) (omega arith))
is_finite-as_double int32 v = inr (of_signed-finite 32 (low 32 v) (omega arith) (omega arith))
is_finite-as_double uint32 v = inr (of_nat-finite (low 32 v) (omega arith)).0
is_finite-as_double double v = inl refl
is_finite-as_double unset_type v = inr (ground arith)

double_back : (v : ℕ) → as_double double (as_double double v) ≡ as_double double v
unfolding as_double
double_back v = omega arith

-- The value that is set, on both branches of the test.
set_back :
    (fpu : Fpu) (t : EdgeDataType) (v old : ℕ)
    → Proper t v
    → let d = as_double t v in
      as_double t
        (if not (is_finite d) then if is_double t then d else 0 else converted fpu t old d)
      ≡ d
unfolding is_finite
set_back fpu double v old h =
    if_both (λ (x : ℕ). as_double double x ≡ as_double double v)
      (not (is_finite (as_double double v))) _ _ (double_back v)
      (as_double-converted fpu double v old h)
set_back fpu t v old h = elim (is_finite-as_double t v) [
  | inl e ↦ absurd (ground arith)
  | inr finite ↦ rw finite (as_double-converted fpu t v old h)
]

-- A node of the same type, set from the double of a node's value, reads as the same double, for every
-- type and every value, NaNs and infinities included, provided that a bool holds 0 or 1.
pub as_double-set_from_double :
    (fpu : Fpu) (node other : EdgeNode)
    → other.data_type ≡ node.data_type
    → Proper node.data_type node.value
    → edge_node_as_double (edge_node_set_from_double fpu other (edge_node_as_double node))
      ≡ edge_node_as_double node
unfolding edge_node_as_double edge_node_set_from_double
as_double-set_from_double fpu node other same h =
    ground (arith, same, set_back fpu node.data_type node.value other.value h)
