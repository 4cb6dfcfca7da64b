-- ===== src/Tests/Value.antt =====
-- include/edge_value.h: a node with the value 9 set into one that holds 0.
use opcua_edge.Base.{◌≡◌, refl}
use opcua_edge.Value.{edge_node_as_double, edge_node_set_from_double}
use opcua_edge.Value.RoundTrip.{as_double-set_from_double}
use opcua_edge.Tests.Data.{first_operand, waiting, node_t}

as_double-set_from_double_example :
    edge_node_as_double
      (edge_node_set_from_double first_operand node_t (edge_node_as_double waiting))
    ≡ edge_node_as_double waiting
as_double-set_from_double_example = as_double-set_from_double first_operand waiting node_t refl tt
