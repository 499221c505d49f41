-- ===== src/Reporting/Examples.antt =====
-- Runs of the theorems on what internal/reporting does with the filters of a graph and with its
-- tree, and on the part of it around a device.
use integration_console.Prelude.{
  ◌≡◌, ◌↔◌, to_lower, lower_code, contains, refl, List, map, Text, true, false, some, none, [], ◌∷◌,
  pos, negsuc, codes, is_space,
}
use integration_console.Reporting.Filters.{
  GraphFilters, with_root, with_kinds, with_scope, with_limits, with_lists, normalize_scoped,
  normalize_graph_filters,
}
use integration_console.Reporting.Tree.{
  Node, Edge, build_presentation_tree, new_tree, sort_nodes, insert_node, sort_edges, insert_edge,
  visit_root, visit_left, visit, begin_visit, spread, expand, place, is_adjacent, other_end,
  is_graph_association, has_node, find_node, write_node,
}
use integration_console.Reporting.Focus.{focus_graph_around_mac, find_device, is_device}
use integration_console.Reporting.Focus.Reach.{IsWithin, focus_graph_around_mac-IsWithin}
use integration_console.Reporting.Tree.Growth.{node_ids}
use integration_console.Reporting.Tree.Forest.{IsHung}
use integration_console.Reporting.Tree.Whole.{build_presentation_tree-IsHung}
use integration_console.Reporting.Filters.Normal.{IsNormal, normalize_graph_filters-IsNormal}

abbrev stream_filters : GraphFilters
stream_filters = record {
  hierarchy = false;
  root_bssid = [];
  root_node_id = codes " ap:1 ";
  projection = codes "stream";
  include_identity = false;
  location_ids = codes "b" ∷ codes "a" ∷ codes " b " ∷ [];
  sensor_ids = [];
  source_mac = [];
  ssid = [];
  kinds = [];
  edge_kinds = [];
  threat_only = false;
  observed_after = some 1;
  observed_before = none;
  hops = pos 7;
  limit = negsuc 3;
  scope = [];
  page_cursor = [];
  page_size = pos 0;
}

abbrev normal_filters : GraphFilters
normal_filters = with_lists (with_limits (with_scope (with_kinds (with_root stream_filters))))

normalize_graph_filters-IsNormal_example : IsNormal normal_filters
unfolding normalize_graph_filters normalize_scoped with_root with_kinds with_scope is_space
normalize_graph_filters-IsNormal_example =
    normalize_graph_filters-IsNormal stream_filters normal_filters refl

-- Two access points with a device that both have heard, another device, and one that nothing has heard.
abbrev a_node : Text → Text → Node Unit
a_node id kind = record {
  id = id;
  kind = kind;
  mac = [];
  role = [];
  parent_id = none;
  depth = none;
  rest = tt;
}

abbrev an_edge : Text → Text → Text → Edge Unit
an_edge id source target = record {
  id = id;
  source = source;
  target = target;
  kind = codes "observed_at";
  tree_role = [];
  rest = tt;
}

abbrev lan_nodes : List (Node Unit)
lan_nodes =
    a_node (codes "d3") (codes "device")
    ∷ a_node (codes "d2") (codes "device")
    ∷ a_node (codes "d1") (codes "device")
    ∷ a_node (codes "b") (codes "ap")
    ∷ a_node (codes "a") (codes "ap")
    ∷ []

abbrev lan_edges : List (Edge Unit)
lan_edges =
    an_edge (codes "e3") (codes "d2") (codes "b")
    ∷ an_edge (codes "e2") (codes "d1") (codes "b")
    ∷ an_edge (codes "e1") (codes "d1") (codes "a")
    ∷ an_edge (codes "e4") (codes "d2") (codes "gone")
    ∷ []

lan_depths :
    map (λ n. n.depth) (build_presentation_tree lan_nodes lan_edges (codes "a")).nodes
    ≡ some 0 ∷ some 2 ∷ some 1 ∷ some 3 ∷ some 0 ∷ []
unfolding build_presentation_tree new_tree sort_nodes insert_node sort_edges insert_edge visit_root
    visit_left visit begin_visit spread expand place is_adjacent other_end is_graph_association
    has_node find_node write_node
lan_depths = refl

lan_roots :
    (build_presentation_tree lan_nodes lan_edges (codes "a")).root_ids ≡ codes "a" ∷ codes "d3" ∷ []
unfolding build_presentation_tree new_tree sort_nodes insert_node sort_edges insert_edge visit_root
    visit_left visit begin_visit spread expand place is_adjacent other_end is_graph_association
    has_node find_node write_node
lan_roots = refl

build_presentation_tree-IsHung_example :
    (n : Node Unit) × (find_node
        (codes "d2")
        (build_presentation_tree lan_nodes lan_edges (codes "a")).nodes
      ≡ some n)
    × IsHung (build_presentation_tree lan_nodes lan_edges (codes "a")).nodes n
build_presentation_tree-IsHung_example =
    build_presentation_tree-IsHung lan_nodes lan_edges (codes "a") (codes "d2") refl

abbrev near_nodes : List (Node Unit)
near_nodes =
    a_node (codes "device:d1") (codes "device")
    ∷ a_node (codes "a") (codes "ap")
    ∷ a_node (codes "device:d2") (codes "device")
    ∷ []

abbrev near_edges : List (Edge Unit)
near_edges =
    an_edge (codes "e1") (codes "device:d1") (codes "a")
    ∷ an_edge (codes "e2") (codes "device:d2") (codes "a")
    ∷ []

focus_graph_around_mac-IsWithin_example :
    (contains
        (codes "device:d2")
        (node_ids (focus_graph_around_mac near_nodes near_edges (codes "D1") 2).0)
      ≡ true)
    ↔ ((contains (codes "device:d2") (node_ids near_nodes) ≡ true)
        × IsWithin near_edges 2 (codes "device:d1") (codes "device:d2"))
unfolding find_device is_device to_lower lower_code
focus_graph_around_mac-IsWithin_example =
    focus_graph_around_mac-IsWithin near_nodes near_edges (codes "D1") (codes "device:d1") 2
      (codes "device:d2") refl
