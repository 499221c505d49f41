-- ===== src/Reporting/Filters.antt =====
-- GraphFilters and NormalizeGraphFilters of atheros-search/internal/reporting/graph_normalize.go, with
-- NormalizeGraphList of queryscope/scope.go.
pub mod Normal
use integration_console.Prelude.{
  ℕ, Bool, true, false, not, ◌&&◌, ◌||◌, Option, none, some, List, [], ◌∷◌, ◌++◌, ℤ, pos, ltb, leb,
  if◌then◌else◌, Result, ok, err, ◌>>=◌, fail_if, String, Text, codes, same_text, is_empty,
  trim_space, to_lower, collect, sort_texts, positive, pos_part, positive_or,
}

-- GraphFilters
pub record GraphFilters : Type 0 where
  pub hierarchy : Bool
  pub root_bssid : Text
  pub root_node_id : Text
  pub projection : Text
  pub include_identity : Bool
  pub location_ids : List Text
  pub sensor_ids : List Text
  pub source_mac : Text
  pub ssid : Text
  pub kinds : List Text
  pub edge_kinds : List Text
  pub threat_only : Bool
  pub observed_after : Option ℕ
  pub observed_before : Option ℕ
  pub hops : ℤ
  pub limit : ℤ
  pub scope : Text
  pub page_cursor : Text
  pub page_size : ℤ

-- The validation errors, without their texts.
pub data Invalid : Type 0 where
  cursor_in_hierarchy : Invalid
  unsupported_projection : Invalid
  unsupported_scope : Text → Invalid
  cursor_without_scope : Invalid
  empty_window : Invalid

abbrev pub default_limit : ℤ
default_limit = pos 200

abbrev pub max_limit : ℕ
max_limit = 1000

abbrev pub max_hops : ℕ
max_hops = 2

abbrev pub default_page_size : ℕ
default_page_size = 500

abbrev pub max_page_size : ℕ
max_page_size = 1000

-- normalizePageSize
unfoldable pub normalize_page_size : ℤ → ℤ
normalize_page_size size =
    if not (positive size)
    then pos default_page_size
    else if ltb max_page_size (pos_part size)
    then pos max_page_size
    else size

-- mapGraphNodeKind
unfoldable pub map_graph_node_kind : Text → Text
map_graph_node_kind kind =
    if same_text kind (codes "access_point")
    then codes "ap"
    else if same_text kind (codes "identity_cluster")
    then codes "cluster"
    else kind

-- mapGraphEdgeKind
unfoldable pub map_graph_edge_kind : Text → Text
map_graph_edge_kind kind =
    if same_text kind (codes "observed_at")
    then codes "association"
    else if same_text kind (codes "identity_member")
    then codes "cluster_member"
    else kind

-- NormalizeGraphList
unfoldable pub normalize_graph_list : List Text → List Text
unfolding collect sort_texts
normalize_graph_list values = sort_texts (collect (λ v. v) [] values)

-- The root, which makes the graph a hierarchy.
unfoldable pub with_root : GraphFilters → GraphFilters
unfolding to_lower trim_space
with_root f =
    let bssid = to_lower (trim_space f.root_bssid) in
    let node = trim_space f.root_node_id in
    record f {
      root_bssid = bssid;
      root_node_id = node;
      hierarchy = f.hierarchy || not (is_empty bssid) || not (is_empty node);
    }

abbrev pub is_stream : GraphFilters → Bool
is_stream f = same_text f.projection (codes "stream")

abbrev pub knows_projection : GraphFilters → Bool
knows_projection f = is_empty f.projection || same_text f.projection (codes "legacy") || is_stream f

abbrev pub or_default : List Text → List Text → List Text
or_default [] values = values
or_default (v ∷ vs) values = v ∷ vs

-- The kinds of a stream projection that names none.
unfoldable pub with_kinds : GraphFilters → GraphFilters
with_kinds f = record f {
  kinds =
      if is_stream f
      then or_default f.kinds (
          (codes "device" ∷ codes "ap" ∷ codes "location" ∷ codes "sensor" ∷ [])
          ++ (if f.include_identity then codes "cluster" ∷ [] else []))
      else f.kinds;
  edge_kinds =
      if is_stream f
      then or_default f.edge_kinds (
          (codes "containment" ∷ codes "observed_association" ∷ codes "calibrated_range" ∷ [])
          ++ (if f.include_identity then codes "identity_membership" ∷ [] else []))
      else f.edge_kinds;
}

unfoldable pub with_scope : GraphFilters → GraphFilters
unfolding trim_space
with_scope f = record f { scope = trim_space f.scope }

abbrev pub is_all : GraphFilters → Bool
is_all f = same_text f.scope (codes "all")

unfoldable pub limit_of : Bool → ℤ → ℤ
limit_of hierarchy limit =
    let chosen =
      if positive limit then limit else if hierarchy then pos max_limit else default_limit in
    if ltb max_limit (pos_part chosen) then pos max_limit else chosen

unfoldable pub with_limits : GraphFilters → GraphFilters
unfolding normalize_page_size limit_of
with_limits f = record f {
  page_size = if is_all f then normalize_page_size f.page_size else f.page_size;
  limit = limit_of f.hierarchy f.limit;
}

-- `!after.Before(before)`, where both are given.
abbrev pub is_reversed : Option ℕ → Option ℕ → Bool
is_reversed (some after) (some before) = leb before after
is_reversed (some after) none = false
is_reversed none before = false

unfoldable pub hops_of : ℤ → ℤ
hops_of hops =
    if not (positive hops)
    then pos 1
    else if ltb max_hops (pos_part hops)
    then pos max_hops
    else hops

unfoldable pub with_lists : GraphFilters → GraphFilters
unfolding normalize_graph_list to_lower trim_space collect map_graph_node_kind map_graph_edge_kind
    hops_of
with_lists f = record f {
  location_ids = normalize_graph_list f.location_ids;
  sensor_ids = normalize_graph_list f.sensor_ids;
  source_mac = to_lower (trim_space f.source_mac);
  ssid = trim_space f.ssid;
  kinds = collect map_graph_node_kind [] f.kinds;
  edge_kinds = collect map_graph_edge_kind [] f.edge_kinds;
  hops = hops_of f.hops;
}

-- What follows the checks on the projection.
unfoldable pub normalize_scoped : GraphFilters → Result Invalid GraphFilters
unfolding with_limits with_lists
normalize_scoped f =
    fail_if (not (is_empty f.scope) && not (is_all f)) (unsupported_scope f.scope) f >>= λ f.
    fail_if (is_empty f.scope && not (is_empty f.page_cursor)) cursor_without_scope f >>= λ f.
    fail_if (is_reversed f.observed_after f.observed_before) empty_window
      (with_lists (with_limits f))

-- NormalizeGraphFilters
unfoldable pub normalize_graph_filters : GraphFilters → Result Invalid GraphFilters
unfolding with_root with_kinds with_scope normalize_scoped
normalize_graph_filters f =
    let rooted = with_root f in
    fail_if (rooted.hierarchy && not (is_empty rooted.page_cursor)) cursor_in_hierarchy rooted
    >>= λ f. fail_if (not (knows_projection f)) unsupported_projection f >>= λ f.
        normalize_scoped (with_scope (with_kinds f))
