-- ===== src/SavedViews.antt =====
-- Saved views of atheros-search/internal/savedviews/savedviews.go: the rows, and the checks and
-- normal forms of owners, surfaces, names and states.
pub mod Store
pub mod Plans
pub mod Counts
pub mod Invariant
pub mod Refinement
pub mod Isolation
pub mod Revisions
pub mod Streams
mod Examples
use integration_console.Prelude.{
  ℕ, suc, ◌+◌, Bool, true, false, not, ◌&&◌, ◌||◌, Option, none, some, List, [], ◌∷◌, ltb, leb,
  ◌==◌, if◌then◌else◌, Result, ok, err, ◌>>=◌, fail_if, String, Text, codes, same_text, is_empty,
  trim_space, to_lower, equal_fold, contains, length, keep, ℤ, pos, negsuc, positive, pos_part,
}
use integration_console.Reporting.Filters.{GraphFilters, Invalid, normalize_graph_filters}

-- SavedViewState
pub record ViewState : Type 0 where
  pub filters : GraphFilters
  pub visible_node_kinds : List Text
  pub visible_edge_kinds : List Text

-- A row of saved_views. Every row has the one surface and the one version there is.
pub record Row : Type 0 where
  pub id : Text
  pub owner : Text
  pub name : Text
  pub revision : ℕ
  pub state : ViewState
  pub created_at : ℕ
  pub updated_at : ℕ

-- The errors that the operations return.
pub data ViewError : Type 0 where
  not_found : ViewError
  duplicate_name : ViewError
  stale_revision : ViewError
  limit_reached : ViewError
  unavailable : ViewError
  database_error : ViewError
  unsupported_surface : Text → ViewError
  invalid_name : ViewError
  invalid_revision : ViewError
  invalid_filters : Invalid → ViewError
  unsupported_kind : Text → ViewError

abbrev pub max_name_length : ℕ
max_name_length = 80

abbrev pub max_per_user : ℕ
max_per_user = 20

abbrev pub graph_projection : Text
graph_projection = codes "graph_projection"

-- requireSavedViewOwner
unfoldable pub require_owner : Text → Result ViewError Text
unfolding trim_space
require_owner owner = fail_if (is_empty (trim_space owner)) unavailable owner

-- normalizeSavedViewSurface
unfoldable pub normalize_surface : Text → Result ViewError Text
unfolding trim_space
normalize_surface surface =
    if is_empty (trim_space surface)
    then ok graph_projection
    else fail_if (not (same_text (trim_space surface) graph_projection))
        (unsupported_surface (trim_space surface)) (trim_space surface)

-- normalizeSavedViewName
unfoldable pub normalize_name : Text → Result ViewError Text
unfolding trim_space
normalize_name name =
    fail_if (is_empty (trim_space name) || ltb max_name_length (length (trim_space name)))
      invalid_name (trim_space name)

abbrev pub node_kinds : List Text
node_kinds =
    codes "device"
    ∷ codes "cluster"
    ∷ codes "ap"
    ∷ codes "client"
    ∷ codes "shadow_alert"
    ∷ codes "alert"
    ∷ []

abbrev pub edge_kinds_known : List Text
edge_kinds_known =
    codes "association"
    ∷ codes "cluster_member"
    ∷ codes "roaming"
    ∷ codes "same_channel"
    ∷ codes "vendor_link"
    ∷ codes "rf_proximity"
    ∷ codes "probe"
    ∷ codes "shadow"
    ∷ codes "alert_ref"
    ∷ []

-- The kind before the kinds that follow it.
abbrev pub before_kinds : Text → Result ViewError (List Text) → Result ViewError (List Text)
before_kinds kind (err e) = err e
before_kinds kind (ok kinds) = ok (kind ∷ kinds)

-- normalizeSavedViewKinds, `seen` being the kinds that the loop has kept.
unfoldable pub normalize_kinds : List Text → List Text → List Text → Result ViewError (List Text)
unfolding trim_space
normalize_kinds vocabulary seen [] = ok []
normalize_kinds vocabulary seen (v ∷ vs) =
    let kind = trim_space v in
    let skipped = is_empty kind || contains kind seen in
    let rest = normalize_kinds vocabulary (if skipped then seen else kind ∷ seen) vs in
    if not (is_empty kind) && not (contains kind vocabulary)
    then err (unsupported_kind kind)
    else if skipped
    then rest
    else before_kinds kind rest

abbrev pub filters_or_error : Result Invalid GraphFilters → Result ViewError GraphFilters
filters_or_error (err e) = err (invalid_filters e)
filters_or_error (ok f) = ok f

abbrev pub without_page : GraphFilters → List Text → List Text → GraphFilters
without_page f kinds edges = record f {
  page_cursor = [];
  page_size = pos 0;
  kinds = kinds;
  edge_kinds = edges;
}

-- normalizeSavedViewState
unfoldable pub normalize_state : ViewState → Result ViewError ViewState
unfolding normalize_kinds
normalize_state state = filters_or_error (normalize_graph_filters state.filters) >>= λ f.
    normalize_kinds node_kinds [] f.kinds >>= λ kinds.
    normalize_kinds edge_kinds_known [] f.edge_kinds >>= λ edges.
    normalize_kinds node_kinds [] state.visible_node_kinds >>= λ visible_nodes.
    normalize_kinds edge_kinds_known [] state.visible_edge_kinds >>= λ visible_edges. ok (record {
      filters = without_page f kinds edges;
      visible_node_kinds = visible_nodes;
      visible_edge_kinds = visible_edges;
    })
