-- ===== src/SavedViews/Examples.antt =====
-- Runs of the theorems on what internal/savedviews does with the views of two owners.
use integration_console.Prelude.{
  ◌≡◌, ◌≢◌, refl, false, none, [], ◌∷◌, List, pos, ok, err, Text, codes, is_space, trim_space,
  to_lower, same_text, same_text→≡, arith,
}
use integration_console.Reporting.Filters.{
  GraphFilters, with_root, with_kinds, with_scope, with_limits, with_lists, normalize_scoped,
  normalize_graph_filters,
}
use integration_console.SavedViews.{
  ViewState, Row, unsupported_kind, require_owner, normalize_name, normalize_state, normalize_kinds,
}
use integration_console.SavedViews.Store.{
  Folding, accepts, Op, creates, updates, deletes, run, find_view, list_saved_views,
  update_saved_view, plan_update, is_view_id, view_id, is_name_taken,
}
use integration_console.SavedViews.Invariant.{IsStore, IsAgreed, run-IsStore}
use integration_console.SavedViews.Refinement.{replay, run_refines}
use integration_console.SavedViews.Isolation.{list-run}
use integration_console.SavedViews.Revisions.{update-stale}
use integration_console.SavedViews.Streams.{normalize_state-stream}

abbrev filters_of : Text → GraphFilters
filters_of projection = record {
  hierarchy = false;
  root_bssid = [];
  root_node_id = [];
  projection = projection;
  include_identity = false;
  location_ids = [];
  sensor_ids = [];
  source_mac = [];
  ssid = [];
  kinds = [];
  edge_kinds = [];
  threat_only = false;
  observed_after = none;
  observed_before = none;
  hops = pos 1;
  limit = pos 10;
  scope = [];
  page_cursor = [];
  page_size = pos 0;
}

abbrev state_of : Text → ViewState
state_of projection = record {
  filters = filters_of projection;
  visible_node_kinds = [];
  visible_edge_kinds = [];
}

abbrev plain_state : ViewState
plain_state = state_of []

abbrev view_key : Text
view_key = codes "00000000-0000-0000-0000-00000000000a"

abbrev other_key : Text
other_key = codes "00000000-0000-0000-0000-00000000000b"

-- The case of ASCII letters.
abbrev ascii : Folding
ascii = record { equal_fold = λ s t. same_text (to_lower s) (to_lower t); lower = to_lower }

ascii-IsAgreed : IsAgreed ascii
ascii-IsAgreed s t plain_s plain_t same = same_text→≡ (to_lower s) (to_lower t) same

abbrev calls : List Op
calls =
    creates (codes "ann") (codes " Lab ") plain_state view_key 5 accepts
    ∷ creates (codes "bob") (codes "lab") plain_state other_key 6 accepts
    ∷ updates (codes "ann") view_key (codes "Hall") plain_state (pos 1) 7 accepts
    ∷ deletes (codes "bob") view_key accepts
    ∷ []

run-IsStore_example : IsStore ascii (run ascii [] calls).0
unfolding trim_space is_space
run-IsStore_example = run-IsStore ascii calls ascii-IsAgreed (ground arith)

run_refines_example :
    find_view (codes "ann") view_key (run ascii [] calls).0
    ≡ replay calls (run ascii [] calls).1 (λ o i. find_view o i []) (codes "ann") view_key
run_refines_example = run_refines ascii [] calls (codes "ann") view_key

abbrev saved_state : ViewState
saved_state = record {
  filters = record (filters_of []) { page_size = pos 0 };
  visible_node_kinds = [];
  visible_edge_kinds = [];
}

abbrev ann_row : Row
ann_row = record {
  id = view_key;
  owner = codes "ann";
  name = codes "Lab";
  revision = 1;
  state = saved_state;
  created_at = 5;
  updated_at = 5;
}

abbrev bob_calls : List Op
bob_calls =
    creates (codes "bob") (codes "lab") plain_state other_key 6 accepts
    ∷ deletes (codes "bob") view_key accepts
    ∷ []

list-run_example :
    list_saved_views (codes "ann") [] (run ascii (ann_row ∷ []) bob_calls).0
    ≡ list_saved_views (codes "ann") [] (ann_row ∷ [])
list-run_example = list-run ascii (codes "ann") [] (ann_row ∷ []) bob_calls (refl, (refl, tt))

abbrev bob_creates : List Op
bob_creates = creates (codes "bob") (codes "lab") plain_state other_key 6 accepts ∷ []

abbrev updated_row : Row
updated_row = record ann_row { name = codes "Hall"; revision = 2; updated_at = 7 }

update-stale_example :
    (update_saved_view ascii
      (codes "ann")
      view_key
      (codes "Attic")
      plain_state
      (pos 1)
      8
      accepts
      (run ascii
        (update_saved_view ascii
          (codes "ann")
          view_key
          (codes "Hall")
          plain_state
          (pos 1)
          7
          accepts
          (ann_row ∷ [])).0
        bob_creates).0).1
    ≢ ok updated_row
unfolding update_saved_view plan_update require_owner view_id is_view_id normalize_name
    normalize_state normalize_kinds normalize_graph_filters normalize_scoped with_root with_kinds
    with_scope with_limits with_lists find_view is_name_taken is_space
update-stale_example =
    update-stale ascii (codes "ann") view_key (codes "Hall") (codes "Attic") plain_state plain_state
      (pos 1) 7 8 accepts accepts (ann_row ∷ []) updated_row updated_row bob_creates refl (tt, tt)

abbrev stream_state : ViewState
stream_state = state_of (codes "stream")

normalize_state-stream_example :
    normalize_state stream_state ≡ err (unsupported_kind (codes "location"))
unfolding normalize_graph_filters normalize_scoped with_root with_kinds with_scope is_space
normalize_state-stream_example =
    normalize_state-stream stream_state
      (with_lists (with_limits (with_scope (with_kinds (with_root (filters_of (codes "stream")))))))
      refl refl refl
