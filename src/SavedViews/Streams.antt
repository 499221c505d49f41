-- ===== src/SavedViews/Streams.antt =====
-- The kinds that NormalizeGraphFilters gives a stream projection, in normalizeSavedViewState.
use integration_console.Prelude.{
  ◌≡◌, refl, [], ◌∷◌, codes, ok, err, collect, true, false, Bool, is_space, ◌++◌, if◌then◌else◌,
}
use integration_console.Reporting.Filters.{
  GraphFilters, normalize_graph_filters, map_graph_node_kind, is_stream,
}
use integration_console.Reporting.Filters.Normal.{stream_kinds}
use integration_console.SavedViews.{
  node_kinds, ViewState, unsupported_kind, normalize_state, normalize_kinds,
}

unsaved :
    (identity : Bool)
    → normalize_kinds node_kinds [] (
        collect map_graph_node_kind [] (
          (codes "device" ∷ codes "ap" ∷ codes "location" ∷ codes "sensor" ∷ [])
          ++ (if identity then codes "cluster" ∷ [] else [])))
      ≡ err (unsupported_kind (codes "location"))
unfolding normalize_kinds collect map_graph_node_kind is_space
unsaved true = refl
unsaved false = refl

-- A state with the stream projection and no kinds, whose filters are valid, is not saved: the default
-- kinds of that projection are not among those that a saved view may have.
pub normalize_state-stream :
    (state : ViewState) (f : GraphFilters)
    → is_stream state.filters ≡ true
    → state.filters.kinds ≡ []
    → normalize_graph_filters state.filters ≡ ok f
    → normalize_state state ≡ err (unsupported_kind (codes "location"))
unfolding normalize_state
normalize_state-stream state f stream none valid =
    rw
      (
        valid,
        stream_kinds state.filters f valid stream none,
        unsaved state.filters.include_identity,
      )
      refl
