-- ===== src/Reporting/Filters/Normal.antt =====
-- What NormalizeGraphFilters of graph_normalize.go returns: filters in bounds.
use integration_console.Prelude.{
  ◌∙◌, sym, ap, ◌∷◌, ◌++◌, collect, ℕ, ◌≤◌, ◌≡◌, refl, subst, [], Bool, true, false, not, ◌&&◌,
  ◌||◌, ℤ, pos, negsuc, ok, fail_if-ok, >>=-fail_if, Text, codes, is_empty, same_text, trim_space,
  AreDistinct, collect-AreDistinct, arith, if◌then◌else◌,
}
use integration_console.Reporting.Filters.{
  GraphFilters, normalize_page_size, limit_of, hops_of, with_root, with_kinds, with_scope,
  with_limits, with_lists, normalize_scoped, normalize_graph_filters, is_stream, is_all,
  is_reversed, knows_projection, empty_window, map_graph_node_kind, map_graph_edge_kind,
}

-- A number from 1 to a bound.
abbrev pub IsUpTo : ℕ → ℤ → Type 0
IsUpTo bound (pos n) = (1 ≤ n) × (n ≤ bound)
IsUpTo bound (negsuc n) = ⊥

pub record IsNormal (f : GraphFilters) : Type 0 where
  pub limit : IsUpTo 1000 f.limit
  pub hops : IsUpTo 2 f.hops
  pub projection : knows_projection f ≡ true
  pub scope : (is_empty f.scope || is_all f) ≡ true
  pub page_size : is_all f ≡ true → IsUpTo 1000 f.page_size
  pub cursor : is_empty f.scope ≡ true → is_empty f.page_cursor ≡ true
  pub tree_cursor : f.hierarchy ≡ true → is_empty f.page_cursor ≡ true
  pub root : (is_empty f.root_bssid && is_empty f.root_node_id) ≡ false → f.hierarchy ≡ true
  pub window : is_reversed f.observed_after f.observed_before ≡ false
  pub kinds : AreDistinct f.kinds
  pub edge_kinds : AreDistinct f.edge_kinds

some_part :
    (s t : Text) (h : Bool)
    → (is_empty s && is_empty t) ≡ false
    → (h || not (is_empty s) || not (is_empty t)) ≡ true
some_part s t h e = ground arith

limit_of-IsUpTo : (hierarchy : Bool) (limit : ℤ) → IsUpTo 1000 (limit_of hierarchy limit)
unfolding limit_of
limit_of-IsUpTo true (pos n) = ground arith
limit_of-IsUpTo false (pos n) = ground arith
limit_of-IsUpTo true (negsuc n) = ground arith
limit_of-IsUpTo false (negsuc n) = ground arith

normalize_page_size-IsUpTo : (size : ℤ) → IsUpTo 1000 (normalize_page_size size)
unfolding normalize_page_size
normalize_page_size-IsUpTo (pos n) = ground arith
normalize_page_size-IsUpTo (negsuc n) = ground arith

hops_of-IsUpTo : (hops : ℤ) → IsUpTo 2 (hops_of hops)
unfolding hops_of
hops_of-IsUpTo (pos n) = ground arith
hops_of-IsUpTo (negsuc n) = ground arith

-- The checks that filters have passed, and what became of them.
record IsPassed (f g : GraphFilters) : Type 0 where
  tree : (f.hierarchy && not (is_empty f.page_cursor)) ≡ false
  projection : not (knows_projection f) ≡ false
  scope :
      (not (is_empty (trim_space f.scope)) && not (same_text (trim_space f.scope) (codes "all")))
      ≡ false
  cursor : (is_empty (trim_space f.scope) && not (is_empty f.page_cursor)) ≡ false
  window : is_reversed f.observed_after f.observed_before ≡ false
  it : with_lists (with_limits (with_scope (with_kinds f))) ≡ g

normalize_graph_filters-IsPassed :
    (f g : GraphFilters) → normalize_graph_filters f ≡ ok g → IsPassed (with_root f) g
unfolding normalize_graph_filters normalize_scoped with_root with_kinds with_scope
normalize_graph_filters-IsPassed f g done =
    let rooted = with_root f in
    let scoped = with_scope (with_kinds rooted) in
    let (tree, known) =
      >>=-fail_if (rooted.hierarchy && not (is_empty rooted.page_cursor)) _ rooted _ done in
    let (projection, rest) = >>=-fail_if (not (knows_projection rooted)) _ rooted _ known in
    let (scope, paged) =
      >>=-fail_if (not (is_empty scoped.scope) && not (is_all scoped)) _ scoped _ rest in
    let (cursor, last) =
      >>=-fail_if (is_empty scoped.scope && not (is_empty scoped.page_cursor)) _ scoped _ paged in
    let (window, it) =
      fail_if-ok (is_reversed scoped.observed_after scoped.observed_before) empty_window
        (with_lists (with_limits scoped)) g last in
    record {
      tree = tree;
      projection = projection;
      scope = scope;
      cursor = cursor;
      window = window;
      it = it;
    }

-- Filters that NormalizeGraphFilters returns have a limit of 1 to 1000, 1 or 2 hops, a known projection
-- and an empty scope or the scope "all", then with a page size of 1 to 1000. A page cursor comes only
-- with that scope and never with a hierarchy, a root makes a hierarchy, the time window is not
-- reversed, and no kind of node or of edge stands twice.
pub normalize_graph_filters-IsNormal :
    (f g : GraphFilters) → normalize_graph_filters f ≡ ok g → IsNormal g
unfolding normalize_graph_filters normalize_scoped with_root with_kinds with_scope with_limits
    with_lists
normalize_graph_filters-IsNormal f g done =
    let rooted = with_root f in
    let p = normalize_graph_filters-IsPassed f g done in
    subst IsNormal p.it (record {
      limit = limit_of-IsUpTo rooted.hierarchy rooted.limit;
      hops = hops_of-IsUpTo rooted.hops;
      projection = ground (arith, p.projection);
      scope = ground (arith, p.scope);
      page_size = λ all. rw all (normalize_page_size-IsUpTo rooted.page_size);
      cursor = λ empty. ground (arith, p.cursor);
      tree_cursor = λ grows. ground (arith, p.tree);
      root = λ some_root. some_part rooted.root_bssid rooted.root_node_id f.hierarchy some_root;
      window = p.window;
      kinds = collect-AreDistinct map_graph_node_kind [] (with_kinds rooted).kinds;
      edge_kinds = collect-AreDistinct map_graph_edge_kind [] (with_kinds rooted).edge_kinds;
    })

-- The kinds of a stream projection that names none.
pub stream_kinds :
    (f g : GraphFilters)
    → normalize_graph_filters f ≡ ok g
    → is_stream f ≡ true
    → f.kinds ≡ []
    → g.kinds
      ≡ collect map_graph_node_kind [] (
          (codes "device" ∷ codes "ap" ∷ codes "location" ∷ codes "sensor" ∷ [])
          ++ (if f.include_identity then codes "cluster" ∷ [] else []))
unfolding with_root with_kinds with_scope with_limits with_lists
stream_kinds f g done stream none =
    let p = normalize_graph_filters-IsPassed f g done in
    ap (λ g. g.kinds) (sym p.it) ∙ (rw (stream, none) refl)
