-- ===== src/Reporting/Tree/Whole.antt =====
-- buildPresentationTree of graph_hierarchy.go as a whole: every node is in one forest.
use integration_console.Prelude.{
  ◌≡◌, refl, ap, sym, subst, ◌∙◌, inl, inr, Bool, true, false, ◌||◌, none, some, List, [], ◌∷◌, map,
  Text, codes, same_text, contains, Bool-cases, arith, All, keep, keep_yes, keep_no, text_less,
}
use integration_console.Reporting.Tree.{
  Node, Edge, Tree, has_node, find_node, fresh_node, secondary, is_inside, visit_root, visit_left,
  new_tree, build_presentation_tree, sort_nodes, sort_edges, insert_node,
}
use integration_console.Reporting.Tree.Lookup.{has_node-found}
use integration_console.Reporting.Tree.Forest.{IsHung}
use integration_console.Reporting.Tree.Touch.{all_visited}
use integration_console.Reporting.Tree.Growth.{
  node_ids, IsTree, IsEnded, has_node-node_ids, contains_head, IsWider-cons,
}
use integration_console.Reporting.Tree.Visits.{
  visit_left-IsTree, visit_left-visits, visit_root-IsTree,
}

or_swap : (a b c : Bool) → (a || (b || c)) ≡ (b || (a || c))
or_swap false b c = refl
or_swap true false c = refl
or_swap true true c = refl

module _ {P : Type 0} where
  fresh_found :
      (id : Text) (ns : List (Node P)) (n : Node P)
      → find_node id (map fresh_node ns) ≡ some n
      → (n.depth ≡ none) × (n.parent_id ≡ none)
  unfolding find_node
  fresh_found id [] n h = cc
  fresh_found id (m ∷ ms) n h = elim (Bool-cases (has_node id (map fresh_node ms))) [
    | inl later ↦
        (let e : find_node id (map fresh_node (m ∷ ms)) ≡ find_node id (map fresh_node ms) =
            rw (find_node, later) refl in
          fresh_found id ms n (sym e ∙ h))
    | inr last ↦ elim (Bool-cases (same_text m.id id)) [
      | inl here ↦
          (let e : find_node id (map fresh_node (m ∷ ms)) ≡ some (fresh_node m) =
              rw (find_node, last, here) refl in
            let is_n : fresh_node m ≡ n = cc in
            subst (λ n. (n.depth ≡ none) × (n.parent_id ≡ none)) is_n (refl, refl))
      | inr other ↦
          (let e : find_node id (map fresh_node (m ∷ ms)) ≡ none =
              rw (find_node, last, other) refl in
            cc)
    ]
  ]

  node_ids-fresh : (ns : List (Node P)) → node_ids (map fresh_node ns) ≡ node_ids ns
  node_ids-fresh [] = refl
  node_ids-fresh (n ∷ ns) = ap (λ is. n.id ∷ is) (node_ids-fresh ns)

  node_ids-insert :
      (id : Text) (n : Node P) (ns : List (Node P))
      → contains id (node_ids (insert_node n ns)) ≡ contains id (node_ids (n ∷ ns))
  unfolding insert_node
  node_ids-insert id n [] = refl
  node_ids-insert id n (m ∷ ms) = elim (Bool-cases (text_less m.id n.id)) [
    | inl less ↦
        (let rest = node_ids-insert id n ms in
          rw (insert_node, less, rest)
            (or_swap (same_text m.id id) (same_text n.id id) (contains id (node_ids ms))))
    | inr more ↦ rw (insert_node, more) refl
  ]

  node_ids-sort :
      (id : Text) (ns : List (Node P))
      → contains id (node_ids (sort_nodes ns)) ≡ contains id (node_ids ns)
  unfolding sort_nodes
  node_ids-sort id [] = refl
  node_ids-sort id (n ∷ ns) =
      node_ids-insert id n (sort_nodes ns) ∙ ap (λ b. same_text n.id id || b) (node_ids-sort id ns)

  within_ids :
      (ids : List Text) (ns : List (Node P))
      → ((i : Text) → contains i (node_ids ns) ≡ true → contains i ids ≡ true)
      → All (λ n. contains n.id ids ≡ true) ns
  within_ids ids [] h = tt
  within_ids ids (n ∷ ns) h = (
    h n.id (contains_head n.id (node_ids ns)),
    within_ids ids ns (λ i k. h i (IsWider-cons n.id (node_ids ns) i k)),
  )

module _ {P Q : Type 0} where
  edges-IsEnded :
      (nodes : List (Node P)) (es : List (Edge Q))
      → All (IsEnded (node_ids nodes)) (map secondary (keep (is_inside nodes) es))
  edges-IsEnded nodes [] = tt
  edges-IsEnded nodes (e ∷ es) = elim (Bool-cases (is_inside nodes e)) [
    | inl stands ↦
        (let both : (has_node e.source nodes ≡ true) × (has_node e.target nodes ≡ true) =
            ground (arith, stands) in
          let rest = edges-IsEnded nodes es in
          subst (λ l. All (IsEnded (node_ids nodes)) (map secondary l))
            (sym (keep_yes (is_inside nodes) e es stands))
            (
              (
                sym (has_node-node_ids e.source nodes) ∙ both.0,
                sym (has_node-node_ids e.target nodes) ∙ both.1,
              ),
              rest,
            ))
    | inr lost ↦
        subst (λ l. All (IsEnded (node_ids nodes)) (map secondary l))
          (sym (keep_no (is_inside nodes) e es lost)) (edges-IsEnded nodes es)
  ]

  new_tree-IsTree :
      (nodes : List (Node P)) (edges : List (Edge Q))
      → IsTree (node_ids (map fresh_node (sort_nodes nodes))) (new_tree nodes edges)
  unfolding new_tree
  new_tree-IsTree nodes edges = (
    refl,
    (λ id n h. fresh_found id (sort_nodes nodes) n h),
    edges-IsEnded (map fresh_node (sort_nodes nodes)) (sort_edges edges),
  )

  build_presentation_tree_visited :
      (nodes : List (Node P)) (edges : List (Edge Q)) (root_id : Text)
      → IsTree
          (node_ids (map fresh_node (sort_nodes nodes)))
          (build_presentation_tree nodes edges root_id)
        × ((id : Text)
            → contains id (node_ids (map fresh_node (sort_nodes nodes))) ≡ true
            → contains id (build_presentation_tree nodes edges root_id).visited ≡ true)
  unfolding build_presentation_tree new_tree
  build_presentation_tree_visited nodes edges root_id =
      let fresh = map fresh_node (sort_nodes nodes) in
      let ids = node_ids fresh in
      let t : Tree P Q = new_tree nodes edges in
      let within = within_ids ids fresh (λ i k. k) in
      let rooted = visit_root-IsTree ids root_id t refl (new_tree-IsTree nodes edges) in
      let aps = visit_left-IsTree ids (codes "ap") fresh (visit_root root_id t) within rooted in
      let t' = visit_left (codes "ap") fresh (visit_root root_id t) in
      (
        (visit_left-IsTree ids [] fresh t' within aps.0).0,
        visit_left-visits ids fresh t' within aps.0,
      )

  -- buildPresentationTree, for all nodes, edges and root: under each identifier of the nodes it is given
  -- there is a node, and this is a root of depth zero, or its parent is among the nodes and its depth is
  -- one more than the parent's. So following parents ends at a root, also where the edges have cycles.
  pub build_presentation_tree-IsHung :
      (nodes : List (Node P)) (edges : List (Edge Q)) (root_id id : Text)
      → contains id (node_ids nodes) ≡ true
      → (n : Node P) × (find_node id (build_presentation_tree nodes edges root_id).nodes ≡ some n)
        × IsHung (build_presentation_tree nodes edges root_id).nodes n
  build_presentation_tree-IsHung nodes edges root_id id h =
      let t = build_presentation_tree nodes edges root_id in
      let (whole, visits) = build_presentation_tree_visited nodes edges root_id in
      let given : contains id (node_ids (map fresh_node (sort_nodes nodes))) ≡ true =
        ap (contains id) (node_ids-fresh (sort_nodes nodes)) ∙ node_ids-sort id nodes ∙ h in
      let there = has_node-node_ids id t.nodes ∙ ap (contains id) whole.0 ∙ given in
      let (n, found) = has_node-found id t.nodes there in
      (n, found, all_visited t.nodes t.visited id n whole.1 (visits id given) found)
