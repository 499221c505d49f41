-- ===== src/Reporting/Tree/Visits.antt =====
-- buildPresentationTree of graph_hierarchy.go, one visit and the loops over the nodes: the tree they leave.
use integration_console.Prelude.{
  suc, ◌≤◌, ◌≡◌, refl, ap, sym, subst, ◌∙◌, inl, inr, true, false, not, ◌&&◌, ◌||◌, List, [], ◌∷◌,
  length, Text, same_text, same_text→≡, contains, Bool-cases, arith, All, is_empty,
}
use integration_console.Reporting.Tree.{
  Node, Tree, has_node, spread, as_root, begin_visit, visit, root_role, visit_root, visit_left,
}
use integration_console.Reporting.Tree.Forest.{as_root-IsForest}
use integration_console.Reporting.Tree.Touch.{touch-IsForest}
use integration_console.Reporting.Tree.Growth.{
  node_ids, IsTree, IsWider, left, left_taken, has_node-node_ids, node_ids-write_node,
  contains_head, IsWider-cons, spread-IsTree,
}

module _ {P : Type 0} where
  left_all :
      (nodes : List (Node P)) (visited : List Text) → left (node_ids nodes) visited ≤ length nodes
  left_all [] visited = omega arith
  left_all (n ∷ ns) visited =
      let rest = left_all ns visited in
      elim (Bool-cases (contains n.id visited)) [
        | inl seen ↦ rw seen (omega (arith, rest))
        | inr new ↦ rw new (omega (arith, rest))
      ]

module _ {P Q : Type 0} where
  -- What one visit does: a node that stands and is not visited becomes one that is.
  abbrev IsVisited : List Text → Text → Tree P Q → Tree P Q → Type 0
  IsVisited ids id t r = IsTree ids r × IsWider t.visited r.visited × (contains id r.visited ≡ true)

  begin_visit-IsTree :
      (ids : List Text) (id : Text) (t : Tree P Q)
      → contains id t.visited ≡ false
      → IsTree ids t
      → IsTree ids (begin_visit id t)
  unfolding begin_visit
  begin_visit-IsTree ids id t new g = (
    node_ids-write_node id as_root t.nodes (λ n. refl) ∙ g.0,
    as_root-IsForest id t.nodes t.visited new g.1,
    g.2,
  )

  -- The fuel of a visit is enough: its queue runs empty.
  visit-runs :
      (ids : List Text) (id : Text) (t : Tree P Q)
      → contains id ids ≡ true
      → contains id t.visited ≡ false
      → IsTree ids t
      → ((spread (suc (length t.nodes)) (id ∷ []) (begin_visit id t)).1 ≡ [])
        × IsVisited ids id t (visit id t)
  unfolding begin_visit visit
  visit-runs ids id t there new g =
      let fewer = left_taken id ids t.visited there new in
      let most : left ids t.visited ≤ length t.nodes =
        subst (λ is. left is t.visited ≤ length t.nodes) g.0 (left_all t.nodes t.visited) in
      let head = contains_head id t.visited in
      let r =
        spread-IsTree (suc (length t.nodes)) ids (id ∷ []) (begin_visit id t)
          (begin_visit-IsTree ids id t new g) ((there, head), tt) (omega (arith, fewer, most)) in
      (r.0, (r.1, (λ i w. r.2 i (IsWider-cons id t.visited i w)), r.2 id head))

  pub visit_left-IsTree :
      (ids : List Text) (kind : Text) (ns : List (Node P)) (t : Tree P Q)
      → All (λ n. contains n.id ids ≡ true) ns
      → IsTree ids t
      → IsTree ids (visit_left kind ns t) × IsWider t.visited (visit_left kind ns t).visited
  unfolding visit_left
  visit_left-IsTree ids kind [] t h g = (g, (λ i w. w))
  visit_left-IsTree ids kind (n ∷ ns) t h g =
      elim (Bool-cases
        (not (contains n.id t.visited) && (is_empty kind || same_text n.kind kind))) [
          | inl goes ↦
              (let new : contains n.id t.visited ≡ false = ground (arith, goes) in
                let v = (visit-runs ids n.id t h.0 new g).1 in
                let rest = visit_left-IsTree ids kind ns (visit n.id t) h.1 v.0 in
                rw (visit_left, goes) (rest.0, (λ i w. rest.1 i (v.1 i w))))
          | inr stays ↦ rw (visit_left, stays) (visit_left-IsTree ids kind ns t h.1 g)
        ]

  pub visit_left-visits :
      (ids : List Text) (ns : List (Node P)) (t : Tree P Q)
      → All (λ n. contains n.id ids ≡ true) ns
      → IsTree ids t
      → (i : Text) → contains i (node_ids ns) ≡ true
      → contains i (visit_left [] ns t).visited ≡ true
  unfolding visit_left
  visit_left-visits ids [] t h g i k = cc
  visit_left-visits ids (n ∷ ns) t h g i k =
      let goal : (r : Tree P Q)
          → IsTree ids r
          → contains n.id r.visited ≡ true
          → contains i (visit_left [] ns r).visited ≡ true =
        (λ r g' seen. elim (Bool-cases (same_text n.id i)) [
          | inl same ↦
              ap (λ x. contains x (visit_left [] ns r).visited) (sym (same_text→≡ n.id i same))
              ∙ (visit_left-IsTree ids [] ns r h.1 g').1 n.id seen
          | inr other ↦
              (let later : contains i (node_ids ns) ≡ true = ground (arith, k, other) in
                visit_left-visits ids ns r h.1 g' i later)
        ]) in
      elim (Bool-cases (contains n.id t.visited)) [
        | inl seen ↦ rw (visit_left, seen) (goal t g seen)
        | inr new ↦
            (let v = (visit-runs ids n.id t h.0 new g).1 in
              rw (visit_left, new) (goal (visit n.id t) v.0 v.2))
      ]

  pub visit_root-IsTree :
      (ids : List Text) (id : Text) (t : Tree P Q)
      → contains id t.visited ≡ false
      → IsTree ids t
      → IsTree ids (visit_root id t)
  unfolding visit_root
  visit_root-IsTree ids id t new g = elim (Bool-cases (has_node id t.nodes)) [
    | inl there ↦
        (let stands : contains id ids ≡ true =
            ap (contains id) (sym g.0) ∙ sym (has_node-node_ids id t.nodes) ∙ there in
          let v = (visit-runs ids id t stands new g).1.0 in
          let r = visit id t in
          rw (visit_root, there)
            (
              node_ids-write_node id root_role r.nodes (λ n. refl) ∙ v.0,
              touch-IsForest id root_role r.nodes r.visited (λ n. (refl, refl, refl)) v.1,
              v.2,
            ))
    | inr absent ↦ rw (visit_root, absent) g
  ]
