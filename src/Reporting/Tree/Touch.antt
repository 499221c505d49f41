-- ===== src/Reporting/Tree/Touch.antt =====
-- A write of buildPresentationTree of graph_hierarchy.go that leaves depths and parents.
use integration_console.Prelude.{
  ◌≡◌, refl, ap, sym, ◌∙◌, inl, inr, Bool, true, false, some, List, Text, same_text, same_text→≡,
  contains, Bool-cases,
}
use integration_console.Reporting.Tree.{Node, find_node, write_node}
use integration_console.Reporting.Tree.Lookup.{
  map_found, find_node-write_same, find_node-write_other,
}
use integration_console.Reporting.Tree.Forest.{IsForest, IsHung, IsKept, found_before, IsKept-at}

module _ {P : Type 0} where
  touched_back :
      (i j : Text) (f : Node P → Node P) (nodes : List (Node P))
      → ((n : Node P)
          → ((f n).id ≡ n.id) × ((f n).parent_id ≡ n.parent_id) × ((f n).depth ≡ n.depth))
      → (n : Node P) → find_node j (write_node i f nodes) ≡ some n
      → (m : Node P) × (find_node j nodes ≡ some m)
        × (n.parent_id ≡ m.parent_id)
        × (n.depth ≡ m.depth)
  touched_back i j f nodes k n h = elim (Bool-cases (same_text i j)) [
    | inl same ↦
        (let e = same_text→≡ i j same in
          let at_i : find_node i (write_node i f nodes) ≡ some n =
            ap (λ x. find_node x (write_node i f nodes)) e ∙ h in
          let (m, was, now) =
            found_before f (find_node i nodes) n
              (sym (find_node-write_same i f nodes (λ n. (k n).0)) ∙ at_i) in
          (
            m,
            ap (λ x. find_node x nodes) (sym e) ∙ was,
            ap (λ x. x.parent_id) (sym now) ∙ (k m).1,
            ap (λ x. x.depth) (sym now) ∙ (k m).2,
          ))
    | inr other ↦ (n, sym (find_node-write_other i j f nodes (λ n. (k n).0) other) ∙ h, refl, refl)
  ]

  touched_on :
      (i j : Text) (f : Node P → Node P) (nodes : List (Node P))
      → ((n : Node P)
          → ((f n).id ≡ n.id) × ((f n).parent_id ≡ n.parent_id) × ((f n).depth ≡ n.depth))
      → (m : Node P) → find_node j nodes ≡ some m
      → (n : Node P) × (find_node j (write_node i f nodes) ≡ some n) × (n.depth ≡ m.depth)
  touched_on i j f nodes k m h = elim (Bool-cases (same_text i j)) [
    | inl same ↦
        (let e = same_text→≡ i j same in
          let at_i : find_node i nodes ≡ some m = ap (λ x. find_node x nodes) e ∙ h in
          (
            f m,
            ap (λ x. find_node x (write_node i f nodes)) (sym e)
                ∙ find_node-write_same i f nodes (λ n. (k n).0)
                ∙ ap (map_found f) at_i,
            (k m).2,
          ))
    | inr other ↦ (m, find_node-write_other i j f nodes (λ n. (k n).0) other ∙ h, refl)
  ]

  touch-IsKept :
      (i : Text) (f : Node P → Node P) (nodes : List (Node P))
      → ((n : Node P)
          → ((f n).id ≡ n.id) × ((f n).parent_id ≡ n.parent_id) × ((f n).depth ≡ n.depth))
      → (b : Bool) (m n : Node P) → n.parent_id ≡ m.parent_id
      → n.depth ≡ m.depth
      → IsKept nodes b m
      → IsKept (write_node i f nodes) b n
  touch-IsKept i f nodes k false m n e₁ e₂ h = (e₂ ∙ h.0, e₁ ∙ h.1)
  touch-IsKept i f nodes k true m n e₁ e₂ (inl (none_above, top)) = inl (e₁ ∙ none_above, e₂ ∙ top)
  touch-IsKept i f nodes k true m n e₁ e₂ (inr (p, parent, d, h₁, h₂, h₃, h₄)) =
      let (parent', there, same) = touched_on i p f nodes k parent h₂ in
      inr (p, parent', d, e₁ ∙ h₁, there, same ∙ h₃, e₂ ∙ h₄)

  -- A change of the other fields leaves the forest.
  pub touch-IsForest :
      (i : Text) (f : Node P → Node P) (nodes : List (Node P)) (visited : List Text)
      → ((n : Node P)
          → ((f n).id ≡ n.id) × ((f n).parent_id ≡ n.parent_id) × ((f n).depth ≡ n.depth))
      → IsForest nodes visited
      → IsForest (write_node i f nodes) visited
  touch-IsForest i f nodes visited k v id n h =
      let (m, was, e₁, e₂) = touched_back i id f nodes k n h in
      touch-IsKept i f nodes k (contains id visited) m n e₁ e₂ (v id m was)

  pub all_visited :
      (nodes : List (Node P)) (visited : List Text) (id : Text) (n : Node P)
      → IsForest nodes visited
      → contains id visited ≡ true
      → find_node id nodes ≡ some n
      → IsHung nodes n
  all_visited nodes visited id n v seen h =
      IsKept-at nodes (contains id visited) true n seen (v id n h)
