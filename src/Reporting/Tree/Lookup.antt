-- ===== src/Reporting/Tree/Lookup.antt =====
-- Reading after writing in the nodes of graph_hierarchy.go.
use integration_console.Prelude.{
  ◌≡◌, refl, ap, ◌∙◌, inl, inr, true, false, ◌||◌, Option, none, some, List, [], ◌∷◌, Text,
  same_text, same_text→≡, Bool-cases, arith,
}
use integration_console.Reporting.Tree.{Node, has_node, find_node, write_node}

module _ {P : Type 0} where
  abbrev pub map_found : (Node P → Node P) → Option (Node P) → Option (Node P)
  map_found f none = none
  map_found f (some n) = some (f n)

  pub has_node-write_node :
      (j i : Text) (f : Node P → Node P) (nodes : List (Node P))
      → ((n : Node P) → (f n).id ≡ n.id)
      → has_node j (write_node i f nodes) ≡ has_node j nodes
  unfolding has_node write_node
  has_node-write_node j i f [] k = refl
  has_node-write_node j i f (n ∷ ns) k = elim (Bool-cases (has_node i ns)) [
    | inl later ↦ rw later (ap (λ b. same_text n.id j || b) (has_node-write_node j i f ns k))
    | inr last ↦ elim (Bool-cases (same_text n.id i)) [
      | inl here ↦ rw (last, here) (ap (λ x. same_text x j || has_node j ns) (k n))
      | inr other ↦ rw (last, other) refl
    ]
  ]

  pub find_node-write_same :
      (i : Text) (f : Node P → Node P) (nodes : List (Node P))
      → ((n : Node P) → (f n).id ≡ n.id)
      → find_node i (write_node i f nodes) ≡ map_found f (find_node i nodes)
  unfolding has_node find_node write_node
  find_node-write_same i f [] k = refl
  find_node-write_same i f (n ∷ ns) k = elim (Bool-cases (has_node i ns)) [
    | inl later ↦
        (let still = has_node-write_node i i f ns k ∙ later in
          rw (later, still) (find_node-write_same i f ns k))
    | inr last ↦ elim (Bool-cases (same_text n.id i)) [
      | inl here ↦
          (let same : same_text (f n).id i ≡ true = ap (λ x. same_text x i) (k n) ∙ here in
            rw (last, here, last, same) refl)
      | inr other ↦ rw (last, other, last, other) refl
    ]
  ]

  pub find_node-write_other :
      (i j : Text) (f : Node P → Node P) (nodes : List (Node P))
      → ((n : Node P) → (f n).id ≡ n.id)
      → same_text i j ≡ false
      → find_node j (write_node i f nodes) ≡ find_node j nodes
  unfolding has_node find_node write_node
  find_node-write_other i j f [] k h = refl
  find_node-write_other i j f (n ∷ ns) k h = elim (Bool-cases (has_node i ns)) [
    | inl later ↦
        (let still = has_node-write_node j i f ns k in
          let rest = find_node-write_other i j f ns k h in rw (later, still, rest) refl)
    | inr last ↦ elim (Bool-cases (same_text n.id i)) [
      | inl here ↦
          (let n_is = same_text→≡ n.id i here in
            let apart : same_text n.id j ≡ false = ap (λ x. same_text x j) n_is ∙ h in
            let moved : same_text (f n).id j ≡ false = ap (λ x. same_text x j) (k n) ∙ apart in
            rw (last, here, moved, apart) refl)
      | inr other ↦ rw (last, other) refl
    ]
  ]

  pub has_node-found :
      (i : Text) (nodes : List (Node P))
      → has_node i nodes ≡ true
      → (n : Node P) × (find_node i nodes ≡ some n)
  unfolding has_node find_node
  has_node-found i [] h = cc
  has_node-found i (n ∷ ns) h = elim (Bool-cases (has_node i ns)) [
    | inl later ↦ rw later (has_node-found i ns later)
    | inr last ↦
        (let here : same_text n.id i ≡ true = ground (arith, h, last) in rw (last, here) (n, refl))
  ]
