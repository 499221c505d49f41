-- ===== src/Reporting/Tree/Forest.antt =====
-- What buildPresentationTree of graph_hierarchy.go builds: a forest of every node.
use integration_console.Prelude.{
  ℕ, suc, ◌≡◌, refl, ap, sym, subst, ◌∙◌, ◌⊎◌, inl, inr, Bool, true, false, Option, none, some,
  List, ◌∷◌, Text, same_text, same_text→≡, same_text_refl, contains, Bool-cases,
}
use integration_console.Reporting.Tree.{
  Node, has_node, find_node, write_node, depth_or_zero, hang, place, as_root,
}
use integration_console.Reporting.Tree.Lookup.{
  map_found, find_node-write_same, find_node-write_other, has_node-found,
}

apart :
    (s t : Text) (visited : List Text)
    → contains s visited ≡ true
    → contains t visited ≡ false
    → same_text t s ≡ false
apart s t visited h k = elim (Bool-cases (same_text t s)) [
  | inl same ↦
      (let e = same_text→≡ t s same in
        let moved : contains t visited ≡ true = ap (λ x. contains x visited) e ∙ h in cc)
  | inr other ↦ other
]

module _ {P : Type 0} where
  -- A root, or a child one level below a parent among the nodes.
  abbrev pub IsHung : List (Node P) → Node P → Type 0
  IsHung nodes n =
      ((n.parent_id ≡ none) × (n.depth ≡ some 0))
      ⊎ ((p : Text) × (m : Node P) × (d : ℕ) × (n.parent_id ≡ some p)
          × (find_node p nodes ≡ some m)
          × (m.depth ≡ some d)
          × (n.depth ≡ some (suc d)))

  abbrev pub IsKept : List (Node P) → Bool → Node P → Type 0
  IsKept nodes true n = IsHung nodes n
  IsKept nodes false n = (n.depth ≡ none) × (n.parent_id ≡ none)

  -- The nodes visited hang, the others are as they were.
  abbrev pub IsForest : List (Node P) → List Text → Type 0
  IsForest nodes visited =
      (id : Text) (n : Node P) → find_node id nodes ≡ some n → IsKept nodes (contains id visited) n

  has_depth : (nodes : List (Node P)) (n : Node P) → IsHung nodes n → (d : ℕ) × (n.depth ≡ some d)
  has_depth nodes n (inl (_, d)) = (0, d)
  has_depth nodes n (inr (p, m, d, _, _, _, e)) = (suc d, e)

  pub IsKept-at :
      (nodes : List (Node P)) (b c : Bool) (n : Node P)
      → b ≡ c
      → IsKept nodes b n
      → IsKept nodes c n
  IsKept-at nodes b c n e h = subst (λ b. IsKept nodes b n) e h

  -- A node that is written for the first time hides no parent.
  IsHung-write :
      (child : Text) (f : Node P → Node P) (nodes : List (Node P)) (visited : List Text)
      (n : Node P)
      → ((n : Node P) → (f n).id ≡ n.id)
      → contains child visited ≡ false
      → IsForest nodes visited
      → IsHung nodes n
      → IsHung (write_node child f nodes) n
  IsHung-write child f nodes visited n k new v (inl root) = inl root
  IsHung-write child f nodes visited n k new v (inr (p, m, d, e₁, e₂, e₃, e₄)) =
      elim (Bool-cases (same_text child p)) [
        | inl same ↦
            (let child_is = same_text→≡ child p same in
              let free : contains p visited ≡ false =
                ap (λ x. contains x visited) (sym child_is) ∙ new in
              let blank = IsKept-at nodes (contains p visited) false m free (v p m e₂) in
              let never : some d ≡ none = sym e₃ ∙ blank.0 in cc)
        | inr other ↦ inr (p, m, d, e₁, find_node-write_other child p f nodes k other ∙ e₂, e₃, e₄)
      ]

  pub found_before :
      (f : Node P → Node P) (o : Option (Node P)) (n : Node P)
      → map_found f o ≡ some n
      → (m : Node P) × (o ≡ some m) × (f m ≡ n)
  found_before f none n h = cc
  found_before f (some m) n h = (m, refl, cc)

  write_here :
      (child id : Text) (f : Node P → Node P) (nodes : List (Node P)) (visited : List Text)
      → ((n : Node P) → (f n).id ≡ n.id)
      → child ≡ id
      → ((n : Node P) → find_node child nodes ≡ some n → IsHung (write_node child f nodes) (f n))
      → (n : Node P) → find_node id (write_node child f nodes) ≡ some n
      → IsKept (write_node child f nodes) (contains id (child ∷ visited)) n
  write_here child id f nodes visited k e hangs n h =
      let same : same_text child id ≡ true =
        ap (λ x. same_text child x) (sym e) ∙ same_text_refl child in
      let visits : true ≡ contains id (child ∷ visited) = rw same refl in
      let at_child : find_node child (write_node child f nodes) ≡ some n =
        ap (λ x. find_node x (write_node child f nodes)) e ∙ h in
      let (m, was, now) =
        found_before f (find_node child nodes) n
          (sym (find_node-write_same child f nodes k) ∙ at_child) in
      IsKept-at (write_node child f nodes) true (contains id (child ∷ visited)) n visits
        (subst (IsHung (write_node child f nodes)) now (hangs m was))

  write_there :
      (child id : Text) (f : Node P → Node P) (nodes : List (Node P)) (visited : List Text)
      → ((n : Node P) → (f n).id ≡ n.id)
      → contains child visited ≡ false
      → same_text child id ≡ false
      → IsForest nodes visited
      → (n : Node P) → find_node id nodes ≡ some n
      → IsKept (write_node child f nodes) (contains id (child ∷ visited)) n
  write_there child id f nodes visited k new other v n h = elim (Bool-cases (contains id visited)) [
    | inl old ↦
        (let visits : true ≡ contains id (child ∷ visited) = rw (other, old) refl in
          IsKept-at (write_node child f nodes) true (contains id (child ∷ visited)) n visits (
            IsHung-write child f nodes visited n k new v
              (IsKept-at nodes (contains id visited) true n old (v id n h))))
    | inr fresh ↦
        (let waits : false ≡ contains id (child ∷ visited) = rw (other, fresh) refl in
          IsKept-at (write_node child f nodes) false (contains id (child ∷ visited)) n waits
            (IsKept-at nodes (contains id visited) false n fresh (v id n h)))
  ]

  pub write-IsForest :
      (child : Text) (f : Node P → Node P) (nodes : List (Node P)) (visited : List Text)
      → ((n : Node P) → (f n).id ≡ n.id)
      → contains child visited ≡ false
      → ((n : Node P) → find_node child nodes ≡ some n → IsHung (write_node child f nodes) (f n))
      → IsForest nodes visited
      → IsForest (write_node child f nodes) (child ∷ visited)
  write-IsForest child f nodes visited k new hangs v id n h =
      elim (Bool-cases (same_text child id)) [
        | inl same ↦ write_here child id f nodes visited k (same_text→≡ child id same) hangs n h
        | inr other ↦
            (let was = sym (find_node-write_other child id f nodes k other) ∙ h in
              write_there child id f nodes visited k new other v n was)
      ]

  -- A child hangs from a parent that is visited.
  pub place-IsForest :
      (parent child : Text) (nodes : List (Node P)) (visited : List Text)
      → contains parent visited ≡ true
      → has_node parent nodes ≡ true
      → contains child visited ≡ false
      → IsForest nodes visited
      → IsForest (place parent child nodes) (child ∷ visited)
  unfolding place
  place-IsForest parent child nodes visited seen there new v =
      let (m, at) = has_node-found parent nodes there in
      let hung = IsKept-at nodes (contains parent visited) true m seen (v parent m at) in
      let (d, deep) = has_depth nodes m hung in
      let level : depth_or_zero (find_node parent nodes) ≡ d = rw (at, deep) refl in
      let f = hang parent (suc (depth_or_zero (find_node parent nodes))) in
      let other = apart parent child visited seen new in
      let still = find_node-write_other child parent f nodes (λ n. refl) other ∙ at in
      write-IsForest child f nodes visited (λ n. refl) new
        (λ n was. inr (parent, m, d, refl, still, deep, ap (λ k. some (suc k)) level)) v

  -- A root that is visited first.
  pub as_root-IsForest :
      (id : Text) (nodes : List (Node P)) (visited : List Text)
      → contains id visited ≡ false
      → IsForest nodes visited
      → IsForest (write_node id as_root nodes) (id ∷ visited)
  as_root-IsForest id nodes visited new v =
      write-IsForest id as_root nodes visited (λ n. refl) new
        (λ n was. inl ((IsKept-at nodes (contains id visited) false n new (v id n was)).1, refl)) v
