-- ===== src/Reporting/Tree/Growth.antt =====
-- The queue of buildPresentationTree of graph_hierarchy.go: what it visits, and that it runs empty.
use integration_console.Prelude.{
  ℕ, zero, suc, ◌+◌, ◌≤◌, ◌≡◌, refl, ap, ◌∙◌, inl, inr, true, false, not, ◌&&◌, ◌||◌, List, [], ◌∷◌,
  ◌++◌, map, length, Text, same_text, same_text→≡, same_text_refl, contains, if◌then◌else◌,
  Bool-cases, arith, All, All-append, length-append,
}
use integration_console.Reporting.Tree.{
  Node, Edge, Tree, has_node, write_node, is_adjacent, other_end, find_node, depth_or_zero, hang,
  place, expand, spread,
}
use integration_console.Reporting.Tree.Forest.{IsForest, place-IsForest}

abbrev pub left : List Text → List Text → ℕ
left [] visited = 0
left (i ∷ is) visited = let rest = left is visited in if contains i visited then rest else suc rest

left_fewer : (child : Text) (is visited : List Text) → left is (child ∷ visited) ≤ left is visited
left_fewer child [] visited = omega arith
left_fewer child (i ∷ is) visited =
    let rest = left_fewer child is visited in
    elim (Bool-cases (contains i visited)) [
      | inl seen ↦ elim (Bool-cases (same_text child i)) [
        | inl same ↦ rw (same, seen) rest
        | inr other ↦ rw (other, seen) rest
      ]
      | inr new ↦ elim (Bool-cases (same_text child i)) [
        | inl same ↦ rw (same, new) (omega (arith, rest))
        | inr other ↦ rw (other, new) (omega (arith, rest))
      ]
    ]

pub left_taken :
    (child : Text) (is visited : List Text)
    → contains child is ≡ true
    → contains child visited ≡ false
    → suc (left is (child ∷ visited)) ≤ left is visited
left_taken child [] visited h new = cc
left_taken child (i ∷ is) visited h new = elim (Bool-cases (same_text i child)) [
  | inl same ↦
      (let e = same_text→≡ i child same in
        let here : same_text child i ≡ true =
          ap (λ x. same_text child x) e ∙ same_text_refl child in
        let unseen : contains i visited ≡ false = ap (λ x. contains x visited) e ∙ new in
        let fewer = left_fewer child is visited in rw (here, unseen) (omega (arith, fewer)))
  | inr other ↦
      (let later : contains child is ≡ true = ground (arith, h, other) in
        let rest = left_taken child is visited later new in
        elim (Bool-cases (contains i visited)) [
          | inl seen ↦ elim (Bool-cases (same_text child i)) [
            | inl same ↦ rw (same, seen) rest
            | inr apart ↦ rw (apart, seen) rest
          ]
          | inr unseen ↦ elim (Bool-cases (same_text child i)) [
            | inl same ↦ rw (same, unseen) (omega (arith, rest))
            | inr apart ↦ rw (apart, unseen) (omega (arith, rest))
          ]
        ])
]

abbrev pub IsQueued : List Text → List Text → Text → Type 0
IsQueued ids visited i = (contains i ids ≡ true) × (contains i visited ≡ true)

-- What is visited stays visited.
abbrev pub IsWider : List Text → List Text → Type 0
IsWider visited wider = (i : Text) → contains i visited ≡ true → contains i wider ≡ true

pub contains_head : (i : Text) (visited : List Text) → contains i (i ∷ visited) ≡ true
contains_head i visited = rw (same_text_refl i) refl

pub IsWider-cons : (child : Text) (visited : List Text) → IsWider visited (child ∷ visited)
IsWider-cons child visited i h = elim (Bool-cases (same_text child i)) [
  | inl same ↦ rw same refl
  | inr other ↦ rw (other, h) refl
]

module _ {P : Type 0} where
  abbrev pub node_ids : List (Node P) → List Text
  node_ids nodes = map (λ n. n.id) nodes

  pub has_node-node_ids :
      (id : Text) (nodes : List (Node P)) → has_node id nodes ≡ contains id (node_ids nodes)
  unfolding has_node
  has_node-node_ids id [] = refl
  has_node-node_ids id (n ∷ ns) = ap (λ b. same_text n.id id || b) (has_node-node_ids id ns)

  pub node_ids-write_node :
      (id : Text) (f : Node P → Node P) (nodes : List (Node P))
      → ((n : Node P) → (f n).id ≡ n.id)
      → node_ids (write_node id f nodes) ≡ node_ids nodes
  unfolding write_node
  node_ids-write_node id f [] k = refl
  node_ids-write_node id f (n ∷ ns) k = elim (Bool-cases (has_node id ns)) [
    | inl later ↦ rw later (ap (λ is. n.id ∷ is) (node_ids-write_node id f ns k))
    | inr last ↦ elim (Bool-cases (same_text n.id id)) [
      | inl here ↦ rw (last, here) (ap (λ i. i ∷ node_ids ns) (k n))
      | inr other ↦ rw (last, other) refl
    ]
  ]

module _ {Q : Type 0} where
  abbrev pub IsEnded : List Text → Edge Q → Type 0
  IsEnded ids e = (contains e.source ids ≡ true) × (contains e.target ids ≡ true)

  other_end-IsEnded :
      (ids : List Text) (parent : Text) (e : Edge Q)
      → IsEnded ids e
      → contains (other_end parent e) ids ≡ true
  unfolding other_end
  other_end-IsEnded ids parent e h = elim (Bool-cases (same_text e.source parent)) [
    | inl out ↦ rw out h.1
    | inr back ↦ rw back h.0
  ]

module _ {P Q : Type 0} where
  abbrev pub IsGrown :
      List Text → List Text → List (Edge Q) × List (Node P) × List Text × List Text → Type 0
  IsGrown ids visited r =
      let (edges, nodes, wider, more) = r in
      (node_ids nodes ≡ ids)
      × IsForest nodes wider
      × All (IsEnded ids) edges
      × IsWider visited wider
      × All (IsQueued ids wider) more
      × (length more + left ids wider ≤ left ids visited)

  pub expand-IsGrown :
      (ids : List Text) (parent : Text) (es : List (Edge Q)) (nodes : List (Node P))
      (visited : List Text)
      → IsQueued ids visited parent
      → node_ids nodes ≡ ids
      → IsForest nodes visited
      → All (IsEnded ids) es
      → IsGrown ids visited (expand parent es nodes visited)
  unfolding expand
  expand-IsGrown ids parent [] nodes visited q same v h = (same, v, tt, (λ i h. h), tt, omega arith)
  expand-IsGrown ids parent (e ∷ es) nodes visited q same v h =
      elim (Bool-cases (is_adjacent parent e && not (contains (other_end parent e) visited))) [
        | inl takes ↦
            (let new : contains (other_end parent e) visited ≡ false = ground (arith, takes) in
              let inside = other_end-IsEnded ids parent e h.0 in
              let there : has_node parent nodes ≡ true =
                has_node-node_ids parent nodes ∙ ap (contains parent) same ∙ q.0 in
              let same' =
                node_ids-write_node (other_end parent e)
                  (hang parent (suc (depth_or_zero (find_node parent nodes)))) nodes (λ n. refl)
                ∙ same in
              let r =
                expand-IsGrown ids parent es (place parent (other_end parent e) nodes)
                  (other_end parent e ∷ visited)
                  (q.0, IsWider-cons (other_end parent e) visited parent q.1) same'
                  (place-IsForest parent (other_end parent e) nodes visited q.1 there new v) h.1 in
              let fewer = left_taken (other_end parent e) ids visited inside new in
              let bound = r.5 in
              rw takes (
                r.0,
                r.1,
                (h.0, r.2),
                (λ i w. r.3 i (IsWider-cons (other_end parent e) visited i w)),
                (
                  (inside, r.3 (other_end parent e) (contains_head (other_end parent e) visited)),
                  r.4,
                ),
                omega (arith, bound, fewer),
              ))
        | inr leaves ↦
            (let r = expand-IsGrown ids parent es nodes visited q same v h.1 in
              rw leaves (r.0, r.1, (h.0, r.2), r.3, r.4, r.5))
      ]

IsQueued-wider :
    (ids visited wider queue : List Text)
    → IsWider visited wider
    → All (IsQueued ids visited) queue
    → All (IsQueued ids wider) queue
IsQueued-wider ids visited wider [] w h = tt
IsQueued-wider ids visited wider (i ∷ is) w h =
    ((h.0.0, w i h.0.1), IsQueued-wider ids visited wider is w h.1)

module _ {P Q : Type 0} where
  -- A tree whose nodes have these identifiers, in order, between any two loops.
  abbrev pub IsTree : List Text → Tree P Q → Type 0
  IsTree ids t = (node_ids t.nodes ≡ ids) × IsForest t.nodes t.visited × All (IsEnded ids) t.edges

  -- With fuel for the queue and what is not visited, the queue runs empty.
  pub spread-IsTree :
      (fuel : ℕ) (ids queue : List Text) (t : Tree P Q)
      → IsTree ids t
      → All (IsQueued ids t.visited) queue
      → length queue + left ids t.visited ≤ fuel
      → ((spread fuel queue t).1 ≡ [])
        × IsTree ids (spread fuel queue t).0
        × IsWider t.visited (spread fuel queue t).0.visited
  unfolding spread
  spread-IsTree zero ids [] t g q h = (refl, g, (λ i w. w))
  spread-IsTree zero ids (p ∷ queue) t g q h = absurd (omega (arith, h))
  spread-IsTree (suc fuel) ids [] t g q h = (refl, g, (λ i w. w))
  spread-IsTree (suc fuel) ids (p ∷ queue) t g q h =
      let r = expand-IsGrown ids p t.edges t.nodes t.visited q.0 g.0 g.1 g.2 in
      let (edges, nodes, visited, more) = expand p t.edges t.nodes t.visited in
      let bound = r.5 in
      let split = length-append queue more in
      let rest =
        spread-IsTree fuel ids (queue ++ more)
          (record t { edges = edges; nodes = nodes; visited = visited }) (r.0, r.1, r.2)
          (All-append (IsQueued ids visited) queue more
            (IsQueued-wider ids t.visited visited queue r.3 q.1) r.4)
          (omega (arith, h, bound, split)) in
      (rest.0, rest.1, (λ i w. rest.2 i (r.3 i w)))
