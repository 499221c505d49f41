-- ===== src/Reporting/Focus/Reach.antt =====
-- What focusGraphAroundMAC of graph_assembly.go keeps: what a walk of at most so many edges reaches.
use integration_console.Prelude.{
  ℕ, zero, suc, ◌≡◌, refl, ap, sym, subst, ◌∙◌, ◌⊎◌, inl, inr, ◌↔◌, true, false, ◌&&◌, some, List,
  [], ◌∷◌, keep, keep_yes, keep_no, Bool-cases, arith, Text, same_text, same_text→≡, contains,
}
use integration_console.Reporting.Tree.{Node, Edge}
use integration_console.Reporting.Tree.Growth.{node_ids, IsWider, contains_head}
use integration_console.Reporting.Focus.{
  find_device, one_hop, all_hops, around, focus_graph_around_mac,
}
use integration_console.Reporting.Focus.Hop.{
  IsLinked, one_hop-IsWider, one_hop-IsLinked, one_hop-next, one_hop-related, one_hop_complete,
  contains_cases,
}

module _ {Q : Type 0} where
  -- A walk of at most so many edges, in either direction.
  abbrev pub IsWithin : List (Edge Q) → ℕ → Text → Text → Type 0
  IsWithin edges zero a c = a ≡ c
  IsWithin edges (suc k) a c = (a ≡ c) ⊎ ((b : Text) × IsLinked edges a b × IsWithin edges k b c)

  IsWithin-more :
      (edges : List (Edge Q)) (k : ℕ) (a c : Text)
      → IsWithin edges k a c
      → IsWithin edges (suc k) a c
  IsWithin-more edges zero a c h = inl h
  IsWithin-more edges (suc k) a c (inl e) = inl e
  IsWithin-more edges (suc k) a c (inr (b, l, w)) = inr (b, l, IsWithin-more edges k b c w)

  IsWithin-stay : (edges : List (Edge Q)) (k : ℕ) (a : Text) → IsWithin edges k a a
  IsWithin-stay edges zero a = refl
  IsWithin-stay edges (suc k) a = inl refl

  -- What is related is linked to what is related, but for the frontier.
  abbrev IsClosed : List (Edge Q) → List Text → List Text → Type 0
  IsClosed edges frontier related =
      (a b : Text)
      → contains a related ≡ true
      → IsLinked edges a b
      → (contains a frontier ≡ true) ⊎ (contains b related ≡ true)

  hop-IsClosed :
      (edges : List (Edge Q)) (frontier related : List Text)
      → IsWider frontier related
      → IsClosed edges frontier related
      → IsClosed edges (one_hop edges frontier related).1 (one_hop edges frontier related).0
  hop-IsClosed edges frontier related w v a b h l = elim (one_hop-next edges frontier related a h) [
    | inl old ↦ elim (v a b old l) [
      | inl f ↦ inr (one_hop_complete edges frontier related a b w f l)
      | inr near ↦ inr (one_hop-IsWider edges frontier related b near)
    ]
    | inr new ↦ inl new
  ]

  closed_walk :
      (edges : List (Edge Q)) (related : List Text) (k : ℕ) (a c : Text)
      → IsClosed edges [] related
      → contains a related ≡ true
      → IsWithin edges k a c
      → contains c related ≡ true
  closed_walk edges related zero a c v h e = subst (λ x. contains x related ≡ true) e h
  closed_walk edges related (suc k) a c v h (inl e) = subst (λ x. contains x related ≡ true) e h
  closed_walk edges related (suc k) a c v h (inr (b, l, w)) = elim (v a b h l) [
    | inl f ↦ absurd (let never : false ≡ true = f in cc)
    | inr near ↦ closed_walk edges related k b c v near w
  ]

  all_hops-IsWithin :
      (k : ℕ) (edges : List (Edge Q)) (frontier related : List Text) (c : Text)
      → IsWider frontier related
      → contains c (all_hops k edges frontier related) ≡ true
      → (a : Text) × (contains a related ≡ true) × IsWithin edges k a c
  unfolding all_hops
  all_hops-IsWithin zero edges frontier related c w h = (c, h, refl)
  all_hops-IsWithin (suc k) edges [] related c w h = (c, h, inl refl)
  all_hops-IsWithin (suc k) edges (f ∷ fs) related c w h =
      let (a, at, walk) =
        all_hops-IsWithin k edges (one_hop edges (f ∷ fs) related).1
          (one_hop edges (f ∷ fs) related).0 c (one_hop-related edges (f ∷ fs) related) h in
      elim (one_hop-IsLinked edges (f ∷ fs) related a at) [
        | inl old ↦ (a, old, IsWithin-more edges k a c walk)
        | inr (b, on, l) ↦ (b, w b on, inr (a, l, walk))
      ]

  all_hops_complete :
      (k : ℕ) (edges : List (Edge Q)) (frontier related : List Text) (a c : Text)
      → IsWider frontier related
      → IsClosed edges frontier related
      → contains a related ≡ true
      → IsWithin edges k a c
      → contains c (all_hops k edges frontier related) ≡ true
  unfolding all_hops
  all_hops_complete zero edges frontier related a c w v h e =
      subst (λ x. contains x related ≡ true) e h
  all_hops_complete (suc k) edges [] related a c w v h walk =
      closed_walk edges related (suc k) a c v h walk
  all_hops_complete (suc k) edges (f ∷ fs) related a c w v h walk =
      let wider = one_hop-IsWider edges (f ∷ fs) related in
      let again : (b : Text)
          → contains b (one_hop edges (f ∷ fs) related).0 ≡ true
          → IsWithin edges k b c
          → contains c (all_hops (suc k) edges (f ∷ fs) related) ≡ true =
        (λ b there rest.
          all_hops_complete k edges (one_hop edges (f ∷ fs) related).1
            (one_hop edges (f ∷ fs) related).0 b c (one_hop-related edges (f ∷ fs) related)
            (hop-IsClosed edges (f ∷ fs) related w v) there rest) in
      elim walk [
        | inl e ↦ again a (wider a h) (subst (IsWithin edges k a) e (IsWithin-stay edges k a))
        | inr (b, l, rest) ↦ elim (v a b h l) [
          | inl on ↦ again b (one_hop_complete edges (f ∷ fs) related a b w on l) rest
          | inr near ↦ again b (wider b near) rest
        ]
      ]

  IsWithin-from :
      (edges : List (Edge Q)) (k : ℕ) (id c : Text)
      → (contains c (all_hops k edges (id ∷ []) (id ∷ [])) ≡ true) ↔ IsWithin edges k id c
  IsWithin-from edges k id c = (
    (λ h.
        let (a, at, walk) = all_hops-IsWithin k edges (id ∷ []) (id ∷ []) c (λ i g. g) h in
        elim (contains_cases a id [] at) [
          | inl same ↦ subst (λ x. IsWithin edges k x c) (sym same) walk
          | inr never ↦ absurd (let bad : false ≡ true = never in cc)
        ]),
    (λ walk.
        all_hops_complete k edges (id ∷ []) (id ∷ []) id c (λ i g. g) (λ a b h l. inl h)
          (contains_head id []) walk),
  )

module _ {P : Type 0} where
  contains-keep :
      (id : Text) (related : List Text) (nodes : List (Node P))
      → contains id (node_ids (keep (λ n. contains n.id related) nodes))
        ≡ contains id related && contains id (node_ids nodes)
  contains-keep id related [] = ground arith
  contains-keep id related (n ∷ ns) =
      let rest = contains-keep id related ns in
      elim (Bool-cases (contains n.id related)) [
        | inl kept ↦
            (let step = keep_yes (λ n. contains n.id related) n ns kept in
              ap (λ l. contains id (node_ids l)) step ∙ elim (Bool-cases (same_text n.id id)) [
                | inl same ↦
                    (let at_id : contains id related ≡ true =
                        ap (λ x. contains x related) (sym (same_text→≡ n.id id same)) ∙ kept in
                      ground (arith, same, at_id))
                | inr other ↦ ground (arith, other, rest)
              ])
        | inr dropped ↦
            (let step = keep_no (λ n. contains n.id related) n ns dropped in
              ap (λ l. contains id (node_ids l)) step
              ∙ rest
              ∙ elim (Bool-cases (same_text n.id id)) [
                | inl same ↦
                    (let at_id : contains id related ≡ false =
                        ap (λ x. contains x related) (sym (same_text→≡ n.id id same)) ∙ dropped in
                      ground (arith, same, at_id))
                | inr other ↦ ground (arith, other)
              ])
      ]

module _ {P Q : Type 0} where
  -- focusGraphAroundMAC, where it finds the device: the identifiers of the nodes it keeps are those of
  -- the given nodes that a walk of at most `hops` edges, in either direction, reaches from the device.
  pub focus_graph_around_mac-IsWithin :
      (nodes : List (Node P)) (edges : List (Edge Q)) (mac device : Text) (hops : ℕ) (id : Text)
      → find_device mac nodes ≡ some device
      → (contains id (node_ids (focus_graph_around_mac nodes edges mac hops).0) ≡ true)
        ↔ ((contains id (node_ids nodes) ≡ true) × IsWithin edges hops device id)
  unfolding focus_graph_around_mac
  focus_graph_around_mac-IsWithin nodes edges mac device hops id found =
      let related = all_hops hops edges (device ∷ []) (device ∷ []) in
      let kept : node_ids (focus_graph_around_mac nodes edges mac hops).0
          ≡ node_ids (keep (λ n. contains n.id related) nodes) =
        ap (λ o. node_ids (around o nodes edges hops).0) found in
      let both = ap (contains id) kept ∙ contains-keep id related nodes in
      let walks = IsWithin-from edges hops device id in
      (
        (λ h.
            let yes_both : (contains id related ≡ true) × (contains id (node_ids nodes) ≡ true) =
              ground (arith, both, h) in
            (yes_both.1, walks.0 yes_both.0)),
        (λ h. let near = walks.1 h.1 in let there = h.0 in both ∙ ground (arith, near, there)),
      )
