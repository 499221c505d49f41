-- ===== src/Reporting/Focus/Hop.antt =====
-- One pass of focusGraphAroundMAC of graph_assembly.go over the edges.
use integration_console.Prelude.{
  ◌≡◌, refl, ap, sym, subst, ◌∙◌, ◌⊎◌, inl, inr, true, false, ◌||◌, List, [], ◌∷◌, Bool-cases,
  arith, Text, same_text, same_text→≡, contains,
}
use integration_console.Reporting.Tree.{Edge}
use integration_console.Reporting.Tree.Growth.{IsWider, IsWider-cons, contains_head}
use integration_console.Reporting.Focus.{neighbor, leads_on, one_hop}

pub contains_cases :
    (c i : Text) (is : List Text) → contains c (i ∷ is) ≡ true → (i ≡ c) ⊎ (contains c is ≡ true)
contains_cases c i is h = elim (Bool-cases (same_text i c)) [
  | inl same ↦ inl (same_text→≡ i c same)
  | inr other ↦ inr (ground (arith, h, other))
]

module _ {Q : Type 0} where
  abbrev pub IsJoin : Edge Q → Text → Text → Type 0
  IsJoin e a b = ((e.source ≡ a) × (e.target ≡ b)) ⊎ ((e.target ≡ a) × (e.source ≡ b))

  abbrev pub IsLinked : List (Edge Q) → Text → Text → Type 0
  IsLinked [] a b = ⊥
  IsLinked (e ∷ es) a b = IsJoin e a b ⊎ IsLinked es a b

  pub one_hop-IsWider :
      (es : List (Edge Q)) (frontier related : List Text)
      → IsWider related (one_hop es frontier related).0
  unfolding one_hop
  one_hop-IsWider [] frontier related i h = h
  one_hop-IsWider (e ∷ es) frontier related i h = elim (Bool-cases (leads_on frontier related e)) [
    | inl takes ↦
        rw (one_hop, takes)
          (one_hop-IsWider es frontier (neighbor frontier e ∷ related) i
            (IsWider-cons (neighbor frontier e) related i h))
    | inr leaves ↦ rw (one_hop, leaves) (one_hop-IsWider es frontier related i h)
  ]

  one_hop-takes :
      (e : Edge Q) (es : List (Edge Q)) (frontier related : List Text)
      → leads_on frontier related e ≡ true
      → one_hop (e ∷ es) frontier related ≡ (
        (one_hop es frontier (neighbor frontier e ∷ related)).0,
        neighbor frontier e ∷ (one_hop es frontier (neighbor frontier e ∷ related)).1,
      )
  unfolding one_hop neighbor
  one_hop-takes e es frontier related takes = rw (one_hop, takes) refl

  one_hop-leaves :
      (e : Edge Q) (es : List (Edge Q)) (frontier related : List Text)
      → leads_on frontier related e ≡ false
      → one_hop (e ∷ es) frontier related ≡ one_hop es frontier related
  unfolding one_hop
  one_hop-leaves e es frontier related leaves = rw (one_hop, leaves) refl

  neighbor-IsJoin :
      (e : Edge Q) (frontier : List Text)
      → contains e.source frontier || contains e.target frontier ≡ true
      → (a : Text) × (contains a frontier ≡ true) × IsJoin e a (neighbor frontier e)
  unfolding neighbor
  neighbor-IsJoin e frontier h = elim (Bool-cases (contains e.source frontier)) [
    | inl out ↦ rw out (e.source, out, inl (refl, refl))
    | inr back ↦
        (let there : contains e.target frontier ≡ true = ground (arith, h, back) in
          rw back (e.target, there, inr (refl, refl)))
  ]

  IsJoin-neighbor :
      (e : Edge Q) (frontier : List Text) (a b : Text)
      → contains a frontier ≡ true
      → IsJoin e a b
      → (contains b frontier ≡ true) ⊎ (neighbor frontier e ≡ b)
  unfolding neighbor
  IsJoin-neighbor e frontier a b h (inl (s, t)) =
      let out : contains e.source frontier ≡ true = ap (λ x. contains x frontier) s ∙ h in
      inr (rw out t)
  IsJoin-neighbor e frontier a b h (inr (t, s)) = elim (Bool-cases (contains e.source frontier)) [
    | inl out ↦ inl (ap (λ x. contains x frontier) (sym s) ∙ out)
    | inr back ↦ inr (rw back s)
  ]

  join_touches :
      (e : Edge Q) (frontier : List Text) (a b : Text)
      → contains a frontier ≡ true
      → IsJoin e a b
      → contains e.source frontier || contains e.target frontier ≡ true
  join_touches e frontier a b h (inl (s, t)) =
      let out : contains e.source frontier ≡ true = ap (λ x. contains x frontier) s ∙ h in
      rw out refl
  join_touches e frontier a b h (inr (t, s)) =
      let back : contains e.target frontier ≡ true = ap (λ x. contains x frontier) t ∙ h in
      ground (arith, back)

  IsLinked-taken :
      (e : Edge Q) (es : List (Edge Q)) (frontier related : List Text) (c : Text)
      → leads_on frontier related e ≡ true
      → (contains c (neighbor frontier e ∷ related) ≡ true)
        ⊎ ((a : Text) × (contains a frontier ≡ true) × IsLinked es a c)
      → (contains c related ≡ true)
        ⊎ ((a : Text) × (contains a frontier ≡ true) × IsLinked (e ∷ es) a c)
  unfolding leads_on
  IsLinked-taken e es frontier related c takes (inr (a, f, l)) = inr (a, f, inr l)
  IsLinked-taken e es frontier related c takes (inl h) =
      elim (contains_cases c (neighbor frontier e) related h) [
        | inl same ↦
            (let touches : contains e.source frontier || contains e.target frontier ≡ true =
                ground (arith, takes) in
              let (a, f, join) = neighbor-IsJoin e frontier touches in
              inr (a, f, inl (subst (IsJoin e a) same join)))
        | inr old ↦ inl old
      ]

  IsLinked-left :
      (e : Edge Q) (es : List (Edge Q)) (frontier related : List Text) (c : Text)
      → (contains c related ≡ true) ⊎ ((a : Text) × (contains a frontier ≡ true) × IsLinked es a c)
      → (contains c related ≡ true)
        ⊎ ((a : Text) × (contains a frontier ≡ true) × IsLinked (e ∷ es) a c)
  IsLinked-left e es frontier related c (inl h) = inl h
  IsLinked-left e es frontier related c (inr (a, f, l)) = inr (a, f, inr l)

  -- What one pass relates was related, or is linked to the frontier.
  pub one_hop-IsLinked :
      (es : List (Edge Q)) (frontier related : List Text) (c : Text)
      → contains c (one_hop es frontier related).0 ≡ true
      → (contains c related ≡ true) ⊎ ((a : Text) × (contains a frontier ≡ true) × IsLinked es a c)
  unfolding one_hop
  one_hop-IsLinked [] frontier related c h = inl h
  one_hop-IsLinked (e ∷ es) frontier related c h = elim (Bool-cases (leads_on frontier related e)) [
    | inl takes ↦
        (let moved =
            ap (λ r. contains c r.0) (sym (one_hop-takes e es frontier related takes)) ∙ h in
          IsLinked-taken e es frontier related c takes
            (one_hop-IsLinked es frontier (neighbor frontier e ∷ related) c moved))
    | inr leaves ↦
        (let moved =
            ap (λ r. contains c r.0) (sym (one_hop-leaves e es frontier related leaves)) ∙ h in
          IsLinked-left e es frontier related c (one_hop-IsLinked es frontier related c moved))
  ]

  -- What one pass relates was related, or is on the next frontier.
  pub one_hop-next :
      (es : List (Edge Q)) (frontier related : List Text) (c : Text)
      → contains c (one_hop es frontier related).0 ≡ true
      → (contains c related ≡ true) ⊎ (contains c (one_hop es frontier related).1 ≡ true)
  unfolding one_hop
  one_hop-next [] frontier related c h = inl h
  one_hop-next (e ∷ es) frontier related c h = elim (Bool-cases (leads_on frontier related e)) [
    | inl takes ↦
        (let step = one_hop-takes e es frontier related takes in
          let moved = ap (λ r. contains c r.0) (sym step) ∙ h in
          elim (one_hop-next es frontier (neighbor frontier e ∷ related) c moved) [
            | inl old ↦ elim (contains_cases c (neighbor frontier e) related old) [
              | inl same ↦ inr (
                  ap (λ r. contains c r.1) step
                  ∙ subst
                      (λ x.
                        contains x (
                          neighbor frontier e
                          ∷ (one_hop es frontier (neighbor frontier e ∷ related)).1)
                        ≡ true)
                      same
                      (contains_head (neighbor frontier e)
                        (one_hop es frontier (neighbor frontier e ∷ related)).1))
              | inr older ↦ inl older
            ]
            | inr new ↦ inr (
                ap (λ r. contains c r.1) step
                ∙ IsWider-cons (neighbor frontier e)
                    (one_hop es frontier (neighbor frontier e ∷ related)).1 c new)
          ])
    | inr leaves ↦
        (let step = one_hop-leaves e es frontier related leaves in
          let moved = ap (λ r. contains c r.0) (sym step) ∙ h in
          elim (one_hop-next es frontier related c moved) [
            | inl old ↦ inl old
            | inr new ↦ inr (ap (λ r. contains c r.1) step ∙ new)
          ])
  ]

  pub one_hop-related :
      (es : List (Edge Q)) (frontier related : List Text)
      → IsWider (one_hop es frontier related).1 (one_hop es frontier related).0
  unfolding one_hop
  one_hop-related [] frontier related c h = cc
  one_hop-related (e ∷ es) frontier related c h = elim (Bool-cases (leads_on frontier related e)) [
    | inl takes ↦
        (let step = one_hop-takes e es frontier related takes in
          let moved = ap (λ r. contains c r.1) (sym step) ∙ h in
          ap (λ r. contains c r.0) step
          ∙ elim (contains_cases c (neighbor frontier e)
              (one_hop es frontier (neighbor frontier e ∷ related)).1 moved) [
                | inl same ↦
                    subst
                      (λ x.
                        contains x (one_hop es frontier (neighbor frontier e ∷ related)).0 ≡ true)
                      same
                      (one_hop-IsWider es frontier (neighbor frontier e ∷ related)
                        (neighbor frontier e) (contains_head (neighbor frontier e) related))
                | inr new ↦ one_hop-related es frontier (neighbor frontier e ∷ related) c new
              ])
    | inr leaves ↦
        (let step = one_hop-leaves e es frontier related leaves in
          let moved = ap (λ r. contains c r.1) (sym step) ∙ h in
          ap (λ r. contains c r.0) step ∙ one_hop-related es frontier related c moved)
  ]

  -- An edge with an end on the frontier relates its neighbor, at the latest now.
  join_related :
      (e : Edge Q) (es : List (Edge Q)) (frontier related : List Text)
      → contains e.source frontier || contains e.target frontier ≡ true
      → contains (neighbor frontier e) (one_hop (e ∷ es) frontier related).0 ≡ true
  unfolding leads_on
  join_related e es frontier related touches = elim (Bool-cases (leads_on frontier related e)) [
    | inl takes ↦
        ap (λ r. contains (neighbor frontier e) r.0) (one_hop-takes e es frontier related takes)
        ∙ one_hop-IsWider es frontier (neighbor frontier e ∷ related) (neighbor frontier e)
            (contains_head (neighbor frontier e) related)
    | inr leaves ↦
        one_hop-IsWider (e ∷ es) frontier related (neighbor frontier e)
          (ground (arith, touches, leaves))
  ]

  pub one_hop_complete :
      (es : List (Edge Q)) (frontier related : List Text) (a b : Text)
      → IsWider frontier related
      → contains a frontier ≡ true
      → IsLinked es a b
      → contains b (one_hop es frontier related).0 ≡ true
  unfolding one_hop leads_on
  one_hop_complete [] frontier related a b w f l = absurd l
  one_hop_complete (e ∷ es) frontier related a b w f (inl join) =
      elim (IsJoin-neighbor e frontier a b f join) [
        | inl old ↦ one_hop-IsWider (e ∷ es) frontier related b (w b old)
        | inr same ↦
            subst (λ x. contains x (one_hop (e ∷ es) frontier related).0 ≡ true) same
              (join_related e es frontier related (join_touches e frontier a b f join))
      ]
  one_hop_complete (e ∷ es) frontier related a b w f (inr l) =
      elim (Bool-cases (leads_on frontier related e)) [
        | inl takes ↦
            ap (λ r. contains b r.0) (one_hop-takes e es frontier related takes)
            ∙ one_hop_complete es frontier (neighbor frontier e ∷ related) a b
                (λ i h. IsWider-cons (neighbor frontier e) related i (w i h)) f l
        | inr leaves ↦
            ap (λ r. contains b r.0) (one_hop-leaves e es frontier related leaves)
            ∙ one_hop_complete es frontier related a b w f l
      ]
