-- ===== src/Reporting/Focus.antt =====
-- focusGraphAroundMAC of atheros-search/internal/reporting/graph_assembly.go: the part of a graph around a device.
-- A set of identifiers is a list, and a number of hops that is not positive is 0.
pub mod Hop
pub mod Reach
use integration_console.Prelude.{
  ℕ, zero, suc, Bool, true, false, not, ◌&&◌, ◌||◌, Option, none, some, List, [], ◌∷◌, ◌++◌, keep,
  if◌then◌else◌, Text, codes, same_text, contains, is_empty, to_lower, equal_fold,
}
use integration_console.Reporting.Tree.{Node, Edge}

module _ {P : Type 0} where
  unfoldable pub is_device : Text → Node P → Bool
  is_device mac n =
      same_text n.id (codes "device:" ++ to_lower mac)
      || (not (is_empty n.mac) && equal_fold n.mac mac)

  -- deviceID, where a node is found.
  unfoldable pub find_device : Text → List (Node P) → Option Text
  unfolding is_device
  find_device mac [] = none
  find_device mac (n ∷ ns) =
      let rest = find_device mac ns in if is_device mac n then some n.id else rest

module _ {Q : Type 0} where
  unfoldable pub neighbor : List Text → Edge Q → Text
  neighbor frontier e = if contains e.source frontier then e.target else e.source

  -- The edge has an end on the frontier, and leads to what is not related yet.
  unfoldable pub leads_on : List Text → List Text → Edge Q → Bool
  unfolding neighbor
  leads_on frontier related e =
      (contains e.source frontier || contains e.target frontier)
      && not (contains (neighbor frontier e) related)

  -- The loop over the edges: what is related after it, and the next frontier.
  unfoldable pub one_hop : List (Edge Q) → List Text → List Text → List Text × List Text
  unfolding leads_on neighbor
  one_hop [] frontier related = (related, [])
  one_hop (e ∷ es) frontier related =
      let takes = leads_on frontier related e in
      let (related', next) =
        one_hop es frontier (if takes then neighbor frontier e ∷ related else related) in
      (related', if takes then neighbor frontier e ∷ next else next)

  -- The loop over the hops.
  unfoldable pub all_hops : ℕ → List (Edge Q) → List Text → List Text → List Text
  unfolding one_hop
  all_hops zero edges frontier related = related
  all_hops (suc hops) edges [] related = related
  all_hops (suc hops) edges (f ∷ fs) related =
      let (related', next) = one_hop edges (f ∷ fs) related in all_hops hops edges next related'

module _ {P Q : Type 0} where
  abbrev pub around :
      Option Text → List (Node P) → List (Edge Q) → ℕ → List (Node P) × List (Edge Q)
  around none nodes edges hops = ([], [])
  around (some id) nodes edges hops =
      let related = all_hops hops edges (id ∷ []) (id ∷ []) in
      (
        keep (λ n. contains n.id related) nodes,
        keep (λ e. contains e.source related && contains e.target related) edges,
      )

  -- focusGraphAroundMAC
  unfoldable pub focus_graph_around_mac :
      List (Node P) → List (Edge Q) → Text → ℕ → List (Node P) × List (Edge Q)
  unfolding find_device all_hops
  focus_graph_around_mac nodes edges mac hops = around (find_device mac nodes) nodes edges hops
