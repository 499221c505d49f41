-- ===== src/Reporting/Tree.antt =====
-- buildPresentationTree of atheros-search/internal/reporting/graph_hierarchy.go: a spanning forest of a graph.
-- A map from identifiers to positions is a search for the last node with the identifier, and the
-- fields that the function does not touch are of any type.
pub mod Lookup
pub mod Forest
pub mod Touch
pub mod Growth
pub mod Visits
pub mod Whole
use integration_console.Prelude.{
  ℕ, zero, suc, ◌+◌, Bool, true, false, not, ◌&&◌, ◌||◌, Option, none, some, List, [], ◌∷◌, ◌++◌,
  map, length, keep, if◌then◌else◌, Text, codes, same_text, text_less, contains, is_empty,
}

-- GraphNode
pub record Node (P : Type 0) : Type 0 where
  pub id : Text
  pub kind : Text
  pub mac : Text
  pub role : Text
  pub parent_id : Option Text
  pub depth : Option ℕ
  pub rest : P

-- GraphEdge
pub record Edge (Q : Type 0) : Type 0 where
  pub id : Text
  pub source : Text
  pub target : Text
  pub kind : Text
  pub tree_role : Text
  pub rest : Q

-- The nodes and edges while the tree is built, what is visited and the roots.
pub record Tree (P Q : Type 0) : Type 0 where
  pub nodes : List (Node P)
  pub edges : List (Edge Q)
  pub visited : List Text
  pub root_ids : List Text

-- isGraphAssociation
unfoldable pub is_graph_association : Text → Bool
is_graph_association kind =
    same_text kind (codes "association")
    || same_text kind (codes "observed_at")
    || same_text kind (codes "observed_association")

abbrev pub or_zero : Option ℕ → ℕ
or_zero none = 0
or_zero (some n) = n

module _ {P : Type 0} where
  -- sortGraphNodes and sortGraphEdges, which leave the order of equal identifiers open: here it is kept.
  unfoldable pub insert_node : Node P → List (Node P) → List (Node P)
  insert_node n [] = n ∷ []
  insert_node n (m ∷ ms) =
      let rest = insert_node n ms in if text_less m.id n.id then m ∷ rest else n ∷ m ∷ ms

  unfoldable pub sort_nodes : List (Node P) → List (Node P)
  unfolding insert_node
  sort_nodes [] = []
  sort_nodes (n ∷ ns) = insert_node n (sort_nodes ns)

  -- Whether byID has the identifier.
  unfoldable pub has_node : Text → List (Node P) → Bool
  has_node id [] = false
  has_node id (n ∷ ns) = same_text n.id id || has_node id ns

  -- nodes[byID[id]]
  unfoldable pub find_node : Text → List (Node P) → Option (Node P)
  unfolding has_node
  find_node id [] = none
  find_node id (n ∷ ns) =
      let rest = find_node id ns in
      if has_node id ns then rest else if same_text n.id id then some n else none

  unfoldable pub write_node : Text → (Node P → Node P) → List (Node P) → List (Node P)
  unfolding has_node
  write_node id f [] = []
  write_node id f (n ∷ ns) =
      let rest = write_node id f ns in
      if has_node id ns then n ∷ rest else if same_text n.id id then f n ∷ ns else n ∷ ns

  abbrev pub fresh_node : Node P → Node P
  fresh_node n = record n {
    parent_id = none;
    depth = none;
    role = if same_text n.kind (codes "device") then codes "client" else n.kind;
  }

  abbrev pub depth_or_zero : Option (Node P) → ℕ
  depth_or_zero none = 0
  depth_or_zero (some n) = or_zero n.depth

  abbrev pub hang : Text → ℕ → Node P → Node P
  hang parent depth n = record n { parent_id = some parent; depth = some depth }

  -- A child is discovered.
  unfoldable pub place : Text → Text → List (Node P) → List (Node P)
  unfolding find_node write_node
  place parent child nodes =
      write_node child (hang parent (suc (depth_or_zero (find_node parent nodes)))) nodes

  abbrev pub as_root : Node P → Node P
  as_root n = record n { depth = some 0 }

  abbrev pub root_role : Node P → Node P
  root_role n = record n {
    role = if same_text n.kind (codes "ap") then codes "root_ap" else codes "root";
  }

module _ {Q : Type 0} where
  unfoldable pub insert_edge : Edge Q → List (Edge Q) → List (Edge Q)
  insert_edge e [] = e ∷ []
  insert_edge e (d ∷ ds) =
      let rest = insert_edge e ds in if text_less d.id e.id then d ∷ rest else e ∷ d ∷ ds

  unfoldable pub sort_edges : List (Edge Q) → List (Edge Q)
  unfolding insert_edge
  sort_edges [] = []
  sort_edges (e ∷ es) = insert_edge e (sort_edges es)

  abbrev pub secondary : Edge Q → Edge Q
  secondary e = record e { tree_role = codes "secondary" }

  -- Whether the edge is in adjacency[parent].
  unfoldable pub is_adjacent : Text → Edge Q → Bool
  unfolding is_graph_association
  is_adjacent parent e =
      is_graph_association e.kind
      && not (same_text e.source e.target)
      && (same_text e.source parent || same_text e.target parent)

  unfoldable pub other_end : Text → Edge Q → Text
  other_end parent e = if same_text e.source parent then e.target else e.source

module _ {P Q : Type 0} where
  abbrev pub is_inside : List (Node P) → Edge Q → Bool
  is_inside nodes e = has_node e.source nodes && has_node e.target nodes

  -- The loop over adjacency[parent]: the edges and nodes after it, what is visited, and what it queues.
  unfoldable pub expand :
      Text
      → List (Edge Q)
      → List (Node P)
      → List Text
      → List (Edge Q) × List (Node P) × List Text × List Text
  unfolding is_adjacent other_end place
  expand parent [] nodes visited = ([], nodes, visited, [])
  expand parent (e ∷ es) nodes visited =
      let child = other_end parent e in
      let takes = is_adjacent parent e && not (contains child visited) in
      let (es', nodes', visited', more) =
        expand parent es (if takes then place parent child nodes else nodes)
          (if takes then child ∷ visited else visited) in
      (
        (if takes then record e { tree_role = codes "tree" } else e) ∷ es',
        nodes',
        visited',
        if takes then child ∷ more else more,
      )

  -- The loop over the queue, with what is left of it.
  unfoldable pub spread : ℕ → List Text → Tree P Q → Tree P Q × List Text
  unfolding expand
  spread zero queue t = (t, queue)
  spread (suc fuel) [] t = (t, [])
  spread (suc fuel) (parent ∷ queue) t =
      let (edges, nodes, visited, more) = expand parent t.edges t.nodes t.visited in
      spread fuel (queue ++ more) (record t { edges = edges; nodes = nodes; visited = visited })

  unfoldable pub begin_visit : Text → Tree P Q → Tree P Q
  unfolding write_node
  begin_visit id t = record t {
    root_ids = t.root_ids ++ (id ∷ []);
    nodes = write_node id as_root t.nodes;
    visited = id ∷ t.visited;
  }

  -- visit. A node is queued once.
  unfoldable pub visit : Text → Tree P Q → Tree P Q
  unfolding begin_visit spread
  visit id t = (spread (suc (length t.nodes)) (id ∷ []) (begin_visit id t)).0

  unfoldable pub visit_root : Text → Tree P Q → Tree P Q
  unfolding has_node visit write_node
  visit_root id t =
      if has_node id t.nodes
      then (let t' = visit id t in record t' { nodes = write_node id root_role t'.nodes })
      else t

  -- The loops over the nodes that are left, of a kind or of any.
  unfoldable pub visit_left : Text → List (Node P) → Tree P Q → Tree P Q
  unfolding visit
  visit_left kind [] t = t
  visit_left kind (n ∷ ns) t = visit_left kind ns (
      if not (contains n.id t.visited) && (is_empty kind || same_text n.kind kind)
      then visit n.id t
      else t)

  unfoldable pub new_tree : List (Node P) → List (Edge Q) → Tree P Q
  unfolding sort_nodes sort_edges has_node
  new_tree nodes edges =
      let fresh = map fresh_node (sort_nodes nodes) in
      record {
        nodes = fresh;
        edges = map secondary (keep (is_inside fresh) (sort_edges edges));
        visited = [];
        root_ids = [];
      }

  -- buildPresentationTree
  unfoldable pub build_presentation_tree : List (Node P) → List (Edge Q) → Text → Tree P Q
  unfolding new_tree visit_root visit_left
  build_presentation_tree nodes edges root_id =
      let t = new_tree nodes edges in
      visit_left [] t.nodes (visit_left (codes "ap") t.nodes (visit_root root_id t))
