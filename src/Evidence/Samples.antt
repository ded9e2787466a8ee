-- ===== src/Evidence/Samples.antt =====
-- A small graph of evidence, and the theorems at it.
use orphanode.Common.{ℕ, ◌^◌, ◌≤◌, ◌<◌, ◌≡◌, refl, ◌⊎◌, ◌↔◌, none, some, [], ◌∷◌, Memᴰ, length}
use orphanode.Common.Sorting.{sort_by}
use orphanode.Common.Text.{text}
use orphanode.Common.Vectors.{row}
use orphanode.Evidence.{
  EvidenceNode, EvidenceGraph, entry, package_, new_node, add_node, add_edge, find_node,
}
use orphanode.Evidence.Built.{
  Built, empty, with_node, with_edge, WellFormed, HasParts, Built-WellFormed, add_node-find_node,
  add_edge_lem,
}

abbrev two_nodes : EvidenceGraph
two_nodes = record {
  nodes =
      new_node 0 entry (text "main") none (some (3, 9))
      ∷ new_node 1 package_ (text "chalk") none none
      ∷ [];
  outgoing = [] ∷ [] ∷ [];
}

abbrev linked : EvidenceGraph
linked = record { nodes = two_nodes.nodes; outgoing = (1 ∷ []) ∷ [] ∷ [] }

linked-Built : Built linked
unfolding add_node add_edge sort_by
linked-Built =
    with_edge 0 1
      (with_node package_ (text "chalk") none none
        (with_node entry (text "main") none (some (3, 9)) empty refl) refl)
      refl

Built-WellFormed_example : WellFormed linked
Built-WellFormed_example = Built-WellFormed linked linked-Built

add_node-find_node_example :
    (2 ^ 32 ≤ length linked.nodes) × (add_node linked entry (text "a") none (some (3, 9)) ≡ none)
    ⊎ ((id : ℕ) × (g' : EvidenceGraph) × (add_node linked entry (text "a") none (some (3, 9))
          ≡ some (id, g'))
        × (id < 2 ^ 32)
        × (find_node linked id ≡ none)
        × ((node : EvidenceNode) × (find_node g' id ≡ some node)
            × HasParts id entry (text "a") none (some (3, 9)) node)
        × ((i : ℕ) (n : EvidenceNode) → find_node linked i ≡ some n → find_node g' i ≡ some n)
        × ((i : ℕ) → row g'.outgoing i ≡ row linked.outgoing i))
add_node-find_node_example = add_node-find_node linked entry (text "a") none (some (3, 9))

add_edge_lem_example :
    (length linked.nodes ≤ 1) × (add_edge linked 1 0 ≡ none)
    ⊎ ((g' : EvidenceGraph) × (add_edge linked 1 0 ≡ some g')
        × (1 < length linked.nodes)
        × (g'.nodes ≡ linked.nodes)
        × ((i t : ℕ)
            → Memᴰ t (row g'.outgoing i) ↔ (Memᴰ t (row linked.outgoing i) ⊎ (i ≡ 1) × (t ≡ 0))))
add_edge_lem_example = add_edge_lem linked 1 0 (Built-WellFormed linked linked-Built)
