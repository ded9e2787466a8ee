-- ===== src/FileGraph/Samples.antt =====
-- Small graphs, and the theorems at them.
use orphanode.Common.{
  ℕ, ◌≡◌, refl, ◌↔◌, Bool, true, false, some, List, [], ◌∷◌, Memᴰ, arith, length, ◌<◌, All-of-Memᴰ,
}
use orphanode.Common.Sorting.{sort_by, dedup, IsSorted, IsSortedBy}
use orphanode.Common.Vectors.{push_at, push_each, row}
use orphanode.Search.{returned, panicked, mark, mark_all, drain, expand}
use orphanode.Search.Vector.{vector_board, flag}
use orphanode.FileGraph.{FileGraph, new, add_edge, finish, reachable_from_many, reachable_from}
use orphanode.FileGraph.Edges.{add_edges, IsClosed-targets}
use orphanode.FileGraph.Components.{
  components_within, by_first, reversed, reversed_edges, included_sources,
}
use orphanode.FileGraph.Components.Partition.{components_within_lem}
use orphanode.Components.{
  finishing_order, finish_from, depth, advance, is_open, assign, gather, push_onto,
}
use orphanode.Components.Partition.{Partition}
use orphanode.Common.Kept.{keep}
use orphanode.Common.Order.{nat_ord}
use orphanode.FileGraph.Reachable.{
  Reaches, Walk, reachable_from_many_lem, reachable_from_many-finish-add_edges,
  reachable_from_many_panics,
}

-- 0 → 1 → 2 → 1 with a repeated edge, and 3 → 0 from a file that nothing imports.
abbrev edges : List (ℕ × ℕ)
edges = (0, 1) ∷ (1, 2) ∷ (0, 1) ∷ (2, 1) ∷ (3, 0) ∷ []

abbrev built : FileGraph
built = record { outgoing = (1 ∷ []) ∷ (2 ∷ []) ∷ (1 ∷ []) ∷ (0 ∷ []) ∷ [] }

build_runs : (g : FileGraph) × (add_edges (new 4) edges ≡ some g) × (finish g ≡ built)
unfolding add_edges new add_edge push_at finish sort_by dedup
build_runs = (record { outgoing = (1 ∷ 1 ∷ []) ∷ (2 ∷ []) ∷ (1 ∷ []) ∷ (0 ∷ []) ∷ [] }, refl, refl)

reachable_runs :
    (reachable_from built 0 ≡ returned (true ∷ true ∷ true ∷ false ∷ []))
    × (reachable_from_many built (3 ∷ 7 ∷ []) ≡ panicked)
unfolding reachable_from reachable_from_many mark_all mark drain expand
reachable_runs = (refl, refl)

reachable_from_many_example :
    (flags : List Bool) × (reachable_from_many built (0 ∷ []) ≡ returned flags)
    × (length flags ≡ 4)
    × ((v : ℕ) → (flag flags v ≡ true) ↔ ∥ Reaches built.outgoing (0 ∷ []) v ∥₁)
reachable_from_many_example = reachable_from_many_lem built (0 ∷ []) (omega arith) (omega arith)

reachable_from_many-finish-add_edges_example :
    (g : FileGraph) × (add_edges (new 4) edges ≡ some g)
    × (flags : List Bool) × (reachable_from_many (finish g) (1 ∷ 3 ∷ []) ≡ returned flags)
    × (length flags ≡ 4)
    × ((v : ℕ) → (flag flags v ≡ true) ↔ ∥ Walk edges (1 ∷ 3 ∷ []) v ∥₁)
reachable_from_many-finish-add_edges_example =
    reachable_from_many-finish-add_edges 4 edges (1 ∷ 3 ∷ []) (omega arith) (omega arith)

reachable_from_many_panics_example : reachable_from_many built (3 ∷ 7 ∷ []) ≡ panicked
reachable_from_many_panics_example =
    reachable_from_many_panics built (3 ∷ 7 ∷ []) 7 (Memᴰ.tail (Memᴰ.head refl)) (omega arith)

-- Files 0, 1 and 2 are included; 1 and 2 import each other.
abbrev included : List Bool
included = true ∷ true ∷ true ∷ false ∷ []

components_runs : components_within built included ≡ some ((0 ∷ []) ∷ (1 ∷ 2 ∷ []) ∷ [])
unfolding components_within finishing_order finish_from depth advance is_open reversed
    reversed_edges push_each push_at sort_by assign gather included_sources keep expand mark_all
    mark push_onto
components_runs = refl

built-IsClosed : (u v : ℕ) → Memᴰ v (row built.outgoing u) → v < 4
built-IsClosed u v m =
    All-of-Memᴰ (λ w. w < 4) (row built.outgoing u)
      (IsClosed-targets 4 built.outgoing u (omega arith)) m

components_within_example :
    (cs : List (List ℕ)) × (components_within built included ≡ some cs)
    × Partition built.outgoing included cs
    × ((c : List ℕ) → Memᴰ c cs → IsSorted c)
    × IsSortedBy by_first cs
components_within_example =
    components_within_lem built included (record { flags = refl; closed = built-IsClosed })
