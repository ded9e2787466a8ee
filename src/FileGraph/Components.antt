-- ===== src/FileGraph/Components.antt =====
-- crates/orphanode/src/domain/graph.rs: `components_within`, with `finishing_order` (in
-- Components.antt) and `reversed`. The components, and the vertices in each, are collected with the
-- last one first; both are sorted at the end, and no two of them are alike.
pub mod Reversed
pub mod Partition
use orphanode.Common.{
  ℕ, Bool, false, Option, some, List, [], ◌∷◌, map, get_elem?, get_or, and_then, replicate, length,
  leb,
}
use orphanode.Common.Kept.{keep}
use orphanode.Common.Loops.{flat_map, enumerate}
use orphanode.Common.Order.{nat_ord}
use orphanode.Common.Sorting.{sort, sort_by}
use orphanode.Common.Vectors.{push_each}
use orphanode.Components.{Adjacency, finishing_order, assign}
use orphanode.FileGraph.{FileGraph}

-- The pushes of `reversed`, in the order of its loops.
unfoldable pub reversed_edges : Adjacency → List (ℕ × ℕ)
reversed_edges outgoing =
    flat_map (λ (source, targets). map (λ target. (target, source)) targets) (enumerate 0 outgoing)

unfoldable pub reversed : FileGraph → Option Adjacency
reversed g =
    and_then (push_each (replicate (length g.outgoing) []) (reversed_edges g.outgoing))
      (λ rows. some (map sort rows))

-- The sources of a file that are included.
unfoldable pub included_sources : List Bool → Adjacency → ℕ → Option (List ℕ)
included_sources included rows v =
    and_then (get_elem? rows v) (λ sources. keep included (λ u. u) sources)

-- `component[0]`; no component is empty.
abbrev pub first : List ℕ → ℕ
first c = get_or c 0 0

abbrev pub by_first : List ℕ → List ℕ → Bool
by_first c d = leb (first c) (first d)

-- The assertion that the two lengths are equal, which only debug builds check, is left out.
unfoldable pub components_within : FileGraph → List Bool → Option (List (List ℕ))
components_within g included =
    let n = length g.outgoing in
    and_then (finishing_order g.outgoing included) (λ order. and_then (reversed g) (λ rows.
      and_then
        (assign n (included_sources included rows) (get_elem? included) order (replicate n false)
          [])
        (λ components. some (sort_by by_first (map sort components)))))
