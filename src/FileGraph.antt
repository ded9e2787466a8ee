-- ===== src/FileGraph.antt =====
-- crates/orphanode/src/domain/graph.rs: the graph of files, with its breadth-first reachability.
-- A FileId is its number. An index past the end, where the program panics, is `none` or `panicked`.
pub mod Edges
pub mod Reachable
pub mod Components
mod Samples
use orphanode.Common.{
  ℕ, Bool, true, false, Option, none, some, List, [], ◌∷◌, ◌++◌, map, get_elem?, get_or, and_then,
  replicate, Memᴰ, length,
}
use orphanode.Common.Sorting.{sort, dedup}
use orphanode.Common.Order.{nat_ord}
use orphanode.Common.Vectors.{push_at}
use orphanode.Search.{Search, mark_all, Outcome, panicked, drain}
use orphanode.Search.Vector.{vector_board}

-- `outgoing[v]` is the list of the targets of v.
abbrev pub Adjacency : Type 0
Adjacency = List (List ℕ)

-- A target of `u`.
abbrev pub Edge : Adjacency → ℕ → ℕ → Type 0
Edge outgoing u v = Memᴰ v (get_or outgoing u [])

pub record FileGraph : Type 0 where
  pub outgoing : Adjacency

unfoldable pub new : ℕ → FileGraph
new file_count = record { outgoing = replicate file_count [] }

unfoldable pub add_edge : FileGraph → ℕ → ℕ → Option FileGraph
add_edge g from to =
    and_then (push_at g.outgoing from to) (λ outgoing. some (record { outgoing = outgoing }))

unfoldable pub finish : FileGraph → FileGraph
finish g = record { outgoing = map (λ targets. dedup (sort targets)) g.outgoing }

-- The loop over the roots and the loop over the queue, with a round of fuel for each file.
unfoldable pub reachable_from_many : FileGraph → List ℕ → Outcome (List Bool)
reachable_from_many g roots =
    let n = length g.outgoing in
    elim (mark_all (record { flags = replicate n false; queue = [] }) roots) [
      | none ↦ panicked
      | some s ↦ drain n (get_elem? g.outgoing) s.flags s.queue
    ]

unfoldable pub reachable_from : FileGraph → ℕ → Outcome (List Bool)
reachable_from g root = reachable_from_many g (root ∷ [])
