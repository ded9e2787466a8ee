-- ===== src/FileGraph/Edges.antt =====
-- The edges of a graph under `add_edge` and `finish`.
use mathlib.Core.List.Memᴰ
use orphanode.Common.{
  ℕ, zero, suc, ◌<◌, ◌≡◌, refl, ◌∙◌, ◌⊎◌, inl, ◌↔◌, ⊎_elim, Option, some, List, [], ◌∷◌, map, Memᴰ,
  arith, length, get_or, All, All-intro, length-replicate, Memᴰ-cons, and_then, subst,
}
use orphanode.Common.Sorting.{
  sort, dedup, sort_by, mem-sort_by, mem-dedup, sort-IsSorted, dedup-IsIncreasing, IsIncreasing,
}
use orphanode.Common.Order.{nat_ord, leq}
use orphanode.Common.Vectors.{row, push_at_lem, row-replicate, row-map, length-map}
use orphanode.FileGraph.{Adjacency, Edge, FileGraph, new, add_edge, finish}

-- Every target is a vertex.
abbrev pub IsClosed : ℕ → Adjacency → Type 0
IsClosed n = All (All (λ v. v < n))

pub IsClosed-targets :
    (n : ℕ) (g : Adjacency) (u : ℕ) → IsClosed n g → All (λ v. v < n) (get_or g u [])
IsClosed-targets n [] u h = tt
IsClosed-targets n (ts ∷ g) zero h = h.0
IsClosed-targets n (ts ∷ g) (suc u) h = IsClosed-targets n g u h.1

-- A run of `add_edge` calls.
unfoldable pub add_edges : FileGraph → List (ℕ × ℕ) → Option FileGraph
add_edges g [] = some g
add_edges g ((u, v) ∷ es) = and_then (add_edge g u v) (λ g'. add_edges g' es)

-- Both ends of every edge are files.
abbrev pub InRange : ℕ → List (ℕ × ℕ) → Type 0
InRange n = All (λ e. (e.0 < n) × (e.1 < n))

record Adds (g : FileGraph) (from to : ℕ) (g' : FileGraph) : Type 0 where
  pub size : length g'.outgoing ≡ length g.outgoing
  pub edges : (u v : ℕ) → Edge g'.outgoing u v ↔ (Edge g.outgoing u v ⊎ (u ≡ from) × (v ≡ to))

add_edge_lem :
    (g : FileGraph) (from to : ℕ)
    → from < length g.outgoing
    → (g' : FileGraph) × (add_edge g from to ≡ some g') × Adds g from to g'
unfolding add_edge
add_edge_lem g from to h =
    let (outgoing, e, size, edges) = push_at_lem g.outgoing from to h in
    (
      record { outgoing = outgoing },
      rw (add_edge, e, and_then) refl,
      record { size = size; edges = edges },
    )

pub record Holds (g : FileGraph) (es : List (ℕ × ℕ)) (g' : FileGraph) : Type 0 where
  pub size : length g'.outgoing ≡ length g.outgoing
  pub edges : (u v : ℕ) → Edge g'.outgoing u v ↔ (Edge g.outgoing u v ⊎ Memᴰ (u, v) es)

pub add_edges_lem :
    (g : FileGraph) (es : List (ℕ × ℕ))
    → InRange (length g.outgoing) es
    → (g' : FileGraph) × (add_edges g es ≡ some g') × Holds g es g'
unfolding add_edges
add_edges_lem g [] h = (
  g,
  refl,
  record { size = refl; edges = λ u v. (inl, ⊎_elim (λ e. e) (λ m. absurd (Memᴰ.not-nil m))) },
)
add_edges_lem g ((from, to) ∷ es) h =
    let (g1, e1, a) = add_edge_lem g from to h.0.0 in
    let (g2, e2, b) = add_edges_lem g1 es (rw a.size h.1) in
    (
      g2,
      rw (e1, and_then) e2,
      record {
        size = b.size ∙ a.size;
        edges = λ u v.
            ground (arith, a.edges u v, b.edges u v, Memᴰ-cons {A = ℕ × ℕ} (u, v) (from, to) es);
      },
    )

pub Edge-new : (n u v : ℕ) → ¬ Edge (new n).outgoing u v
unfolding new
Edge-new n u v m = Memᴰ.not-nil (subst (Memᴰ v) (row-replicate n u) m)

pub length-new : (n : ℕ) → length (new n).outgoing ≡ n
unfolding new
length-new n = length-replicate n []

row-finish :
    (g : Adjacency) (u : ℕ) → row (map (λ ts. dedup (sort ts)) g) u ≡ dedup (sort (row g u))
unfolding sort_by dedup
row-finish g u = row-map (λ ts. dedup (sort ts)) g u refl

-- `finish` keeps the edges.
pub Edge-finish : (g : FileGraph) (u v : ℕ) → Edge (finish g).outgoing u v ↔ Edge g.outgoing u v
unfolding finish
Edge-finish g u v = rw (row-finish g.outgoing u) (
    ground (
      arith,
      mem-dedup v (sort (get_or g.outgoing u [])),
      mem-sort_by leq v (get_or g.outgoing u []),
    ))

pub length-finish : (g : FileGraph) → length (finish g).outgoing ≡ length g.outgoing
unfolding finish
length-finish g = length-map _ g.outgoing

-- After `finish` the targets of a file are strictly increasing: sorted, with no repeats.
pub finish-IsIncreasing : (g : FileGraph) (u : ℕ) → IsIncreasing (get_or (finish g).outgoing u [])
unfolding finish
finish-IsIncreasing g u =
    rw (row-finish g.outgoing u)
      (dedup-IsIncreasing (sort (get_or g.outgoing u [])) (sort-IsSorted (get_or g.outgoing u [])))

pub IsClosed-intro : (n : ℕ) (g : Adjacency) → ((u v : ℕ) → Edge g u v → v < n) → IsClosed n g
IsClosed-intro n [] h = tt
IsClosed-intro n (ts ∷ g) h =
    (All-intro _ ts (λ v m. h zero v m), IsClosed-intro n g (λ u v m. h (suc u) v m))
