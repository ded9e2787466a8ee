-- ===== src/FileGraph/Components/Reversed.antt =====
-- What `reversed` and the filter of the included sources return.
use mathlib.Core.List.Memᴰ
use orphanode.Common.{
  ℕ, zero, suc, ◌<◌, ◌≡◌, refl, ◌∙◌, ◌↔◌, some, List, [], ◌∷◌, Memᴰ, arith, length, map,
  get_elem?-some, get_or-of-get_elem?, All, All-intro, and_then, replicate, length-replicate, subst,
  sym,
}
use orphanode.Common.Loops.{enumerate, mem-flat_map, mem-map, mem-enumerate}
use orphanode.Common.Sorting.{sort, sort_by, mem-sort_by}
use orphanode.Common.Order.{nat_ord, leq}
use orphanode.Common.Vectors.{row, push_each_lem, row-replicate, row-map, length-map}
use orphanode.FileGraph.{Adjacency, FileGraph}
use orphanode.FileGraph.Components.{reversed_edges, reversed}

pub row-lt : (rows : Adjacency) (u v : ℕ) → Memᴰ v (row rows u) → u < length rows
row-lt [] u v m = absurd (Memᴰ.not-nil m)
row-lt (r ∷ rows) zero v m = omega arith
row-lt (r ∷ rows) (suc u) v m = omega (arith, row-lt rows u v m)

row-edge :
    (outgoing : Adjacency) (source : ℕ) (targets : List ℕ) {target u v : ℕ}
    → Memᴰ target targets
    → ◌≡◌ {A = ℕ × ℕ} (v, u) (target, source)
    → row outgoing source ≡ targets
    → Memᴰ v (row outgoing u)
row-edge outgoing source targets {target} {u} {v} in_row at got =
    let same : (v ≡ target) × (u ≡ source) = ground (arith, at) in
    subst (λ s. Memᴰ v (row outgoing s)) (sym same.1)
      (subst (Memᴰ v) (sym got) (subst (λ t. Memᴰ t targets) (sym same.0) in_row))

mem-reversed_edges :
    (outgoing : Adjacency) (u v : ℕ)
    → Memᴰ {A = ℕ × ℕ} (v, u) (reversed_edges outgoing) ↔ Memᴰ v (row outgoing u)
unfolding reversed_edges
mem-reversed_edges outgoing u v =
    let step = λ (x : ℕ × List ℕ). map (λ target. (target, x.0)) x.1 in
    (
      λ m.
          let ((source, targets), i, e) = (mem-flat_map step (v, u) (enumerate 0 outgoing)).0 m in
          let (target, in_row, at) = (mem-map (λ target. (target, source)) (v, u) targets).0 e in
          let got =
            get_or-of-get_elem? outgoing source [] ((mem-enumerate source targets outgoing).0 i) in
          row-edge outgoing source targets in_row at got.0,
      λ m.
          let lt = row-lt outgoing u v m in
          (mem-flat_map step (v, u) (enumerate 0 outgoing)).1 (
            (u, row outgoing u),
            (mem-enumerate u (row outgoing u) outgoing).1 (get_elem?-some outgoing u [] lt),
            (mem-map (λ target. (target, u)) (v, u) (row outgoing u)).1 (v, m, refl),
          ),
    )

-- `reversed` does not panic where the targets are files.
pub reversed_lem :
    (g : FileGraph)
    → ((u v : ℕ) → Memᴰ v (row g.outgoing u) → v < length g.outgoing)
    → (rows : Adjacency) × (reversed g ≡ some rows)
      × (length rows ≡ length g.outgoing)
      × ((u v : ℕ) → Memᴰ u (row rows v) ↔ Memᴰ v (row g.outgoing u))
unfolding reversed sort_by
reversed_lem g closed =
    let n = length g.outgoing in
    let inside : All (λ (p : ℕ × ℕ). p.0 < length (replicate {A = List ℕ} n []))
        (reversed_edges g.outgoing) =
      rw (length-replicate {A = List ℕ} n []) (
        All-intro _ (reversed_edges g.outgoing)
          (λ (v, u) m. closed u v ((mem-reversed_edges g.outgoing u v).0 m))) in
    let (rows, e, size, at) = push_each_lem (replicate n []) (reversed_edges g.outgoing) inside in
    (
      map sort rows,
      rw (e, and_then) refl,
      length-map sort rows ∙ size ∙ length-replicate n [],
      λ u v. rw (row-map sort rows v refl) (
          ground (
            arith,
            mem-sort_by leq u (row rows v),
            at v u,
            mem-reversed_edges g.outgoing u v,
            λ (m : Memᴰ u (row (replicate n []) v)).
                Memᴰ.not-nil (subst (Memᴰ u) (row-replicate n v) m),
          )),
    )
