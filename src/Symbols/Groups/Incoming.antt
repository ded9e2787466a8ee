-- ===== src/Symbols/Groups/Incoming.antt =====
-- What `incoming` holds: the edges between candidates, turned around.
use mathlib.Core.List.Memᴰ
use orphanode.Common.{
  ℕ, zero, suc, ◌<◌, ◌≡◌, refl, ◌∙◌, ◌↔◌, Bool, true, some, List, [], ◌∷◌, Memᴰ, arith, length, map,
  get_elem?, get_elem?-some, get_or-of-get_elem?, All, All-intro, and_then, replicate,
  length-replicate, subst, sym,
}
use orphanode.Common.Kept.{keep_lem}
use orphanode.Common.Loops.{
  flat_map, enumerate, mem-flat_map, mem-map, mem-enumerate, traverse, traverse_lem, Pointwise-left,
  Pointwise-right,
}
use orphanode.Common.Sorting.{sort, sort_by, dedup, mem-sort_by, mem-dedup}
use orphanode.Common.Order.{nat_ord, leq}
use orphanode.Common.Vectors.{row, push_each_lem, row-replicate, row-map, length-map}
use orphanode.Search.Vector.{flag}
use orphanode.Components.{Adjacency}
use orphanode.Components.Order.{Arc}
use orphanode.Symbols.Data.{SymbolEdge}
use orphanode.Symbols.Groups.{target_rows, turned, candidate_edges, incoming}

-- The flags and the rows of a graph of nodes.
pub record IsNodeGraph (n : ℕ) (outgoing : List (List SymbolEdge)) (candidate : List Bool)
    : Type 0 where
  pub size : length outgoing ≡ n
  pub flags : length candidate ≡ n
  pub closed : (i : ℕ) (e : SymbolEdge) → Memᴰ e (row outgoing i) → e.target < n

row_of-lt :
    (rows : List (List SymbolEdge)) (u : ℕ) {e : SymbolEdge} → Memᴰ e (row rows u) → u < length rows
row_of-lt [] u m = absurd (Memᴰ.not-nil m)
row_of-lt (r ∷ rows) zero m = omega arith
row_of-lt (r ∷ rows) (suc u) m = omega (arith, row_of-lt rows u m)

pub mem-target_rows :
    (outgoing : List (List SymbolEdge)) (u v : ℕ)
    → Memᴰ v (row (target_rows outgoing) u)
      ↔ ((e : SymbolEdge) × Memᴰ e (row outgoing u) × (v ≡ e.target))
mem-target_rows outgoing u v =
    rw (row-map (map (λ e. e.target)) outgoing u refl) (mem-map (λ e. e.target) v (row outgoing u))

module _ {n : ℕ} {outgoing : List (List SymbolEdge)} {candidate : List Bool}
    (graph : IsNodeGraph n outgoing candidate) where
  pub target_rows-lt : (u v : ℕ) → Memᴰ v (row (target_rows outgoing) u) → v < n
  target_rows-lt u v m =
      let (e, i, at) = (mem-target_rows outgoing u v).0 m in
      subst (λ x. x < n) (sym at) (graph.closed u e i)

  -- The pushes of one row.
  abbrev IsPushed : ℕ × List SymbolEdge → List (ℕ × ℕ) → Type 0
  IsPushed (source, edges) ps =
      (v u : ℕ)
      → Memᴰ {A = ℕ × ℕ} (v, u) ps ↔ (
          (e : SymbolEdge) × Memᴰ e edges
          × (v ≡ e.target)
          × (u ≡ source)
          × (flag candidate v ≡ true))

  candidate_edges_lem :
      (source : ℕ) (edges : List SymbolEdge)
      → get_elem? outgoing source ≡ some edges
      → (ps : List (ℕ × ℕ)) × (candidate_edges candidate (source, edges) ≡ some ps)
        × IsPushed (source, edges) ps
  unfolding candidate_edges
  candidate_edges_lem source edges at =
      let (same, _) = get_or-of-get_elem? outgoing source [] at in
      let (kept, e, all) =
        keep_lem candidate (λ (x : SymbolEdge). x.target) edges
          (All-intro _ edges (λ x m.
            omega (arith, graph.closed source x (subst (Memᴰ x) (sym same) m), graph.flags))) in
      (
        map (turned source) kept,
        rw (candidate_edges, e, and_then) refl,
        λ v u. (
          λ m.
              let (x, i, is) = (mem-map (turned source) (v, u) kept).0 m in
              let (in_edges, on) = (all x).0 i in
              let same : (v ≡ x.target) × (u ≡ source) = ground (arith, is) in
              (x, in_edges, same.0, same.1, subst (λ y. flag candidate y ≡ true) (sym same.0) on),
          λ (x, i, to, from, on). (mem-map (turned source) (v, u) kept).1 (
            x,
            (all x).1 (i, subst (λ y. flag candidate y ≡ true) to on),
            ground (arith, to, from),
          ),
        ),
      )

  -- All pushes, for any rows with the numbers of their sources.
  pushes_lem :
      (rows : List (ℕ × List SymbolEdge))
      → ((p : ℕ × List SymbolEdge)
          → Memᴰ p rows ↔ Memᴰ p (enumerate 0 outgoing) × (flag candidate p.0 ≡ true))
      → (pushes : List (List (ℕ × ℕ))) × (traverse (candidate_edges candidate) rows ≡ some pushes)
        × ((u v : ℕ)
            → Memᴰ {A = ℕ × ℕ} (v, u) (flat_map (λ p. p) pushes)
              ↔ Arc (target_rows outgoing) candidate u v)
  pushes_lem rows all =
      let (pushes, e, each) =
        traverse_lem IsPushed (candidate_edges candidate) rows (λ (source, edges) m.
          candidate_edges_lem source edges
            ((mem-enumerate source edges outgoing).0 ((all (source, edges)).0 m).0)) in
      (
        pushes,
        e,
        λ u v. (
          λ m.
              let (ps, in_pushes, in_ps) = (mem-flat_map (λ p. p) (v, u) pushes).0 m in
              let ((source, edges), in_rows, pushed) =
                Pointwise-right IsPushed rows pushes each in_pushes in
              let (x, in_edges, to, from, on) = (pushed v u).0 in_ps in
              let (listed, source_on) = (all (source, edges)).0 in_rows in
              let (same, _) =
                get_or-of-get_elem? outgoing source []
                  ((mem-enumerate source edges outgoing).0 listed) in
              let here : Memᴰ x (row outgoing u) =
                subst (λ i. Memᴰ x (row outgoing i)) (sym from)
                  (subst (Memᴰ x) (sym same) in_edges) in
              (
                subst (λ i. flag candidate i ≡ true) (sym from) source_on,
                on,
                (mem-target_rows outgoing u v).1 (x, here, to),
              ),
          λ (u_on, v_on, m).
              let (x, in_row, to) = (mem-target_rows outgoing u v).0 m in
              let listed =
                (mem-enumerate u (row outgoing u) outgoing).1
                  (get_elem?-some outgoing u [] (row_of-lt outgoing u in_row)) in
              let (ps, in_pushes, pushed) =
                Pointwise-left IsPushed rows pushes each
                  ((all (u, row outgoing u)).1 (listed, u_on)) in
              (mem-flat_map (λ p. p) (v, u) pushes).1
                (ps, in_pushes, (pushed v u).1 (x, in_row, to, refl, v_on)),
        ),
      )

  pub incoming_lem :
      (sources : Adjacency) × (incoming n outgoing candidate ≡ some sources)
      × (length sources ≡ n)
      × ((u v : ℕ) → Memᴰ u (row sources v) ↔ Arc (target_rows outgoing) candidate u v)
  unfolding incoming sort_by dedup
  incoming_lem =
      let (rows, e, all) =
        keep_lem candidate (λ (r : ℕ × List SymbolEdge). r.0) (enumerate 0 outgoing)
          (All-intro _ (enumerate 0 outgoing) (λ (i, edges) m.
            let (_, lt) =
              get_or-of-get_elem? outgoing i [] ((mem-enumerate i edges outgoing).0 m) in
            omega (arith, lt, graph.size, graph.flags))) in
      let (pushes, f, arcs) = pushes_lem rows all in
      let inside : All (λ (p : ℕ × ℕ). p.0 < length (replicate {A = List ℕ} n []))
          (flat_map (λ p. p) pushes) =
        rw (length-replicate {A = List ℕ} n []) (
          All-intro _ (flat_map (λ p. p) pushes)
            (λ (v, u) m. target_rows-lt u v ((arcs u v).0 m).2)) in
      let (pushed, g, size, at) =
        push_each_lem (replicate n []) (flat_map (λ p. p) pushes) inside in
      (
        map (λ s. dedup (sort s)) pushed,
        rw (e, and_then, f, g) refl,
        length-map (λ s. dedup (sort s)) pushed ∙ size ∙ length-replicate n [],
        λ u v. rw (row-map (λ s. dedup (sort s)) pushed v refl) (
            let before : ¬ Memᴰ u (row (replicate n []) v) =
              λ m. Memᴰ.not-nil (subst (Memᴰ u) (row-replicate n v) m) in
            ground (
              arith,
              mem-dedup u (sort (row pushed v)),
              mem-sort_by leq u (row pushed v),
              at v u,
              arcs u v,
              before,
            )),
      )
