-- ===== src/Symbols/Analysis/Live.antt =====
-- What `analyze_symbols` reports as live.
use mathlib.Core.Logic.{∥∥₁_map}
use orphanode.Common.{
  ℕ, ◌+◌, ◌<◌, ◌≡◌, refl, subst, ◌↔◌, Bool, true, false, some, List, [], map, Memᴰ, arith, length,
  and_then, All, All-intro, All-of-Memᴰ, get_elem?-some, get_or-of-get_elem?, length-replicate,
}
use orphanode.Common.Loops.{filter_map, mem-filter_map, mem-map}
use orphanode.Common.Vectors.{row}
use orphanode.Facts.{UsageKind}
use orphanode.Search.{Reach, root, step}
use orphanode.Search.Step.{up, IsIn, mark_all_lem}
use orphanode.Search.Loop.{Net, Inv-start, drain_lem}
use orphanode.Symbols.Data.{SymbolKey, SymbolEdge, SymbolAnalysisInput, symbol_key_ord}
use orphanode.Symbols.Lanes.{
  Place, Lanes, lane_board, all_down, up-all_down, down-all_down, IsIn-all_down,
}
use orphanode.Symbols.Graph.{Numbering, number_files, symbol_edges}
use orphanode.Symbols.Graph.Numbered.{node, IsDeclared, number_files_lem}
use orphanode.Symbols.Graph.Edges.{
  Uses, symbol_edges_sound, symbol_edges_complete, symbol_graph_lem,
}
use orphanode.Symbols.Roots.{Mark}
use orphanode.Symbols.Roots.Marked.{Rooted, root_marks_lem}
use orphanode.Symbols.Analysis.{place_of, edge_place, targets, search_symbols, reachable_symbols}

-- A declared symbol is live in a lane if it is a root there, or if a live symbol, whatever its
-- lane, uses it there.
pub data Live (input : SymbolAnalysisInput) : SymbolKey → UsageKind → Type 0 where
  rooted :
      {k : SymbolKey} {u : UsageKind} → Rooted input k u → IsDeclared input.files k → Live input k u
  used :
      {k k' : SymbolKey} {u u' : UsageKind}
      → Live input k u
      → Uses input k k' u'
      → IsDeclared input.files k'
      → Live input k' u'

Live-IsDeclared :
    {input : SymbolAnalysisInput} {k : SymbolKey} {u : UsageKind}
    → Live input k u
    → IsDeclared input.files k
Live-IsDeclared (rooted r d) = d
Live-IsDeclared (used l s d) = d

module _ (input : SymbolAnalysisInput) (g : List (List SymbolEdge)) where
  abbrev numbering : Numbering
  numbering = number_files input.files

  abbrev IsGraph : Type 0
  IsGraph =
      (length g ≡ length numbering.keys)
      × ((i : ℕ) (e : SymbolEdge)
          → Memᴰ e (row g i) ↔ Memᴰ {A = ℕ × SymbolEdge} (i, e) (symbol_edges input numbering))

  pub node-lt : (k : SymbolKey) (i : ℕ) → node numbering k ≡ some i → i < length numbering.keys
  node-lt k i h =
      (get_or-of-get_elem? numbering.keys i k ((number_files_lem input.files).1 k i h)).1

  node_unique :
      (k k' : SymbolKey) (i : ℕ) → node numbering k ≡ some i → node numbering k' ≡ some i → k ≡ k'
  node_unique k k' i h h' =
      ground
        (arith, (number_files_lem input.files).1 k i h, (number_files_lem input.files).1 k' i h')

  abbrev next : Place → List Place
  next (i, u) = map edge_place (row g i)

  targets-next : (p : Place) → p.0 < length g → targets g p ≡ some (next p)
  unfolding targets
  targets-next (i, u) h = rw (targets, get_elem?-some g i [] h, and_then) refl

  -- An edge from a node leads to another node.
  edge-lt : IsGraph → (i : ℕ) (e : SymbolEdge) → Memᴰ e (row g i) → e.target < length g
  edge-lt is i e m =
      let (k, k', s, from, to) = symbol_edges_sound input numbering i e ((is.1 i e).0 m) in
      omega (arith, is.0, node-lt k' e.target to)

  next-lt : IsGraph → (p q : Place) → Memᴰ q (next p) → q.0 < length g
  next-lt is (i, u) q m =
      let (e, inside, same) = (mem-map edge_place q (row g i)).0 m in
      let lt = edge-lt is i e inside in rw same lt

  abbrev net : IsGraph → Net (targets g) next
  net is = record {
    IsVertex = λ p. p.0 < length g;
    found = targets-next;
    closed = λ p q h m. next-lt is p q m;
  }

  abbrev places : List Mark → List Place
  places marks = filter_map (place_of numbering) marks

  mem-places :
      (marks : List Mark) (i : ℕ) (u : UsageKind)
      → Memᴰ {A = Place} (i, u) (places marks)
        ↔ ((k : SymbolKey) × Memᴰ {A = Mark} (k, u) marks × (node numbering k ≡ some i))
  unfolding place_of
  mem-places marks i u = (
    λ m.
        let ((k, w), is, e) = (mem-filter_map (place_of numbering) (i, u) marks).0 m in
        let same : (node numbering k ≡ some i) × (w ≡ u) = ground (arith, e) in
        (k, subst (λ z. Memᴰ {A = Mark} (k, z) marks) same.1 is, same.0),
    λ (k, m, e).
        (mem-filter_map (place_of numbering) (i, u) marks).1
          ((k, u), m, rw (place_of, e, and_then) refl),
  )

  module _ (is : IsGraph) (marks : List Mark)
      (exact : (k : SymbolKey) (u : UsageKind)
        → Memᴰ {A = Mark} (k, u) marks ↔ Rooted input k u) where
    Reach-Live :
        {p : Place}
        → Reach next (places marks) p
        → (k : SymbolKey) × (node numbering k ≡ some p.0) × Live input k p.1
    Reach-Live (root {v} m) =
        let (k, inside, e) = (mem-places marks v.0 v.1).0 m in
        (k, e, rooted ((exact k v.1).0 inside) (((number_files_lem input.files).0 k).0 (v.0, e)))
    Reach-Live (step {u = p} {v = q} r m) =
        let (k, at, live) = Reach-Live r in
        let (e, inside, same) = (mem-map edge_place q (row g p.0)).0 m in
        let (k1, k2, uses, from, to) =
          symbol_edges_sound input numbering p.0 e ((is.1 p.0 e).0 inside) in
        let there = ((number_files_lem input.files).0 k2).0 (e.target, to) in
        rw same (
          k2,
          to,
          used (subst (λ x. Live input x p.1) (node_unique k k1 p.0 at from) live) uses there,
        )

    Live-Reach :
        {k : SymbolKey} {u : UsageKind} (i : ℕ)
        → Live input k u
        → node numbering k ≡ some i
        → Reach next (places marks) (i, u)
    Live-Reach {k} {u} i (rooted r d) at = root ((mem-places marks i u).1 (k, (exact k u).1 r, at))
    Live-Reach {k = k'} {u = u'} j (used {k} {u = u} l s d) at =
        let (i, from) = ((number_files_lem input.files).0 k).1 (Live-IsDeclared l) in
        let (e, target, usage, pushed) =
          symbol_edges_complete input numbering k k' u' i j s from at in
        step (Live-Reach i l from) (
          (mem-map edge_place (j, u') (row g i)).1
            (e, (is.1 i e).1 pushed, ground (arith, target, usage)))

-- A place is live if it is the node of a key that is live in its lane.
abbrev pub IsExact : SymbolAnalysisInput → Lanes → Type 0
IsExact input reachable =
    (k : SymbolKey) (u : UsageKind) (i : ℕ)
    → node (number_files input.files) k ≡ some i
    → (i < length reachable) × ((up {V = Place} reachable (i, u) ≡ true) ↔ ∥ Live input k u ∥₁)

-- The search ends without a panic, and flags the nodes of the live symbols.
pub reachable_symbols_lem :
    (input : SymbolAnalysisInput)
    → (reachable : Lanes) × (reachable_symbols input ≡ some reachable) × IsExact input reachable
unfolding reachable_symbols search_symbols
reachable_symbols_lem input =
    let n = number_files input.files in
    let (g, built, len, rows) = symbol_graph_lem input n (node-lt input []) in
    let is : IsGraph input g = (len, rows) in
    let (marks, marked, exact) = root_marks_lem input in
    let total = length n.keys in
    let blank = all_down total in
    let inside : (p : Place) → p.0 < length g → IsIn blank p =
      λ p h. IsIn-all_down total p.0 p.1 (omega (arith, h, is.0)) in
    let vertices : All (λ (p : Place). p.0 < length g) (places input g marks) =
      All-intro _ _ (λ p m.
        let (k, at, e) = (mem-places input g marks p.0 p.1).0 m in
        omega (arith, is.0, node-lt input g k p.0 e)) in
    let (s, e, m) =
      mark_all_lem (record { flags = blank; queue = [] }) (places input g marks)
        (All-intro _ _
          (λ p i. inside p (All-of-Memᴰ (λ (q : Place). q.0 < length g) _ vertices i))) in
    let start =
      Inv-start (net input g is) (places input g marks) blank s inside (up-all_down total) vertices
        m in
    let (flags, ends, size, found) =
      drain_lem (net input g is) (places input g marks) (total + total) s.flags s.queue
        (omega (arith, m.work, down-all_down total)) start in
    (
      flags,
      rw (reachable_symbols, built, marked, search_symbols, e, ends, and_then) refl,
      λ k u i at. (
        omega (
          arith,
          size,
          m.size,
          length-replicate {A = Bool × Bool} total (false, false),
          node-lt input g k i at,
        ),
        (
          λ f. ∥∥₁_map ((found (i, u)).0 f) (λ r.
              let (k', at', live) = Reach-Live input g is marks exact r in
              subst (λ x. Live input x u) (node_unique input g k' k i at' at) live),
          λ l. (found (i, u)).1 (∥∥₁_map l (λ live. Live-Reach input g is marks exact i live at)),
        ),
      ),
    )
