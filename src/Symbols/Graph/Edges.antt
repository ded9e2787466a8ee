-- ===== src/Symbols/Graph/Edges.antt =====
-- The edges between the nodes are the uses between the declared symbols.
use mathlib.Core.List.Memᴰ
use orphanode.Common.{
  ℕ, ◌<◌, ◌≡◌, refl, sym, subst, ◌∙◌, ◌⊎◌, inl, inr, ◌↔◌, some, List, [], map, Memᴰ, arith, length,
  get_elem?, replicate, and_then, All-intro, length-replicate,
}
use orphanode.Common.Loops.{
  filter_map, flat_map, enumerate, mem-flat_map, mem-filter_map, mem-enumerate,
}
use orphanode.Common.Order.{leq}
use orphanode.Common.Sorting.{sort, sort_by, dedup, mem-sort_by, mem-dedup}
use orphanode.Common.Vectors.{row, push_each_lem, row-replicate, row-map, length-map}
use orphanode.Facts.{
  FileFacts, SymbolReferenceFact, ReferenceOwner, region_owner, symbol_owner, UsageKind,
  SemanticSymbolId,
}
use orphanode.Symbols.Data.{
  SymbolKey, ResolvedSymbolLink, SymbolEdge, SymbolAnalysisInput, edge_ord, symbol_key_ord,
}
use orphanode.Symbols.Graph.{
  Numbering, edge_between, reference_edge, link_edge, symbol_edges, symbol_graph,
}
use orphanode.Symbols.Graph.Numbered.{node}

-- One symbol uses another, in the lane of the usage: a reference that a symbol of the same file
-- owns, or a resolved link.
pub data Uses (input : SymbolAnalysisInput) : SymbolKey → SymbolKey → UsageKind → Type 0 where
  by_reference :
      (file : ℕ) (facts : FileFacts) (r : SymbolReferenceFact) (source : SemanticSymbolId)
      → get_elem? input.files file ≡ some facts
      → Memᴰ r facts.symbol_facts.references
      → r.owner ≡ symbol_owner source
      → Uses input
          (record { file = file; symbol = source })
          (record { file = file; symbol = r.target })
          r.usage
  by_link :
      (l : ResolvedSymbolLink) → Memᴰ l input.links → Uses input l.source l.target l.target_usage

edge_between-some :
    (n : Numbering) (k : SymbolKey) (u : UsageKind) (k' : SymbolKey) (u' : UsageKind) (i : ℕ)
    (e : SymbolEdge)
    → edge_between n k u k' u' ≡ some (i, e)
    → (node n k ≡ some i) × (node n k' ≡ some e.target) × (e.target_usage ≡ u')
unfolding edge_between
edge_between-some n k u k' u' i e h = ground arith

edge_between-nodes :
    (n : Numbering) (k : SymbolKey) (u : UsageKind) (k' : SymbolKey) (u' : UsageKind) (i j : ℕ)
    → node n k ≡ some i
    → node n k' ≡ some j
    → edge_between n k u k' u'
      ≡ some (i, record { source_usage = u; target = j; target_usage = u' })
unfolding edge_between
edge_between-nodes n k u k' u' i j h h' = rw (edge_between, h, h', and_then) refl

owner-cases :
    (o : ReferenceOwner)
    → ((s : SemanticSymbolId) × (o ≡ symbol_owner s)) ⊎ ((r : ℕ) × (o ≡ region_owner r))
owner-cases (region_owner r) = inr (r, refl)
owner-cases (symbol_owner s) = inl (s, refl)

reference_edge-some :
    (n : Numbering) (file : ℕ) (r : SymbolReferenceFact) (i : ℕ) (e : SymbolEdge)
    → reference_edge n file r ≡ some (i, e)
    → (source : SemanticSymbolId) × (r.owner ≡ symbol_owner source)
      × (edge_between n
            (record { file = file; symbol = source })
            r.usage
            (record { file = file; symbol = r.target })
            r.usage
          ≡ some (i, e))
unfolding reference_edge
reference_edge-some n file r i e h = elim (owner-cases r.owner) [
  | inl (s, at) ↦ (s, at, ground (arith, h, at))
  | inr (region, at) ↦ absurd (ground (arith, h, at))
]

reference_edge-owned :
    (n : Numbering) (file : ℕ) (r : SymbolReferenceFact) (source : SemanticSymbolId)
    → r.owner ≡ symbol_owner source
    → reference_edge n file r
      ≡ edge_between n
          (record { file = file; symbol = source })
          r.usage
          (record { file = file; symbol = r.target })
          r.usage
unfolding reference_edge
reference_edge-owned n file r source at = ground (arith, at)

module _ (input : SymbolAnalysisInput) (n : Numbering) where
  abbrev of_file : ℕ × FileFacts → List (ℕ × SymbolEdge)
  of_file (file, facts) = filter_map (reference_edge n file) facts.symbol_facts.references

  -- Every pushed edge stands for a use, and every use between nodes is pushed.
  pub symbol_edges_sound :
      (i : ℕ) (e : SymbolEdge)
      → Memᴰ {A = ℕ × SymbolEdge} (i, e) (symbol_edges input n)
      → (k : SymbolKey) × (k' : SymbolKey) × Uses input k k' e.target_usage
        × (node n k ≡ some i)
        × (node n k' ≡ some e.target)
  unfolding symbol_edges link_edge
  symbol_edges_sound i e m =
      elim (Memᴰ.append_cases (flat_map of_file (enumerate 0 input.files)) m) [
        | inl here ↦
            let ((file, facts), inside, at) =
              (mem-flat_map of_file (i, e) (enumerate 0 input.files)).0 here in
            let (r, is, made) =
              (mem-filter_map (reference_edge n file) (i, e) facts.symbol_facts.references).0 at in
            let (source, owner, between) = reference_edge-some n file r i e made in
            let (from, to, usage) = edge_between-some n _ _ _ _ i e between in
            (
              record { file = file; symbol = source },
              record { file = file; symbol = r.target },
              subst (Uses input _ _) (sym usage) (
                  by_reference file facts r source ((mem-enumerate file facts input.files).0 inside)
                    is owner),
              from,
              to,
            )
        | inr later ↦
            let (l, is, made) = (mem-filter_map (link_edge n) (i, e) input.links).0 later in
            let (from, to, usage) = edge_between-some n _ _ _ _ i e made in
            (l.source, l.target, subst (Uses input _ _) (sym usage) (by_link l is), from, to)
      ]

  pub symbol_edges_complete :
      (k k' : SymbolKey) (u : UsageKind) (i j : ℕ)
      → Uses input k k' u
      → node n k ≡ some i
      → node n k' ≡ some j
      → (e : SymbolEdge) × (e.target ≡ j)
        × (e.target_usage ≡ u)
        × Memᴰ {A = ℕ × SymbolEdge} (i, e) (symbol_edges input n)
  unfolding symbol_edges link_edge
  symbol_edges_complete k k' u i j (by_reference file facts r source at m owner) from to = (
    record { source_usage = r.usage; target = j; target_usage = r.usage },
    refl,
    refl,
    Memᴰ.append_left _ (
        (mem-flat_map of_file _ (enumerate 0 input.files)).1 (
          (file, facts),
          (mem-enumerate file facts input.files).1 at,
          (mem-filter_map (reference_edge n file) _ facts.symbol_facts.references).1 (
            r,
            m,
            reference_edge-owned n file r source owner ∙ edge_between-nodes n _ _ _ _ i j from to,
          ),
        )),
  )
  symbol_edges_complete k k' u i j (by_link l m) from to = (
    record { source_usage = l.source_usage; target = j; target_usage = l.target_usage },
    refl,
    refl,
    Memᴰ.append_right (flat_map of_file (enumerate 0 input.files)) (
        (mem-filter_map (link_edge n) _ input.links).1
          (l, m, edge_between-nodes n _ _ _ _ i j from to)),
  )

  -- The graph is built without a panic; its rows hold the pushed edges.
  pub symbol_graph_lem :
      ((k : SymbolKey) (i : ℕ) → node n k ≡ some i → i < length n.keys)
      → (g : List (List SymbolEdge)) × (symbol_graph input n ≡ some g)
        × (length g ≡ length n.keys)
        × ((i : ℕ) (e : SymbolEdge)
            → Memᴰ e (row g i) ↔ Memᴰ {A = ℕ × SymbolEdge} (i, e) (symbol_edges input n))
  unfolding symbol_graph sort_by dedup
  symbol_graph_lem inside =
      let size = length-replicate {A = List SymbolEdge} (length n.keys) [] in
      let (xs, e, len, rows) = push_each_lem (replicate (length n.keys) []) (symbol_edges input n) (
        All-intro (λ p. p.0 < length (replicate {A = List SymbolEdge} (length n.keys) []))
          (symbol_edges input n)
          (λ (i, x) m.
            let (k, k', used, from, to) = symbol_edges_sound i x m in
            omega (arith, size, inside k i from))) in
      (
        map (λ edges. dedup (sort edges)) xs,
        rw (symbol_graph, e, and_then) refl,
        length-map (λ edges. dedup (sort edges)) xs ∙ len ∙ size,
        λ i x. rw (row-map (λ edges. dedup (sort edges)) xs i refl) (
            let before : ¬ Memᴰ x (row (replicate (length n.keys) []) i) =
              λ m. Memᴰ.not-nil (subst (Memᴰ x) (row-replicate (length n.keys) i) m) in
            ground (
              arith,
              mem-dedup x (sort (row xs i)),
              mem-sort_by leq x (row xs i),
              rows i x,
              before,
            )),
      )
