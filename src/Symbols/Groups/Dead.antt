-- ===== src/Symbols/Groups/Dead.antt =====
-- The groups of dead symbols, in terms of the symbols.
use orphanode.Common.{
  ℕ, ◌≡◌, refl, sym, subst, ◌↔◌, Bool, true, some, List, [], Memᴰ, arith, length, get_elem?,
  get_elem?-some, get_or, and_then,
}
use orphanode.Common.Vectors.{row}
use orphanode.Facts.{UsageKind}
use orphanode.Search.Vector.{flag, flag-lt}
use orphanode.Components.Order.{Arc, Leads, stay, go}
use orphanode.Symbols.Data.{SymbolKey, SymbolEdge, SymbolAnalysisInput, DeadSymbolGroup}
use orphanode.Symbols.Graph.{number_files, symbol_edges}
use orphanode.Symbols.Graph.Numbered.{node, number_files_lem}
use orphanode.Symbols.Graph.Edges.{
  Uses, symbol_edges_sound, symbol_edges_complete, symbol_graph_lem,
}
use orphanode.Symbols.Graph.Unique.{HasDistinctIds, IsUnique, number_files-IsUnique}
use orphanode.Symbols.Analysis.Live.{node-lt, reachable_symbols_lem}
use orphanode.Symbols.Groups.{target_rows, find_dead_groups}
use orphanode.Symbols.Groups.Incoming.{IsNodeGraph, mem-target_rows}
use orphanode.Symbols.Groups.Classes.{IsGroup, dead_strongly_connected_components_lem}
use orphanode.Symbols.Groups.Candidates.{IsDead, some-same, dead_candidates_lem}

-- One dead symbol uses another.
abbrev pub DeadUse : SymbolAnalysisInput → SymbolKey → SymbolKey → Type 0
DeadUse input k l = IsDead input k × IsDead input l × ((u : UsageKind) × Uses input k l u)

-- A path of such uses.
pub data DeadPath (input : SymbolAnalysisInput) : SymbolKey → SymbolKey → Type 0 where
  end : {k : SymbolKey} → DeadPath input k k
  along : {k l m : SymbolKey} → DeadUse input k l → DeadPath input l m → DeadPath input k m

-- The group of a dead symbol: the symbols that use it and that it uses, each along dead symbols;
-- and whether they use each other in a cycle.
abbrev pub IsDeadGroup : SymbolAnalysisInput → SymbolKey → DeadSymbolGroup → Type 0
IsDeadGroup input k g =
    ((l : SymbolKey) → Memᴰ l g.members ↔ (DeadPath input k l × DeadPath input l k))
    × ((g.cyclic ≡ true) ↔ ((l : SymbolKey) × DeadUse input k l × DeadPath input l k))

module _ (input : SymbolAnalysisInput) (unique : IsUnique (number_files input.files))
    (g : List (List SymbolEdge)) (candidate : List Bool)
    (size : length g ≡ length (number_files input.files).keys)
    (rows : (i : ℕ) (e : SymbolEdge)
      → Memᴰ e (row g i)
        ↔ Memᴰ {A = ℕ × SymbolEdge} (i, e) (symbol_edges input (number_files input.files)))
    (flags : length candidate ≡ length (number_files input.files).keys)
    (dead : (i : ℕ) (k : SymbolKey)
      → get_elem? (number_files input.files).keys i ≡ some k
      → (flag candidate i ≡ true) ↔ IsDead input k) where
  abbrev KeyAt : ℕ → SymbolKey → Type 0
  KeyAt i k = get_elem? (number_files input.files).keys i ≡ some k

  node-key : (k : SymbolKey) (i : ℕ) → node (number_files input.files) k ≡ some i → KeyAt i k
  node-key = (number_files_lem input.files).1

  dead-node : (k : SymbolKey) → IsDead input k → (i : ℕ) × KeyAt i k × (flag candidate i ≡ true)
  dead-node k d =
      let (i, at) = ((number_files_lem input.files).0 k).1 d.declared in
      (i, node-key k i at, (dead i k (node-key k i at)).1 d)

  candidate-key : (i : ℕ) → flag candidate i ≡ true → (k : SymbolKey) × KeyAt i k
  candidate-key i on =
      let none_key : SymbolKey = record { file = 0; symbol = 0 } in
      (
        get_or (number_files input.files).keys i none_key,
        get_elem?-some (number_files input.files).keys i none_key
            (omega (arith, flag-lt candidate i on, flags)),
      )

  Arc-Use :
      (i j : ℕ) (k l : SymbolKey)
      → KeyAt i k
      → KeyAt j l
      → Arc (target_rows g) candidate i j
      → DeadUse input k l
  Arc-Use i j k l at_k at_l (on_i, on_j, m) =
      let (e, in_row, to) = (mem-target_rows g i j).0 m in
      let (k', l', used, from_k, to_l) =
        symbol_edges_sound input (number_files input.files) i e ((rows i e).0 in_row) in
      let same_k = some-same (node-key k' i from_k) at_k in
      let same_l =
        some-same
          (node-key l' j (subst (λ x. node (number_files input.files) l' ≡ some x) (sym to) to_l))
          at_l in
      (
        (dead i k at_k).0 on_i,
        (dead j l at_l).0 on_j,
        (
          e.target_usage,
          subst (λ x. Uses input x l e.target_usage) same_k
              (subst (λ x. Uses input k' x e.target_usage) same_l used),
        ),
      )

  Use-Arc :
      (i j : ℕ) (k l : SymbolKey)
      → KeyAt i k
      → KeyAt j l
      → DeadUse input k l
      → Arc (target_rows g) candidate i j
  Use-Arc i j k l at_k at_l (dead_k, dead_l, (u, used)) =
      let (e, to, _, m) =
        symbol_edges_complete input (number_files input.files) k l u i j used (unique i k at_k)
          (unique j l at_l) in
      (
        (dead i k at_k).1 dead_k,
        (dead j l at_l).1 dead_l,
        (mem-target_rows g i j).1 (e, (rows i e).1 m, sym to),
      )

  Leads-Path :
      (i j : ℕ) (k l : SymbolKey)
      → KeyAt i k
      → KeyAt j l
      → Leads (target_rows g) candidate i j
      → DeadPath input k l
  Leads-Path i j k l at_k at_l stay = subst (DeadPath input k) (some-same at_k at_l) end
  Leads-Path i j k l at_k at_l (go {v = w} arc path) =
      let (m, at_m) = candidate-key w arc.1 in
      along (Arc-Use i w k m at_k at_m arc) (Leads-Path w j m l at_m at_l path)

  Path-Leads :
      (i j : ℕ) (k l : SymbolKey)
      → KeyAt i k
      → KeyAt j l
      → DeadPath input k l
      → Leads (target_rows g) candidate i j
  Path-Leads i j k l at_k at_l end =
      let same : i ≡ j = some-same (unique i k at_k) (unique j k at_l) in
      subst (Leads (target_rows g) candidate i) same stay
  Path-Leads i j k l at_k at_l (along {l = m} used path) =
      let (w, at_m, on) = dead-node m used.1 in
      go (Use-Arc i w k m at_k at_m used) (Path-Leads w j m l at_m at_l path)

  path-node : (i : ℕ) (k l : SymbolKey) → KeyAt i k → DeadPath input k l → (j : ℕ) × KeyAt j l
  path-node i k l at end = (i, at)
  path-node i k l at (along {l = m} used path) =
      let (w, at_m, on) = dead-node m used.1 in path-node w m l at_m path

  IsDeadGroup-of :
      (i : ℕ) (k : SymbolKey) (group : DeadSymbolGroup)
      → KeyAt i k
      → IsGroup (number_files input.files).keys g candidate i group
      → IsDeadGroup input k group
  IsDeadGroup-of i k group at (members, cyclic) = (
    λ l. (
      λ m.
          let (j, (there, back), at_l) = (members l).0 m in
          (Leads-Path i j k l at at_l there, Leads-Path j i l k at_l at back),
      λ (there, back).
          let (j, at_l) = path-node i k l at there in
          (members l).1
            (j, (Path-Leads i j k l at at_l there, Path-Leads j i l k at_l at back), at_l),
    ),
    (
      λ h.
          let (j, arc, path) = cyclic.0 h in
          let (l, at_l) = candidate-key j arc.1 in
          (l, Arc-Use i j k l at at_l arc, Leads-Path j i l k at_l at path),
      λ (l, used, path).
          let (j, at_l, on) = dead-node l used.1 in
          cyclic.1 (j, Use-Arc i j k l at at_l used, Path-Leads j i l k at_l at path),
    ),
  )

-- Where no file declares an identifier twice, the groups of dead symbols are found without a panic:
-- every group is that of a dead symbol and every dead symbol has one. The group of a dead symbol
-- has as its members exactly the symbols that use it and that it uses, along paths through dead
-- symbols, and it is called cyclic exactly when the symbol is on a cycle of such uses.
pub find_dead_groups_lem :
    (input : SymbolAnalysisInput)
    → HasDistinctIds input.files
    → (groups : List DeadSymbolGroup) × (find_dead_groups input ≡ some groups)
      × ((g : DeadSymbolGroup)
          → Memᴰ g groups
          → (k : SymbolKey) × IsDead input k × IsDeadGroup input k g)
      × ((k : SymbolKey)
          → IsDead input k
          → (g : DeadSymbolGroup) × Memᴰ g groups × IsDeadGroup input k g)
unfolding find_dead_groups
find_dead_groups_lem input ids =
    let n = number_files input.files in
    let unique = number_files-IsUnique input.files ids in
    let (g, built, size, rows) = symbol_graph_lem input n (node-lt input []) in
    let (reachable, searched, exact) = reachable_symbols_lem input in
    let (candidate, e, flags, dead) = dead_candidates_lem input reachable exact unique in
    let graph : IsNodeGraph (length n.keys) g candidate = record {
      size = size;
      flags = flags;
      closed = λ i x m.
          let (k, l, used, from, to) = symbol_edges_sound input n i x ((rows i x).0 m) in
          node-lt input [] l x.target to;
    } in
    let (groups, f, each, all) = dead_strongly_connected_components_lem graph n.keys refl in
    (
      groups,
      rw (find_dead_groups, built, and_then, searched, e) f,
      λ group m.
          let (i, on, is) = each group m in
          let (k, at) = candidate-key input unique g candidate size rows flags dead i on in
          (
            k,
            (dead i k at).0 on,
            IsDeadGroup-of input unique g candidate size rows flags dead i k group at is,
          ),
      λ k d.
          let (i, at, on) = dead-node input unique g candidate size rows flags dead k d in
          let (group, m, is) = all i on in
          (group, m, IsDeadGroup-of input unique g candidate size rows flags dead i k group at is),
    )
