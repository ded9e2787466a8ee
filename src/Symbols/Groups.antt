-- ===== src/Symbols/Groups.antt =====
-- crates/orphanode/src/analysis/symbols.rs: the dead symbols, and the groups of those that use each
-- other. The depth-first searches are those of Components.antt.
pub mod Incoming
pub mod Classes
pub mod Candidates
pub mod Dead
pub mod Result
use orphanode.Common.{
  ℕ, Bool, true, false, not, ◌&&◌, Option, none, some, List, [], ◌∷◌, map, any, and_then, length,
  get_elem?, get_or, replicate, ltb, ◌==◌, if◌then◌else◌,
}
use orphanode.Common.Kept.{keep}
use orphanode.Common.Loops.{flat_map, enumerate, traverse}
use orphanode.Common.Order.{nat_ord, leq, same}
use orphanode.Common.Sorting.{sort, sort_by, dedup}
use orphanode.Common.Vectors.{push_each}
use orphanode.Components.{Adjacency, finishing_order, assign}
use orphanode.Symbols.Data.{
  SymbolKey, SymbolEdge, SymbolAnalysisInput, FileSymbolReachability, DeadSymbolGroup,
  SymbolLiveness, file_flag, symbol_key_ord,
}
use orphanode.Symbols.Lanes.{Lanes}
use orphanode.Symbols.Graph.{Numbering, number_files, symbol_graph}
use orphanode.Symbols.Analysis.{
  reachable_symbols, declarations_complete, is_reportable_declaration, analyze_files,
}

-- The flag of one node in `dead_candidates`.
unfoldable pub dead_candidate : SymbolAnalysisInput → Lanes → ℕ × SymbolKey → Option Bool
dead_candidate input reachable (node, key) = elim (file_flag input.reachable_files key.file) [
  | false ↦ some false
  | true ↦ and_then (get_elem? input.files key.file) (λ facts.
      elim (declarations_complete input key.file facts) [
        | false ↦ some false
        | true ↦ and_then (get_elem? reachable node) (λ state.
            some (not state.0 && not state.1 && is_reportable_declaration input.files key))
      ])
]

unfoldable pub dead_candidates : SymbolAnalysisInput → Numbering → Lanes → Option (List Bool)
dead_candidates input n reachable = traverse (dead_candidate input reachable) (enumerate 0 n.keys)

abbrev pub target_rows : List (List SymbolEdge) → Adjacency
target_rows outgoing = map (map (λ e. e.target)) outgoing

-- `incoming[edge.target].push(source)`
abbrev pub turned : ℕ → SymbolEdge → ℕ × ℕ
turned source e = (e.target, source)

-- The pushes for one source that is a candidate.
unfoldable pub candidate_edges : List Bool → ℕ × List SymbolEdge → Option (List (ℕ × ℕ))
candidate_edges candidate (source, edges) =
    and_then (keep candidate (λ e. e.target) edges) (λ kept. some (map (turned source) kept))

-- `incoming`, its rows sorted and without repeats.
unfoldable pub incoming : ℕ → List (List SymbolEdge) → List Bool → Option Adjacency
incoming n outgoing candidate = and_then (keep candidate (λ r. r.0) (enumerate 0 outgoing)) (λ rows.
    and_then (traverse (candidate_edges candidate) rows) (λ pushes.
      and_then (push_each (replicate n []) (flat_map (λ p. p) pushes))
        (λ sources. some (map (λ s. dedup (sort s)) sources))))

-- `keys[node]`, for the comparison of two nodes; every node has a key.
abbrev pub key_of : List SymbolKey → ℕ → SymbolKey
key_of keys i = get_or keys i (record { file = 0; symbol = 0 })

abbrev pub by_key : List SymbolKey → ℕ → ℕ → Bool
by_key keys i j = leq (key_of keys i) (key_of keys j)

unfoldable pub is_cyclic : List (List SymbolEdge) → List ℕ → ℕ → Option Bool
is_cyclic outgoing component head = elim (ltb 1 (length component)) [
  | true ↦ some true
  | false ↦ and_then (get_elem? outgoing head) (λ edges. some (any (λ e. e.target == head) edges))
]

-- The group of a component.
unfoldable pub dead_group :
    List SymbolKey → List (List SymbolEdge) → List ℕ → Option DeadSymbolGroup
dead_group keys outgoing component =
    let sorted = sort_by (by_key keys) component in
    and_then (get_elem? sorted 0) (λ head. and_then (is_cyclic outgoing sorted head) (λ cyclic.
      and_then (traverse (get_elem? keys) sorted)
        (λ members. some (record { members = members; cyclic = cyclic }))))

-- The order of vectors of keys.
abbrev pub members_leq : List SymbolKey → List SymbolKey → Bool
members_leq [] ys = true
members_leq (x ∷ xs) [] = false
members_leq (x ∷ xs) (y ∷ ys) = if same x y then members_leq xs ys else leq x y

abbrev pub by_members : DeadSymbolGroup → DeadSymbolGroup → Bool
by_members g h = members_leq g.members h.members

unfoldable pub dead_strongly_connected_components :
    List SymbolKey → List (List SymbolEdge) → List Bool → Option (List DeadSymbolGroup)
dead_strongly_connected_components keys outgoing candidate =
    let n = length keys in
    and_then (finishing_order (target_rows outgoing) candidate) (λ order.
      and_then (incoming n outgoing candidate) (λ sources.
        and_then (assign n (get_elem? sources) (λ _. some true) order (replicate n false) [])
          (λ components.
            and_then (traverse (dead_group keys outgoing) components)
              (λ groups. some (sort_by by_members groups)))))

-- `dead_groups` in `analyze_symbols`.
unfoldable pub find_dead_groups : SymbolAnalysisInput → Option (List DeadSymbolGroup)
find_dead_groups input =
    let n = number_files input.files in
    and_then (symbol_graph input n) (λ outgoing. and_then (reachable_symbols input) (λ reachable.
      and_then (dead_candidates input n reachable)
        (λ candidate. dead_strongly_connected_components n.keys outgoing candidate)))

pub record SymbolAnalysisResult : Type 0 where
  pub files : List FileSymbolReachability
  pub dead_groups : List DeadSymbolGroup

unfoldable pub analyze_symbols : SymbolAnalysisInput → Option SymbolAnalysisResult
analyze_symbols input = and_then (analyze_files input) (λ files.
    and_then (find_dead_groups input)
      (λ groups. some (record { files = files; dead_groups = groups })))

-- `symbols.iter().find(|state| state.symbol == key.symbol)`
unfoldable pub find_liveness : ℕ → List SymbolLiveness → Option SymbolLiveness
find_liveness id [] = none
find_liveness id (l ∷ symbols) = elim (same l.symbol id) [
  | true ↦ some l
  | false ↦ find_liveness id symbols
]

unfoldable pub liveness : SymbolAnalysisResult → SymbolKey → Option SymbolLiveness
liveness r key =
    and_then (get_elem? r.files key.file) (λ report. find_liveness key.symbol report.symbols)
