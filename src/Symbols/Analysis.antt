-- ===== src/Symbols/Analysis.antt =====
-- crates/orphanode/src/analysis/symbols.rs: `analyze_symbols`, without its groups of dead symbols.
pub mod Live
pub mod Report
mod Samples
use orphanode.Common.{
  ℕ, ◌+◌, Bool, true, false, not, ◌&&◌, ◌||◌, Option, none, some, List, [], ◌∷◌, map, any, and_then,
  length, get_elem?, replicate,
}
use orphanode.Common.Loops.{filter_map, enumerate, traverse}
use orphanode.Common.Maps.{get}
use orphanode.Facts.{
  FileFacts, SymbolFact, UnknownGuardFact, UnknownGuardKind, direct_eval, dynamic_scope,
  computed_common_js_export, opaque_common_js_exports, blocks_declaration_reachability, UsageKind,
  runtime, type_, DeclarationKind, catch_binding, enum_member, type_parameter, unknown,
}
use orphanode.Search.{Search, mark_all, Outcome, returned, panicked, out_of_fuel, drain}
use orphanode.Symbols.Data.{
  SymbolKey, SymbolEdge, SymbolAnalysisInput, SymbolLiveness, FileSymbolReachability, file_flag,
  declared_symbol, symbol_key_ord,
}
use orphanode.Symbols.Lanes.{Place, Lanes, lane, lane_board, all_down}
use orphanode.Symbols.Graph.{Numbering, number_files, symbol_graph}
use orphanode.Symbols.Roots.{Mark, root_marks}

-- `mark_reachable` looks the node of a key up, and ignores a key without one.
unfoldable pub place_of : Numbering → Mark → Option Place
place_of n (key, usage) = and_then (get n.node_by_key key) (λ i. some (i, usage))

abbrev pub edge_place : SymbolEdge → Place
edge_place e = (e.target, e.target_usage)

-- The targets of a node, whichever lane it was reached in.
unfoldable pub targets : List (List SymbolEdge) → Place → Option (List Place)
targets outgoing (i, usage) = and_then (get_elem? outgoing i) (λ edges. some (map edge_place edges))

-- The marking of the roots and the loop over the queue, with a round for each node in each lane.
unfoldable pub search_symbols : Numbering → List (List SymbolEdge) → List Mark → Option Lanes
search_symbols n outgoing marks =
    and_then
      (mark_all (record { flags = all_down (length n.keys); queue = [] })
        (filter_map (place_of n) marks))
      (λ s. elim (drain (length n.keys + length n.keys) (targets outgoing) s.flags s.queue) [
        | returned flags ↦ some flags
        | panicked ↦ none
        | out_of_fuel ↦ none
      ])

-- `reachable`, the flags of all nodes at the end.
unfoldable pub reachable_symbols : SymbolAnalysisInput → Option Lanes
reachable_symbols input =
    let n = number_files input.files in
    and_then (symbol_graph input n)
      (λ outgoing. and_then (root_marks input) (λ marks. search_symbols n outgoing marks))

-- `node_by_key.get(&key).map_or([false; 2], |node| reachable[*node])`
unfoldable pub symbol_state : Numbering → Lanes → SymbolKey → Option (Bool × Bool)
symbol_state n reachable key = elim (get n.node_by_key key) [
  | none ↦ some (false, false)
  | some i ↦ get_elem? reachable i
]

abbrev pub hides_exports : UnknownGuardKind → Bool
hides_exports direct_eval = false
hides_exports dynamic_scope = false
hides_exports computed_common_js_export = true
hides_exports opaque_common_js_exports = true

unfoldable pub declarations_complete : SymbolAnalysisInput → ℕ → FileFacts → Bool
declarations_complete input file facts =
    not (file_flag input.reachable_files file)
    || not (any (λ g. blocks_declaration_reachability g.kind) facts.symbol_facts.unknown_guards)

unfoldable pub exports_complete : SymbolAnalysisInput → ℕ → FileFacts → Bool
exports_complete input file facts =
    not (file_flag input.reachable_files file)
    || not (any (λ g. hides_exports g.kind) facts.symbol_facts.unknown_guards)

unfoldable pub symbol_liveness : Numbering → Lanes → ℕ → SymbolFact → Option SymbolLiveness
symbol_liveness n reachable file s =
    and_then (symbol_state n reachable (record { file = file; symbol = s.id }))
      (λ state. some (record { symbol = s.id; in_runtime = state.0; in_type = state.1 }))

unfoldable pub file_report :
    SymbolAnalysisInput → Numbering → Lanes → ℕ × FileFacts → Option FileSymbolReachability
file_report input n reachable (file, facts) =
    and_then (traverse (symbol_liveness n reachable file) facts.symbol_facts.symbols) (λ symbols.
      some (record {
        symbols = symbols;
        declarations_complete = declarations_complete input file facts;
        exports_complete = exports_complete input file facts;
      }))

-- The field `files` of the result of `analyze_symbols`.
unfoldable pub analyze_files : SymbolAnalysisInput → Option (List FileSymbolReachability)
analyze_files input = and_then (reachable_symbols input) (λ reachable.
    traverse (file_report input (number_files input.files) reachable) (enumerate 0 input.files))

abbrev pub is_bound_oddly : DeclarationKind → Bool
is_bound_oddly catch_binding = true
is_bound_oddly enum_member = true
is_bound_oddly type_parameter = true
is_bound_oddly unknown = true
is_bound_oddly _ = false

unfoldable pub is_reportable_declaration : List FileFacts → SymbolKey → Bool
is_reportable_declaration files key = elim (declared_symbol files key) [
  | none ↦ false
  | some s ↦ not s.flags.ambient && not s.flags.parameter_property && not (is_bound_oddly s.kind)
]
