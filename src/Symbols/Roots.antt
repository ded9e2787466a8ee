-- ===== src/Symbols/Roots.antt =====
-- crates/orphanode/src/analysis/symbols.rs: what `analyze_symbols` marks before it follows edges.
pub mod Marked
use orphanode.Common.{
  ℕ, Bool, true, false, not, Option, none, some, List, [], ◌∷◌, ◌++◌, map, and_then, get_elem?,
  if◌then◌else◌,
}
use orphanode.Common.Loops.{filter_map, flat_map, enumerate}
use orphanode.Facts.{
  FileFacts, SymbolReferenceFact, ExportBindingFact, SymbolNamespace, runtime_namespace,
  type_namespace, runtime_and_type, UsageKind, runtime, type_,
}
use orphanode.Search.{Outcome, returned, panicked, out_of_fuel}
use orphanode.Search.Vector.{flag}
use orphanode.Symbols.Data.{SymbolKey, SymbolRoot, SymbolAnalysisInput, file_flag, declared_symbol}
use orphanode.Symbols.Regions.{active_eager_regions}

abbrev pub Mark : Type 0
Mark = SymbolKey × UsageKind

abbrev pub explicit_mark : SymbolRoot → Mark
explicit_mark r = (r.symbol, r.usage)

-- A reference in an active region marks its target in the lane of its usage.
unfoldable pub reference_mark : List Bool → ℕ → SymbolReferenceFact → Option Mark
reference_mark active file r =
    if flag active r.region then some (record { file = file; symbol = r.target }, r.usage) else none

abbrev pub has_type_lane : SymbolNamespace → Bool
has_type_lane runtime_namespace = false
has_type_lane type_namespace = true
has_type_lane runtime_and_type = true

-- `symbol_namespace(files, key).is_some_and(|namespace| namespace != Runtime)`
unfoldable pub is_typed : List FileFacts → SymbolKey → Bool
is_typed files key = elim (declared_symbol files key) [
  | none ↦ false
  | some s ↦ has_type_lane s.symbol_namespace
]

-- The lanes of an export, by whether it is type-only and whether its symbol has a type.
abbrev pub lane_marks : SymbolKey → Bool → Bool → List Mark
lane_marks key true typed = (key, type_) ∷ []
lane_marks key false true = (key, runtime) ∷ (key, type_) ∷ []
lane_marks key false false = (key, runtime) ∷ []

-- The body of the loop over the exports of an open file.
unfoldable pub export_marks : List FileFacts → ℕ → ExportBindingFact → List Mark
export_marks files file x = elim x.local [
  | none ↦ []
  | some local ↦
      let key : SymbolKey = record { file = file; symbol = local } in
      lane_marks key x.type_only (is_typed files key)
]

unfoldable pub active_flags : FileFacts → Option (List Bool)
active_flags facts = elim (active_eager_regions facts) [
  | returned flags ↦ some flags
  | panicked ↦ none
  | out_of_fuel ↦ none
]

unfoldable pub open_marks : SymbolAnalysisInput → ℕ → FileFacts → List Mark
open_marks input file facts =
    if file_flag input.open_world_files file
    then flat_map (export_marks input.files file) facts.symbol_facts.exports
    else []

-- The body of the loop over the files.
unfoldable pub file_marks : SymbolAnalysisInput → ℕ × FileFacts → Option (List Mark)
file_marks input (file, facts) =
    if not (file_flag input.reachable_files file)
    then some []
    else and_then (active_flags facts) (λ active. some (
        filter_map (reference_mark active file) facts.symbol_facts.references
        ++ open_marks input file facts))

unfoldable pub each_file_marks : SymbolAnalysisInput → List (ℕ × FileFacts) → Option (List Mark)
each_file_marks input [] = some []
each_file_marks input (f ∷ files) =
    and_then (file_marks input f)
      (λ marks. and_then (each_file_marks input files) (λ more. some (marks ++ more)))

-- All marks, in the order of the loops.
unfoldable pub root_marks : SymbolAnalysisInput → Option (List Mark)
root_marks input =
    and_then (each_file_marks input (enumerate 0 input.files))
      (λ marks. some (map explicit_mark input.explicit_roots ++ marks))
