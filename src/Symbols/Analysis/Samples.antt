-- ===== src/Symbols/Analysis/Samples.antt =====
-- Two files, with a symbol that is used across them and two that only use each other.
use mathlib.Core.List.Memᴰ
use orphanode.Common.{
  ℕ, Bool, true, false, not, Option, none, some, List, [], ◌∷◌, ◌≡◌, ◌↔◌, refl, inl, inr, all, ◌==◌,
  Memᴰ, arith,
}
use orphanode.Common.Kept.{keep}
use orphanode.Components.{
  finishing_order, finish_from, depth, advance, is_open, assign, gather, push_onto,
}
use orphanode.Symbols.Graph.Unique.{HasDistinctIds}
use orphanode.Symbols.Groups.{
  dead_candidate, dead_candidates, candidate_edges, incoming, is_cyclic, dead_group,
  dead_strongly_connected_components, find_dead_groups, SymbolAnalysisResult, analyze_symbols,
  liveness,
}
use orphanode.Symbols.Groups.Candidates.{IsDead}
use orphanode.Symbols.Analysis.Live.{Live}
use orphanode.Symbols.Graph.Numbered.{IsDeclared}
use orphanode.Symbols.Groups.Result.{liveness-analyze_symbols}
use orphanode.Symbols.Groups.Dead.{IsDeadGroup, find_dead_groups_lem}
use orphanode.Common.Loops.{traverse, enumerate, Pointwise}
use orphanode.Common.Sorting.{sort_by, dedup}
use orphanode.Common.Text.{text}
use orphanode.Common.Vectors.{push_at, push_each}
use orphanode.Facts
use orphanode.Facts.{
  FileFacts, SymbolFact, SymbolReferenceFact, ExecutionRegionFact, ExportBindingFact,
  UnknownGuardFact, SourceSpan, ReferenceOwner, region_owner, symbol_owner, UsageKind, runtime,
  type_, function, type_alias, runtime_namespace, type_namespace, runtime_and_type, module_body,
  function_body, local_export, direct_eval, DeclarationKind, SymbolNamespace,
  blocks_declaration_reachability,
}
use orphanode.Search.{mark, mark_all, expand, drain, returned}
use orphanode.Search.Vector.{flag}
use orphanode.Symbols.Analysis.Report.{IsReport, analyze_files_lem}
use orphanode.Symbols.Data.{
  SymbolKey, DeadSymbolGroup, SymbolAnalysisInput, FileSymbolReachability, SymbolLiveness,
  file_flag, find_symbol, declared_symbol,
}
use orphanode.Symbols.Regions.{
  last_region, region_count, push_child, eager_children, active_eager_regions, Active,
  active_eager_regions_lem,
}
use orphanode.Symbols.Graph.{
  number_key, number_keys, number_files, edge_between, reference_edge, link_edge, symbol_edges,
  symbol_graph,
}
use orphanode.Symbols.Roots.{
  reference_mark, is_typed, export_marks, active_flags, open_marks, file_marks, each_file_marks,
  root_marks,
}
use orphanode.Symbols.Analysis.{
  is_reportable_declaration, place_of, targets, search_symbols, reachable_symbols, symbol_state,
  declarations_complete, exports_complete, symbol_liveness, file_report, analyze_files,
}

abbrev span : SourceSpan
span = record { start = 0; end = 1 }

abbrev declares : ℕ → SymbolNamespace → SymbolFact
declares id n = record {
  id = id;
  name = text "f";
  kind = function;
  symbol_namespace = n;
  region = 0;
  span = span;
  declarations = span ∷ [];
  flags = record {
    imported = false;
    exported = false;
    mutated = false;
    initializer_effectful = false;
    escapes = false;
    ambient = false;
    safe_removal_span = true;
    parameter_property = false;
  };
}

abbrev refers : ReferenceOwner → ℕ → ℕ → SymbolReferenceFact
refers owner region target = record {
  owner = owner;
  region = region;
  target = target;
  usage = runtime;
  read = true;
  write = false;
  call = true;
  escape = false;
  span = span;
}

abbrev body : ℕ → Option ℕ → Bool → ExecutionRegionFact
body id parent eager = record {
  id = id;
  parent = parent;
  owner = none;
  kind = module_body;
  span = span;
  eager = eager;
}

abbrev exports_local : ℕ → ExportBindingFact
exports_local id = record {
  exported = text "f";
  source = none;
  imported = none;
  local = some id;
  kind = local_export;
  type_only = false;
  span = span;
}

abbrev file :
    List SymbolFact
    → List SymbolReferenceFact
    → List ExportBindingFact
    → List UnknownGuardFact
    → FileFacts
file symbols references exports guards = record {
  path = text "a.ts";
  source_kind = Facts.type_script;
  module_kind = Facts.esm_module;
  byte_len = 1;
  line_count = 1;
  imports = [];
  exports = [];
  symbol_facts = record {
    regions = body 0 none true ∷ body 2 (some 0) true ∷ body 1 (some 0) false ∷ [];
    symbols = symbols;
    references = references;
    imports = [];
    exports = exports;
    unknown_guards = guards;
  };
  member_facts = [];
  diagnostics = [];
}

-- Symbol 0 is used when the file is loaded and uses 1; symbols 2 and 3 use each other, from a
-- region that does not run.
abbrev main_file : FileFacts
main_file =
    file
      (declares 0 runtime_namespace
        ∷ declares 1 runtime_namespace
        ∷ declares 2 runtime_namespace
        ∷ declares 3 runtime_namespace
        ∷ [])
      (refers (region_owner 2) 2 0
        ∷ refers (symbol_owner 0) 1 1
        ∷ refers (symbol_owner 2) 1 3
        ∷ refers (symbol_owner 3) 1 2
        ∷ [])
      [] []

-- A file with an export that the world outside can use, and a guard.
abbrev library_file : FileFacts
library_file =
    file (declares 0 runtime_namespace ∷ declares 7 runtime_and_type ∷ []) [] (exports_local 7 ∷ [])
      (record { kind = direct_eval; region = none; span = span } ∷ [])

abbrev project : SymbolAnalysisInput
project = record {
  files = main_file ∷ library_file ∷ [];
  reachable_files = true ∷ true ∷ [];
  open_world_files = false ∷ true ∷ [];
  links =
      record {
        source = record { file = 0; symbol = 1 };
        source_usage = runtime;
        target = record { file = 1; symbol = 0 };
        target_usage = runtime;
      }
      ∷ [];
  explicit_roots = [];
}

abbrev lives : ℕ → Bool → Bool → SymbolLiveness
lives id r t = record { symbol = id; in_runtime = r; in_type = t }

analyze_files_test :
    analyze_files project
    ≡ some (
        (record {
          symbols =
              lives 0 true false
              ∷ lives 1 true false
              ∷ lives 2 false false
              ∷ lives 3 false false
              ∷ [];
          declarations_complete = true;
          exports_complete = true;
        })
        ∷ (record {
          symbols = lives 0 true false ∷ lives 7 true true ∷ [];
          declarations_complete = false;
          exports_complete = true;
        })
        ∷ [])
unfolding traverse sort_by dedup push_at push_each mark mark_all expand drain file_flag find_symbol
    declared_symbol last_region region_count push_child eager_children active_eager_regions
    number_key number_keys number_files edge_between reference_edge link_edge symbol_edges
    symbol_graph reference_mark is_typed export_marks active_flags open_marks file_marks
    each_file_marks root_marks place_of targets search_symbols reachable_symbols symbol_state
    declarations_complete exports_complete symbol_liveness file_report analyze_files
    blocks_declaration_reachability
analyze_files_test = refl

analyze_files_lem_example :
    (reports : List FileSymbolReachability) × (analyze_files project ≡ some reports)
    × Pointwise (IsReport project) (enumerate 0 project.files) reports
analyze_files_lem_example = analyze_files_lem project

active_eager_regions_lem_example :
    (flags : List Bool) × (active_eager_regions main_file ≡ returned flags)
    × ((v : ℕ) → (flag flags v ≡ true) ↔ ∥ Active main_file.symbol_facts.regions v ∥₁)
active_eager_regions_lem_example = active_eager_regions_lem main_file

find_dead_groups_test :
    find_dead_groups project
    ≡ some (
        (record {
          members = record { file = 0; symbol = 2 } ∷ record { file = 0; symbol = 3 } ∷ [];
          cyclic = true;
        })
        ∷ [])
unfolding traverse sort_by dedup push_at push_each mark mark_all expand drain file_flag find_symbol
    declared_symbol last_region region_count push_child eager_children active_eager_regions
    number_key number_keys number_files edge_between reference_edge link_edge symbol_edges
    symbol_graph reference_mark is_typed export_marks active_flags open_marks file_marks
    each_file_marks root_marks place_of targets search_symbols reachable_symbols
    declarations_complete is_reportable_declaration blocks_declaration_reachability dead_candidate
    dead_candidates keep candidate_edges incoming is_cyclic dead_group
    dead_strongly_connected_components find_dead_groups finishing_order finish_from depth advance
    is_open assign gather push_onto
find_dead_groups_test = refl

is_fresh : (x : ℕ) (xs : List ℕ) → all (λ y. not (x == y)) xs ≡ true → ¬ Memᴰ x xs
is_fresh x [] h m = Memᴰ.not-nil m
is_fresh x (y ∷ ys) h m = elim (Memᴰ.cases_cons m) [
  | inl e ↦ ground (arith, h, e)
  | inr later ↦ is_fresh x ys (ground (arith, h)) later
]

project-HasDistinctIds : HasDistinctIds project.files
project-HasDistinctIds = (
  (
    is_fresh 0 (1 ∷ 2 ∷ 3 ∷ []) refl,
    (is_fresh 1 (2 ∷ 3 ∷ []) refl, (is_fresh 2 (3 ∷ []) refl, (is_fresh 3 [] refl, tt))),
  ),
  ((is_fresh 0 (7 ∷ []) refl, (is_fresh 7 [] refl, tt)), tt),
)

find_dead_groups_lem_example :
    (groups : List DeadSymbolGroup) × (find_dead_groups project ≡ some groups)
    × ((g : DeadSymbolGroup)
        → Memᴰ g groups
        → (k : SymbolKey) × IsDead project k × IsDeadGroup project k g)
    × ((k : SymbolKey)
        → IsDead project k
        → (g : DeadSymbolGroup) × Memᴰ g groups × IsDeadGroup project k g)
find_dead_groups_lem_example = find_dead_groups_lem project project-HasDistinctIds

liveness-analyze_symbols_example :
    (r : SymbolAnalysisResult) × (analyze_symbols project ≡ some r)
    × ((k : SymbolKey)
        → IsDeclared project.files k
        → (l : SymbolLiveness) × (liveness r k ≡ some l)
          × ((l.in_runtime ≡ true) ↔ ∥ Live project k runtime ∥₁)
          × ((l.in_type ≡ true) ↔ ∥ Live project k type_ ∥₁))
liveness-analyze_symbols_example = liveness-analyze_symbols project project-HasDistinctIds
