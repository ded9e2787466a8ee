-- ===== src/Symbols/Graph.antt =====
-- crates/orphanode/src/analysis/symbols.rs: the nodes and the edges of `analyze_symbols`.
pub mod Numbered
pub mod Edges
pub mod Unique
use orphanode.Common.{ℕ, Option, none, some, List, [], ◌∷◌, ◌++◌, map, and_then, length, replicate}
use orphanode.Common.Loops.{filter_map, flat_map, enumerate}
use orphanode.Common.Maps.{get, alter}
use orphanode.Common.Sorting.{sort, dedup}
use orphanode.Common.Vectors.{push_each}
use orphanode.Facts.{
  FileFacts, SymbolFact, SymbolReferenceFact, ReferenceOwner, region_owner, symbol_owner, UsageKind,
  SemanticSymbolId,
}
use orphanode.Symbols.Data.{
  SymbolKey, ResolvedSymbolLink, SymbolEdge, SymbolAnalysisInput, symbol_key_ord, edge_ord,
}

pub record Numbering : Type 0 where
  pub node_by_key : List (SymbolKey × ℕ)
  pub keys : List SymbolKey

-- `node_by_key.insert(key, keys.len()); keys.push(key);`
unfoldable pub number_key : Numbering → SymbolKey → Numbering
number_key n key = record {
  node_by_key = alter key (λ found. length n.keys) n.node_by_key;
  keys = n.keys ++ key ∷ [];
}

abbrev pub file_keys : ℕ × FileFacts → List SymbolKey
file_keys (file, facts) =
    map (λ s. record { file = file; symbol = s.id }) facts.symbol_facts.symbols

unfoldable pub number_keys : Numbering → List SymbolKey → Numbering
number_keys n [] = n
number_keys n (key ∷ keys) = number_keys (number_key n key) keys

-- The two loops over the files and their symbols.
unfoldable pub number_files : List FileFacts → Numbering
number_files files =
    number_keys (record { node_by_key = []; keys = [] }) (flat_map file_keys (enumerate 0 files))

-- An edge between numbered symbols; where one of them has no number, the loop continues.
unfoldable pub edge_between :
    Numbering → SymbolKey → UsageKind → SymbolKey → UsageKind → Option (ℕ × SymbolEdge)
edge_between n source source_usage target target_usage = and_then (get n.node_by_key source) (λ i.
    and_then (get n.node_by_key target) (λ j.
      some (i, record { source_usage = source_usage; target = j; target_usage = target_usage })))

-- The body of the loop over the references.
unfoldable pub reference_edge : Numbering → ℕ → SymbolReferenceFact → Option (ℕ × SymbolEdge)
reference_edge n file r = elim r.owner [
  | region_owner region ↦ none
  | symbol_owner source ↦
      edge_between n (record { file = file; symbol = source }) r.usage
        (record { file = file; symbol = r.target }) r.usage
]

-- The body of the loop over the links.
unfoldable pub link_edge : Numbering → ResolvedSymbolLink → Option (ℕ × SymbolEdge)
link_edge n l = edge_between n l.source l.source_usage l.target l.target_usage

-- All pushes, in the order of the loops.
unfoldable pub symbol_edges : SymbolAnalysisInput → Numbering → List (ℕ × SymbolEdge)
symbol_edges input n =
    flat_map (λ (file, facts). filter_map (reference_edge n file) facts.symbol_facts.references)
      (enumerate 0 input.files)
    ++ filter_map (link_edge n) input.links

-- `outgoing`, its rows sorted and without repeats.
unfoldable pub symbol_graph : SymbolAnalysisInput → Numbering → Option (List (List SymbolEdge))
symbol_graph input n =
    and_then (push_each (replicate (length n.keys) []) (symbol_edges input n))
      (λ outgoing. some (map (λ edges. dedup (sort edges)) outgoing))
