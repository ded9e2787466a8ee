-- ===== src/Symbols/Data.antt =====
-- The data of crates/orphanode/src/analysis/symbols.rs.
use orphanode.Common.{
  ℕ, Bool, true, false, Option, none, some, List, [], ◌∷◌, ◌≡◌, get_elem?, arith,
}
use orphanode.Common.Order.{Ord, nat_ord, pair_ord, key_ord, same}
use orphanode.Facts.{FileFacts, SymbolFact, SemanticSymbolId, UsageKind, usage_ord}

pub record SymbolKey : Type 0 where
  pub file : ℕ
  pub symbol : SemanticSymbolId

pub record ResolvedSymbolLink : Type 0 where
  pub source : SymbolKey
  pub source_usage : UsageKind
  pub target : SymbolKey
  pub target_usage : UsageKind

pub record SymbolRoot : Type 0 where
  pub symbol : SymbolKey
  pub usage : UsageKind

pub record SymbolAnalysisInput : Type 0 where
  pub files : List FileFacts
  pub reachable_files : List Bool
  pub open_world_files : List Bool
  pub links : List ResolvedSymbolLink
  pub explicit_roots : List SymbolRoot

-- The fields `runtime` and `type`.
pub record SymbolLiveness : Type 0 where
  pub symbol : SemanticSymbolId
  pub in_runtime : Bool
  pub in_type : Bool

pub record FileSymbolReachability : Type 0 where
  pub symbols : List SymbolLiveness
  pub declarations_complete : Bool
  pub exports_complete : Bool

pub record DeadSymbolGroup : Type 0 where
  pub members : List SymbolKey
  pub cyclic : Bool

pub record SymbolEdge : Type 0 where
  pub source_usage : UsageKind
  pub target : ℕ
  pub target_usage : UsageKind

-- The derived orders.
abbrev pub symbol_key : SymbolKey → ℕ × ℕ
symbol_key k = (k.file, k.symbol)

pub symbol_key_injective : (a b : SymbolKey) → symbol_key a ≡ symbol_key b → a ≡ b
symbol_key_injective a b h = ground arith

instance abbrev pub symbol_key_ord : Ord SymbolKey
symbol_key_ord = key_ord (pair_ord nat_ord nat_ord) symbol_key symbol_key_injective

abbrev pub edge_key : SymbolEdge → UsageKind × (ℕ × UsageKind)
edge_key e = (e.source_usage, (e.target, e.target_usage))

pub edge_key_injective : (a b : SymbolEdge) → edge_key a ≡ edge_key b → a ≡ b
edge_key_injective a b h = ground arith

instance abbrev pub edge_ord : Ord SymbolEdge
edge_ord = key_ord (pair_ord usage_ord (pair_ord nat_ord usage_ord)) edge_key edge_key_injective

-- `flags.get(file).copied().unwrap_or(false)`
unfoldable pub file_flag : List Bool → ℕ → Bool
file_flag flags file = elim (get_elem? flags file) [ none ↦ false | some flag ↦ flag ]

-- `iter().find(|symbol| symbol.id == id)`
unfoldable pub find_symbol : SemanticSymbolId → List SymbolFact → Option SymbolFact
find_symbol id [] = none
find_symbol id (s ∷ symbols) = elim (same s.id id) [
  | true ↦ some s
  | false ↦ find_symbol id symbols
]

-- The declaration of a key: that of its file's facts.
unfoldable pub declared_symbol : List FileFacts → SymbolKey → Option SymbolFact
declared_symbol files key = elim (get_elem? files key.file) [
  | none ↦ none
  | some facts ↦ find_symbol key.symbol facts.symbol_facts.symbols
]
