-- ===== src/Facts.antt =====
-- crates/orphanode/src/domain/facts.rs: what parsing finds in a file. Identifiers of symbols and
-- regions are their numbers. A field or variant whose name is a word of the language has another
-- name here: `is_static`, `type_` and the like.
use orphanode.Common.{ℕ, Bool, true, false, Option, List, ◌≡◌, arith}
use orphanode.Common.Order.{Ord, rank_ord}
use orphanode.Common.Text.{Text}

pub data SourceKind : Type 0 where
  java_script jsx type_script tsx : SourceKind

pub data ModuleKind : Type 0 where
  esm_module common_js_module : ModuleKind

pub data ImportKind : Type 0 where
  static side_effect re_export dynamic common_js_require common_js_resolve plugin : ImportKind

pub data ResolutionMode : Type 0 where
  esm_resolution common_js_resolution : ResolutionMode

pub data Activation : Type 0 where
  at_load deferred : Activation

pub data ExportKind : Type 0 where
  named default_export star : ExportKind

pub data DiagnosticSeverity : Type 0 where
  error warning : DiagnosticSeverity

pub record SourceSpan : Type 0 where
  pub start : ℕ
  pub end : ℕ

pub record ImportFact : Type 0 where
  pub specifier : Text
  pub kind : ImportKind
  pub resolution_mode : ResolutionMode
  pub activation : Activation
  pub type_only : Bool
  pub span : SourceSpan

pub record ExportFact : Type 0 where
  pub name : Text
  pub kind : ExportKind
  pub type_only : Bool
  pub span : SourceSpan

abbrev pub SemanticSymbolId : Type 0
SemanticSymbolId = ℕ

abbrev pub ExecutionRegionId : Type 0
ExecutionRegionId = ℕ

-- `ExecutionRegionId::MODULE`
abbrev pub module_region : ExecutionRegionId
module_region = 0

pub data SymbolNamespace : Type 0 where
  runtime_namespace type_namespace runtime_and_type : SymbolNamespace

pub data DeclarationKind : Type 0 where
  variable function class import_declaration type_alias interface enum enum_member type_parameter
        namespace catch_binding unknown :
      DeclarationKind

pub data ExecutionRegionKind : Type 0 where
  module_body function_body class_static_block instance_initializer : ExecutionRegionKind

pub data UsageKind : Type 0 where
  runtime type_ : UsageKind

pub data ImportBindingKind : Type 0 where
  default_import named_import namespace_import common_js_import : ImportBindingKind

pub data ExportBindingKind : Type 0 where
  local_export default_binding re_export_binding star_binding common_js_export : ExportBindingKind

pub data UnknownGuardKind : Type 0 where
  direct_eval dynamic_scope computed_common_js_export opaque_common_js_exports : UnknownGuardKind

unfoldable pub blocks_declaration_reachability : UnknownGuardKind → Bool
blocks_declaration_reachability direct_eval = true
blocks_declaration_reachability dynamic_scope = true
blocks_declaration_reachability computed_common_js_export = false
blocks_declaration_reachability opaque_common_js_exports = false

pub record SymbolFactFlags : Type 0 where
  pub imported : Bool
  pub exported : Bool
  pub mutated : Bool
  pub initializer_effectful : Bool
  pub escapes : Bool
  pub ambient : Bool
  pub safe_removal_span : Bool
  pub parameter_property : Bool

pub record SymbolFact : Type 0 where
  pub id : SemanticSymbolId
  pub name : Text
  pub kind : DeclarationKind
  pub symbol_namespace : SymbolNamespace
  pub region : ExecutionRegionId
  pub span : SourceSpan
  pub declarations : List SourceSpan
  pub flags : SymbolFactFlags

pub data ReferenceOwner : Type 0 where
  region_owner : ExecutionRegionId → ReferenceOwner
  symbol_owner : SemanticSymbolId → ReferenceOwner

pub record SymbolReferenceFact : Type 0 where
  pub owner : ReferenceOwner
  pub region : ExecutionRegionId
  pub target : SemanticSymbolId
  pub usage : UsageKind
  pub read : Bool
  pub write : Bool
  pub call : Bool
  pub escape : Bool
  pub span : SourceSpan

pub record ExecutionRegionFact : Type 0 where
  pub id : ExecutionRegionId
  pub parent : Option ExecutionRegionId
  pub owner : Option SemanticSymbolId
  pub kind : ExecutionRegionKind
  pub span : SourceSpan
  pub eager : Bool

pub record ImportBindingFact : Type 0 where
  pub source : Text
  pub imported : Option Text
  pub local : SemanticSymbolId
  pub kind : ImportBindingKind
  pub type_only : Bool
  pub span : SourceSpan

pub record ExportBindingFact : Type 0 where
  pub exported : Text
  pub source : Option Text
  pub imported : Option Text
  pub local : Option SemanticSymbolId
  pub kind : ExportBindingKind
  pub type_only : Bool
  pub span : SourceSpan

pub record UnknownGuardFact : Type 0 where
  pub kind : UnknownGuardKind
  pub region : Option ExecutionRegionId
  pub span : SourceSpan

pub record SymbolFileFacts : Type 0 where
  pub regions : List ExecutionRegionFact
  pub symbols : List SymbolFact
  pub references : List SymbolReferenceFact
  pub imports : List ImportBindingFact
  pub exports : List ExportBindingFact
  pub unknown_guards : List UnknownGuardFact

pub data ClassMemberKind : Type 0 where
  method field getter setter accessor : ClassMemberKind

pub data ClassMemberVisibility : Type 0 where
  java_script_private type_script_private protected public : ClassMemberVisibility

pub record ClassMemberFact : Type 0 where
  pub declaring_class : Text
  pub name : Text
  pub kind : ClassMemberKind
  pub visibility : ClassMemberVisibility
  pub is_static : Bool
  pub span : SourceSpan
  pub directly_referenced : Bool
  pub decorated : Bool
  pub emitted_decorator_metadata : Bool
  pub unknown_bracket_access : Bool
  pub reflected_or_enumerated : Bool
  pub serialized : Bool
  pub object_spread : Bool
  pub proxied : Bool
  pub passed_to_unknown_code : Bool
  pub class_exported : Bool
  pub class_escaped : Bool
  pub participates_in_inheritance : Bool
  pub relationships_complete : Bool
  pub overrides_live_base_member : Bool
  pub has_live_override : Bool
  pub implements_external_contract : Bool

pub record AnalysisDiagnostic : Type 0 where
  pub code : Text
  pub path : Text
  pub severity : DiagnosticSeverity
  pub span : Option SourceSpan
  pub message : Text
  pub blocks_reachability : Bool

pub record FileFacts : Type 0 where
  pub path : Text
  pub source_kind : SourceKind
  pub module_kind : ModuleKind
  pub byte_len : ℕ
  pub line_count : ℕ
  pub imports : List ImportFact
  pub exports : List ExportFact
  pub symbol_facts : SymbolFileFacts
  pub member_facts : List ClassMemberFact
  pub diagnostics : List AnalysisDiagnostic

-- The derived order on usages.
abbrev pub usage_index : UsageKind → ℕ
usage_index runtime = 0
usage_index type_ = 1

pub usage_index_injective : (a b : UsageKind) → usage_index a ≡ usage_index b → a ≡ b
usage_index_injective a b h = ground arith

instance abbrev pub usage_ord : Ord UsageKind
usage_ord = rank_ord usage_index usage_index_injective
