-- ===== src/Symbols/Analysis/Report.antt =====
-- The report of `analyze_symbols` on each file.
use mathlib.Core.List.Memᴰ
use orphanode.Common.{
  ℕ, zero, suc, ◌≡◌, refl, sym, subst, inl, inr, ◌↔◌, Bool, true, false, some, List, [], ◌∷◌, Memᴰ,
  any, arith, get_elem?, get_or, get_elem?-some, and_then, Bool-cases,
}
use orphanode.Common.Loops.{enumerate, mem-enumerate, traverse_lem, Pointwise}
use orphanode.Facts.{
  FileFacts, SymbolFact, UnknownGuardFact, UsageKind, runtime, type_,
  blocks_declaration_reachability,
}
use orphanode.Search.Step.{up}
use orphanode.Symbols.Data.{
  SymbolKey, SymbolAnalysisInput, SymbolLiveness, FileSymbolReachability, file_flag,
}
use orphanode.Symbols.Lanes.{Place, Lanes, lane, lane_board}
use orphanode.Symbols.Graph.{number_files}
use orphanode.Symbols.Graph.Numbered.{number_files_lem}
use orphanode.Symbols.Analysis.{
  symbol_state, symbol_liveness, file_report, declarations_complete, exports_complete,
  hides_exports, analyze_files,
}
use orphanode.Symbols.Analysis.Live.{Live, IsExact, reachable_symbols_lem}

-- A true answer about a symbol.
abbrev pub IsAnswer : SymbolAnalysisInput → ℕ → SymbolFact → SymbolLiveness → Type 0
IsAnswer input file s l =
    let key : SymbolKey = record { file = file; symbol = s.id } in
    (l.symbol ≡ s.id)
    × ((l.in_runtime ≡ true) ↔ ∥ Live input key runtime ∥₁)
    × ((l.in_type ≡ true) ↔ ∥ Live input key type_ ∥₁)

-- A reachable file has a guard of the kind that a test finds.
abbrev pub IsGuarded : SymbolAnalysisInput → ℕ → FileFacts → (UnknownGuardFact → Bool) → Type 0
IsGuarded input file facts hides =
    (file_flag input.reachable_files file ≡ true)
    × ((g : UnknownGuardFact) × Memᴰ g facts.symbol_facts.unknown_guards × (hides g ≡ true))

-- A true report on a file.
abbrev pub IsReport : SymbolAnalysisInput → ℕ × FileFacts → FileSymbolReachability → Type 0
IsReport input (file, facts) report =
    Pointwise (IsAnswer input file) facts.symbol_facts.symbols report.symbols
    × ((report.declarations_complete ≡ false)
        ↔ IsGuarded input file facts (λ g. blocks_declaration_reachability g.kind))
    × ((report.exports_complete ≡ false) ↔ IsGuarded input file facts (λ g. hides_exports g.kind))

pub up-lane :
    (xs : Lanes) (i : ℕ) (u : UsageKind) (x : Bool × Bool)
    → get_elem? xs i ≡ some x
    → up {V = Place} xs (i, u) ≡ lane u x
up-lane [] i u x h = cc
up-lane (y ∷ xs) zero u x h = ground (arith, h)
up-lane (y ∷ xs) (suc i) u x h = up-lane xs i u x h

any_iff :
    (hides : UnknownGuardFact → Bool) (gs : List UnknownGuardFact)
    → (any hides gs ≡ true) ↔ ((g : UnknownGuardFact) × Memᴰ g gs × (hides g ≡ true))
any_iff hides [] = (λ h. cc, λ (g, m, e). absurd (Memᴰ.not-nil m))
any_iff hides (x ∷ gs) = (
  λ h. elim (Bool-cases (hides x)) [
    | inl e ↦ (x, Memᴰ.head refl, e)
    | inr e ↦ let (g, m, f) = (any_iff hides gs).0 (ground (arith, h, e)) in (g, Memᴰ.tail m, f)
  ],
  λ (g, m, e). elim (Memᴰ.cases_cons m) [
    | inl here ↦ let at = subst (λ y. hides y ≡ true) here e in ground (arith, at)
    | inr later ↦ let rest = (any_iff hides gs).1 (g, later, e) in ground (arith, rest)
  ],
)

module _ (input : SymbolAnalysisInput) (reachable : Lanes) (exact : IsExact input reachable) where
  symbol_liveness_lem :
      (file : ℕ) (facts : FileFacts) (s : SymbolFact)
      → get_elem? input.files file ≡ some facts
      → Memᴰ s facts.symbol_facts.symbols
      → (l : SymbolLiveness) × (symbol_liveness (number_files input.files) reachable file s
          ≡ some l)
        × IsAnswer input file s l
  unfolding symbol_liveness symbol_state
  symbol_liveness_lem file facts s at m =
      let key : SymbolKey = record { file = file; symbol = s.id } in
      let (i, e) = ((number_files_lem input.files).0 key).1 (facts, s, at, m, refl) in
      let (inside, in_runtime) = exact key runtime i e in
      let (inside_again, in_type) = exact key type_ i e in
      let found = get_elem?-some reachable i (false, false) inside in
      let state = get_or reachable i (false, false) in
      (
        record { symbol = s.id; in_runtime = state.0; in_type = state.1 },
        rw (symbol_liveness, symbol_state, e, found, and_then) refl,
        (
          refl,
          rw (sym (up-lane reachable i runtime state found)) in_runtime,
          rw (sym (up-lane reachable i type_ state found)) in_type,
        ),
      )

  pub IsGuarded-iff :
      (file : ℕ) (facts : FileFacts)
      → ((declarations_complete input file facts ≡ false)
          ↔ IsGuarded input file facts (λ g. blocks_declaration_reachability g.kind))
        × ((exports_complete input file facts ≡ false)
            ↔ IsGuarded input file facts (λ g. hides_exports g.kind))
  unfolding declarations_complete exports_complete
  IsGuarded-iff file facts = (
    ground (
      arith,
      any_iff (λ g. blocks_declaration_reachability g.kind) facts.symbol_facts.unknown_guards,
    ),
    ground (arith, any_iff (λ g. hides_exports g.kind) facts.symbol_facts.unknown_guards),
  )

  file_report_lem :
      (file : ℕ) (facts : FileFacts)
      → get_elem? input.files file ≡ some facts
      → (r : FileSymbolReachability) × (file_report input
            (number_files input.files)
            reachable
            (file, facts)
          ≡ some r)
        × IsReport input (file, facts) r
  unfolding file_report
  file_report_lem file facts at =
      let (symbols, e, answers) =
        traverse_lem (IsAnswer input file)
          (symbol_liveness (number_files input.files) reachable file) facts.symbol_facts.symbols
          (λ s m. symbol_liveness_lem file facts s at m) in
      (
        record {
          symbols = symbols;
          declarations_complete = declarations_complete input file facts;
          exports_complete = exports_complete input file facts;
        },
        rw (file_report, e, and_then) refl,
        (answers, (IsGuarded-iff file facts).0, (IsGuarded-iff file facts).1),
      )

-- The part of the analysis that reports on the files never panics. For every symbol of every file, in order, it answers truly whether
-- the symbol is live in the runtime lane and in the type lane; and it calls a file's declarations,
-- or its exports, incomplete exactly when the file is reachable and has a guard that hides them.
pub analyze_files_lem :
    (input : SymbolAnalysisInput)
    → (reports : List FileSymbolReachability) × (analyze_files input ≡ some reports)
      × Pointwise (IsReport input) (enumerate 0 input.files) reports
unfolding analyze_files
analyze_files_lem input =
    let (reachable, e, exact) = reachable_symbols_lem input in
    let (reports, f, all) =
      traverse_lem (IsReport input) (file_report input (number_files input.files) reachable)
        (enumerate 0 input.files)
        (λ (file, facts) m.
          file_report_lem input reachable exact file facts
            ((mem-enumerate file facts input.files).0 m)) in
    (reports, rw (analyze_files, e, f, and_then) refl, all)
