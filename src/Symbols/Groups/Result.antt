-- ===== src/Symbols/Groups/Result.antt =====
-- What `analyze_symbols` returns, and what `SymbolAnalysisResult::liveness` finds in it.
use mathlib.Core.List.Memᴰ
use orphanode.Common.{
  ℕ, ◌≡◌, refl, sym, subst, inl, inr, ◌↔◌, true, some, List, [], ◌∷◌, Memᴰ, arith, get_elem?,
  and_then, Bool-cases, ◌+◌, ◌∙◌, zero, suc,
}
use orphanode.Common.Loops.{enumerate, Pointwise}
use orphanode.Common.Order.{nat_ord, same, same_iff}
use orphanode.Facts.{FileFacts, SymbolFact, runtime, type_}
use orphanode.Symbols.Data.{SymbolKey, SymbolAnalysisInput, SymbolLiveness, FileSymbolReachability}
use orphanode.Symbols.Graph.Numbered.{IsDeclared}
use orphanode.Symbols.Graph.Unique.{HasDistinctIds}
use orphanode.Symbols.Analysis.Live.{Live}
use orphanode.Symbols.Analysis.Report.{IsAnswer, IsReport, analyze_files_lem}
use orphanode.Symbols.Groups.{SymbolAnalysisResult, analyze_symbols, find_liveness, liveness}
use orphanode.Symbols.Groups.Candidates.{some-same}
use orphanode.Symbols.Groups.Dead.{find_dead_groups_lem}

module _ (input : SymbolAnalysisInput) (file : ℕ) where
  find_liveness_lem :
      (id : ℕ) (s : SymbolFact) (symbols : List SymbolFact) (answers : List SymbolLiveness)
      → Pointwise (IsAnswer input file) symbols answers
      → Memᴰ s symbols
      → s.id ≡ id
      → (l : SymbolLiveness) × (find_liveness id answers ≡ some l)
        × ((t : SymbolFact) × (t.id ≡ id) × IsAnswer input file t l)
  unfolding find_liveness
  find_liveness_lem id s [] answers h m e = absurd (Memᴰ.not-nil m)
  find_liveness_lem id s (x ∷ symbols) [] h m e = absurd h
  find_liveness_lem id s (x ∷ symbols) (l ∷ answers) h m e = elim (Bool-cases (same l.symbol id)) [
    | inl eq ↦ (l, rw (find_liveness, eq) refl, (x, sym h.0.0 ∙ (same_iff l.symbol id).0 eq, h.0))
    | inr ne ↦ elim (Memᴰ.cases_cons m) [
      | inl here ↦
          let at : x.id ≡ id = subst (λ (y : SymbolFact). y.id ≡ id) here e in
          absurd (cc (ne, (same_iff l.symbol id).1 (h.0.0 ∙ at)))
      | inr later ↦
          let (found, runs, right) = find_liveness_lem id s symbols answers h.1 later e in
          (found, rw (find_liveness, ne) runs, right)
    ]
  ]

Pointwise-get :
    (input : SymbolAnalysisInput) (j i : ℕ) (files : List FileFacts)
    (reports : List FileSymbolReachability) (facts : FileFacts)
    → Pointwise (IsReport input) (enumerate j files) reports
    → get_elem? files i ≡ some facts
    → (r : FileSymbolReachability) × (get_elem? reports i ≡ some r)
      × Pointwise (IsAnswer input (j + i)) facts.symbol_facts.symbols r.symbols
Pointwise-get input j i [] reports facts h e = cc
Pointwise-get input j i (x ∷ files) [] facts h e = absurd h
Pointwise-get input j zero (x ∷ files) (r ∷ reports) facts h e = (
  r,
  refl,
  subst (λ m. Pointwise (IsAnswer input m) facts.symbol_facts.symbols r.symbols) (omega arith)
      (subst (λ (f : FileFacts). Pointwise (IsAnswer input j) f.symbol_facts.symbols r.symbols)
        (some-same refl e) h.0.0),
)
Pointwise-get input j (suc i) (x ∷ files) (r ∷ reports) facts h e =
    let (found, at, right) = Pointwise-get input (suc j) i files reports facts h.1 e in
    (
      found,
      at,
      subst (λ m. Pointwise (IsAnswer input m) facts.symbol_facts.symbols found.symbols)
          (omega arith) right,
    )

-- Where no file declares an identifier twice, the analysis never panics, and in its result
-- `liveness` finds for every declared symbol whether it is live in the runtime lane and in the type
-- lane.
pub liveness-analyze_symbols :
    (input : SymbolAnalysisInput)
    → HasDistinctIds input.files
    → (r : SymbolAnalysisResult) × (analyze_symbols input ≡ some r)
      × ((k : SymbolKey)
          → IsDeclared input.files k
          → (l : SymbolLiveness) × (liveness r k ≡ some l)
            × ((l.in_runtime ≡ true) ↔ ∥ Live input k runtime ∥₁)
            × ((l.in_type ≡ true) ↔ ∥ Live input k type_ ∥₁))
unfolding analyze_symbols liveness
liveness-analyze_symbols input ids =
    let (reports, e, reported) = analyze_files_lem input in
    let (groups, f, _, _) = find_dead_groups_lem input ids in
    (
      record { files = reports; dead_groups = groups },
      rw (analyze_symbols, e, and_then, f) refl,
      λ k (facts, s, at, m, id).
          let (r, got, answers) =
            Pointwise-get input 0 k.file input.files reports facts reported at in
          let right : Pointwise (IsAnswer input k.file) facts.symbol_facts.symbols r.symbols =
            subst (λ i. Pointwise (IsAnswer input i) facts.symbol_facts.symbols r.symbols)
              (omega arith) answers in
          let (l, found, (t, same_id, answer)) =
            find_liveness_lem input k.file k.symbol s facts.symbol_facts.symbols r.symbols right m
              id in
          (
            l,
            rw (liveness, got, and_then) found,
            subst
                (λ x.
                  (l.in_runtime ≡ true)
                  ↔ ∥ Live input (record { file = k.file; symbol = x }) runtime ∥₁)
                same_id answer.1,
            subst
                (λ x.
                  (l.in_type ≡ true) ↔ ∥ Live input (record { file = k.file; symbol = x }) type_ ∥₁)
                same_id answer.2,
          ),
    )
