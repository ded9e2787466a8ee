-- ===== src/Symbols/Roots/Marked.antt =====
-- The marks before the search are those of the roots.
use mathlib.Core.List.Memᴰ
use orphanode.Common.{
  ℕ, Bool, true, false, ◌≡◌, refl, sym, subst, ◌⊎◌, inl, inr, ◌↔◌, none, some, List, [], ◌∷◌, ◌++◌,
  map, Memᴰ, Memᴰ-cons, Memᴰ-singleton, arith, get_elem?, and_then, Bool-cases, Option-cases,
}
use orphanode.Common.Loops.{filter_map, enumerate, mem-filter_map, mem-flat_map, mem-enumerate}
use orphanode.Facts.{FileFacts, SymbolReferenceFact, ExportBindingFact, UsageKind, runtime, type_}
use orphanode.Search.Vector.{flag}
use orphanode.Symbols.Data.{SymbolKey, SymbolRoot, SymbolAnalysisInput, file_flag}
use orphanode.Symbols.Regions.{Active, active_eager_regions_lem}
use orphanode.Symbols.Roots.{
  Mark, explicit_mark, reference_mark, is_typed, lane_marks, export_marks, active_flags, open_marks,
  file_marks, each_file_marks, root_marks,
}

-- The lanes that an export of a symbol exposes.
abbrev pub Exposes : List FileFacts → SymbolKey → Bool → UsageKind → Type 0
Exposes files key type_only usage =
    ((type_only ≡ true) × (usage ≡ type_))
    ⊎ ((type_only ≡ false) × ((usage ≡ runtime) ⊎ ((usage ≡ type_) × (is_typed files key ≡ true))))

-- What is live from the start: the explicit roots, what an active region of a reachable file
-- refers to, and what a reachable file of the open world exports.
pub data Rooted (input : SymbolAnalysisInput) : SymbolKey → UsageKind → Type 0 where
  explicit : (r : SymbolRoot) → Memᴰ r input.explicit_roots → Rooted input r.symbol r.usage
  at_load :
      (file : ℕ) (facts : FileFacts) (r : SymbolReferenceFact)
      → get_elem? input.files file ≡ some facts
      → file_flag input.reachable_files file ≡ true
      → Memᴰ r facts.symbol_facts.references
      → ∥ Active facts.symbol_facts.regions r.region ∥₁
      → Rooted input (record { file = file; symbol = r.target }) r.usage
  exported :
      (file : ℕ) (facts : FileFacts) (x : ExportBindingFact) (local : ℕ) (usage : UsageKind)
      → get_elem? input.files file ≡ some facts
      → file_flag input.reachable_files file ≡ true
      → file_flag input.open_world_files file ≡ true
      → Memᴰ x facts.symbol_facts.exports
      → x.local ≡ some local
      → Exposes input.files (record { file = file; symbol = local }) x.type_only usage
      → Rooted input (record { file = file; symbol = local }) usage

mem-lane_marks :
    (key k : SymbolKey) (u : UsageKind) (type_only typed : Bool)
    → Memᴰ {A = Mark} (k, u) (lane_marks key type_only typed) ↔ (
        (k ≡ key)
        × (((type_only ≡ true) × (u ≡ type_))
            ⊎ ((type_only ≡ false) × ((u ≡ runtime) ⊎ ((u ≡ type_) × (typed ≡ true))))))
mem-lane_marks key k u true typed = ground (arith, Memᴰ-singleton {A = Mark} (k, u) (key, type_))
mem-lane_marks key k u false true = ground (
  arith,
  Memᴰ-cons {A = Mark} (k, u) (key, runtime) ((key, type_) ∷ []),
  Memᴰ-singleton {A = Mark} (k, u) (key, type_),
)
mem-lane_marks key k u false false = ground (arith, Memᴰ-singleton {A = Mark} (k, u) (key, runtime))

export_marks-none :
    (files : List FileFacts) (file : ℕ) (x : ExportBindingFact)
    → x.local ≡ none
    → export_marks files file x ≡ []
unfolding export_marks
export_marks-none files file x e = ground (arith, e)

export_marks-some :
    (files : List FileFacts) (file : ℕ) (x : ExportBindingFact) (local : ℕ)
    → x.local ≡ some local
    → let key : SymbolKey = record { file = file; symbol = local } in
      export_marks files file x ≡ lane_marks key x.type_only (is_typed files key)
unfolding export_marks
export_marks-some files file x local e = ground (arith, e)

mem-export_marks :
    (files : List FileFacts) (file : ℕ) (x : ExportBindingFact) (k : SymbolKey) (u : UsageKind)
    → Memᴰ {A = Mark} (k, u) (export_marks files file x) ↔ (
        (local : ℕ) × (x.local ≡ some local)
        × (k ≡ (record { file = file; symbol = local }))
        × Exposes files (record { file = file; symbol = local }) x.type_only u)
mem-export_marks files file x k u = (
  λ m. elim (Option-cases x.local) [
    | inl hidden ↦
        absurd
          (Memᴰ.not-nil (subst (Memᴰ {A = Mark} (k, u)) (export_marks-none files file x hidden) m))
    | inr (local, e) ↦
        let key : SymbolKey = record { file = file; symbol = local } in
        let (same, exposed) =
          (mem-lane_marks key k u x.type_only (is_typed files key)).0
            (subst (Memᴰ {A = Mark} (k, u)) (export_marks-some files file x local e) m) in
        (local, e, same, exposed)
  ],
  λ (local, e, same, exposed).
      let key : SymbolKey = record { file = file; symbol = local } in
      subst (Memᴰ {A = Mark} (k, u)) (sym (export_marks-some files file x local e))
        ((mem-lane_marks key k u x.type_only (is_typed files key)).1 (same, exposed)),
)

mark_path : {k k' : SymbolKey} {u u' : UsageKind} → k ≡ k' → u ≡ u' → ◌≡◌ {A = Mark} (k', u') (k, u)
mark_path e f = ground (arith, e, f)

module _ (input : SymbolAnalysisInput) where
  -- What makes a mark one of a file's.
  abbrev RootedIn : ℕ → FileFacts → SymbolKey → UsageKind → Type 0
  RootedIn file facts k u =
      (file_flag input.reachable_files file ≡ true)
      × (((r : SymbolReferenceFact) × Memᴰ r facts.symbol_facts.references
            × ∥ Active facts.symbol_facts.regions r.region ∥₁
            × (k ≡ (record { file = file; symbol = r.target }))
            × (u ≡ r.usage))
          ⊎ ((file_flag input.open_world_files file ≡ true)
              × ((x : ExportBindingFact) × (local : ℕ) × Memᴰ x facts.symbol_facts.exports
                  × (x.local ≡ some local)
                  × (k ≡ (record { file = file; symbol = local }))
                  × Exposes input.files (record { file = file; symbol = local }) x.type_only u)))

  mem-open_marks :
      (file : ℕ) (facts : FileFacts) (k : SymbolKey) (u : UsageKind)
      → Memᴰ {A = Mark} (k, u) (open_marks input file facts) ↔ (
          (file_flag input.open_world_files file ≡ true)
          × ((x : ExportBindingFact) × (local : ℕ) × Memᴰ x facts.symbol_facts.exports
              × (x.local ≡ some local)
              × (k ≡ (record { file = file; symbol = local }))
              × Exposes input.files (record { file = file; symbol = local }) x.type_only u))
  unfolding open_marks
  mem-open_marks file facts k u = elim (Bool-cases (file_flag input.open_world_files file)) [
    | inl yes_open ↦ rw yes_open (
      λ m.
          let (x, is, at) =
            (mem-flat_map (export_marks input.files file) (k, u) facts.symbol_facts.exports).0 m in
          let (local, e, same, exposed) = (mem-export_marks input.files file x k u).0 at in
          (refl, (x, local, is, e, same, exposed)),
      λ (o, (x, local, is, e, same, exposed)).
          (mem-flat_map (export_marks input.files file) (k, u) facts.symbol_facts.exports).1
            (x, is, (mem-export_marks input.files file x k u).1 (local, e, same, exposed)),
    )
    | inr shut ↦ rw shut (λ m. absurd (Memᴰ.not-nil m), λ (o, rest). cc)
  ]

  reference_mark_iff :
      (flags : List Bool) (file : ℕ) (r : SymbolReferenceFact) (k : SymbolKey) (u : UsageKind)
      → (reference_mark flags file r ≡ some (k, u)) ↔ (
          (flag flags r.region ≡ true)
          × (k ≡ (record { file = file; symbol = r.target }))
          × (u ≡ r.usage))
  unfolding reference_mark
  reference_mark_iff flags file r k u = ground arith

  mem-file_marks :
      (file : ℕ) (facts : FileFacts) (flags : List Bool)
      → file_flag input.reachable_files file ≡ true
      → ((v : ℕ) → (flag flags v ≡ true) ↔ ∥ Active facts.symbol_facts.regions v ∥₁)
      → (k : SymbolKey) (u : UsageKind)
      → Memᴰ {A = Mark}
          (k, u)
          (filter_map (reference_mark flags file) facts.symbol_facts.references
            ++ open_marks input file facts)
        ↔ RootedIn file facts k u
  mem-file_marks file facts flags reached exact k u = (
    λ m. (
      reached,
      elim (Memᴰ.append_cases (filter_map (reference_mark flags file) facts.symbol_facts.references)
          m) [
            | inl here ↦
                let (r, is, e) =
                  (mem-filter_map (reference_mark flags file) (k, u)
                      facts.symbol_facts.references).0
                    here in
                let (active, same, usage) = (reference_mark_iff flags file r k u).0 e in
                inl (r, is, (exact r.region).0 active, same, usage)
            | inr later ↦ inr ((mem-open_marks file facts k u).0 later)
          ],
    ),
    λ (reached_again, s). elim s [
      | inl (r, is, active, same, usage) ↦ Memᴰ.append_left _ (
          (mem-filter_map (reference_mark flags file) (k, u) facts.symbol_facts.references).1 (
            r,
            is,
            (reference_mark_iff flags file r k u).1 ((exact r.region).1 active, same, usage),
          ))
      | inr exposed ↦
          Memᴰ.append_right (filter_map (reference_mark flags file) facts.symbol_facts.references)
            ((mem-open_marks file facts k u).1 exposed)
    ],
  )

  file_marks_lem :
      (file : ℕ) (facts : FileFacts)
      → (marks : List Mark) × (file_marks input (file, facts) ≡ some marks)
        × ((k : SymbolKey) (u : UsageKind) → Memᴰ {A = Mark} (k, u) marks ↔ RootedIn file facts k u)
  unfolding file_marks active_flags
  file_marks_lem file facts = elim (Bool-cases (file_flag input.reachable_files file)) [
    | inr gone ↦ ([], rw gone refl, λ k u. rw gone (λ m. absurd (Memᴰ.not-nil m), λ (r, rest). cc))
    | inl reached ↦
        let (flags, ends, exact) = active_eager_regions_lem facts in
        (
          filter_map (reference_mark flags file) facts.symbol_facts.references
              ++ open_marks input file facts,
          rw (reached, file_marks, active_flags, ends, and_then) refl,
          λ k u. mem-file_marks file facts flags reached exact k u,
        )
  ]

  each_file_marks_lem :
      (files : List (ℕ × FileFacts))
      → (marks : List Mark) × (each_file_marks input files ≡ some marks)
        × ((k : SymbolKey) (u : UsageKind)
            → Memᴰ {A = Mark} (k, u) marks ↔ (
                (file : ℕ) × (facts : FileFacts) × Memᴰ {A = ℕ × FileFacts} (file, facts) files
                × RootedIn file facts k u))
  unfolding each_file_marks
  each_file_marks_lem [] = (
    [],
    refl,
    λ k u. (λ m. absurd (Memᴰ.not-nil m), λ (file, facts, m, r). absurd (Memᴰ.not-nil m)),
  )
  each_file_marks_lem ((file, facts) ∷ files) =
      let (marks, e, at) = file_marks_lem file facts in
      let (more, f, later) = each_file_marks_lem files in
      (
        marks ++ more,
        rw (e, and_then, f) refl,
        λ k u. (
          λ m. elim (Memᴰ.append_cases marks m) [
            | inl here ↦ (file, facts, Memᴰ.head refl, (at k u).0 here)
            | inr there ↦ let (g, gs, is, r) = (later k u).0 there in (g, gs, Memᴰ.tail is, r)
          ],
          λ (g, gs, is, r). elim (Memᴰ.cases_cons is) [
            | inl same ↦
                Memᴰ.append_left more
                  ((at k u).1 (subst (λ (p : ℕ × FileFacts). RootedIn p.0 p.1 k u) same r))
            | inr there ↦ Memᴰ.append_right marks ((later k u).1 (g, gs, there, r))
          ],
        ),
      )

  mem-explicit :
      (roots : List SymbolRoot) (k : SymbolKey) (u : UsageKind)
      → Memᴰ {A = Mark} (k, u) (map explicit_mark roots)
        ↔ ((r : SymbolRoot) × Memᴰ r roots × (k ≡ r.symbol) × (u ≡ r.usage))
  mem-explicit [] k u = (λ m. absurd (Memᴰ.not-nil m), λ (r, m, e, f). absurd (Memᴰ.not-nil m))
  mem-explicit (x ∷ roots) k u = (
    λ m. elim (Memᴰ.cases_cons m) [
      | inl here ↦ (x, Memᴰ.head refl, ground (arith, here), ground (arith, here))
      | inr later ↦ let (r, is, e, f) = (mem-explicit roots k u).0 later in (r, Memᴰ.tail is, e, f)
    ],
    λ (r, m, e, f). elim (Memᴰ.cases_cons m) [
      | inl here ↦ Memᴰ.head (ground (arith, e, f, here))
      | inr later ↦ Memᴰ.tail ((mem-explicit roots k u).1 (r, later, e, f))
    ],
  )

  from_file :
      (file : ℕ) (facts : FileFacts) (k : SymbolKey) (u : UsageKind)
      → get_elem? input.files file ≡ some facts
      → RootedIn file facts k u
      → Rooted input k u
  from_file file facts k u at (reached, inl (r, is, active, same, usage)) =
      subst (λ (p : Mark). Rooted input p.0 p.1) (mark_path same usage)
        (at_load file facts r at reached is active)
  from_file file facts k u at (reached, inr (opened, (x, local, is, e, same, exposed))) =
      subst (λ y. Rooted input y u) (sym same)
        (exported file facts x local u at reached opened is e exposed)

  to_marks :
      (marks : List Mark)
      → ((k : SymbolKey) (u : UsageKind)
          → Memᴰ {A = Mark} (k, u) marks ↔ (
              (file : ℕ) × (facts : FileFacts) × Memᴰ {A = ℕ × FileFacts}
                (file, facts)
                (enumerate 0 input.files)
              × RootedIn file facts k u))
      → (k : SymbolKey) (u : UsageKind) → Rooted input k u
      → Memᴰ {A = Mark} (k, u) (map explicit_mark input.explicit_roots ++ marks)
  to_marks marks at k u (explicit r is) =
      Memᴰ.append_left marks
        ((mem-explicit input.explicit_roots r.symbol r.usage).1 (r, is, refl, refl))
  to_marks marks at k u (at_load file facts r found reached is active) =
      Memᴰ.append_right (map explicit_mark input.explicit_roots) (
        (at k u).1 (
          file,
          facts,
          (mem-enumerate file facts input.files).1 found,
          (reached, inl (r, is, active, refl, refl)),
        ))
  to_marks marks at k u (exported file facts x local usage found reached opened is e exposed) =
      Memᴰ.append_right (map explicit_mark input.explicit_roots) (
        (at k u).1 (
          file,
          facts,
          (mem-enumerate file facts input.files).1 found,
          (reached, inr (opened, (x, local, is, e, refl, exposed))),
        ))

  -- The marks are computed without a panic, and are exactly the roots.
  pub root_marks_lem :
      (marks : List Mark) × (root_marks input ≡ some marks)
      × ((k : SymbolKey) (u : UsageKind) → Memᴰ {A = Mark} (k, u) marks ↔ Rooted input k u)
  unfolding root_marks
  root_marks_lem =
      let (marks, e, at) = each_file_marks_lem (enumerate 0 input.files) in
      (
        map explicit_mark input.explicit_roots ++ marks,
        rw (root_marks, e, and_then) refl,
        λ k u. (
          λ m. elim (Memᴰ.append_cases (map explicit_mark input.explicit_roots) m) [
            | inl here ↦
                let (r, is, same, usage) = (mem-explicit input.explicit_roots k u).0 here in
                subst (λ (p : Mark). Rooted input p.0 p.1) (mark_path same usage) (explicit r is)
            | inr there ↦
                let (file, facts, is, rooted) = (at k u).0 there in
                from_file file facts k u ((mem-enumerate file facts input.files).0 is) rooted
          ],
          to_marks marks at k u,
        ),
      )
