-- ===== src/Symbols/Groups/Candidates.antt =====
-- The candidates are the nodes of the dead symbols.
use orphanode.Common.{
  ℕ, zero, suc, ◌+◌, ◌≡◌, refl, ap, subst, ◌∙◌, inl, inr, ◌↔◌, Bool, true, false, not, ◌&&◌, Option,
  some, List, [], ◌∷◌, arith, length, get_elem?, get_elem?-some, get_or, and_then, Bool-cases,
}
use orphanode.Common.Loops.{enumerate, mem-enumerate, traverse_lem, Pointwise}
use orphanode.Facts.{FileFacts, UsageKind, runtime, type_, blocks_declaration_reachability}
use orphanode.Search.Vector.{flag}
use orphanode.Symbols.Data.{SymbolKey, SymbolAnalysisInput, file_flag}
use orphanode.Symbols.Lanes.{Lanes, lane, lane_board}
use orphanode.Symbols.Graph.{number_files}
use orphanode.Symbols.Graph.Numbered.{node, IsDeclared, number_files_lem}
use orphanode.Symbols.Graph.Unique.{IsUnique}
use orphanode.Symbols.Analysis.{declarations_complete, is_reportable_declaration}
use orphanode.Symbols.Analysis.Live.{Live, IsExact}
use orphanode.Symbols.Analysis.Report.{IsGuarded, IsGuarded-iff, up-lane}
use orphanode.Symbols.Groups.{dead_candidate, dead_candidates}

-- A declared symbol that is reportable and live in neither lane, in a reachable file without a
-- guard that hides uses of declarations.
pub record IsDead (input : SymbolAnalysisInput) (k : SymbolKey) : Type 0 where
  pub declared : IsDeclared input.files k
  pub in_reachable_file : file_flag input.reachable_files k.file ≡ true
  pub unguarded :
      (facts : FileFacts)
      → get_elem? input.files k.file ≡ some facts
      → ¬ IsGuarded input k.file facts (λ g. blocks_declaration_reachability g.kind)
  pub never_run : ¬ ∥ Live input k runtime ∥₁
  pub never_typed : ¬ ∥ Live input k type_ ∥₁
  pub reportable : is_reportable_declaration input.files k ≡ true

test_iff : (a b c : Bool) → (not a && not b && c ≡ true) ↔ (a ≡ false) × (b ≡ false) × (c ≡ true)
test_iff a b c = ground arith

pub some-same : {A : Type 0} {o : Option A} {a b : A} → o ≡ some a → o ≡ some b → a ≡ b
some-same h k = ground (arith, h, k)

pair_eq : {i j : ℕ} {k l : SymbolKey} → i ≡ j → k ≡ l → ◌≡◌ {A = ℕ × SymbolKey} (i, k) (j, l)
pair_eq {i} {j} {k} {l} e f =
    subst (λ x. ◌≡◌ {A = ℕ × SymbolKey} (i, k) (x, l)) e (ap (λ y. (i, y)) f)

module _ (R : ℕ × SymbolKey → Bool → Type 0) where
  length-Pointwise :
      (j : ℕ) (keys : List SymbolKey) (bs : List Bool)
      → Pointwise R (enumerate j keys) bs
      → length bs ≡ length keys
  length-Pointwise j [] [] h = refl
  length-Pointwise j [] (b ∷ bs) h = absurd h
  length-Pointwise j (x ∷ keys) [] h = absurd h
  length-Pointwise j (x ∷ keys) (b ∷ bs) h = omega (arith, length-Pointwise (suc j) keys bs h.1)

  Pointwise-flag :
      (j i : ℕ) (k : SymbolKey) (keys : List SymbolKey) (bs : List Bool)
      → Pointwise R (enumerate j keys) bs
      → get_elem? keys i ≡ some k
      → R (j + i, k) (flag bs i)
  Pointwise-flag j i k [] bs h e = cc
  Pointwise-flag j i k (x ∷ keys) [] h e = absurd h
  Pointwise-flag j zero k (x ∷ keys) (b ∷ bs) h e =
      subst (λ p. R p b) (pair_eq (omega arith) (some-same refl e)) h.0
  Pointwise-flag j (suc i) k (x ∷ keys) (b ∷ bs) h e =
      subst (λ m. R (m, k) (flag bs i)) (omega arith) (Pointwise-flag (suc j) i k keys bs h.1 e)

module _ (input : SymbolAnalysisInput) (reachable : Lanes) (exact : IsExact input reachable) where
  -- The flag of a node in a lane.
  lane_lem :
      (k : SymbolKey) (i : ℕ) (u : UsageKind)
      → node (number_files input.files) k ≡ some i
      → (lane u (get_or reachable i (false, false)) ≡ false) ↔ (¬ ∥ Live input k u ∥₁)
  lane_lem k i u at =
      let (inside, live) = exact k u i at in
      let found = get_elem?-some reachable i (false, false) inside in
      let same = up-lane reachable i u (get_or reachable i (false, false)) found in
      (
        λ off l. cc (off, same, live.1 l),
        λ dead. elim (Bool-cases (lane u (get_or reachable i (false, false)))) [
          | inr off ↦ off
          | inl on ↦ absurd (dead (live.0 (same ∙ on)))
        ],
      )

  dead_candidate_lem :
      (i : ℕ) (k : SymbolKey)
      → node (number_files input.files) k ≡ some i
      → (b : Bool) × (dead_candidate input reachable (i, k) ≡ some b)
        × ((b ≡ true) ↔ IsDead input k)
  unfolding dead_candidate
  dead_candidate_lem i k at =
      let (facts, s, in_files, in_facts, id) = ((number_files_lem input.files).0 k).0 (i, at) in
      let declared : IsDeclared input.files k = (facts, s, in_files, in_facts, id) in
      let guards = (IsGuarded-iff input reachable exact k.file facts).0 in
      let (inside, _) = exact k runtime i at in
      let state = get_elem?-some reachable i (false, false) inside in
      let pair = get_or reachable i (false, false) in
      elim (Bool-cases (file_flag input.reachable_files k.file)) [
        | inr out ↦ (
          false,
          rw (dead_candidate, out) refl,
          (λ e. cc, λ d. absurd (cc (out, d.in_reachable_file))),
        )
        | inl inside_file ↦ elim (Bool-cases (declarations_complete input k.file facts)) [
          | inr open_file ↦ (
            false,
            rw (dead_candidate, inside_file, in_files, and_then, open_file) refl,
            (λ e. cc, λ d. absurd (d.unguarded facts in_files (guards.0 open_file))),
          )
          | inl whole ↦ (
            not pair.0 && not pair.1 && is_reportable_declaration input.files k,
            rw (dead_candidate, inside_file, in_files, and_then, whole, state) refl,
            (
              λ e.
                  let parts =
                    (test_iff pair.0 pair.1 (is_reportable_declaration input.files k)).0 e in
                  record {
                    declared = declared;
                    in_reachable_file = inside_file;
                    unguarded = λ other found g.
                        let same = some-same in_files found in
                        let hidden = (IsGuarded-iff input reachable exact k.file other).0.1 g in
                        absurd (
                          cc (
                            hidden,
                            subst (λ f. declarations_complete input k.file f ≡ true) same whole,
                          ));
                    never_run = (lane_lem k i runtime at).0 parts.0;
                    never_typed = (lane_lem k i type_ at).0 parts.1;
                    reportable = parts.2;
                  },
              λ d.
                  let run = (lane_lem k i runtime at).1 d.never_run in
                  let typed = (lane_lem k i type_ at).1 d.never_typed in
                  (test_iff pair.0 pair.1 (is_reportable_declaration input.files k)).1
                    (run, typed, d.reportable),
            ),
          )
        ]
      ]

  pub dead_candidates_lem :
      IsUnique (number_files input.files)
      → (candidate : List Bool) × (dead_candidates input (number_files input.files) reachable
          ≡ some candidate)
        × (length candidate ≡ length (number_files input.files).keys)
        × ((i : ℕ) (k : SymbolKey)
            → get_elem? (number_files input.files).keys i ≡ some k
            → (flag candidate i ≡ true) ↔ IsDead input k)
  unfolding dead_candidates
  dead_candidates_lem unique =
      let keys = (number_files input.files).keys in
      let (candidate, e, each) =
        traverse_lem (λ (i, k) b. (b ≡ true) ↔ IsDead input k) (dead_candidate input reachable)
          (enumerate 0 keys)
          (λ (i, k) m. dead_candidate_lem i k (unique i k ((mem-enumerate i k keys).0 m))) in
      let IsRight : ℕ × SymbolKey → Bool → Type 0 = λ (i, k) b. (b ≡ true) ↔ IsDead input k in
      (
        candidate,
        e,
        length-Pointwise IsRight 0 keys candidate each,
        λ i k at. Pointwise-flag IsRight 0 i k keys candidate each at,
      )
