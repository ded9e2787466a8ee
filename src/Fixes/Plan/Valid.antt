-- ===== src/Fixes/Plan/Valid.antt =====
-- Plans that the operations of `FixPlan` build pass `FixPlan::validate`, but for their commands.
use orphanode.Common.{
  false, Option, none, some, List, [], ◌∷◌, ◌++◌, map, any, ◌≡◌, refl, sym, subst, inl, inr, arith,
  All, All-intro, All-of-Memᴰ, All-append, Bool-cases, is_nil,
}
use orphanode.Common.Text.{Text}
use orphanode.Common.Result.{ok}
use orphanode.Common.Order.{same, same_iff, leq, text_ord}
use orphanode.Common.Sorting.{sort, sort_by, insert_by, mem-sort_by, mem-insert_by}
use orphanode.Fixes.ProjectPath.{ProjectPath}
use orphanode.Fixes.Eligibility.{EligibleFix}
use orphanode.Fixes.Packages.{PackageManagerCommand}
use orphanode.Fixes.Plan.{
  FixPlan, SourceEdit, FileChange, modify, delete, change_path, same_path, reject_lockfile,
  reject_duplicate_path, validate_reason, validate_identity, validate_non_overlapping,
  validate_paths, validate_change, validate_changes, validate_commands, validate, paths_of,
  span_leq, new, add_source_edits, add_file_deletion, add_package_command,
}

-- The plans that the operations build.
pub data Built : FixPlan → Type 0 where
  created : (plan_id summary : Text) (plan : FixPlan) → new plan_id summary ≡ ok plan → Built plan
  edited :
      (plan next : FixPlan) (fix : EligibleFix) (path : ProjectPath) (edits : List SourceEdit)
      (reason : Text)
      → Built plan
      → add_source_edits plan fix path edits reason ≡ ok next
      → Built next
  deleted :
      (plan next : FixPlan) (fix : EligibleFix) (path : ProjectPath) (reason : Text)
      → Built plan
      → add_file_deletion plan fix path reason ≡ ok next
      → Built next
  commanded :
      (plan : FixPlan) (command : PackageManagerCommand)
      → Built plan
      → Built (add_package_command plan command)

abbrev IsFree : Text → Type 0
IsFree p = reject_lockfile (record { value = p }) ≡ ok tt

abbrev IsDistinct : List Text → Type 0
IsDistinct [] = Unit
IsDistinct (p ∷ ps) = All (λ q. same p q ≡ false) ps × IsDistinct ps

-- What every operation keeps.
pub record IsSound (plan : FixPlan) : Type 0 where
  pub identity : validate_identity plan ≡ ok tt
  pub changes : validate_changes plan.file_changes ≡ ok tt
  pub free : All IsFree (paths_of plan)
  pub distinct : IsDistinct (paths_of plan)

IsDistinct-snoc :
    (p : Text) (ps : List Text)
    → IsDistinct ps
    → All (λ q. same q p ≡ false) ps
    → IsDistinct (ps ++ p ∷ [])
IsDistinct-snoc p [] d h = (tt, tt)
IsDistinct-snoc p (q ∷ ps) d h =
    (All-append (λ r. same q r ≡ false) ps (p ∷ []) d.0 (h.0, tt), IsDistinct-snoc p ps d.1 h.1)

IsDistinct-insert_by :
    (p : Text) (ps : List Text)
    → IsDistinct ps
    → All (λ q. same p q ≡ false) ps
    → IsDistinct (insert_by leq p ps)
IsDistinct-insert_by p [] d h = (tt, tt)
IsDistinct-insert_by p (q ∷ ps) d h = elim (Bool-cases (leq p q)) [
  | inl below ↦ rw (insert_by, below) (h, d)
  | inr above ↦
      rw (insert_by, above)
        (
          All-intro _ _ (λ r m. elim ((mem-insert_by leq r p ps).0 m) [
            | inl e ↦ ground (arith, h.0, e, same_iff p q, same_iff q r)
            | inr later ↦ All-of-Memᴰ (λ s. same q s ≡ false) ps d.0 later
          ]),
          IsDistinct-insert_by p ps d.1 h.1,
        )
]

IsDistinct-sort : (ps : List Text) → IsDistinct ps → IsDistinct (sort ps)
unfolding sort_by
IsDistinct-sort [] d = tt
IsDistinct-sort (p ∷ ps) d =
    IsDistinct-insert_by p (sort ps) (IsDistinct-sort ps d.1) (
      All-intro _ _
        (λ q m. All-of-Memᴰ (λ r. same p r ≡ false) ps d.0 ((mem-sort_by leq q ps).0 m)))

-- The path before, where there is one, is another than all that follow.
abbrev IsNew : Option Text → List Text → Type 0
IsNew none ps = Unit
IsNew (some q) ps = All (λ p. same q p ≡ false) ps

validate_paths-ok :
    (prior : Option Text) (ps : List Text)
    → All IsFree ps
    → IsDistinct ps
    → IsNew prior ps
    → validate_paths prior ps ≡ ok tt
unfolding validate_paths
validate_paths-ok prior [] f d n = refl
validate_paths-ok none (p ∷ ps) f d n = rw f.0 (validate_paths-ok (some p) ps f.1 d.1 d.0)
validate_paths-ok (some q) (p ∷ ps) f d n =
    rw (f.0, n.0) (validate_paths-ok (some p) ps f.1 d.1 d.0)

validate_changes-snoc :
    (cs : List FileChange) (c : FileChange)
    → validate_changes cs ≡ ok tt
    → validate_change c ≡ ok tt
    → validate_changes (cs ++ c ∷ []) ≡ ok tt
unfolding validate_changes
validate_changes-snoc [] c h k = rw k refl
validate_changes-snoc (d ∷ cs) c h k = ground (arith, validate_changes-snoc cs c)

paths-snoc :
    (cs : List FileChange) (c : FileChange)
    → map (λ d. (change_path d).value) (cs ++ c ∷ [])
      ≡ map (λ d. (change_path d).value) cs ++ (change_path c).value ∷ []
paths-snoc [] c = refl
paths-snoc (d ∷ cs) c = rw (paths-snoc cs c) refl

others :
    (path : ProjectPath) (cs : List FileChange)
    → any (λ c. same_path (change_path c) path) cs ≡ false
    → All (λ q. same q path.value ≡ false) (map (λ d. (change_path d).value) cs)
others path [] h = tt
others path (c ∷ cs) h = (ground arith, others path cs (ground arith))

is_nil-insert_by :
    (e : SourceEdit) (edits : List SourceEdit) → is_nil (insert_by span_leq e edits) ≡ false
is_nil-insert_by e [] = refl
is_nil-insert_by e (f ∷ edits) = ground arith

is_nil-sort_by :
    (edits : List SourceEdit) → is_nil edits ≡ false → is_nil (sort_by span_leq edits) ≡ false
unfolding sort_by
is_nil-sort_by [] h = cc
is_nil-sort_by (e ∷ edits) h = is_nil-insert_by e (sort_by span_leq edits)

-- A change that is checked against the plan keeps the plan sound.
IsSound-push :
    (plan : FixPlan) (c : FileChange)
    → IsSound plan
    → reject_lockfile (change_path c) ≡ ok tt
    → any (λ d. same_path (change_path d) (change_path c)) plan.file_changes ≡ false
    → validate_change c ≡ ok tt
    → IsSound (record plan { file_changes = plan.file_changes ++ c ∷ [] })
unfolding validate_identity
IsSound-push plan c s free other valid = record {
  identity = s.identity;
  changes = validate_changes-snoc plan.file_changes c s.changes valid;
  free = rw (paths-snoc plan.file_changes c) (All-append IsFree _ _ s.free (free, tt));
  distinct = rw (paths-snoc plan.file_changes c) (
      IsDistinct-snoc (change_path c).value _ s.distinct
        (others (change_path c) plan.file_changes other));
}

edited_facts :
    (plan next : FixPlan) (fix : EligibleFix) (path : ProjectPath) (edits : List SourceEdit)
    (reason : Text)
    → add_source_edits plan fix path edits reason ≡ ok next
    → (reject_lockfile path ≡ ok tt)
      × (is_nil edits ≡ false)
      × (validate_non_overlapping path (sort_by span_leq edits) ≡ ok tt)
      × (any (λ c. same_path (change_path c) path) plan.file_changes ≡ false)
      × (validate_reason reason ≡ ok tt)
      × (next ≡ (record plan {
        file_changes =
            plan.file_changes
            ++ modify path fix.expected_content (sort_by span_leq edits) reason ∷ [];
      }))
unfolding add_source_edits reject_duplicate_path
edited_facts plan next fix path edits reason h = ground arith

deleted_facts :
    (plan next : FixPlan) (fix : EligibleFix) (path : ProjectPath) (reason : Text)
    → add_file_deletion plan fix path reason ≡ ok next
    → (reject_lockfile path ≡ ok tt)
      × (any (λ c. same_path (change_path c) path) plan.file_changes ≡ false)
      × (validate_reason reason ≡ ok tt)
      × (next ≡ (record plan {
        file_changes = plan.file_changes ++ delete path fix.expected_content reason ∷ [];
      }))
unfolding add_file_deletion reject_duplicate_path
deleted_facts plan next fix path reason h = ground arith

abbrev fresh : Text → Text → FixPlan
fresh plan_id summary = record {
  schema_version = 2;
  plan_id = plan_id;
  summary = summary;
  file_changes = [];
  package_commands = [];
}

new_facts :
    (plan_id summary : Text) (plan : FixPlan)
    → new plan_id summary ≡ ok plan
    → (validate_identity (fresh plan_id summary) ≡ ok tt) × (fresh plan_id summary ≡ plan)
unfolding new
new_facts plan_id summary plan h = ground arith

IsSound-fresh :
    (plan_id summary : Text)
    → validate_identity (fresh plan_id summary) ≡ ok tt
    → IsSound (fresh plan_id summary)
unfolding validate_changes
IsSound-fresh plan_id summary h = record { identity = h; changes = refl; free = tt; distinct = tt }

IsSound-Built : {plan : FixPlan} → Built plan → IsSound plan
unfolding validate_change add_package_command validate_identity change_path
IsSound-Built (created plan_id summary plan h) =
    let (valid, e) = new_facts plan_id summary plan h in
    subst IsSound e (IsSound-fresh plan_id summary valid)
IsSound-Built (edited plan next fix path edits reason b h) =
    let (free, some_edits, apart, other, reasoned, e) =
      edited_facts plan next fix path edits reason h in
    subst IsSound (sym e) (
      IsSound-push plan (modify path fix.expected_content (sort_by span_leq edits) reason)
        (IsSound-Built b) free other
        (rw (validate_change, reasoned, is_nil-sort_by edits some_edits) apart))
IsSound-Built (deleted plan next fix path reason b h) =
    let (free, other, reasoned, e) = deleted_facts plan next fix path reason h in
    subst IsSound (sym e) (
      IsSound-push plan (delete path fix.expected_content reason) (IsSound-Built b) free other
        reasoned)
IsSound-Built (commanded plan command b) =
    let s = IsSound-Built b in
    record { identity = s.identity; changes = s.changes; free = s.free; distinct = s.distinct }

-- Of a plan that was made by `new`, `add_source_edits`, `add_file_deletion` and
-- `add_package_command` in any order, the identity, the paths and the file changes always pass
-- `validate`: its result is that of the checks of the package commands.
pub validate-Built :
    (plan : FixPlan)
    → Built plan
    → validate plan ≡ validate_commands (paths_of plan) [] plan.package_commands
unfolding validate
validate-Built plan b =
    let s = IsSound-Built b in
    let free : All IsFree (sort (paths_of plan)) =
      All-intro _ _
        (λ p m. All-of-Memᴰ IsFree (paths_of plan) s.free ((mem-sort_by leq p _).0 m)) in
    rw
      (
        s.identity,
        s.changes,
        validate_paths-ok none (sort (paths_of plan)) free
            (IsDistinct-sort (paths_of plan) s.distinct) tt,
      )
      refl
