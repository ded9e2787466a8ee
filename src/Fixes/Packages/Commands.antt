-- ===== src/Fixes/Packages/Commands.antt =====
-- What an accepted command looks like, and what the constructor accepts.
use mathlib.Core.List.Memᴰ
use mathlib.Core.List.{Perm}
use orphanode.Common.{
  Bool, true, false, not, ◌≡◌, ◌≢◌, refl, ap, ◌⊎◌, inl, inr, ◌↔◌, ⊎_elim, sym, ◌∙◌, subst, List, [],
  ◌∷◌, map, all, All, Memᴰ, adjacent, is_nil-false, arith, All-of-Memᴰ, All-intro, Bool-cases,
}
use orphanode.Common.Text.{Text, text, starts_with}
use orphanode.Common.Result.{Result, ok, err, reject_if, >>=-eq-ok}
use orphanode.Common.Order.{same, same_iff, same_list_iff, leq, text_ord}
use orphanode.Common.Sorting.{
  sort_by, insert_by, mem-insert_by, sort_by-perm, mem-sort_by, sort_by-IsSortedBy, IsSortedBy,
}
use orphanode.Cache.Digest.{Digest}
use orphanode.Fixes.ProjectPath.{ProjectPath}
use orphanode.Fixes.Packages.{
  PackageManager, npm, executable, remove_subcommand, Fault, valid_package_name,
  validate_dependency, DependencyRemoval, bad_reason, validate_reason, validate_removal,
  PackageManagerCommand, dependency_name, workspace_manifest_path, validate_removals,
  expected_arguments, validate, remove_direct_dependencies, is_name_byte,
}

-- A removal that its constructor accepts.
pub record IsValidRemoval (r : DependencyRemoval) : Type 0 where
  pub name : valid_package_name (dependency_name r) ≡ true
  pub reason : bad_reason r.reason ≡ false

pub record IsWellFormed (c : PackageManagerCommand) : Type 0 where
  pub some_removal : c.removals ≢ []
  pub removals : All IsValidRemoval c.removals
  pub increasing :
      adjacent (λ a b. not (leq (dependency_name b) (dependency_name a))) c.removals ≡ true
  pub manifest : workspace_manifest_path c.working_directory ≡ ok c.manifest_path
  pub program : c.program ≡ executable c.manager
  pub arguments : c.arguments ≡ remove_subcommand c.manager ∷ map dependency_name c.removals

reject_if-ok : {E : Type 0} (b : Bool) (e : E) → reject_if b e ≡ ok tt → b ≡ false
reject_if-ok true e h = cc
reject_if-ok false e h = refl

validate_removal-ok : (r : DependencyRemoval) → (validate_removal r ≡ ok tt) ↔ IsValidRemoval r
unfolding validate_removal validate_dependency validate_reason
validate_removal-ok r = (λ h. ground arith, λ v. ground arith)

validate_removals-ok :
    (rs : List DependencyRemoval) → (validate_removals rs ≡ ok tt) ↔ All IsValidRemoval rs
unfolding validate_removals
validate_removals-ok [] = (λ _. tt, λ _. refl)
validate_removals-ok (r ∷ rs) = (
  λ h.
      let (u, e, h') = >>=-eq-ok (validate_removal r) _ h in
      ((validate_removal-ok r).0 e, (validate_removals-ok rs).0 h'),
  λ v. rw ((validate_removal-ok r).1 v.0) ((validate_removals-ok rs).1 v.1),
)

manifest_cases :
    (r : Result Fault ProjectPath) → ((m : ProjectPath) × (r ≡ ok m)) ⊎ ((e : Fault) × (r ≡ err e))
manifest_cases (ok m) = inl (m, refl)
manifest_cases (err e) = inr (e, refl)

-- The checks of `validate` pass exactly on the well-formed commands.
pub validate-ok : (c : PackageManagerCommand) → (validate c ≡ ok tt) ↔ IsWellFormed c
unfolding validate expected_arguments
validate-ok c =
    let args = remove_subcommand c.manager ∷ map dependency_name c.removals in
    let removals = validate_removals-ok c.removals in
    let program = same_iff c.program (executable c.manager) in
    let arguments = same_list_iff c.arguments args in
    elim (manifest_cases (workspace_manifest_path c.working_directory)) [
      | inl (m, e) ↦
          let manifest = same_iff c.manifest_path.value m.value in
          (λ h. ground arith, λ w. ground arith)
      | inr (f, e) ↦ (λ h. ground arith, λ w. ground arith)
    ]

abbrev name_leq : DependencyRemoval → DependencyRemoval → Bool
name_leq a b = leq (dependency_name a) (dependency_name b)

-- No two removals name one dependency.
abbrev pub AreDistinct : List DependencyRemoval → Type 0
AreDistinct [] = Unit
AreDistinct (r ∷ rs) = All (λ q. dependency_name q ≢ dependency_name r) rs × AreDistinct rs

insert_by-AreDistinct :
    (r : DependencyRemoval) (rs : List DependencyRemoval)
    → All (λ q. dependency_name q ≢ dependency_name r) rs
    → AreDistinct rs
    → AreDistinct (insert_by name_leq r rs)
insert_by-AreDistinct r [] new h = (tt, tt)
insert_by-AreDistinct r (q ∷ rs) new h = elim (Bool-cases (name_leq r q)) [
  | inl e ↦ rw (insert_by, e) (new, h)
  | inr e ↦
      rw (insert_by, e)
        (
          All-intro _ _ (λ p m.
              ⊎_elim (λ same e'. new.0 (sym e' ∙ ap dependency_name same))
                (All-of-Memᴰ (λ p. dependency_name p ≢ dependency_name q) rs h.0)
                ((mem-insert_by name_leq p r rs).0 m)),
          insert_by-AreDistinct r rs new.1 h.1,
        )
]

sort_by-AreDistinct :
    (rs : List DependencyRemoval) → AreDistinct rs → AreDistinct (sort_by name_leq rs)
unfolding sort_by
sort_by-AreDistinct [] h = tt
sort_by-AreDistinct (r ∷ rs) h =
    insert_by-AreDistinct r (sort_by name_leq rs)
      (All-intro _ _ (λ q m.
        All-of-Memᴰ (λ p. dependency_name p ≢ dependency_name r) rs h.0
          ((mem-sort_by name_leq q rs).0 m)))
      (sort_by-AreDistinct rs h.1)

-- Neighbours of distinct names differ, and in a sorted list they increase.
adjacent_distinct :
    (rs : List DependencyRemoval)
    → AreDistinct rs
    → adjacent (λ a b. not (same (dependency_name a) (dependency_name b))) rs ≡ true
adjacent_distinct [] h = refl
adjacent_distinct (r ∷ []) h = refl
adjacent_distinct (r ∷ q ∷ rs) h =
    ground (arith, same_iff (dependency_name r) (dependency_name q), adjacent_distinct (q ∷ rs) h.1)

adjacent_increasing :
    (rs : List DependencyRemoval)
    → IsSortedBy name_leq rs
    → adjacent (λ a b. not (same (dependency_name a) (dependency_name b))) rs ≡ true
    → adjacent (λ a b. not (leq (dependency_name b) (dependency_name a))) rs ≡ true
adjacent_increasing [] h d = refl
adjacent_increasing (r ∷ []) h d = refl
adjacent_increasing (r ∷ q ∷ rs) h d = ground (arith, h.0.0, adjacent_increasing (q ∷ rs) h.1)

sort_by-ne-nil : (rs : List DependencyRemoval) → rs ≢ [] → sort_by name_leq rs ≢ []
sort_by-ne-nil [] h e = h refl
sort_by-ne-nil (r ∷ rs) h e =
    Memᴰ.not-nil (subst (Memᴰ r) e ((mem-sort_by name_leq r (r ∷ rs)).1 (Memᴰ.head refl)))

command_of :
    PackageManager
    → ProjectPath
    → Digest
    → List DependencyRemoval
    → ProjectPath
    → PackageManagerCommand
command_of manager wd content rs manifest = record {
  manager = manager;
  working_directory = wd;
  manifest_path = manifest;
  analyzed_manifest_content = content;
  removals = rs;
  program = executable manager;
  arguments = remove_subcommand manager ∷ map dependency_name rs;
}

-- For removals that are not empty, each valid and of pairwise different names, in a workspace whose
-- manifest path is accepted, the constructor returns a well-formed command for that manager,
-- workspace, manifest and content, whose removals are the given ones in order of name.
pub remove_direct_dependencies-ok :
    (manager : PackageManager) (wd manifest : ProjectPath) (content : Digest)
    (rs : List DependencyRemoval)
    → rs ≢ []
    → All IsValidRemoval rs
    → AreDistinct rs
    → workspace_manifest_path wd ≡ ok manifest
    → (c : PackageManagerCommand) × (remove_direct_dependencies manager wd content rs ≡ ok c)
      × IsWellFormed c
      × Perm c.removals rs
      × (c.manager ≡ manager)
      × (c.working_directory ≡ wd)
      × (c.manifest_path ≡ manifest)
      × (c.analyzed_manifest_content ≡ content)
unfolding remove_direct_dependencies command_of
remove_direct_dependencies-ok manager wd manifest content rs ne valid distinct at =
    let sorted = sort_by name_leq rs in
    let c = command_of manager wd content sorted manifest in
    let different = adjacent_distinct sorted (sort_by-AreDistinct rs distinct) in
    let in_order =
      sort_by-IsSortedBy name_leq (λ a b. text_ord.total (dependency_name a) (dependency_name b))
        (λ a b d. text_ord.trans (dependency_name a) (dependency_name b) (dependency_name d)) rs in
    let w : IsWellFormed c = record {
      some_removal = sort_by-ne-nil rs ne;
      removals =
          All-intro IsValidRemoval sorted
            (λ r m. All-of-Memᴰ IsValidRemoval rs valid ((mem-sort_by name_leq r rs).0 m));
      increasing = adjacent_increasing sorted in_order different;
      manifest = at;
      program = refl;
      arguments = refl;
    } in
    let passes : validate c ≡ ok tt = (validate-ok c).1 w in
    let some_sorted = is_nil-false sorted (sort_by-ne-nil rs ne) in
    (
      c,
      rw (some_sorted, different, reject_if, at, passes),
      w,
      sort_by-perm name_leq rs,
      refl,
      refl,
      refl,
      refl,
    )

name_lem :
    (n : Text)
    → valid_package_name n ≡ true
    → (starts_with (text "-") n ≡ false) × (all is_name_byte n ≡ true)
unfolding valid_package_name
name_lem n h = ground arith

-- No argument of a well-formed command can be read as an option, and behind the subcommand every
-- character is a lower-case letter, a digit or one of `@`, `/`, `-`, `_` and `.`.
pub arguments_are_names :
    (c : PackageManagerCommand)
    → validate c ≡ ok tt
    → All (λ a. (starts_with (text "-") a ≡ false) × (all is_name_byte a ≡ true)) c.arguments
unfolding remove_subcommand
arguments_are_names c h =
    let w = (validate-ok c).0 h in
    rw (w.arguments) (subcommand c.manager, names c.removals w.removals)
  where
    subcommand :
        (m : PackageManager)
        → (starts_with (text "-") (remove_subcommand m) ≡ false)
          × (all is_name_byte (remove_subcommand m) ≡ true)
    subcommand npm = (refl, refl)
    subcommand _ = (refl, refl)

    names :
        (rs : List DependencyRemoval)
        → All IsValidRemoval rs
        → All
            (λ a. (starts_with (text "-") a ≡ false) × (all is_name_byte a ≡ true))
            (map dependency_name rs)
    names [] v = tt
    names (r ∷ rs) v = (name_lem (dependency_name r) v.0.name, names rs v.1)
