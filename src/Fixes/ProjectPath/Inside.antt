-- ===== src/Fixes/ProjectPath/Inside.antt =====
-- An accepted path stays below the project's root.
use mathlib.Core.Path.{◌∙◌, sym}
use mathlib.Core.List.{append_assoc}
use orphanode.Common.{false, ◌≡◌, refl, ap, ◌⊎◌, inl, inr, List, [], ◌∷◌, ◌++◌, any, arith}
use orphanode.Common.Text.{Text, text, split, replace_char}
use orphanode.Common.Result.{ok}
use orphanode.Common.Order.{text_ord, same_iff}
use orphanode.Common.FilePath.{
  Component, root_dir, cur_dir, parent_dir, normal, components, split_components, later_components,
}
use orphanode.Fixes.ProjectPath.{ProjectPath, is_unsafe, check, new}

-- What a file system without links makes of the components, from a directory given by its names,
-- innermost first.
abbrev pub resolve : List Text → List Component → List Text
resolve dir [] = dir
resolve dir (root_dir ∷ cs) = resolve [] cs
resolve dir (cur_dir ∷ cs) = resolve dir cs
resolve [] (parent_dir ∷ cs) = resolve [] cs
resolve (_ ∷ dir) (parent_dir ∷ cs) = resolve dir cs
resolve dir (normal name ∷ cs) = resolve (name ∷ dir) cs

resolve_names :
    (dir : List Text) (cs : List Component)
    → any is_unsafe cs ≡ false
    → (names : List Text) × (resolve dir cs ≡ names ++ dir)
resolve_names dir [] h = ([], refl)
resolve_names dir (root_dir ∷ cs) h = cc
resolve_names dir (cur_dir ∷ cs) h = cc
resolve_names [] (parent_dir ∷ cs) h = cc
resolve_names (_ ∷ dir) (parent_dir ∷ cs) h = cc
resolve_names dir (normal name ∷ cs) h =
    let (names, e) = resolve_names (name ∷ dir) cs h in
    (names ++ name ∷ [], e ∙ sym (append_assoc names (name ∷ []) dir))

resolve_dot : (dir : List Text) → resolve dir (components (text ".")) ≡ dir
unfolding components split split_components later_components
resolve_dot dir = refl

check-eq-ok :
    (value : Text) {p : ProjectPath}
    → check value ≡ ok p
    → (p.value ≡ value) × ((value ≡ text ".") ⊎ (any is_unsafe (components value) ≡ false))
unfolding check
check-eq-ok value h = ground (arith, same_iff value (text "."))

pub replace_char_idem :
    (value : Text)
    → replace_char b'\\' b'/' (replace_char b'\\' b'/' value) ≡ replace_char b'\\' b'/' value
replace_char_idem [] = refl
replace_char_idem (c ∷ s) = ground (arith, replace_char_idem s)

-- An accepted path, read from any directory of a file system without links, names something at or
-- below that directory: the names that it adds are all that changes.
pub new_stays_inside :
    (value : Text) (p : ProjectPath) (dir : List Text)
    → new value ≡ ok p
    → (names : List Text) × (resolve dir (components p.value) ≡ names ++ dir)
unfolding new
new_stays_inside value p dir h =
    let (same_value, safe) = check-eq-ok (replace_char b'\\' b'/' value) h in
    rw same_value (elim safe [
      | inl is_dot ↦ ([], rw is_dot (resolve_dot dir))
      | inr names ↦ resolve_names dir (components (replace_char b'\\' b'/' value)) names
    ])

-- An accepted path is the given text with its backslashes turned into slashes, and accepting it
-- again changes nothing.
pub new-new :
    (value : Text) (p : ProjectPath)
    → new value ≡ ok p
    → (p.value ≡ replace_char b'\\' b'/' value) × (new p.value ≡ ok p)
unfolding new
new-new value p h =
    let (same_value, _) = check-eq-ok (replace_char b'\\' b'/' value) h in
    (
      same_value,
      ap (λ v. check (replace_char b'\\' b'/' v)) same_value
          ∙ (ap check (replace_char_idem value) ∙ h),
    )
