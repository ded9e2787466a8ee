-- ===== src/Dependencies/Declared.antt =====
-- What the collected declarations hold: the packages that the manifests declare.
pub mod Found
use mathlib.Core.List.Memᴰ
use orphanode.Common.{
  Bool, true, false, Option, none, some, List, [], ◌∷◌, ◌++◌, ◌≡◌, refl, sym, subst, ◌⊎◌, inl, inr,
  ◌↔◌, arith, Memᴰ, Memᴰ-cons, All, All-of-Memᴰ, and_then, Bool-cases, Option-cases,
}
use orphanode.Common.Order.{same, same_iff, text_ord}
use orphanode.Common.Maps.{
  or_default, get, alter, modify, get-alter, get-alter_other, get-Memᴰ, All-alter, All-modify,
  set_insert, has_key, has_key-alter, has_key-modify,
}
use orphanode.Common.Text.{Text}
use orphanode.Dependencies.Names.{package_name, npm_alias_target}
use orphanode.Dependencies.Facts.{
  DependencyCategory, runtime, development, peer, optional, DependencyManifest, Declaration,
  category_ord,
}
use orphanode.Dependencies.Collect.{
  Declarations, Workspaces, is_some, no_declaration, insert_target, declare, add_category,
  mark_bundled, add_manifest, collect_from, collect_declarations, is_declared,
}

-- The four maps of a manifest that declare packages.
abbrev pub entries : DependencyManifest → List (Text × Text)
entries m =
    m.dependencies ++ (m.dev_dependencies ++ (m.peer_dependencies ++ m.optional_dependencies))

-- An entry of a list of them is for the package.
abbrev pub ListsPackage : List (Text × Text) → Text → Type 0
ListsPackage packages name =
    (declared_name : Text) × (requirement : Text) × Memᴰ {A = Text × Text}
      (declared_name, requirement) packages
    × (package_name declared_name ≡ some name)

-- A manifest of the workspace declares the package.
abbrev pub IsDeclaredIn : List DependencyManifest → Text → Text → Type 0
IsDeclaredIn manifests workspace name =
    (m : DependencyManifest) × Memᴰ m manifests
    × (m.workspace ≡ workspace)
    × ListsPackage (entries m) name

-- The declaration after an entry.
abbrev pub updated : DependencyCategory → Text → Option Declaration → Declaration
updated category requirement found =
    let d = or_default no_declaration found in
    record {
      categories = set_insert category d.categories;
      alias_targets = insert_target (npm_alias_target requirement) d.alias_targets;
      bundled = d.bundled;
    }

module _ (P : Text → Type 0) where
  abbrev AllNames : Declarations → Type 0
  AllNames = All (λ (x : Text × Declaration). P x.0)

  declare_sound :
      (category : DependencyCategory) (declared_name requirement : Text) (ds : Declarations)
      → ((name : Text) → package_name declared_name ≡ some name → P name)
      → AllNames ds
      → AllNames (declare category declared_name requirement ds)
  unfolding declare
  declare_sound category declared_name requirement ds h all =
      elim (Option-cases (package_name declared_name)) [
        | inl nameless ↦ rw (declare, nameless) all
        | inr (name, named) ↦
            rw (declare, named)
              (All-alter (λ (x : Text × Declaration). P x.0) name (updated category requirement) ds
                all (h name named) (λ d p. p))
      ]

  add_category_sound :
      (packages : List (Text × Text)) (category : DependencyCategory) (ds : Declarations)
      → ((name : Text) → ListsPackage packages name → P name)
      → AllNames ds
      → AllNames (add_category ds packages category)
  unfolding add_category
  add_category_sound [] category ds h all = all
  add_category_sound ((declared_name, requirement) ∷ packages) category ds h all =
      add_category_sound packages category _ (λ name (d, r, m, e). h name (d, r, Memᴰ.tail m, e))
        (declare_sound category declared_name requirement ds
          (λ name e. h name (declared_name, requirement, Memᴰ.head refl, e)) all)

  mark_bundled_sound :
      (names : List Text) (ds : Declarations) → AllNames ds → AllNames (mark_bundled names ds)
  unfolding mark_bundled
  mark_bundled_sound [] ds all = all
  mark_bundled_sound (declared_name ∷ names) ds all =
      elim (Option-cases (package_name declared_name)) [
        | inl nameless ↦ rw (mark_bundled, nameless) (mark_bundled_sound names ds all)
        | inr (name, named) ↦
            rw (mark_bundled, named) (mark_bundled_sound names _ (All-modify P name _ ds all))
      ]

  add_manifest_sound :
      (m : DependencyManifest) (ds : Declarations)
      → ((name : Text) → ListsPackage (entries m) name → P name)
      → AllNames ds
      → AllNames (add_manifest m ds)
  unfolding add_manifest
  add_manifest_sound m ds h all =
      let one = m.dependencies in
      let two = m.dev_dependencies in
      let three = m.peer_dependencies in
      let four = m.optional_dependencies in
      mark_bundled_sound m.bundled_dependencies _ (
        add_category_sound four optional _
          (λ n (d, r, i, e).
            h n
              (d, r, Memᴰ.append_right one (Memᴰ.append_right two (Memᴰ.append_right three i)), e))
          (add_category_sound three peer _
            (λ n (d, r, i, e).
              h n (d, r, Memᴰ.append_right one (Memᴰ.append_right two (Memᴰ.append_left _ i)), e))
            (add_category_sound two development _
              (λ n (d, r, i, e). h n (d, r, Memᴰ.append_right one (Memᴰ.append_left _ i), e))
              (add_category_sound one runtime ds
                (λ n (d, r, i, e). h n (d, r, Memᴰ.append_left _ i, e)) all))))

module _ (Q : Text → Text → Type 0) where
  abbrev pub AllDeclared : Workspaces → Type 0
  AllDeclared = All (λ (x : Text × Declarations). All (λ (y : Text × Declaration). Q x.0 y.0) x.1)

  pub collect_from_sound :
      (manifests : List DependencyManifest) (ws : Workspaces)
      → ((w name : Text) → IsDeclaredIn manifests w name → Q w name)
      → AllDeclared ws
      → AllDeclared (collect_from ws manifests)
  unfolding collect_from
  collect_from_sound [] ws h all = all
  collect_from_sound (m ∷ manifests) ws h all =
      let here : (name : Text) → ListsPackage (entries m) name → Q m.workspace name =
        λ name l. h m.workspace name (m, Memᴰ.head refl, refl, l) in
      collect_from_sound manifests _ (λ w name (x, i, e, l). h w name (x, Memᴰ.tail i, e, l))
        (All-alter (λ (x : Text × Declarations). All (λ (y : Text × Declaration). Q x.0 y.0) x.1)
          m.workspace (λ found. add_manifest m (or_default [] found)) ws all
          (add_manifest_sound (Q m.workspace) m [] here tt)
          (λ ds old. add_manifest_sound (Q m.workspace) m ds here old))
