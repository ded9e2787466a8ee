-- ===== src/Dependencies/Declared/Found.antt =====
-- Every package that a manifest declares is found among the collected declarations, and no other.
use mathlib.Core.List.Memᴰ
use orphanode.Common.{
  true, Option, some, List, [], ◌∷◌, ◌≡◌, refl, sym, subst, ◌⊎◌, inl, inr, ◌↔◌, arith, All-of-Memᴰ,
  and_then, Bool-cases, Option-cases,
}
use orphanode.Common.Order.{same, same_iff, text_ord}
use orphanode.Common.Maps.{
  or_default, get, alter, get-alter, get-alter_other, get-Memᴰ, has_key, has_key-alter,
  has_key-modify,
}
use orphanode.Common.Text.{Text}
use orphanode.Dependencies.Names.{package_name}
use orphanode.Dependencies.Facts.{
  DependencyCategory, runtime, development, peer, optional, DependencyManifest, Declaration,
  category_ord,
}
use orphanode.Dependencies.Collect.{
  Declarations, Workspaces, is_some, declare, add_category, mark_bundled, add_manifest,
  collect_from, collect_declarations, is_declared,
}
use orphanode.Dependencies.Declared.{
  entries, ListsPackage, IsDeclaredIn, updated, AllDeclared, collect_from_sound,
}

declare_adds :
    (category : DependencyCategory) (declared_name requirement name : Text) (ds : Declarations)
    → (package_name declared_name ≡ some name) ⊎ (has_key ds name ≡ true)
    → has_key (declare category declared_name requirement ds) name ≡ true
unfolding declare
declare_adds category declared_name requirement name ds (inl named) =
    rw (declare, named, has_key, get-alter name (updated category requirement) ds) refl
declare_adds category declared_name requirement name ds (inr old) =
    elim (Option-cases (package_name declared_name)) [
      | inl nameless ↦ rw (declare, nameless) old
      | inr (other, named) ↦
          rw (declare, named) (has_key-alter other name (updated category requirement) ds old)
    ]

add_category_adds :
    (packages : List (Text × Text)) (category : DependencyCategory) (name : Text)
    (ds : Declarations)
    → ListsPackage packages name ⊎ (has_key ds name ≡ true)
    → has_key (add_category ds packages category) name ≡ true
unfolding add_category
add_category_adds [] category name ds (inl (d, r, m, e)) = absurd (Memᴰ.not-nil m)
add_category_adds [] category name ds (inr old) = old
add_category_adds ((declared_name, requirement) ∷ packages) category name ds h =
    add_category_adds packages category name (declare category declared_name requirement ds)
      (elim h [
        | inr old ↦ inr (declare_adds category declared_name requirement name ds (inr old))
        | inl (d, r, m, e) ↦ elim (Memᴰ.cases_cons m) [
          | inl here ↦
              let same_name : d ≡ declared_name = ground (arith, here) in
              inr (
                declare_adds category declared_name requirement name ds
                  (inl (subst (λ x. package_name x ≡ some name) same_name e)))
          | inr later ↦ inl (d, r, later, e)
        ]
      ])

mark_bundled_keeps :
    (names : List Text) (name : Text) (ds : Declarations)
    → has_key ds name ≡ true
    → has_key (mark_bundled names ds) name ≡ true
unfolding mark_bundled
mark_bundled_keeps [] name ds h = h
mark_bundled_keeps (declared_name ∷ names) name ds h =
    elim (Option-cases (package_name declared_name)) [
      | inl nameless ↦ rw (mark_bundled, nameless) (mark_bundled_keeps names name ds h)
      | inr (other, named) ↦
          rw (mark_bundled, named)
            (mark_bundled_keeps names name _ (has_key-modify other name _ ds h))
    ]

some-key : (ds : Declarations) (name : Text) → has_key ds name ≡ true → is_some (get ds name) ≡ true
some-key ds name h = elim (Option-cases (get ds name)) [
  | inl e ↦ absurd (ground (arith, h, e))
  | inr (d, e) ↦ rw e refl
]

-- The declaration that is found.
pub declared_entry :
    (ws : Workspaces) (w name : Text)
    → is_declared ws w name ≡ true
    → (ds : Declarations) × (d : Declaration) × (get ws w ≡ some ds) × (get ds name ≡ some d)
unfolding is_declared
declared_entry ws w name h = elim (Option-cases (get ws w)) [
  | inl e ↦ absurd (ground (arith, h, e))
  | inr (ds, e) ↦ elim (Option-cases (get ds name)) [
    | inl missing ↦ absurd (ground (arith, h, e, missing))
    | inr (d, found) ↦ (ds, d, e, found)
  ]
]

found-key :
    (ws : Workspaces) (w name : Text)
    → is_declared ws w name ≡ true
    → has_key (or_default [] (get ws w)) name ≡ true
unfolding is_declared
found-key ws w name h = elim (Option-cases (get ws w)) [
  | inl e ↦ absurd (ground (arith, h, e))
  | inr (ds, e) ↦
      rw (e, has_key)
        (elim (Option-cases (get ds name)) [
          | inl missing ↦ absurd (ground (arith, h, e, missing))
          | inr (d, found) ↦ rw found refl
        ])
]

add_manifest_adds :
    (m : DependencyManifest) (name : Text) (ds : Declarations)
    → ListsPackage (entries m) name ⊎ (has_key ds name ≡ true)
    → has_key (add_manifest m ds) name ≡ true
unfolding add_manifest
add_manifest_adds m name ds h =
    let a = add_category_adds m.dependencies runtime name ds in
    let b = add_category_adds m.dev_dependencies development name _ in
    let c = add_category_adds m.peer_dependencies peer name _ in
    let e = add_category_adds m.optional_dependencies optional name _ in
    mark_bundled_keeps m.bundled_dependencies name _ (elim h [
      | inr old ↦ e (inr (c (inr (b (inr (a (inr old)))))))
      | inl (d, r, i, is) ↦ elim (Memᴰ.append_cases m.dependencies i) [
        | inl i1 ↦ e (inr (c (inr (b (inr (a (inl (d, r, i1, is))))))))
        | inr j ↦ elim (Memᴰ.append_cases m.dev_dependencies j) [
          | inl i2 ↦ e (inr (c (inr (b (inl (d, r, i2, is))))))
          | inr k ↦ elim (Memᴰ.append_cases m.peer_dependencies k) [
            | inl i3 ↦ e (inr (c (inl (d, r, i3, is))))
            | inr i4 ↦ e (inl (d, r, i4, is))
          ]
        ]
      ]
    ])

is_declared-alter :
    (m : DependencyManifest) (w name : Text) (ws : Workspaces)
    → ((m.workspace ≡ w) × ListsPackage (entries m) name) ⊎ (is_declared ws w name ≡ true)
    → is_declared (alter m.workspace (λ found. add_manifest m (or_default [] found)) ws) w name
      ≡ true
unfolding is_declared
is_declared-alter m w name ws h =
    let f = λ (found : Option Declarations). add_manifest m (or_default [] found) in
    elim (Bool-cases (same m.workspace w)) [
      | inr ne ↦
          rw (get-alter_other m.workspace w (λ found. add_manifest m (or_default [] found)) ws ne)
            (elim h [
              | inl (eq, _) ↦ absurd (ground (arith, same_iff m.workspace w, ne, eq))
              | inr old ↦ old
            ])
      | inl eq ↦
          let is = (same_iff m.workspace w).0 eq in
          subst
            (λ v.
              is_declared (alter m.workspace (λ found. add_manifest m (or_default [] found)) ws) v
                name
              ≡ true)
            is
            (rw
              (
                is_declared,
                get-alter m.workspace (λ found. add_manifest m (or_default [] found)) ws,
                and_then,
              )
              (some-key _ name (
                add_manifest_adds m name (or_default [] (get ws m.workspace)) (elim h [
                  | inl (_, listed) ↦ inl listed
                  | inr old ↦ inr (
                      found-key ws m.workspace name
                        (subst (λ v. is_declared ws v name ≡ true) (sym is) old))
                ]))))
    ]

collect_from_adds :
    (manifests : List DependencyManifest) (w name : Text) (ws : Workspaces)
    → IsDeclaredIn manifests w name ⊎ (is_declared ws w name ≡ true)
    → is_declared (collect_from ws manifests) w name ≡ true
unfolding collect_from
collect_from_adds [] w name ws (inl (m, i, e, l)) = absurd (Memᴰ.not-nil i)
collect_from_adds [] w name ws (inr old) = old
collect_from_adds (m ∷ manifests) w name ws h = collect_from_adds manifests w name _ (elim h [
  | inr old ↦ inr (is_declared-alter m w name ws (inr old))
  | inl (x, i, e, l) ↦ elim (Memᴰ.cases_cons i) [
    | inl here ↦
        let (is, lists) =
          subst (λ y. (y.workspace ≡ w) × ListsPackage (entries y) name) here (e, l) in
        inr (is_declared-alter m w name ws (inl (is, lists)))
    | inr later ↦ inl (x, later, e, l)
  ]
])

-- The collected entries are declared.
pub collect_declarations_sound :
    (manifests : List DependencyManifest)
    → AllDeclared (IsDeclaredIn manifests) (collect_declarations manifests)
unfolding collect_declarations
collect_declarations_sound manifests =
    collect_from_sound (IsDeclaredIn manifests) manifests [] (λ w name d. d) tt

pub is_declared_iff :
    (manifests : List DependencyManifest) (w name : Text)
    → (is_declared (collect_declarations manifests) w name ≡ true) ↔ IsDeclaredIn manifests w name
unfolding collect_declarations is_declared
is_declared_iff manifests w name = (
  λ h.
      let (ds, d, has, found) = declared_entry (collect_declarations manifests) w name h in
      All-of-Memᴰ _ _
        (All-of-Memᴰ _ _ (collect_declarations_sound manifests)
          (get-Memᴰ (collect_declarations manifests) w has))
        (get-Memᴰ ds name found),
  λ d. collect_from_adds manifests w name [] (inl d),
)
