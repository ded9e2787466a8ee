-- ===== src/Dependencies/Grouping.antt =====
-- Reachable evidence reaches the group of its package, and blockers reach their workspace.
use mathlib.Core.List.Memᴰ
use orphanode.Common.{
  Bool, true, false, Option, none, some, List, [], ◌∷◌, ◌++◌, ◌≡◌, refl, sym, subst, ◌⊎◌, inl, inr,
  ◌↔◌, arith, Memᴰ, Memᴰ-cons, Memᴰ-snoc, Bool-cases, Option-cases, if◌then◌else◌,
}
use orphanode.Common.Order.{Ord, same, same_iff, text_ord}
use orphanode.Common.Maps.{or_default, get, alter, mem-set_insert, get-alter, get-alter_other}
use orphanode.Common.Text.{Text}
use orphanode.Dependencies.Names.{package_name, normalize_binary_name}
use orphanode.Dependencies.Facts.{
  DependencyEvidence, NormalizedDependencyEvidence, UnmappedBinary, names_ord, evidence_ord,
  unmapped_ord, blocker_ord,
}
use orphanode.Dependencies.Collect.{
  Workspaces, AliasTargets, Groups, Normalization, is_binary, declared_alias, normalized_item,
  insert_package, normalize_item, normalize_from, group_from,
}

-- What a map of lists holds under a key.
abbrev pub held {ℓ κ} : {K : Type ℓ} {A : Type κ} ⦃o : Ord K⦄ → List (K × List A) → K → List A
held m k = or_default [] (get m k)

-- Pushing onto the list of a key adds one element there, and nothing under the other keys.
pub mem-push {ℓ κ} :
    {K : Type ℓ} {A : Type κ} ⦃o : Ord K⦄ (k i : K) (a x : A) (m : List (K × List A))
    → Memᴰ a (held (alter k (λ found. or_default [] found ++ x ∷ []) m) i)
      ↔ (Memᴰ a (held m i) ⊎ ((k ≡ i) × (a ≡ x)))
mem-push k i a x m = elim (Bool-cases (same k i)) [
  | inl eq ↦
      let e = (same_iff k i).0 eq in
      subst
        (λ j.
          Memᴰ a (held (alter k (λ found. or_default [] found ++ x ∷ []) m) j)
          ↔ (Memᴰ a (held m j) ⊎ ((k ≡ j) × (a ≡ x))))
        e
        (rw (get-alter k (λ found. or_default [] found ++ x ∷ []) m)
          (ground (arith, Memᴰ-snoc a x (held m k))))
  | inr ne ↦
      rw (get-alter_other k i (λ found. or_default [] found ++ x ∷ []) m ne)
        (ground (arith, same_iff k i))
]

-- The groups hold each piece of evidence under its workspace and package.
pub mem-group_from :
    (a : NormalizedDependencyEvidence) (w p : Text) (groups : Groups)
    (items : List NormalizedDependencyEvidence)
    → Memᴰ a (held (group_from groups items) (w, p))
      ↔ (Memᴰ a (held groups (w, p)) ⊎ (Memᴰ a items × (a.workspace ≡ w) × (a.pkg ≡ p)))
unfolding group_from
mem-group_from a w p groups [] = ground (arith, λ (m : Memᴰ a []). Memᴰ.not-nil m)
mem-group_from a w p groups (x ∷ items) = ground (
  arith,
  mem-group_from a w p (alter (x.workspace, x.pkg) (λ found. or_default [] found ++ x ∷ []) groups)
      items,
  mem-push (x.workspace, x.pkg) (w, p) a x groups,
  Memᴰ-cons a x items,
)

-- What the report says of a binary without an owner.
abbrev pub unmapped_item : DependencyEvidence → UnmappedBinary
unmapped_item e = record {
  workspace = e.workspace;
  binary = normalize_binary_name e.reference;
  source = e.source;
}

module _ (owners : List (Text × Text)) (workspaces : Workspaces) (aliases : AliasTargets) where
  -- The package that a piece of evidence stands for: the one it names, or for a binary the one that
  -- owns it, under the alias that its workspace has for it.
  abbrev pub Names : DependencyEvidence → Text → Type 0
  Names e name =
      ((is_binary e.kind ≡ false) × (package_name e.reference ≡ some name))
      ⊎ ((is_binary e.kind ≡ true)
          × ((owner : Text) × (owned : Text) × (get owners (normalize_binary_name e.reference)
                ≡ some owner)
              × (package_name owner ≡ some owned)
              × (name ≡ declared_alias workspaces aliases true e.workspace owned)))

  abbrev add : DependencyEvidence → Normalization → Normalization
  add = normalize_item owners workspaces aliases

  insert_package_keeps :
      (a : NormalizedDependencyEvidence) (e : DependencyEvidence) (b : Bool) (found : Option Text)
      (s : Normalization)
      → Memᴰ a s.normalized
      → Memᴰ a (insert_package owners workspaces aliases e b found s).normalized
  unfolding insert_package
  insert_package_keeps a e b none s h = h
  insert_package_keeps a e b (some name) s h = (mem-set_insert a _ s.normalized).1 (inr h)

  insert_package_adds :
      (e : DependencyEvidence) (b : Bool) (name : Text) (s : Normalization)
      → Memᴰ
          (normalized_item e (declared_alias workspaces aliases b e.workspace name))
          (insert_package owners workspaces aliases e b (some name) s).normalized
  unfolding insert_package
  insert_package_adds e b name s = (mem-set_insert _ _ s.normalized).1 (inl refl)

  normalize_item_keeps :
      (a : NormalizedDependencyEvidence) (e : DependencyEvidence) (s : Normalization)
      → Memᴰ a s.normalized
      → Memᴰ a (add e s).normalized
  unfolding normalize_item
  normalize_item_keeps a e s h = elim (Bool-cases (is_binary e.kind)) [
    | inl binary ↦ elim (Option-cases (get owners (normalize_binary_name e.reference))) [
      | inl missing ↦ rw (add, binary, missing) h
      | inr (owner, found) ↦
          rw (add, binary, found) (insert_package_keeps a e true (package_name owner) s h)
    ]
    | inr other ↦ rw (add, other) (insert_package_keeps a e false (package_name e.reference) s h)
  ]

  normalize_item_adds :
      (e : DependencyEvidence) (name : Text) (s : Normalization)
      → Names e name
      → Memᴰ (normalized_item e name) (add e s).normalized
  unfolding normalize_item declared_alias
  normalize_item_adds e name s (inl (other, found)) =
      rw (add, other, found) (insert_package_adds e false name s)
  normalize_item_adds e name s (inr (binary, (owner, owned, has, named, alias))) =
      rw (add, binary, has, named, alias) (insert_package_adds e true owned s)

  abbrev add_all : Normalization → List DependencyEvidence → Normalization
  add_all = normalize_from owners workspaces aliases

  -- The body of the loop as it stands under the test of `reachable`.
  guarded_keeps :
      (a : NormalizedDependencyEvidence) (e : DependencyEvidence) (s : Normalization) (test : Bool)
      → Memᴰ a s.normalized
      → Memᴰ a (if test then add e s else s).normalized
  guarded_keeps a e s true h = normalize_item_keeps a e s h
  guarded_keeps a e s false h = h

  normalize_from_keeps :
      (a : NormalizedDependencyEvidence) (s : Normalization) (items : List DependencyEvidence)
      → Memᴰ a s.normalized
      → Memᴰ a (add_all s items).normalized
  unfolding normalize_from
  normalize_from_keeps a s [] h = h
  normalize_from_keeps a s (e ∷ items) h =
      normalize_from_keeps a (if e.reachable then add e s else s) items
        (guarded_keeps a e s e.reachable h)

  -- Reachable evidence for a package is among the normalized evidence.
  pub normalize_from_adds :
      (e : DependencyEvidence) (name : Text) (s : Normalization) (items : List DependencyEvidence)
      → Memᴰ e items
      → e.reachable ≡ true
      → Names e name
      → Memᴰ (normalized_item e name) (add_all s items).normalized
  unfolding normalize_from
  normalize_from_adds e name s [] m r h = absurd (Memᴰ.not-nil m)
  normalize_from_adds e name s (x ∷ items) m r h = elim (Memᴰ.cases_cons m) [
    | inl eq ↦
        let here =
          subst (λ t. Memᴰ (normalized_item e name) (if t then add e s else s).normalized) (sym r)
            (normalize_item_adds e name s h) in
        normalize_from_keeps (normalized_item e name) (if x.reachable then add x s else s) items (
          subst (λ y. Memᴰ (normalized_item e name) (if y.reachable then add y s else s).normalized)
            eq here)
    | inr later ↦ normalize_from_adds e name (if x.reachable then add x s else s) items later r h
  ]

  normalize_item_keeps_unmapped :
      (u : UnmappedBinary) (e : DependencyEvidence) (s : Normalization) (test : Bool)
      → Memᴰ u s.unmapped_binaries
      → Memᴰ u (if test then add e s else s).unmapped_binaries
  unfolding normalize_item insert_package
  normalize_item_keeps_unmapped u e s false h = h
  normalize_item_keeps_unmapped u e s true h = elim (Bool-cases (is_binary e.kind)) [
    | inl binary ↦ elim (Option-cases (get owners (normalize_binary_name e.reference))) [
      | inl missing ↦ rw (add, binary, missing) ((mem-set_insert u _ s.unmapped_binaries).1 (inr h))
      | inr (owner, found) ↦ elim (Option-cases (package_name owner)) [
        | inl nameless ↦ rw (add, binary, found, nameless) h
        | inr (name, named) ↦ rw (add, binary, found, named) h
      ]
    ]
    | inr other ↦ elim (Option-cases (package_name e.reference)) [
      | inl nameless ↦ rw (add, other, nameless) h
      | inr (name, named) ↦ rw (add, other, named) h
    ]
  ]

  normalize_from_keeps_unmapped :
      (u : UnmappedBinary) (s : Normalization) (items : List DependencyEvidence)
      → Memᴰ u s.unmapped_binaries
      → Memᴰ u (add_all s items).unmapped_binaries
  unfolding normalize_from
  normalize_from_keeps_unmapped u s [] h = h
  normalize_from_keeps_unmapped u s (e ∷ items) h =
      normalize_from_keeps_unmapped u (if e.reachable then add e s else s) items
        (normalize_item_keeps_unmapped u e s e.reachable h)

  -- A reachable binary without an owner is listed.
  pub normalize_from_lists :
      (e : DependencyEvidence) (s : Normalization) (items : List DependencyEvidence)
      → Memᴰ e items
      → e.reachable ≡ true
      → is_binary e.kind ≡ true
      → get owners (normalize_binary_name e.reference) ≡ none
      → Memᴰ (unmapped_item e) (add_all s items).unmapped_binaries
  unfolding normalize_from normalize_item
  normalize_from_lists e s [] m r b missing = absurd (Memᴰ.not-nil m)
  normalize_from_lists e s (x ∷ items) m r b missing = elim (Memᴰ.cases_cons m) [
    | inl eq ↦
        let inserted : Memᴰ (unmapped_item e) (add e s).unmapped_binaries =
          rw (add, b, missing)
            ((mem-set_insert (unmapped_item e) _ s.unmapped_binaries).1 (inl refl)) in
        let here =
          subst (λ t. Memᴰ (unmapped_item e) (if t then add e s else s).unmapped_binaries) (sym r)
            inserted in
        normalize_from_keeps_unmapped (unmapped_item e) (if x.reachable then add x s else s) items (
          subst (λ y. Memᴰ (unmapped_item e) (if y.reachable then add y s else s).unmapped_binaries)
            eq here)
    | inr later ↦
        normalize_from_lists e (if x.reachable then add x s else s) items later r b missing
  ]
