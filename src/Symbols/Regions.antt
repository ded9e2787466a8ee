-- ===== src/Symbols/Regions.antt =====
-- crates/orphanode/src/analysis/symbols.rs: `active_eager_regions`, the regions of a file that run
-- when it is loaded.
use mathlib.Core.List.Memᴰ
use mathlib.Core.Logic.{∥∥₁_map}
use orphanode.Common.{
  ℕ, suc, ◌≤◌, ◌<◌, ◌≡◌, refl, sym, ◌∙◌, ◌⊎◌, inl, inr, ◌↔◌, Bool, true, false, Option, none, some,
  List, [], ◌∷◌, Memᴰ, arith, length, get_elem?, set, replicate, ltb, if◌then◌else◌, Memᴰ-cons,
  Bool-cases, get_elem?-some, length-replicate, subst,
}
use orphanode.Common.Vectors.{row, push_at, push_at_lem, push_at-none, row-replicate}
use orphanode.Facts.{FileFacts, ExecutionRegionFact, ExecutionRegionId, module_region}
use orphanode.Search.{Search, mark, mark_all, Outcome, returned, drain, Reach, root, step}
use orphanode.Search.Step.{up, IsIn, mark_all_lem}
use orphanode.Search.Vector.{
  vector_board, flag, up-flag, IsIn-lt, flag-replicate, unmarked-replicate,
}
use orphanode.Search.Loop.{Net, Inv-start, drain_lem}

-- The largest identifier; without regions the count below is one either way.
unfoldable pub last_region : List ExecutionRegionFact → ℕ
last_region [] = 0
last_region (r ∷ regions) = let rest = last_region regions in if ltb rest r.id then r.id else rest

unfoldable pub region_count : List ExecutionRegionFact → ℕ
region_count regions = suc (last_region regions)

-- The body of the loop that fills `eager_children`; a parent past the end has none.
unfoldable pub push_child : Bool → Option ExecutionRegionId → ℕ → List (List ℕ) → List (List ℕ)
push_child false parent id children = children
push_child true none id children = children
push_child true (some parent) id children = elim (push_at children parent id) [
  | none ↦ children
  | some grown ↦ grown
]

unfoldable pub eager_children : List ExecutionRegionFact → List (List ℕ) → List (List ℕ)
eager_children [] children = children
eager_children (r ∷ regions) children =
    eager_children regions (push_child r.eager r.parent r.id children)

unfoldable pub active_eager_regions : FileFacts → Outcome (List Bool)
active_eager_regions facts =
    let regions = facts.symbol_facts.regions in
    let n = region_count regions in
    drain n (get_elem? (eager_children regions (replicate n [])))
      (set (replicate n false) module_region true) (module_region ∷ [])

-- A region is active if it is the module's body, or eager below an active one.
pub data Active (regions : List ExecutionRegionFact) : ℕ → Type 0 where
  module_body : Active regions module_region
  eagerly :
      (r : ExecutionRegionFact) (parent : ExecutionRegionId)
      → Memᴰ r regions
      → r.eager ≡ true
      → r.parent ≡ some parent
      → Active regions parent
      → Active regions r.id

last_region-le :
    (r : ExecutionRegionFact) (regions : List ExecutionRegionFact)
    → Memᴰ r regions
    → r.id ≤ last_region regions
unfolding last_region
last_region-le r [] m = absurd (Memᴰ.not-nil m)
last_region-le r (x ∷ regions) m = ground (arith, Memᴰ-cons r x regions, last_region-le r regions)

push_child_lem :
    (eager : Bool) (parent : Option ℕ) (id : ℕ) (children : List (List ℕ))
    → (length (push_child eager parent id children) ≡ length children)
      × ((p c : ℕ)
          → p < length children
          → Memᴰ c (row (push_child eager parent id children) p)
            ↔ (Memᴰ c (row children p) ⊎ (eager ≡ true) × (parent ≡ some p) × (c ≡ id)))
unfolding push_child
push_child_lem false parent id children = (refl, λ p c h. ground arith)
push_child_lem true none id children = (refl, λ p c h. ground arith)
push_child_lem true (some parent) id children = elim (Bool-cases (ltb parent (length children))) [
  | inl inside ↦
      let (ys, e, size, at) = push_at_lem children parent id (ground (arith, inside)) in
      rw (push_child, e) (size, λ p c h. ground (arith, at p c))
  | inr outside ↦
      let e = push_at-none children parent id (ground (arith, outside)) in
      rw (push_child, e) (refl, λ p c h. ground (arith, outside))
]

-- A region that is an eager child of `p`.
abbrev IsChild : List ExecutionRegionFact → ℕ → ℕ → Type 0
IsChild regions p c =
    (r : ExecutionRegionFact) × Memᴰ r regions × (r.eager ≡ true) × (r.parent ≡ some p) × (c ≡ r.id)

eager_children_lem :
    (regions : List ExecutionRegionFact) (children : List (List ℕ))
    → (length (eager_children regions children) ≡ length children)
      × ((p c : ℕ)
          → p < length children
          → Memᴰ c (row (eager_children regions children) p)
            ↔ (Memᴰ c (row children p) ⊎ IsChild regions p c))
unfolding eager_children
eager_children_lem [] children = (
  refl,
  λ p c h. (inl, λ s. elim s [ inl m ↦ m | inr (r, m, eager, below, e) ↦ absurd (Memᴰ.not-nil m) ]),
)
eager_children_lem (x ∷ regions) children =
    let (size, at) = push_child_lem x.eager x.parent x.id children in
    let (size_all, all) = eager_children_lem regions (push_child x.eager x.parent x.id children) in
    (
      size_all ∙ size,
      λ p c h. (
        λ m. elim ((all p c (omega (arith, size, h))).0 m) [
          | inl now ↦ elim ((at p c h).0 now) [
            | inl before ↦ inl before
            | inr (eager, below, e) ↦ inr (x, Memᴰ.head refl, eager, below, e)
          ]
          | inr (r, later, eager, below, e) ↦ inr (r, Memᴰ.tail later, eager, below, e)
        ],
        λ s. (all p c (omega (arith, size, h))).1 (elim s [
          | inl before ↦ inl ((at p c h).1 (inl before))
          | inr (r, m, eager, below, e) ↦ elim (Memᴰ.cases_cons m) [
            | inl same ↦ inl (
                (at p c h).1 (
                  inr (
                    subst (λ y. (y.eager ≡ true) × (y.parent ≡ some p) × (c ≡ y.id)) same
                      (eager, below, e))))
            | inr later ↦ inr (r, later, eager, below, e)
          ]
        ]),
      ),
    )

module _ (regions : List ExecutionRegionFact) where
  abbrev size : ℕ
  size = region_count regions

  abbrev children : List (List ℕ)
  children = eager_children regions (replicate (region_count regions) [])

  length-children : length children ≡ size
  length-children =
      (eager_children_lem regions (replicate size [])).0 ∙ length-replicate {A = List ℕ} size []

  children_iff : (p c : ℕ) → p < size → Memᴰ c (row children p) ↔ IsChild regions p c
  children_iff p c h =
      let all =
        (eager_children_lem regions (replicate size [])).1 p c
          (omega (arith, h, length-replicate {A = List ℕ} size [])) in
      let none_before : ¬ Memᴰ c (row (replicate size []) p) =
        λ m. Memᴰ.not-nil (subst (Memᴰ c) (row-replicate size p) m) in
      ground (arith, all, none_before)

  region-lt : (p c : ℕ) → IsChild regions p c → c < size
  unfolding region_count
  region-lt p c (r, m, eager, below, e) = omega (arith, e, last_region-le r regions m)

  abbrev net : Net (get_elem? children) (row children)
  net = record {
    IsVertex = λ u. u < size;
    found = λ u h. get_elem?-some children u [] (omega (arith, h, length-children));
    closed = λ u v h m. region-lt u v ((children_iff u v h).0 m);
  }

  Active-Reach :
      {v : ℕ} → Reach (row children) (module_region ∷ []) v → Active regions v × (v < size)
  unfolding region_count
  Active-Reach (root m) = (
    subst (Active regions) (sym (Memᴰ.eq_of_singleton m)) module_body,
    omega (arith, Memᴰ.eq_of_singleton m),
  )
  Active-Reach (step {u} {v} r m) =
      let (below, inside) = Active-Reach r in
      let (fact, is, eager, parent, e) = (children_iff u v inside).0 m in
      (
        subst (Active regions) (sym e) (eagerly fact u is eager parent below),
        region-lt u v (fact, is, eager, parent, e),
      )

  Reach-Active : {v : ℕ} → Active regions v → Reach (row children) (module_region ∷ []) v
  Reach-Active module_body = root (Memᴰ.head refl)
  Reach-Active (eagerly r parent m eager below up) =
      let before = Reach-Active up in
      step before ((children_iff parent r.id (Active-Reach before).1).1 (r, m, eager, below, refl))

-- The search over the eager regions of a file ends without a panic, and flags exactly the active
-- ones.
pub active_eager_regions_lem :
    (facts : FileFacts)
    → (flags : List Bool) × (active_eager_regions facts ≡ returned flags)
      × ((v : ℕ) → (flag flags v ≡ true) ↔ ∥ Active facts.symbol_facts.regions v ∥₁)
unfolding active_eager_regions mark_all mark region_count
active_eager_regions_lem facts =
    let regions = facts.symbol_facts.regions in
    let n = region_count regions in
    let s : Search (List Bool) ℕ = record {
      flags = set (replicate n false) 0 true;
      queue = 0 ∷ [];
    } in
    let inside : (v : ℕ) → v < n → IsIn (replicate n false) v =
      λ v l. IsIn-lt (replicate n false) v (omega (arith, l, length-replicate n false)) in
    let off : (v : ℕ) → up (replicate n false) v ≡ false =
      λ v. up-flag (replicate n false) v ∙ flag-replicate n v in
    let (t, e, m) =
      mark_all_lem (record { flags = replicate n false; queue = [] }) (0 ∷ [])
        (inside 0 (omega arith), tt) in
    let same : s ≡ t = ground (arith, e) in
    let start =
      Inv-start (net regions) (0 ∷ []) (replicate n false) t inside off (omega arith, tt) m in
    let (flags, ends, size, exact) =
      drain_lem (net regions) (0 ∷ []) n t.flags t.queue
        (omega (arith, m.work, unmarked-replicate n)) start in
    (
      flags,
      subst (λ x. drain n (get_elem? (children regions)) x.flags x.queue ≡ returned flags)
          (sym same) ends,
      λ v. rw (sym (up-flag flags v)) (
        λ f. ∥∥₁_map ((exact v).0 f) (λ r. (Active-Reach regions r).0),
        λ a. (exact v).1 (∥∥₁_map a (Reach-Active regions)),
      ),
    )
