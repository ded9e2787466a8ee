-- ===== src/Components/Classes.antt =====
-- The components are the classes of mutually reachable vertices.
use mathlib.Core.List.Memᴰ
use orphanode.Common.{
  Distinct, ℕ, ◌+◌, ◌≤◌, ◌≡◌, refl, ◌∙◌, ◌⊎◌, inl, inr, ◌↔◌, ⊎_elim, Bool, true, false, Option,
  some, List, [], ◌∷◌, Memᴰ, arith, length, All, Memᴰ-cons, and_then, Bool-cases, subst, sym,
}
use orphanode.Search.{Reach, root, step}
use orphanode.Search.Step.{up}
use orphanode.Search.Loop.{Net, Inv, Reach-up}
use orphanode.Search.Vector.{vector_board, unmarked, flag, read-cases}
use orphanode.Components.{Adjacency, assign}
use orphanode.Components.Order.{
  Arc, Leads, stay, go, Leads-trans, Leads-Upto, Mutual, Ordered, Ordered-Mutual,
}
use orphanode.Components.Distinct.{Distinct-of-count}
use orphanode.Components.Gather.{gather-start, Inv-skip, Collects}

-- The sizes of the components together.
abbrev pub total : List (List ℕ) → ℕ
total [] = 0
total (c ∷ cs) = length c + total cs

-- All vertices that are mutually reachable with one of them, each once.
abbrev pub IsClass : Adjacency → List Bool → List ℕ → Type 0
IsClass outgoing included c =
    (r : ℕ) × Memᴰ r c × ((v : ℕ) → Memᴰ v c ↔ Mutual outgoing included r v) × Distinct c

-- The components that are built from the vertices assigned so far.
pub record Groups (outgoing : Adjacency) (included assigned : List Bool)
    (components : List (List ℕ)) : Type 0 where
  pub classes : (c : List ℕ) → Memᴰ c components → IsClass outgoing included c
  pub cover : (v : ℕ) → (up assigned v ≡ true) ↔ ((c : List ℕ) × Memᴰ c components × Memᴰ v c)
  pub size : length assigned ≡ length outgoing
  pub count : total components + unmarked assigned ≡ length outgoing

module _ {outgoing : Adjacency} {included : List Bool} {sources : ℕ → Option (List ℕ)}
    {next : ℕ → List ℕ} (net : Net sources next)
    (arcs : (u v : ℕ) → Memᴰ u (next v) ↔ Arc outgoing included u v) where
  pub Reach-Leads :
      {roots : List ℕ} {v : ℕ}
      → Reach next roots v
      → (m : ℕ) × Memᴰ m roots × Leads outgoing included v m
  Reach-Leads (root {v} m) = (v, m, stay)
  Reach-Leads (step {u} {v} p e) =
      let (m, in_roots, path) = Reach-Leads p in (m, in_roots, go ((arcs v u).0 e) path)

  Leads-Reach :
      {roots : List ℕ} {v m : ℕ} → Leads outgoing included v m → Memᴰ m roots → Reach next roots v
  Leads-Reach stay m = root m
  Leads-Reach (go {u} {v} arc path) m = step (Leads-Reach path m) ((arcs u v).1 arc)

  -- The vertices newly marked from a start are those mutually reachable with it.
  Collects-Mutual :
      (earlier rest : List ℕ) (r : ℕ) (base flags : List Bool) (component : List ℕ)
      → Ordered outgoing included (r ∷ rest)
      → ((v : ℕ) → flag included v ≡ true → Memᴰ v earlier ⊎ Memᴰ v (r ∷ rest))
      → Inv net earlier base []
      → up base r ≡ false
      → Inv net (r ∷ earlier) flags []
      → Collects net base flags [] component
      → (v : ℕ) → Memᴰ v component ↔ Mutual outgoing included r v
  Collects-Mutual earlier rest r base flags component ord cover before off after c v =
      let apart : (x m : ℕ) → up base x ≡ false → Memᴰ m earlier → ¬ Leads outgoing included x m =
        λ x m down in_earlier path.
          absurd (cc (down, Reach-up net earlier base before (Leads-Reach path in_earlier))) in
      (
        λ m.
            let (marked, fresh) = (c.newly v).0 (inr m) in
            let (w, in_roots, path) = Reach-Leads (after.sound v marked) in
            elim (Memᴰ.cases_cons in_roots) [
              | inl same ↦
                  let back = subst (Leads outgoing included v) same path in
                  (
                    Leads-Upto (
                        Ordered-Mutual outgoing included earlier rest ord cover
                          (λ x i. apart v x fresh i) back),
                    back,
                  )
              | inr old ↦ absurd (apart v w fresh old path)
            ],
        λ (there, back).
            let marked =
              Reach-up net (r ∷ earlier) flags after (Leads-Reach back (Memᴰ.head refl)) in
            elim (Bool-cases (up base v)) [
              | inr fresh ↦
                  ⊎_elim (λ m. absurd (Memᴰ.not-nil m)) (λ m. m) ((c.newly v).1 (marked, fresh))
              | inl old ↦
                  let (w, in_roots, path) = Reach-Leads (before.sound v old) in
                  absurd (apart r w off in_roots (Leads-trans there path))
            ],
      )

  Groups-more :
      (assigned flags : List Bool) (components : List (List ℕ)) (component : List ℕ) (r : ℕ)
      → Groups outgoing included assigned components
      → Collects net assigned flags [] component
      → Memᴰ r component
      → ((v : ℕ) → Memᴰ v component ↔ Mutual outgoing included r v)
      → Groups outgoing included flags (component ∷ components)
  Groups-more assigned flags components component r g c in_c exact = record {
    classes = λ d m. elim (Memᴰ.cases_cons m) [
      | inl same ↦ subst (IsClass outgoing included) (sym same) (
        r,
        in_c,
        exact,
        Distinct-of-count assigned flags component c.size
            (λ v. ground (arith, c.newly v, λ (n : Memᴰ v []). Memᴰ.not-nil n))
            (omega (arith, c.count)),
      )
      | inr old ↦ g.classes d old
    ];
    cover = λ v. (
      λ f. elim (Bool-cases (up assigned v)) [
        | inl old ↦ let (d, m, i) = (g.cover v).0 old in (d, Memᴰ.tail m, i)
        | inr new ↦ (
          component,
          Memᴰ.head refl,
          ⊎_elim (λ m. absurd (Memᴰ.not-nil m)) (λ m. m) ((c.newly v).1 (f, new)),
        )
      ],
      λ (d, m, i). elim (Memᴰ.cases_cons m) [
        | inl same ↦ ((c.newly v).0 (inr (subst (Memᴰ v) same i))).0
        | inr old ↦ c.kept v ((g.cover v).1 (d, old, i))
      ],
    );
    size = c.size ∙ g.size;
    count = omega (arith, g.count, c.count);
  }

  pub assign_lem :
      (fuel : ℕ) (may_start : ℕ → Option Bool) (earlier order : List ℕ) (assigned : List Bool)
      (components : List (List ℕ))
      → length outgoing ≤ fuel
      → Ordered outgoing included order
      → ((v : ℕ) → flag included v ≡ true → Memᴰ v earlier ⊎ Memᴰ v order)
      → All net.IsVertex order
      → All (λ v. may_start v ≡ some true) order
      → Inv net earlier assigned []
      → Groups outgoing included assigned components
      → (result : List (List ℕ)) × (assigned' : List Bool) × (roots : List ℕ) × (assign fuel sources
            may_start order assigned components
          ≡ some result)
        × Groups outgoing included assigned' result
        × Inv net roots assigned' []
        × ((v : ℕ) → (Memᴰ v earlier ⊎ Memᴰ v order) ↔ Memᴰ v roots)
  unfolding assign
  assign_lem fuel may_start earlier [] assigned components h ord cover vertices may inv g = (
    components,
    assigned,
    earlier,
    refl,
    g,
    inv,
    λ v. (⊎_elim (λ m. m) (λ m. absurd (Memᴰ.not-nil m)), inl),
  )
  assign_lem fuel may_start earlier (r ∷ order) assigned components h ord cover vertices may inv g =
      let shift : (v : ℕ)
          → (Memᴰ v earlier ⊎ Memᴰ v (r ∷ order)) ↔ (Memᴰ v (r ∷ earlier) ⊎ Memᴰ v order) =
        λ v. ground (arith, Memᴰ-cons v r order, Memᴰ-cons v r earlier) in
      elim (read-cases assigned r (inv.range r vertices.0)) [
        | inl old ↦
            let (result, assigned', roots, e, whole, last, all) =
              assign_lem fuel may_start (r ∷ earlier) order assigned components h ord.1
                (λ v i. (shift v).0 (cover v i)) vertices.1 may.1
                (Inv-skip net earlier r assigned inv (rw old refl)) g in
            (
              result,
              assigned',
              roots,
              rw (old, and_then) e,
              whole,
              last,
              λ v. ground (arith, all v, shift v),
            )
        | inr new ↦
            let (flags, component, got, after, c) =
              gather-start net fuel earlier r assigned (omega (arith, g.count)) inv new
                vertices.0 in
            let exact =
              Collects-Mutual earlier order r assigned flags component ord cover inv (rw new refl)
                after c in
            let (result, assigned', roots, e, whole, last, all) =
              assign_lem fuel may_start (r ∷ earlier) order flags (component ∷ components) h ord.1
                (λ v i. (shift v).0 (cover v i)) vertices.1 may.1 after
                (Groups-more assigned flags components component r g c ((exact r).1 (stay, stay))
                  exact) in
            (
              result,
              assigned',
              roots,
              rw (new, and_then, may.0, got) e,
              whole,
              last,
              λ v. ground (arith, all v, shift v),
            )
      ]
