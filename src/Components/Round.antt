-- ===== src/Components/Round.antt =====
-- One round of the first search keeps the invariant and uses up one round.
use mathlib.Core.List.Memᴰ
use orphanode.Common.{
  get_elem?-past, ℕ, zero, suc, ◌+◌, ◌-◌, ◌≤◌, ◌<◌, ◌≡◌, refl, ◌∙◌, ◌⊎◌, inl, inr, Bool, true,
  false, some, List, [], ◌∷◌, Memᴰ, subst, sym, ap, arith, length, set, get_elem?, get_elem?-some,
  All-intro, All-of-Memᴰ, get_or-of-get_elem?, and_then, Option-cases, Bool-cases,
}
use orphanode.Common.Vectors.{row}
use orphanode.Search.Vector.{flag}
use orphanode.Components.{Adjacency, Visit, is_open, advance, rounds}
use orphanode.Components.Order.{Leads, stay, go, Leads-trans}
use orphanode.Components.Depth.{
  nodes, Inv, Inv-enter, Inv-next, Inv-leave, Tried-set, Tried-next, flag-set,
}

-- The rounds that the unvisited vertices need, and those that a stack needs.
abbrev pub weight : Adjacency → List Bool → ℕ
weight [] bs = 0
weight (r ∷ g) [] = suc (length r) + weight g []
weight (r ∷ g) (true ∷ bs) = weight g bs
weight (r ∷ g) (false ∷ bs) = suc (length r) + weight g bs

abbrev pub left : Adjacency → List (ℕ × ℕ) → ℕ
left g [] = 0
left g ((v, i) ∷ stack) = (suc (length (row g v)) - i) + left g stack

pub weight-set :
    (g : Adjacency) (bs : List Bool) (v : ℕ)
    → get_elem? bs v ≡ some false
    → v < length g
    → weight g (set bs v true) + suc (length (row g v)) ≡ weight g bs
weight-set [] bs v e h = absurd (omega arith)
weight-set (r ∷ g) [] v e h = cc
weight-set (r ∷ g) (true ∷ bs) zero e h = cc
weight-set (r ∷ g) (false ∷ bs) zero e h = omega arith
weight-set (r ∷ g) (true ∷ bs) (suc v) e h = weight-set g bs v e (omega arith)
weight-set (r ∷ g) (false ∷ bs) (suc v) e h = omega (arith, weight-set g bs v e (omega arith))

pub weight-le : (g : Adjacency) (bs : List Bool) → weight g bs ≤ rounds g
weight-le [] bs = omega arith
weight-le (r ∷ g) [] = omega (arith, weight-le g [])
weight-le (r ∷ g) (true ∷ bs) = omega (arith, weight-le g bs)
weight-le (r ∷ g) (false ∷ bs) = omega (arith, weight-le g bs)

Memᴰ-get_elem? : (xs : List ℕ) (i : ℕ) {a : ℕ} → get_elem? xs i ≡ some a → Memᴰ a xs
Memᴰ-get_elem? [] i e = cc
Memᴰ-get_elem? (x ∷ xs) zero e = Memᴰ.head (ground (arith, e))
Memᴰ-get_elem? (x ∷ xs) (suc i) e = Memᴰ.tail (Memᴰ-get_elem? xs i e)

-- A graph and the flags of its included vertices: one row and one flag for each vertex, and targets
-- that are vertices.
pub record Domain (outgoing : Adjacency) (included : List Bool) : Type 0 where
  pub flags : length included ≡ length outgoing
  pub closed : (u v : ℕ) → Memᴰ v (row outgoing u) → v < length outgoing

module _ {outgoing : Adjacency} {included : List Bool} (dom : Domain outgoing included) where
  pub is_open-cases :
      (visited : List Bool) (v : ℕ)
      → length visited ≡ length outgoing
      → v < length outgoing
      → (is_open included visited v ≡ some false) × (flag included v ≡ true → flag visited v ≡ true)
        ⊎ (is_open included visited v ≡ some true)
          × (flag included v ≡ true)
          × (get_elem? visited v ≡ some false)
  unfolding is_open
  is_open-cases visited v size h =
      let inc = get_elem?-some included v false (omega (arith, dom.flags)) in
      let vis = get_elem?-some visited v false (omega arith) in
      elim (Bool-cases (flag included v)) [
        | inr out ↦ inl (rw (inc, out) refl, λ f. absurd (cc out))
        | inl i ↦ elim (Bool-cases (flag visited v)) [
          | inl old ↦ inl (rw (inc, i, vis, old) refl, λ _. old)
          | inr new ↦ inr (rw (inc, i, vis, new) refl, i, vis ∙ ap some new)
        ]
      ]

  Inv-push :
      (visited : List Bool) (v i w : ℕ) (stack : List (ℕ × ℕ)) (order : List ℕ)
      → Inv outgoing included visited ((v, i) ∷ stack) order
      → get_elem? (row outgoing v) i ≡ some w
      → Memᴰ w (row outgoing v)
      → w < length outgoing
      → flag included w ≡ true
      → get_elem? visited w ≡ some false
      → Inv outgoing included (set visited w true) ((w, 0) ∷ (v, suc i) ∷ stack) order
  Inv-push visited v i w stack order inv got edge target inc new =
      let raised = (flag-set visited w w new).1 (inr refl) in
      let tried = Tried-set outgoing included visited w ((v, i) ∷ stack) new inv.tried in
      let inside_v = inv.inside v ((inv.seen v).1 (inl (Memᴰ.head refl))) in
      let step : Leads outgoing included v w = go (inside_v, inc, edge) stay in
      Inv-enter outgoing included visited w ((v, i) ∷ stack) ((v, suc i) ∷ stack) order inv refl
        (Tried-next outgoing included (set visited w true) v i w tried.0 got (λ _. raised), tried.1)
        new inc target
        (All-intro _ (v ∷ nodes stack) (λ u m. elim (Memᴰ.cases_cons m) [
          | inl same ↦ subst (λ x. Leads outgoing included x w) (sym same) step
          | inr below ↦
              Leads-trans
                (All-of-Memᴰ (λ u. Leads outgoing included u v) (nodes stack) inv.chain.0 below)
                step
        ]))

  -- One round keeps the invariant and uses up one round.
  pub advance_lem :
      (visited : List Bool) (v i : ℕ) (stack : List (ℕ × ℕ)) (order : List ℕ)
      → Inv outgoing included visited ((v, i) ∷ stack) order
      → (s : Visit) × (advance outgoing included v i
            (record { visited = visited; stack = stack; order = order })
          ≡ some s)
        × Inv outgoing included s.visited s.stack s.order
        × (suc (weight outgoing s.visited + left outgoing s.stack)
            ≡ weight outgoing visited + left outgoing ((v, i) ∷ stack))
        × ((w : ℕ) → flag visited w ≡ true → flag s.visited w ≡ true)
  unfolding advance
  advance_lem visited v i stack order inv =
      let (bound, vertex, _) = inv.tried.0 in
      let at = get_elem?-some outgoing v [] vertex in
      elim (Option-cases (get_elem? (row outgoing v) i)) [
        | inl past ↦
            let last = get_elem?-past (row outgoing v) i past in
            (
              record { visited = visited; stack = stack; order = v ∷ order },
              rw (at, and_then, past) refl,
              Inv-leave outgoing included visited v i stack order inv last,
              omega arith,
              λ w f. f,
            )
        | inr (w, got) ↦
            let edge = Memᴰ-get_elem? (row outgoing v) i got in
            let target = dom.closed v w edge in
            let inner = get_or-of-get_elem? (row outgoing v) i 0 got in
            elim (is_open-cases visited w inv.size target) [
              | inl (shut, passed) ↦ (
                record { visited = visited; stack = (v, suc i) ∷ stack; order = order },
                rw (at, and_then, got, shut) refl,
                Inv-next outgoing included visited v i w stack order inv got passed,
                omega (arith, inner),
                λ w f. f,
              )
              | inr (fresh, inc, new) ↦ (
                record {
                  visited = set visited w true;
                  stack = (w, 0) ∷ (v, suc i) ∷ stack;
                  order = order;
                },
                rw (at, and_then, got, fresh) refl,
                Inv-push visited v i w stack order inv got edge target inc new,
                omega (arith, inner, weight-set outgoing visited w new target),
                λ x f. (flag-set visited w x new).1 (inl f),
              )
            ]
      ]
