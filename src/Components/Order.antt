-- ===== src/Components/Order.antt =====
-- Paths through the included vertices, and what the order of the finished visits says about them.
use mathlib.Core.List.Memᴰ
use orphanode.Common.{ℕ, ◌≡◌, ◌⊎◌, inl, inr, Bool, true, List, [], ◌∷◌, Memᴰ, subst, sym}
use orphanode.Common.Vectors.{row}
use orphanode.Search.Vector.{flag}
use orphanode.Components.{Adjacency}

module _ (outgoing : Adjacency) (included : List Bool) where
  -- An edge between included vertices.
  abbrev pub Arc : ℕ → ℕ → Type 0
  Arc u v = (flag included u ≡ true) × (flag included v ≡ true) × Memᴰ v (row outgoing u)

-- A path of such edges.
pub data Leads (outgoing : Adjacency) (included : List Bool) : ℕ → ℕ → Type 0 where
  stay : {u : ℕ} → Leads outgoing included u u
  go :
      {u v w : ℕ}
      → Arc outgoing included u v
      → Leads outgoing included v w
      → Leads outgoing included u w

-- `w` leads to the vertices of a list up to `v`.
pub data Upto (outgoing : Adjacency) (included : List Bool) : ℕ → List ℕ → ℕ → Type 0 where
  here : {w v : ℕ} {l : List ℕ} → Leads outgoing included w v → Upto outgoing included w (v ∷ l) v
  later :
      {w v z : ℕ} {l : List ℕ}
      → Leads outgoing included w z
      → Upto outgoing included w l v
      → Upto outgoing included w (z ∷ l) v

module _ {outgoing : Adjacency} {included : List Bool} where
  pub Leads-trans :
      {u v w : ℕ}
      → Leads outgoing included u v
      → Leads outgoing included v w
      → Leads outgoing included u w
  Leads-trans stay q = q
  Leads-trans (go a p) q = go a (Leads-trans p q)

  pub Leads-Upto :
      {w v : ℕ} {l : List ℕ} → Upto outgoing included w l v → Leads outgoing included w v
  Leads-Upto (here p) = p
  Leads-Upto (later _ rest) = Leads-Upto rest

  Upto-trans :
      {u w v : ℕ} {l : List ℕ}
      → Leads outgoing included u w
      → Upto outgoing included w l v
      → Upto outgoing included u l v
  Upto-trans p (here q) = here (Leads-trans p q)
  Upto-trans p (later q rest) = later (Leads-trans p q) (Upto-trans p rest)

module _ (outgoing : Adjacency) (included : List Bool) where
  abbrev pub Mutual : ℕ → ℕ → Type 0
  Mutual u v = Leads outgoing included u v × Leads outgoing included v u

  -- A vertex that an earlier one has an edge to leads to all that come after it, up to the earlier
  -- one. The last comes first.
  abbrev pub Ordered : List ℕ → Type 0
  Ordered [] = Unit
  Ordered (w ∷ l) =
      ((v : ℕ) → Memᴰ v l → Arc outgoing included v w → Upto outgoing included w l v) × Ordered l

  -- The step back along an edge.
  Upto-back :
      (l : List ℕ) {r x y : ℕ}
      → Ordered l
      → Memᴰ x l
      → Arc outgoing included x y
      → Upto outgoing included r l y
      → Upto outgoing included r l x
  Upto-back [] ord m arc _ = absurd (Memᴰ.not-nil m)
  Upto-back (h ∷ l) ord m arc (here p) = elim (Memᴰ.cases_cons m) [
    | inl e ↦ subst (Upto outgoing included _ (h ∷ l)) (sym e) (here p)
    | inr in_l ↦ later p (Upto-trans p (ord.0 _ in_l arc))
  ]
  Upto-back (h ∷ l) {r} ord m arc (later p rest) = elim (Memᴰ.cases_cons m) [
    | inl e ↦ subst (Upto outgoing included r (h ∷ l)) (sym e) (here p)
    | inr in_l ↦ later p (Upto-back l ord.1 in_l arc rest)
  ]

  -- A vertex that leads to the first of the list, and to none of those before it, is mutually
  -- reachable with it.
  pub Ordered-Mutual :
      (earlier l : List ℕ) {r x : ℕ}
      → Ordered (r ∷ l)
      → ((v : ℕ) → flag included v ≡ true → Memᴰ v earlier ⊎ Memᴰ v (r ∷ l))
      → ((m : ℕ) → Memᴰ m earlier → ¬ Leads outgoing included x m)
      → Leads outgoing included x r
      → Upto outgoing included r (r ∷ l) x
  Ordered-Mutual earlier l ord cover apart stay = here stay
  Ordered-Mutual earlier l {r} ord cover apart (go {u} arc p) = elim (cover u arc.0) [
    | inl m ↦ absurd (apart u m stay)
    | inr m ↦
        Upto-back (r ∷ l) ord m arc
          (Ordered-Mutual earlier l ord cover (λ w i q. apart w i (go arc q)) p)
  ]
