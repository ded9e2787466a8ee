-- ===== src/Components/Depth.antt =====
-- What holds between two rounds of the first search, and that each move keeps it.
use mathlib.Core.List.Memᴰ
use orphanode.Common.{
  ℕ, suc, ◌≤◌, ◌<◌, ◌≡◌, refl, ◌∙◌, ◌⊎◌, inl, inr, ◌↔◌, Bool, true, false, some, List, [], ◌∷◌,
  Memᴰ, subst, sym, arith, length, set, get_elem?, All, Memᴰ-cons, length-set, All-of-Memᴰ,
  get_or-of-get_elem?,
}
use orphanode.Common.Vectors.{row}
use orphanode.Search.Vector.{flag, up-flag, up-set}
use orphanode.Components.{Adjacency}
use orphanode.Components.Order.{Arc, Leads, Upto, here, later, Ordered}

-- The vertices of the frames.
abbrev pub nodes : List (ℕ × ℕ) → List ℕ
nodes [] = []
nodes ((v, i) ∷ stack) = v ∷ nodes stack

pub flag-set :
    (bs : List Bool) (i v : ℕ)
    → get_elem? bs i ≡ some false
    → (flag (set bs i true) v ≡ true) ↔ ((flag bs v ≡ true) ⊎ (v ≡ i))
flag-set bs i v h = ground (arith, up-set bs i v h, up-flag bs v, up-flag (set bs i true) v)

suc-cases : (k i : ℕ) → k < suc i → (k < i) ⊎ (k ≡ i)
suc-cases k i h = ground arith

pub get_elem?-of-Memᴰ :
    (xs : List ℕ) {a : ℕ} → Memᴰ a xs → (k : ℕ) × (k < length xs) × (get_elem? xs k ≡ some a)
get_elem?-of-Memᴰ [] m = absurd (Memᴰ.not-nil m)
get_elem?-of-Memᴰ (x ∷ xs) m = elim (Memᴰ.cases_cons m) [
  | inl e ↦ (0, omega arith, cc)
  | inr in_xs ↦ let (k, lt, got) = get_elem?-of-Memᴰ xs in_xs in (suc k, omega arith, got)
]

module _ (outgoing : Adjacency) (included : List Bool) where
  -- Every frame is reached from those under it.
  abbrev pub Chain : List ℕ → Type 0
  Chain [] = Unit
  Chain (v ∷ below) = All (λ w. Leads outgoing included w v) below × Chain below

  -- The edges of a frame that are done are no edges to unvisited vertices.
  abbrev pub Tried : List Bool → ℕ × ℕ → Type 0
  Tried visited (v, i) =
      (i ≤ length (row outgoing v))
      × (v < length outgoing)
      × ((k w : ℕ)
          → k < i
          → get_elem? (row outgoing v) k ≡ some w
          → flag included w ≡ true
          → flag visited w ≡ true)

  pub record Inv (visited : List Bool) (stack : List (ℕ × ℕ)) (order : List ℕ) : Type 0 where
    pub size : length visited ≡ length outgoing
    pub seen : (v : ℕ) → (flag visited v ≡ true) ↔ (Memᴰ v (nodes stack) ⊎ Memᴰ v order)
    pub inside : (v : ℕ) → flag visited v ≡ true → flag included v ≡ true
    pub tried : All (Tried visited) stack
    pub chain : Chain (nodes stack)
    pub back :
        (w v : ℕ)
        → Memᴰ w (nodes stack)
        → Memᴰ v order
        → Arc outgoing included v w
        → Upto outgoing included w order v
    pub done : (v w : ℕ) → Memᴰ v order → Arc outgoing included v w → flag visited w ≡ true
    pub ordered : Ordered outgoing included order

  pub Tried-set :
      (visited : List Bool) (t : ℕ) (stack : List (ℕ × ℕ))
      → get_elem? visited t ≡ some false
      → All (Tried visited) stack
      → All (Tried (set visited t true)) stack
  Tried-set visited t [] e h = tt
  Tried-set visited t ((v, i) ∷ stack) e ((bound, vertex, h), more) = (
    (bound, vertex, λ k w lt at inc. (flag-set visited t w e).1 (inl (h k w lt at inc))),
    Tried-set visited t stack e more,
  )

  pub Tried-next :
      (visited : List Bool) (v i w : ℕ)
      → Tried visited (v, i)
      → get_elem? (row outgoing v) i ≡ some w
      → (flag included w ≡ true → flag visited w ≡ true)
      → Tried visited (v, suc i)
  Tried-next visited v i w (bound, vertex, h) at passed = (
    omega (arith, get_or-of-get_elem? (row outgoing v) i w at),
    vertex,
    λ k x lt got inc. elim (suc-cases k i lt) [
      | inl old ↦ h k x old got inc
      | inr same ↦ ground (arith, passed, at)
    ],
  )

  -- A vertex that is new and that every frame leads to is entered.
  pub Inv-enter :
      (visited : List Bool) (t : ℕ) (stack below : List (ℕ × ℕ)) (order : List ℕ)
      → Inv visited stack order
      → nodes below ≡ nodes stack
      → All (Tried (set visited t true)) below
      → get_elem? visited t ≡ some false
      → flag included t ≡ true
      → t < length outgoing
      → All (λ w. Leads outgoing included w t) (nodes stack)
      → Inv (set visited t true) ((t, 0) ∷ below) order
  Inv-enter visited t stack below order inv same tried e inc vertex lead = record {
    size = length-set visited t true ∙ inv.size;
    seen = λ v.
        rw same (ground (arith, flag-set visited t v e, inv.seen v, Memᴰ-cons v t (nodes stack)));
    inside = λ v f. elim ((flag-set visited t v e).0 f) [
      | inl old ↦ inv.inside v old
      | inr new ↦ subst (λ x. flag included x ≡ true) (sym new) inc
    ];
    tried = ((omega arith, vertex, λ k w lt. absurd (omega arith)), tried);
    chain = rw same (lead, inv.chain);
    back = λ w v m fin arc. elim (Memᴰ.cases_cons m) [
      | inl new ↦ absurd (ground (arith, e, new, up-flag visited t, inv.done v w fin arc))
      | inr old ↦ inv.back w v (subst (Memᴰ w) same old) fin arc
    ];
    done = λ v w fin arc. (flag-set visited t w e).1 (inl (inv.done v w fin arc));
    ordered = inv.ordered;
  }

  -- The next edge of the top frame is done.
  pub Inv-next :
      (visited : List Bool) (v i w : ℕ) (stack : List (ℕ × ℕ)) (order : List ℕ)
      → Inv visited ((v, i) ∷ stack) order
      → get_elem? (row outgoing v) i ≡ some w
      → (flag included w ≡ true → flag visited w ≡ true)
      → Inv visited ((v, suc i) ∷ stack) order
  Inv-next visited v i w stack order inv at passed = record {
    size = inv.size;
    seen = inv.seen;
    inside = inv.inside;
    tried = (Tried-next visited v i w inv.tried.0 at passed, inv.tried.1);
    chain = inv.chain;
    back = inv.back;
    done = inv.done;
    ordered = inv.ordered;
  }

  -- The top frame ends.
  pub Inv-leave :
      (visited : List Bool) (v i : ℕ) (stack : List (ℕ × ℕ)) (order : List ℕ)
      → Inv visited ((v, i) ∷ stack) order
      → length (row outgoing v) ≤ i
      → Inv visited stack (v ∷ order)
  Inv-leave visited v i stack order inv end = record {
    size = inv.size;
    seen = λ w. ground (arith, inv.seen w, Memᴰ-cons w v (nodes stack), Memᴰ-cons w v order);
    inside = inv.inside;
    tried = inv.tried.1;
    chain = inv.chain.1;
    back = λ w x m fin arc. elim (Memᴰ.cases_cons fin) [
      | inl same ↦
          subst (Upto outgoing included w (v ∷ order)) (sym same)
            (here (All-of-Memᴰ (λ u. Leads outgoing included u v) (nodes stack) inv.chain.0 m))
      | inr old ↦
          later (All-of-Memᴰ (λ u. Leads outgoing included u v) (nodes stack) inv.chain.0 m)
            (inv.back w x (Memᴰ.tail m) old arc)
    ];
    done = λ x w fin arc. elim (Memᴰ.cases_cons fin) [
      | inl same ↦
          let (k, lt, got) =
            get_elem?-of-Memᴰ (row outgoing v) (subst (λ y. Memᴰ w (row outgoing y)) same arc.2) in
          inv.tried.0.2 k w (omega arith) got arc.1
      | inr old ↦ inv.done x w old arc
    ];
    ordered = ((λ x fin arc. inv.back v x (Memᴰ.head refl) fin arc), inv.ordered);
  }
