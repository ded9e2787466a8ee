-- ===== src/Components/Finish.antt =====
-- The first search ends and visits every included vertex.
use mathlib.Core.List.Memᴰ
use orphanode.Common.{
  ℕ, zero, suc, ◌+◌, ◌≤◌, ◌<◌, ◌≡◌, refl, ◌⊎◌, inl, inr, ◌↔◌, ⊎_elim, Bool, true, false, some, List,
  [], ◌∷◌, Memᴰ, arith, length, set, All, and_then, replicate, length-replicate,
}
use orphanode.Search.Vector.{flag, flag-replicate, flag-lt}
use orphanode.Components.{Adjacency, depth, finish_from, finishing_order, range, rounds}
use orphanode.Components.Order.{Ordered}
use orphanode.Components.Depth.{Inv, Inv-enter, flag-set}
use orphanode.Components.Round.{
  weight, left, weight-set, weight-le, Domain, is_open-cases, advance_lem,
}

module _ {outgoing : Adjacency} {included : List Bool} (dom : Domain outgoing included) where
  -- The search from a stack ends with the stack empty.
  depth_lem :
      (fuel : ℕ) (visited : List Bool) (stack : List (ℕ × ℕ)) (order : List ℕ)
      → weight outgoing visited + left outgoing stack ≤ fuel
      → Inv outgoing included visited stack order
      → (visited' : List Bool) × (order' : List ℕ) × (depth fuel outgoing included visited stack
            order
          ≡ some (visited', order'))
        × Inv outgoing included visited' [] order'
        × ((w : ℕ) → flag visited w ≡ true → flag visited' w ≡ true)
  unfolding depth
  depth_lem fuel visited [] order h inv = (visited, order, refl, inv, λ w f. f)
  depth_lem zero visited ((v, i) ∷ stack) order h inv =
      let bound = inv.tried.0.0 in absurd (omega arith)
  depth_lem (suc fuel) visited ((v, i) ∷ stack) order h inv =
      let (s, e, next, less, grows) = advance_lem dom visited v i stack order inv in
      let (visited', order', ends, last, more) =
        depth_lem fuel s.visited s.stack s.order (omega arith) next in
      (visited', order', rw (e, and_then) ends, last, λ w f. more w (grows w f))

  -- The loop over the starts visits those of them that are included.
  finish_from_lem :
      (starts : List ℕ) (visited : List Bool) (order : List ℕ)
      → All (λ v. v < length outgoing) starts
      → Inv outgoing included visited [] order
      → (visited' : List Bool) × (order' : List ℕ) × (finish_from
            (rounds outgoing)
            outgoing
            included
            starts
            visited
            order
          ≡ some order')
        × Inv outgoing included visited' [] order'
        × ((w : ℕ) → flag visited w ≡ true → flag visited' w ≡ true)
        × ((v : ℕ) → Memᴰ v starts → flag included v ≡ true → flag visited' v ≡ true)
  unfolding finish_from
  finish_from_lem [] visited order h inv =
      (visited, order, refl, inv, λ w f. f, λ v m. absurd (Memᴰ.not-nil m))
  finish_from_lem (start ∷ starts) visited order (vertex, h) inv =
      elim (is_open-cases dom visited start inv.size vertex) [
        | inl (shut, passed) ↦
            let (visited', order', ends, last, grows, all) =
              finish_from_lem starts visited order h inv in
            (
              visited',
              order',
              rw (shut, and_then) ends,
              last,
              grows,
              λ v m inc. elim (Memᴰ.cases_cons m) [
                | inl same ↦ grows v (ground (arith, passed, same, inc))
                | inr later ↦ all v later inc
              ],
            )
        | inr (fresh, inc, new) ↦
            let entered =
              Inv-enter outgoing included visited start [] [] order inv refl tt new inc vertex tt in
            let (seen, order1, e, first, wider) =
              depth_lem (rounds outgoing) (set visited start true) ((start, 0) ∷ []) order
                (omega
                  (arith, weight-set outgoing visited start new vertex, weight-le outgoing visited))
                entered in
            let (visited', order', ends, last, grows, all) =
              finish_from_lem starts seen order1 h first in
            (
              visited',
              order',
              rw (fresh, and_then, e) ends,
              last,
              λ w f. grows w (wider w ((flag-set visited start w new).1 (inl f))),
              λ v m i. elim (Memᴰ.cases_cons m) [
                | inl same ↦ grows v (wider v ((flag-set visited start v new).1 (inr same)))
                | inr later ↦ all v later i
              ],
            )
      ]

-- The vertices of the order are the included ones, and what comes late leads back.
pub record Finished (outgoing : Adjacency) (included : List Bool) (order : List ℕ) : Type 0 where
  pub members : (v : ℕ) → Memᴰ v order ↔ (flag included v ≡ true)
  pub ordered : Ordered outgoing included order

first-cases : (i v : ℕ) → i ≤ v → (v ≡ i) ⊎ (suc i ≤ v)
first-cases i v h = ground arith

Memᴰ-range : (i k v : ℕ) → i ≤ v → v < i + k → Memᴰ v (range i k)
Memᴰ-range i zero v lo hi = absurd (omega arith)
Memᴰ-range i (suc k) v lo hi = elim (first-cases i v lo) [
  | inl e ↦ Memᴰ.head e
  | inr past ↦ Memᴰ.tail (Memᴰ-range (suc i) k v (omega arith) (omega arith))
]

range-All : (n i k : ℕ) → i + k ≤ n → All (λ v. v < n) (range i k)
range-All n i zero h = tt
range-All n i (suc k) h = (omega arith, range-All n (suc i) k (omega arith))

pub finishing_order_lem :
    {outgoing : Adjacency} {included : List Bool}
    → Domain outgoing included
    → (order : List ℕ) × (finishing_order outgoing included ≡ some order)
      × Finished outgoing included order
unfolding finishing_order
finishing_order_lem {outgoing} {included} dom =
    let n = length outgoing in
    let blank : (v : ℕ) → ¬ (flag (replicate n false) v ≡ true) = λ v f. cc (flag-replicate n v) in
    let start : Inv outgoing included (replicate n false) [] [] = record {
      size = length-replicate n false;
      seen = λ v. (
        λ f. absurd (blank v f),
        ⊎_elim (λ m. absurd (Memᴰ.not-nil m)) (λ m. absurd (Memᴰ.not-nil m)),
      );
      inside = λ v f. absurd (blank v f);
      tried = tt;
      chain = tt;
      back = λ w v m. absurd (Memᴰ.not-nil m);
      done = λ v w m. absurd (Memᴰ.not-nil m);
      ordered = tt;
    } in
    let (visited, order, e, last, grows, all) =
      finish_from_lem dom (range 0 n) (replicate n false) [] (range-All n 0 n (omega arith))
        start in
    (
      order,
      e,
      record {
        members = λ v. (
          λ m. last.inside v ((last.seen v).1 (inr m)),
          λ i.
              let lt = flag-lt included v i in
              let vis = all v (Memᴰ-range 0 n v (omega arith) (omega (arith, dom.flags))) i in
              ⊎_elim (λ m. absurd (Memᴰ.not-nil m)) (λ m. m) ((last.seen v).0 vis),
        );
        ordered = last.ordered;
      },
    )
