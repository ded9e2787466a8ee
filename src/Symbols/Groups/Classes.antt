-- ===== src/Symbols/Groups/Classes.antt =====
-- The groups are the classes of candidates that use each other.
use mathlib.Core.List.Memᴰ
use orphanode.Common.{
  Distinct, ℕ, ◌≡◌, refl, ◌∙◌, inl, inr, ◌↔◌, Bool, true, false, Option, some, List, [], ◌∷◌, map,
  Memᴰ, arith, length, any, get_elem?, get_elem?-some, get_or, and_then, replicate, subst, sym,
  Bool-cases, List-cases, ◌==◌,
}
use orphanode.Common.Loops.{traverse, traverse_lem, Pointwise-left, Pointwise-right}
use orphanode.Common.Sorting.{sort_by, mem-sort_by}
use orphanode.Common.Vectors.{row, length-map}
use orphanode.Search.Loop.{Net}
use orphanode.Search.Vector.{flag, flag-lt}
use orphanode.Components.{Adjacency, assign}
use orphanode.Components.Order.{Arc, Leads, stay, go, Leads-trans, Mutual}
use orphanode.Components.Round.{Domain}
use orphanode.Components.Finish.{finishing_order_lem}
use orphanode.Components.Classes.{IsClass}
use orphanode.Components.Partition.{assign-Partition}
use orphanode.Components.Arrange.{IsClass-sort_by}
use orphanode.Symbols.Data.{SymbolKey, SymbolEdge, DeadSymbolGroup}
use orphanode.Symbols.Groups.{
  target_rows, incoming, by_key, by_members, is_cyclic, dead_group,
  dead_strongly_connected_components,
}
use orphanode.Symbols.Groups.Incoming.{IsNodeGraph, mem-target_rows, target_rows-lt, incoming_lem}

-- The vertex is on a cycle.
abbrev pub OnCycle : Adjacency → List Bool → ℕ → Type 0
OnCycle outgoing included v = (w : ℕ) × Arc outgoing included v w × Leads outgoing included w v

-- The group of a node: the keys of the nodes that are mutually reachable with it through
-- candidates, and whether they are on a cycle.
abbrev pub IsGroup :
    List SymbolKey → List (List SymbolEdge) → List Bool → ℕ → DeadSymbolGroup → Type 0
IsGroup keys outgoing candidate v g =
    ((k : SymbolKey)
      → Memᴰ k g.members
        ↔ ((w : ℕ) × Mutual (target_rows outgoing) candidate v w × (get_elem? keys w ≡ some k)))
    × ((g.cyclic ≡ true) ↔ OnCycle (target_rows outgoing) candidate v)

module _ {outgoing : Adjacency} {included : List Bool} where
  OnCycle-Mutual :
      {v w : ℕ}
      → Mutual outgoing included v w
      → OnCycle outgoing included v
      → OnCycle outgoing included w
  OnCycle-Mutual (there, stay) cycle = cycle
  OnCycle-Mutual (there, go {v = x} arc path) cycle = (x, arc, Leads-trans path there)

  -- Of two different vertices that lead to each other each is on a cycle.
  OnCycle-pair : {v w : ℕ} → ¬ (v ≡ w) → Mutual outgoing included v w → OnCycle outgoing included v
  OnCycle-pair ne (stay, back) = absurd (ne refl)
  OnCycle-pair ne (go {v = x} arc path, back) = (x, arc, Leads-trans path back)

Memᴰ-same :
    {o : Option SymbolKey} {k k' : SymbolKey} {ks : List SymbolKey}
    → o ≡ some k
    → o ≡ some k'
    → Memᴰ k' ks
    → Memᴰ k ks
Memᴰ-same {o} {k} {k'} {ks} at at' m =
    let same : k' ≡ k = ground (arith, at, at') in subst (λ x. Memᴰ x ks) same m

any-target :
    (edges : List SymbolEdge) (v : ℕ)
    → (any (λ e. e.target == v) edges ≡ true) ↔ ((e : SymbolEdge) × Memᴰ e edges × (v ≡ e.target))
any-target [] v = (λ h. cc, λ (e, m, at). absurd (Memᴰ.not-nil m))
any-target (x ∷ edges) v = (
  λ h. elim (Bool-cases (x.target == v)) [
    | inl e ↦ (x, Memᴰ.head refl, ground (arith, e))
    | inr other ↦
        let (e, m, at) = (any-target edges v).0 (ground (arith, h, other)) in (e, Memᴰ.tail m, at)
  ],
  λ (e, m, at). elim (Memᴰ.cases_cons m) [
    | inl here ↦ let same = subst (λ y. v ≡ y.target) here at in ground (arith, same)
    | inr later ↦ let rest = (any-target edges v).1 (e, later, at) in ground (arith, rest)
  ],
)

module _ {n : ℕ} {outgoing : List (List SymbolEdge)} {candidate : List Bool}
    (graph : IsNodeGraph n outgoing candidate) where
  abbrev rows : Adjacency
  rows = target_rows outgoing

  is_cyclic_lem :
      (head : ℕ) (rest : List ℕ)
      → flag candidate head ≡ true
      → ((v : ℕ) → Memᴰ v (head ∷ rest) ↔ Mutual rows candidate head v)
      → Distinct (head ∷ rest)
      → (b : Bool) × (is_cyclic outgoing (head ∷ rest) head ≡ some b)
        × ((b ≡ true) ↔ OnCycle rows candidate head)
  unfolding is_cyclic
  is_cyclic_lem head [] on exact once =
      let at =
        get_elem?-some outgoing head []
          (omega (arith, flag-lt candidate head on, graph.flags, graph.size)) in
      let edges = get_or outgoing head [] in
      (
        any (λ e. e.target == head) edges,
        rw (at, and_then) refl,
        (
          λ h. (
            head,
            (on, on, (mem-target_rows outgoing head head).1 ((any-target edges head).0 h)),
            stay,
          ),
          λ (w, arc, path).
              let same = Memᴰ.eq_of_singleton ((exact w).1 (go arc stay, path)) in
              (any-target edges head).1 (
                (mem-target_rows outgoing head head).0
                  (subst (λ x. Memᴰ x (row rows head)) same arc.2)),
        ),
      )
  is_cyclic_lem head (next ∷ rest) on exact once = (
    true,
    ground arith,
    (
      λ _. OnCycle-pair (λ e. once.0 (Memᴰ.head e)) ((exact next).0 (Memᴰ.tail (Memᴰ.head refl))),
      λ _. refl,
    ),
  )

  dead_group-runs :
      (keys : List SymbolKey) (c : List ℕ) (head : ℕ) (rest : List ℕ) {b : Bool}
      {members : List SymbolKey}
      → sort_by (by_key keys) c ≡ head ∷ rest
      → is_cyclic outgoing (head ∷ rest) head ≡ some b
      → traverse (get_elem? keys) (head ∷ rest) ≡ some members
      → dead_group keys outgoing c ≡ some (record { members = members; cyclic = b })
  unfolding dead_group
  dead_group-runs keys c head rest is cyclic e = rw (dead_group, is, and_then, cyclic, e) refl

  dead_group_lem :
      (keys : List SymbolKey) (c : List ℕ)
      → length keys ≡ n
      → ((v : ℕ) → Memᴰ v c → flag candidate v ≡ true)
      → IsClass rows candidate c
      → (g : DeadSymbolGroup) × (dead_group keys outgoing c ≡ some g)
        × ((v : ℕ) → Memᴰ v c → IsGroup keys outgoing candidate v g)
  unfolding dead_group
  dead_group_lem keys c size on class =
      let sorted = sort_by (by_key keys) c in
      let inside : (v : ℕ) → Memᴰ v sorted → flag candidate v ≡ true =
        λ v m. on v ((mem-sort_by (by_key keys) v c).0 m) in
      let (r, in_c, exact, once) = IsClass-sort_by (by_key keys) class in
      let (members, e, each) =
        traverse_lem (λ v k. get_elem? keys v ≡ some k) (get_elem? keys) sorted
          (λ v m.
            let at =
              get_elem?-some keys v (record { file = 0; symbol = 0 })
                (omega (arith, flag-lt candidate v (inside v m), graph.flags, size)) in
            (_, at, at)) in
      elim (List-cases sorted) [
        | inl empty ↦ absurd (Memᴰ.not-nil (subst (Memᴰ r) empty in_c))
        | inr (head, rest, is) ↦
            let in_class : (v : ℕ) → Memᴰ v (head ∷ rest) ↔ Mutual rows candidate r v =
              subst (λ xs. (v : ℕ) → Memᴰ v xs ↔ Mutual rows candidate r v) is exact in
            let from = (in_class head).0 (Memᴰ.head refl) in
            let (b, cyclic, on_cycle) =
              is_cyclic_lem head rest (inside head (subst (Memᴰ head) (sym is) (Memᴰ.head refl)))
                (λ v. (
                  λ m.
                      let to = (in_class v).0 m in
                      (Leads-trans from.1 to.0, Leads-trans to.1 from.0),
                  λ to. (in_class v).1 (Leads-trans from.0 to.0, Leads-trans to.1 from.1),
                ))
                (subst Distinct is once) in
            (
              record { members = members; cyclic = b },
              dead_group-runs keys c head rest is cyclic
                  (subst (λ xs. traverse (get_elem? keys) xs ≡ some members) is e),
              λ v m.
                  let to = (exact v).0 ((mem-sort_by (by_key keys) v c).1 m) in
                  (
                    λ k. (
                      λ i.
                          let (w, in_sorted, at) =
                            Pointwise-right (λ v k. get_elem? keys v ≡ some k) sorted members each
                              i in
                          let there = (exact w).0 in_sorted in
                          (w, (Leads-trans to.1 there.0, Leads-trans there.1 to.0), at),
                      λ (w, there, at).
                          let in_sorted =
                            (exact w).1 (Leads-trans to.0 there.0, Leads-trans there.1 to.1) in
                          let (k', i, at') =
                            Pointwise-left (λ v k. get_elem? keys v ≡ some k) sorted members each
                              in_sorted in
                          Memᴰ-same at at' i,
                    ),
                    (
                      λ h.
                          OnCycle-Mutual (Leads-trans from.1 to.0, Leads-trans to.1 from.0)
                            (on_cycle.0 h),
                      λ o.
                          on_cycle.1
                            (OnCycle-Mutual (Leads-trans to.1 from.0, Leads-trans from.1 to.0) o),
                    ),
                  ),
            )
      ]

  -- For nodes with one key, one flag and one row each, and edges between nodes: the groups are found
  -- without a panic. Every group is that of a candidate, and every candidate has one: its members
  -- are the keys of the nodes that are mutually reachable with that candidate through candidates,
  -- and it is called cyclic exactly when these are on a cycle.
  pub dead_strongly_connected_components_lem :
      (keys : List SymbolKey)
      → length keys ≡ n
      → (groups : List DeadSymbolGroup) × (dead_strongly_connected_components keys outgoing
            candidate
          ≡ some groups)
        × ((g : DeadSymbolGroup)
            → Memᴰ g groups
            → (v : ℕ) × (flag candidate v ≡ true) × IsGroup keys outgoing candidate v g)
        × ((v : ℕ)
            → flag candidate v ≡ true
            → (g : DeadSymbolGroup) × Memᴰ g groups × IsGroup keys outgoing candidate v g)
  unfolding dead_strongly_connected_components
  dead_strongly_connected_components_lem keys size =
      let IsGroupOf : List ℕ → DeadSymbolGroup → Type 0 =
        λ c g. (v : ℕ) → Memᴰ v c → IsGroup keys outgoing candidate v g in
      let dom : Domain rows candidate = record {
        flags = graph.flags ∙ sym (length-map _ outgoing ∙ graph.size);
        closed = λ u v m. omega (
          arith,
          target_rows-lt graph u v m,
          length-map {A = List SymbolEdge} {B = List ℕ} (map (λ e. e.target)) outgoing,
          graph.size,
        );
      } in
      let (order, ordered, fin) = finishing_order_lem dom in
      let (sources, turned, len, arcs) = incoming_lem graph in
      let net : Net (get_elem? sources) (row sources) = record {
        IsVertex = λ v. flag candidate v ≡ true;
        found = λ v on.
            get_elem?-some sources v [] (omega (arith, flag-lt candidate v on, graph.flags, len));
        closed = λ u v on m. ((arcs v u).0 m).0;
      } in
      let (cs, e, p) =
        assign-Partition dom net arcs (λ v. (λ i. i, λ i. i)) (λ _. some true) order (λ v on. refl)
          fin in
      let (groups, f, each) =
        traverse_lem IsGroupOf (dead_group keys outgoing) cs
          (λ c m. dead_group_lem keys c size (λ v i. (p.cover v).1 (c, m, i)) (p.classes c m)) in
      let rows_size : length rows ≡ length keys = length-map _ outgoing ∙ graph.size ∙ sym size in
      (
        sort_by by_members groups,
        rw
            (
              dead_strongly_connected_components,
              ordered,
              and_then,
              subst (λ k. incoming k outgoing candidate ≡ some sources) (sym size) turned,
              subst
                  (λ k.
                    assign k (get_elem? sources) (λ _. some true) order (replicate k false) []
                    ≡ some cs)
                  rows_size e,
              f,
            )
            refl,
        λ g m.
            let (c, in_cs, is) =
              Pointwise-right IsGroupOf cs groups each ((mem-sort_by by_members g groups).0 m) in
            let (r, in_c, exact, once) = p.classes c in_cs in
            (r, (p.cover r).1 (c, in_cs, in_c), is r in_c),
        λ v on.
            let (c, in_cs, in_c) = (p.cover v).0 on in
            let (g, in_groups, is) = Pointwise-left IsGroupOf cs groups each in_cs in
            (g, (mem-sort_by by_members g groups).1 in_groups, is v in_c),
      )
