-- ===== src/Components/Arrange.antt =====
-- Sorting the components, and the vertices of each, keeps a partition.
use orphanode.Common.{
  ℕ, ◌+◌, ◌≡◌, refl, Bool, List, [], ◌∷◌, Memᴰ, arith, length, map, Bool-cases, subst, sym,
}
use orphanode.Common.Sorting.{sort_by, insert_by, mem-sort_by}
use orphanode.Common.Loops.{mem-map}
use orphanode.Components.{Adjacency}
use orphanode.Components.Distinct.{Distinct-sort_by}
use orphanode.Components.Classes.{IsClass, total}
use orphanode.Components.Partition.{Partition}

length-insert_by :
    (le : ℕ → ℕ → Bool) (x : ℕ) (xs : List ℕ) → length (insert_by le x xs) ≡ 1 + length xs
length-insert_by le x [] = omega arith
length-insert_by le x (y ∷ ys) = ground (arith, length-insert_by le x ys, Bool-cases (le x y))

length-sort_by : (le : ℕ → ℕ → Bool) (xs : List ℕ) → length (sort_by le xs) ≡ length xs
unfolding sort_by
length-sort_by le [] = refl
length-sort_by le (x ∷ xs) =
    omega (arith, length-insert_by le x (sort_by le xs), length-sort_by le xs)

total-insert_by :
    (le : List ℕ → List ℕ → Bool) (c : List ℕ) (cs : List (List ℕ))
    → total (insert_by le c cs) ≡ length c + total cs
total-insert_by le c [] = omega arith
total-insert_by le c (d ∷ cs) = ground (arith, total-insert_by le c cs, Bool-cases (le c d))

total-sort_by :
    (le : List ℕ → List ℕ → Bool) (cs : List (List ℕ)) → total (sort_by le cs) ≡ total cs
unfolding sort_by
total-sort_by le [] = refl
total-sort_by le (c ∷ cs) = omega (arith, total-insert_by le c (sort_by le cs), total-sort_by le cs)

total-map : (le : ℕ → ℕ → Bool) (cs : List (List ℕ)) → total (map (sort_by le) cs) ≡ total cs
total-map le [] = refl
total-map le (c ∷ cs) = omega (arith, length-sort_by le c, total-map le cs)

module _ {outgoing : Adjacency} {included : List Bool} where
  pub IsClass-sort_by :
      (le : ℕ → ℕ → Bool) {c : List ℕ}
      → IsClass outgoing included c
      → IsClass outgoing included (sort_by le c)
  IsClass-sort_by le {c} (r, m, exact, once) = (
    r,
    (mem-sort_by le r c).1 m,
    λ v. ground (arith, exact v, mem-sort_by le v c),
    Distinct-sort_by le c once,
  )

  pub Partition-map :
      (le : ℕ → ℕ → Bool) (cs : List (List ℕ))
      → Partition outgoing included cs
      → Partition outgoing included (map (sort_by le) cs)
  Partition-map le cs p = record {
    classes = λ c m.
        let (d, in_cs, e) = (mem-map (sort_by le) c cs).0 m in
        subst (IsClass outgoing included) (sym e) (IsClass-sort_by le (p.classes d in_cs));
    cover = λ v. (
      λ i.
          let (c, m, in_c) = (p.cover v).0 i in
          (
            sort_by le c,
            (mem-map (sort_by le) (sort_by le c) cs).1 (c, m, refl),
            (mem-sort_by le v c).1 in_c,
          ),
      λ (c, m, in_c).
          let (d, in_cs, e) = (mem-map (sort_by le) c cs).0 m in
          (p.cover v).1 (d, in_cs, (mem-sort_by le v d).0 (subst (Memᴰ v) e in_c)),
    );
    count = omega (arith, p.count, total-map le cs);
  }

  pub Partition-sort_by :
      (le : List ℕ → List ℕ → Bool) (cs : List (List ℕ))
      → Partition outgoing included cs
      → Partition outgoing included (sort_by le cs)
  Partition-sort_by le cs p = record {
    classes = λ c m. p.classes c ((mem-sort_by le c cs).0 m);
    cover = λ v. (
      λ i. let (c, m, in_c) = (p.cover v).0 i in (c, (mem-sort_by le c cs).1 m, in_c),
      λ (c, m, in_c). (p.cover v).1 (c, (mem-sort_by le c cs).0 m, in_c),
    );
    count = omega (arith, p.count, total-sort_by le cs);
  }
