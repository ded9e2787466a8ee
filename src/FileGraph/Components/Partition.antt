-- ===== src/FileGraph/Components/Partition.antt =====
-- What `components_within` returns.
use mathlib.Core.List.Memᴰ
use orphanode.Common.{
  ℕ, ◌≡◌, refl, ◌∙◌, ◌↔◌, Bool, true, false, some, List, [], Memᴰ, arith, length, map, get_elem?,
  get_elem?-some, All-intro, Bool-cases, ap, and_then, sym, inl, inr, subst,
}
use orphanode.Common.Kept.{keep_lem}
use orphanode.Common.Loops.{mem-map}
use orphanode.Common.Order.{nat_ord, leq}
use orphanode.Common.Sorting.{
  sort, sort_by, mem-sort_by, IsSorted, sort-IsSorted, IsSortedBy, sort_by-IsSortedBy,
}
use orphanode.Common.Vectors.{row}
use orphanode.Search.Loop.{Net}
use orphanode.Search.Vector.{flag, flag-lt}
use orphanode.Components.Round.{Domain}
use orphanode.Components.Finish.{finishing_order_lem}
use orphanode.Components.Order.{Arc}
use orphanode.Components.Partition.{Partition, assign-Partition}
use orphanode.Components.Arrange.{Partition-map, Partition-sort_by}
use orphanode.FileGraph.{Adjacency, FileGraph}
use orphanode.FileGraph.Components.{included_sources, by_first, components_within}
use orphanode.FileGraph.Components.Reversed.{reversed_lem, row-lt}

module _ (g : FileGraph) (included : List Bool) (dom : Domain g.outgoing included) where
  -- The result of the filter, for an included file.
  kept :
      (rows : Adjacency) (v : ℕ)
      → ((u w : ℕ) → Memᴰ u (row rows w) ↔ Memᴰ w (row g.outgoing u))
      → (xs : List ℕ) × (flag included v ≡ true
          → length rows ≡ length g.outgoing
          → included_sources included rows v ≡ some xs)
        × ((u : ℕ) → Memᴰ u xs ↔ Arc g.outgoing included u v)
  unfolding included_sources
  kept rows v at = elim (Bool-cases (flag included v)) [
    | inr off ↦ (
      [],
      λ f. absurd (cc (off, f)),
      λ u. (λ m. absurd (Memᴰ.not-nil m), λ (f, on, m). absurd (cc (off, on))),
    )
    | inl on ↦
        let (xs, e, all) =
          keep_lem included (λ u. u) (row rows v)
            (All-intro _ (row rows v)
              (λ u m. omega (arith, row-lt g.outgoing u v ((at u v).0 m), dom.flags))) in
        (
          xs,
          λ _ size.
              rw
                (
                  get_elem?-some rows v [] (omega (arith, flag-lt included v on, dom.flags, size)),
                  and_then,
                )
                e,
          λ u. ground (arith, all u, at u v),
        )
  ]

  -- Where there is one flag for each file and every target is a file, `components_within` ends
  -- without a panic. Each component is non-empty and holds exactly the files mutually reachable with
  -- one of its files through included files; the components cover exactly the included files, and
  -- their sizes add up to the number of these; each is sorted, and they are sorted by their first
  -- files.
  pub components_within_lem :
      (cs : List (List ℕ)) × (components_within g included ≡ some cs)
      × Partition g.outgoing included cs
      × ((c : List ℕ) → Memᴰ c cs → IsSorted c)
      × IsSortedBy by_first cs
  unfolding components_within
  components_within_lem =
      let (order, ordered, fin) = finishing_order_lem dom in
      let (rows, turned, size, at) = reversed_lem g dom.closed in
      let net : Net (included_sources included rows) (λ v. (kept rows v at).0) = record {
        IsVertex = λ v. flag included v ≡ true;
        found = λ v on. (kept rows v at).1 on size;
        closed = λ u v on m. (((kept rows u at).2 v).0 m).0;
      } in
      let (cs, e, p) =
        assign-Partition dom net (λ u v. (kept rows v at).2 u) (λ v. (λ i. i, λ i. i))
          (get_elem? included) order
          (λ v on. get_elem?-some included v false (flag-lt included v on) ∙ ap some on) fin in
      (
        sort_by by_first (map sort cs),
        rw (ordered, and_then, turned, e) refl,
        Partition-sort_by by_first (map sort cs) (Partition-map leq cs p),
        λ c m.
            let (d, in_cs, same) =
              (mem-map sort c cs).0 ((mem-sort_by by_first c (map sort cs)).0 m) in
            subst IsSorted (sym same) (sort-IsSorted d),
        sort_by-IsSortedBy by_first (λ c d. ground arith) (λ c d e h k. ground arith) (map sort cs),
      )
