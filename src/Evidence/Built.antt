-- ===== src/Evidence/Built.antt =====
-- What every graph of evidence satisfies that the operations build.
use mathlib.Core.List.Memᴰ
use orphanode.Common.{
  get_elem?-past, ℕ, zero, suc, ◌^◌, ◌≤◌, ◌<◌, ◌≡◌, refl, sym, subst, ap, ◌∙◌, ◌⊎◌, inl, inr,
  ⊎_elim, ◌↔◌, true, false, Option, none, some, List, [], ◌∷◌, ◌++◌, Memᴰ, Memᴰ-snoc, arith, length,
  length-append, length-set, get_elem?, get_or-of-get_elem?, get_elem?-none, set, any, ltb, ◌==◌,
  and_then, Bool-cases, Option-cases, Distinct, Distinct-append,
}
use orphanode.Common.Order.{nat_ord, leq}
use orphanode.Common.Sorting.{sort, mem-sort_by, IsSorted, sort-IsSorted}
use orphanode.Common.Text.{Text}
use orphanode.Common.Vectors.{row, row-set}
use orphanode.Components.Distinct.{Distinct-sort_by}
use orphanode.Evidence.{
  EvidenceKind, EvidenceNode, EvidenceGraph, no_evidence, new_node, push_node, add_node, add_edge,
  find_node,
}

-- The graphs that a run of the operations builds.
pub data Built : EvidenceGraph → Type 0 where
  empty : Built no_evidence
  with_node :
      {g g' : EvidenceGraph} (kind : EvidenceKind) (summary : Text) (path : Option Text)
      (span : Option (ℕ × ℕ)) {id : ℕ}
      → Built g
      → add_node g kind summary path span ≡ some (id, g')
      → Built g'
  with_edge :
      {g g' : EvidenceGraph} (source target : ℕ)
      → Built g
      → add_edge g source target ≡ some g'
      → Built g'

-- One row of edges for each node; nodes numbered by their positions, in 32 bits; and every row
-- sorted, with no target twice.
pub record WellFormed (g : EvidenceGraph) : Type 0 where
  pub size : length g.outgoing ≡ length g.nodes
  pub bound : length g.nodes ≤ 2 ^ 32
  pub numbered : (i : ℕ) (n : EvidenceNode) → find_node g i ≡ some n → n.id ≡ i
  pub sorted : (i : ℕ) → IsSorted (row g.outgoing i)
  pub once : (i : ℕ) → Distinct (row g.outgoing i)

snoc-cases :
    {A : Type 0} (xs : List A) (x a : A) (i : ℕ)
    → get_elem? (xs ++ x ∷ []) i ≡ some a
    → (get_elem? xs i ≡ some a) ⊎ (i ≡ length xs) × (a ≡ x)
snoc-cases [] x a zero h = inr (refl, ground (arith, h))
snoc-cases [] x a (suc i) h = cc
snoc-cases (y ∷ xs) x a zero h = inl h
snoc-cases (y ∷ xs) x a (suc i) h = elim (snoc-cases xs x a i h) [
  | inl at ↦ inl at
  | inr (e, same) ↦ inr (omega (arith, e), same)
]

row-snoc : (rows : List (List ℕ)) (i : ℕ) → row (rows ++ [] ∷ []) i ≡ row rows i
row-snoc [] zero = refl
row-snoc [] (suc i) = refl
row-snoc (r ∷ rows) zero = refl
row-snoc (r ∷ rows) (suc i) = row-snoc rows i

row-set-cases :
    (rows : List (List ℕ)) (i j : ℕ) (r : List ℕ)
    → (row (set rows i r) j ≡ r) ⊎ (row (set rows i r) j ≡ row rows j)
row-set-cases [] i j r = inr refl
row-set-cases (x ∷ rows) zero zero r = inl refl
row-set-cases (x ∷ rows) zero (suc j) r = inr refl
row-set-cases (x ∷ rows) (suc i) zero r = inr refl
row-set-cases (x ∷ rows) (suc i) (suc j) r = row-set-cases rows i j r

any-target :
    (target : ℕ) (edges : List ℕ) → any (λ t. t == target) edges ≡ false → ¬ Memᴰ target edges
any-target target [] h m = Memᴰ.not-nil m
any-target target (x ∷ edges) h m = elim (Memᴰ.cases_cons m) [
  | inl e ↦ ground (arith, h, e)
  | inr later ↦ any-target target edges (ground (arith, h)) later
]

target-Memᴰ :
    (target : ℕ) (edges : List ℕ) → any (λ t. t == target) edges ≡ true → Memᴰ target edges
target-Memᴰ target [] h = cc
target-Memᴰ target (x ∷ edges) h = elim (Bool-cases (x == target)) [
  | inl e ↦ Memᴰ.head (ground (arith, e))
  | inr other ↦ Memᴰ.tail (target-Memᴰ target edges (ground (arith, h, other)))
]

add_node-cases :
    (g : EvidenceGraph) (kind : EvidenceKind) (summary : Text) (path : Option Text)
    (span : Option (ℕ × ℕ))
    → (length g.nodes < 2 ^ 32)
        × (add_node g kind summary path span
            ≡ some (length g.nodes, push_node g (new_node (length g.nodes) kind summary path span)))
      ⊎ (2 ^ 32 ≤ length g.nodes) × (add_node g kind summary path span ≡ none)
unfolding add_node
add_node-cases g kind summary path span = elim (Bool-cases (ltb (length g.nodes) (2 ^ 32))) [
  | inl h ↦ inl (ground (arith, h), rw (add_node, h) refl)
  | inr h ↦ inr (ground (arith, h), rw (add_node, h) refl)
]

WellFormed-push_node :
    (g : EvidenceGraph) (node : EvidenceNode)
    → node.id ≡ length g.nodes
    → length g.nodes < 2 ^ 32
    → WellFormed g
    → WellFormed (push_node g node)
unfolding find_node
WellFormed-push_node g node is lt w = record {
  size =
      omega (arith, w.size, length-append g.nodes (node ∷ []), length-append g.outgoing ([] ∷ []));
  bound = omega (arith, length-append g.nodes (node ∷ []));
  numbered = λ i n h. elim (snoc-cases g.nodes node n i h) [
    | inl at ↦ w.numbered i n at
    | inr (e, same) ↦ ap (λ (x : EvidenceNode). x.id) same ∙ is ∙ sym e
  ];
  sorted = λ i. subst IsSorted (sym (row-snoc g.outgoing i)) (w.sorted i);
  once = λ i. subst Distinct (sym (row-snoc g.outgoing i)) (w.once i);
}

WellFormed-set :
    (g : EvidenceGraph) (source target : ℕ)
    → ¬ Memᴰ target (row g.outgoing source)
    → WellFormed g
    → WellFormed (record {
      nodes = g.nodes;
      outgoing = set g.outgoing source (sort (row g.outgoing source ++ target ∷ []));
    })
unfolding find_node
WellFormed-set g source target new w =
    let edges = row g.outgoing source ++ target ∷ [] in
    let fresh : Distinct edges =
      Distinct-append (row g.outgoing source) (target ∷ []) (w.once source) (Memᴰ.not-nil, tt)
        (λ a m e. new (subst (λ x. Memᴰ x (row g.outgoing source)) (Memᴰ.eq_of_singleton e) m)) in
    record {
      size = length-set g.outgoing source (sort edges) ∙ w.size;
      bound = w.bound;
      numbered = w.numbered;
      sorted = λ i. elim (row-set-cases g.outgoing source i (sort edges)) [
        | inl at ↦ subst IsSorted (sym at) (sort-IsSorted edges)
        | inr at ↦ subst IsSorted (sym at) (w.sorted i)
      ];
      once = λ i. elim (row-set-cases g.outgoing source i (sort edges)) [
        | inl at ↦ subst Distinct (sym at) (Distinct-sort_by leq edges fresh)
        | inr at ↦ subst Distinct (sym at) (w.once i)
      ];
    }

some-same : {A : Type 0} {o : Option A} {a b : A} → o ≡ some a → o ≡ some b → a ≡ b
some-same h k = ground (arith, h, k)

-- What `add_edge` returns: nothing where the source is no node, the same graph where the edge is
-- there, and else the graph with the edge.
add_edge-cases :
    (g : EvidenceGraph) (source target : ℕ)
    → (length g.outgoing ≤ source) × (add_edge g source target ≡ none)
      ⊎ ((source < length g.outgoing)
            × (Memᴰ target (row g.outgoing source))
            × (add_edge g source target ≡ some g)
          ⊎ (source < length g.outgoing)
            × (¬ Memᴰ target (row g.outgoing source))
            × (add_edge g source target
                ≡ some (record {
                  nodes = g.nodes;
                  outgoing = set g.outgoing source (sort (row g.outgoing source ++ target ∷ []));
                })))
unfolding add_edge
add_edge-cases g source target = elim (Option-cases (get_elem? g.outgoing source)) [
  | inl out ↦ inl (get_elem?-past g.outgoing source out, rw (add_edge, out, and_then) refl)
  | inr (edges, at) ↦
      let (same, lt) = get_or-of-get_elem? g.outgoing source [] at in
      let found : get_elem? g.outgoing source ≡ some (row g.outgoing source) =
        at ∙ ap some (sym same) in
      elim (Bool-cases (any (λ t. t == target) (row g.outgoing source))) [
        | inl old ↦ inr (
            inl (
              lt,
              target-Memᴰ target (row g.outgoing source) old,
              rw (add_edge, found, and_then, old) refl,
            ))
        | inr new ↦ inr (
            inr (
              lt,
              any-target target (row g.outgoing source) new,
              rw (add_edge, found, and_then, new) refl,
            ))
      ]
]

-- Every graph that the operations build is well-formed: it has one row of edges for each node, every
-- node's identifier is its position and fits 32 bits, and the targets of every node are sorted, with
-- none twice.
pub Built-WellFormed : (g : EvidenceGraph) → Built g → WellFormed g
unfolding find_node
Built-WellFormed g empty = record {
  size = refl;
  bound = omega arith;
  numbered = λ i n h. cc;
  sorted = λ i. tt;
  once = λ i. tt;
}
Built-WellFormed g' (with_node {g} kind summary path span built e) =
    elim (add_node-cases g kind summary path span) [
      | inr (full, out) ↦ absurd (cc (e, out))
      | inl (lt, made) ↦ subst WellFormed (ap (λ (x : ℕ × EvidenceGraph). x.1) (some-same made e)) (
          WellFormed-push_node g (new_node (length g.nodes) kind summary path span) refl lt
            (Built-WellFormed g built))
    ]
Built-WellFormed g' (with_edge {g} source target built e) = elim (add_edge-cases g source target) [
  | inl (past, out) ↦ absurd (cc (e, out))
  | inr (inl (lt, old, same)) ↦ subst WellFormed (some-same same e) (Built-WellFormed g built)
  | inr (inr (lt, new, made)) ↦
      subst WellFormed (some-same made e)
        (WellFormed-set g source target new (Built-WellFormed g built))
]

snoc_last : {A : Type 0} (xs : List A) (x : A) → get_elem? (xs ++ x ∷ []) (length xs) ≡ some x
snoc_last [] x = refl
snoc_last (y ∷ xs) x = snoc_last xs x

snoc_old :
    {A : Type 0} (xs : List A) (x : A) (i : ℕ)
    → i < length xs
    → get_elem? (xs ++ x ∷ []) i ≡ get_elem? xs i
snoc_old [] x i h = absurd (omega arith)
snoc_old (y ∷ xs) x zero h = refl
snoc_old (y ∷ xs) x (suc i) h = snoc_old xs x i (omega arith)

-- The start and the end that a span gives.
abbrev pub IsSpan : Option (ℕ × ℕ) → Option ℕ → Option ℕ → Type 0
IsSpan none start end = (start ≡ none) × (end ≡ none)
IsSpan (some (a, b)) start end = (start ≡ some a) × (end ≡ some b)

-- The parts of a node: those given to `add_node`, with the two ends of the span, where there is one.
pub record HasParts (id : ℕ) (kind : EvidenceKind) (summary : Text) (path : Option Text)
    (span : Option (ℕ × ℕ)) (n : EvidenceNode) : Type 0 where
  pub same_id : n.id ≡ id
  pub same_kind : n.kind ≡ kind
  pub same_summary : n.summary ≡ summary
  pub same_path : n.path ≡ path
  pub ends : IsSpan span n.start n.end

new_node-IsSpan :
    (id : ℕ) (kind : EvidenceKind) (summary : Text) (path : Option Text) (span : Option (ℕ × ℕ))
    → let n = new_node id kind summary path span in IsSpan span n.start n.end
new_node-IsSpan id kind summary path none = (refl, refl)
new_node-IsSpan id kind summary path (some (a, b)) = (refl, refl)

new_node-HasParts :
    (id : ℕ) (kind : EvidenceKind) (summary : Text) (path : Option Text) (span : Option (ℕ × ℕ))
    → HasParts id kind summary path span (new_node id kind summary path span)
new_node-HasParts id kind summary path span = record {
  same_id = refl;
  same_kind = refl;
  same_summary = refl;
  same_path = refl;
  ends = new_node-IsSpan id kind summary path span;
}

-- `add_node` panics exactly when there are 2 ^ 32 nodes or more. Otherwise it returns an identifier
-- that fits 32 bits and belongs to no node yet. Under it the new graph has a node with that
-- identifier and the given kind, summary and path, whose start and end are the first and the second
-- number of the span, or absent without a span. All nodes that were there stay under their
-- identifiers, and no node's edges change.
pub add_node-find_node :
    (g : EvidenceGraph) (kind : EvidenceKind) (summary : Text) (path : Option Text)
    (span : Option (ℕ × ℕ))
    → (2 ^ 32 ≤ length g.nodes) × (add_node g kind summary path span ≡ none)
      ⊎ ((id : ℕ) × (g' : EvidenceGraph) × (add_node g kind summary path span ≡ some (id, g'))
          × (id < 2 ^ 32)
          × (find_node g id ≡ none)
          × ((node : EvidenceNode) × (find_node g' id ≡ some node)
              × HasParts id kind summary path span node)
          × ((i : ℕ) (n : EvidenceNode) → find_node g i ≡ some n → find_node g' i ≡ some n)
          × ((i : ℕ) → row g'.outgoing i ≡ row g.outgoing i))
unfolding find_node
add_node-find_node g kind summary path span = elim (add_node-cases g kind summary path span) [
  | inr (full, out) ↦ inl (full, out)
  | inl (lt, made) ↦
      let node = new_node (length g.nodes) kind summary path span in
      inr (
        length g.nodes,
        push_node g node,
        made,
        lt,
        get_elem?-none g.nodes (length g.nodes) (omega arith),
        (node, snoc_last g.nodes node, new_node-HasParts (length g.nodes) kind summary path span),
        λ i n h. snoc_old g.nodes node i (get_or-of-get_elem? g.nodes i node h).1 ∙ h,
        λ i. row-snoc g.outgoing i,
      )
]

mem-row-set :
    (rows : List (List ℕ)) (source target : ℕ)
    → source < length rows
    → (i t : ℕ)
    → Memᴰ t (row (set rows source (sort (row rows source ++ target ∷ []))) i)
      ↔ (Memᴰ t (row rows i) ⊎ (i ≡ source) × (t ≡ target))
mem-row-set rows source target h i t =
    let edges = row rows source ++ target ∷ [] in
    elim (row-set rows source i (sort edges) h) [
      | inl (e, at) ↦
          rw (at, e) (ground (arith, mem-sort_by leq t edges, Memᴰ-snoc t target (row rows source)))
      | inr (ne, at) ↦ rw at (ground arith)
    ]

-- `add_edge` panics exactly when the source is no node. Otherwise it adds the edge and no other, and
-- leaves the nodes as they are.
pub add_edge_lem :
    (g : EvidenceGraph) (source target : ℕ)
    → WellFormed g
    → (length g.nodes ≤ source) × (add_edge g source target ≡ none)
      ⊎ ((g' : EvidenceGraph) × (add_edge g source target ≡ some g')
          × (source < length g.nodes)
          × (g'.nodes ≡ g.nodes)
          × ((i t : ℕ)
              → Memᴰ t (row g'.outgoing i)
                ↔ (Memᴰ t (row g.outgoing i) ⊎ (i ≡ source) × (t ≡ target))))
add_edge_lem g source target w = elim (add_edge-cases g source target) [
  | inl (past, out) ↦ inl (omega (arith, w.size, past), out)
  | inr (inl (lt, old, same)) ↦ inr (
    g,
    same,
    omega (arith, w.size, lt),
    refl,
    λ i t. (
      inl,
      ⊎_elim (λ m. m)
          (λ (e, f).
            subst (λ x. Memᴰ t (row g.outgoing x)) (sym e)
              (subst (λ x. Memᴰ x (row g.outgoing source)) (sym f) old)),
    ),
  )
  | inr (inr (lt, new, made)) ↦
      inr (_, made, omega (arith, w.size, lt), refl, mem-row-set g.outgoing source target lt)
]
