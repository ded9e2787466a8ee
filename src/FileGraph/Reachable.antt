-- ===== src/FileGraph/Reachable.antt =====
-- What `reachable_from_many` returns.
use mathlib.Core.List.Memᴰ
use mathlib.Core.Logic.{∥∥₁_map}
use orphanode.Common.{
  ℕ, ◌≤◌, ◌<◌, ◌≡◌, ◌∙◌, inl, inr, ◌↔◌, Bool, true, false, none, some, List, [], ◌∷◌, Memᴰ, arith,
  length, replicate, All, All-of-Memᴰ, Option-cases, get_elem?-none, length-set, length-replicate,
  and_then, get_elem?-some, get_elem?, get_or, All-intro, sym,
}
use orphanode.Search.{Search, mark, mark_all, returned, panicked, Reach, root, step}
use orphanode.Search.Step.{up, IsIn, mark_all_lem}
use orphanode.Search.Vector.{
  vector_board, flag, up-flag, IsIn-lt, flag-replicate, unmarked-replicate,
}
use orphanode.Search.Loop.{Net, Inv-start, drain_lem}
use orphanode.FileGraph.{Adjacency, Edge, FileGraph, new, finish, reachable_from_many}
use orphanode.FileGraph.Edges.{
  IsClosed, IsClosed-targets, add_edges, InRange, add_edges_lem, Edge-new, length-new, Edge-finish,
  length-finish, IsClosed-intro,
}

abbrev blank : ℕ → Search (List Bool) ℕ
blank n = record { flags = replicate n false; queue = [] }

-- Reachability along the edges.
abbrev pub Reaches : Adjacency → List ℕ → ℕ → Type 0
Reaches outgoing = Reach (λ u. get_or outgoing u [])

abbrev net : (g : Adjacency) → IsClosed (length g) g → Net (get_elem? g) (λ u. get_or g u [])
net g closed = record {
  IsVertex = λ u. u < length g;
  found = λ u h. get_elem?-some g u [] h;
  closed = λ u v h m.
      All-of-Memᴰ (λ w. w < length g) (get_or g u []) (IsClosed-targets (length g) g u closed) m;
}

-- On a graph whose targets are files, and with roots that are files, the search ends without a
-- panic, and the flag of a file is set exactly when the file is reachable from a root.
pub reachable_from_many_lem :
    (g : FileGraph) (roots : List ℕ)
    → IsClosed (length g.outgoing) g.outgoing
    → All (λ v. v < length g.outgoing) roots
    → (flags : List Bool) × (reachable_from_many g roots ≡ returned flags)
      × (length flags ≡ length g.outgoing)
      × ((v : ℕ) → (flag flags v ≡ true) ↔ ∥ Reaches g.outgoing roots v ∥₁)
unfolding reachable_from_many
reachable_from_many_lem g roots closed h =
    let n = length g.outgoing in
    let inside : (v : ℕ) → v < n → IsIn (replicate n false) v =
      λ v l. IsIn-lt (replicate n false) v (omega (arith, l, length-replicate n false)) in
    let off : (v : ℕ) → up (replicate n false) v ≡ false =
      λ v. up-flag (replicate n false) v ∙ flag-replicate n v in
    let (s, e, m) =
      mark_all_lem (blank n) roots
        (All-intro _ roots (λ v i. inside v (All-of-Memᴰ (λ w. w < n) roots h i))) in
    let start = Inv-start (net g.outgoing closed) roots (replicate n false) s inside off h m in
    let (flags, ends, size, exact) =
      drain_lem (net g.outgoing closed) roots n s.flags s.queue
        (omega (arith, m.work, unmarked-replicate n)) start in
    (
      flags,
      rw (reachable_from_many, e) ends,
      size ∙ m.size ∙ length-replicate n false,
      λ v. rw (sym (up-flag flags v)) (exact v),
    )

-- A walk along listed edges from one of the roots.
pub data Walk (edges : List (ℕ × ℕ)) (roots : List ℕ) : ℕ → Type 0 where
  start : {v : ℕ} → Memᴰ v roots → Walk edges roots v
  along : {u v : ℕ} → Walk edges roots u → Memᴰ {A = ℕ × ℕ} (u, v) edges → Walk edges roots v

module _ (g : Adjacency) {edges : List (ℕ × ℕ)} {roots : List ℕ}
    (agree : (u v : ℕ) → Edge g u v ↔ Memᴰ {A = ℕ × ℕ} (u, v) edges) where
  Walk-of-Reach : {v : ℕ} → Reaches g roots v → Walk edges roots v
  Walk-of-Reach (root m) = start m
  Walk-of-Reach (step {u} {v} r e) = along (Walk-of-Reach r) ((agree u v).0 e)

  Reach-of-Walk : {v : ℕ} → Walk edges roots v → Reaches g roots v
  Reach-of-Walk (start m) = root m
  Reach-of-Walk (along {u} {v} w m) = step (Reach-of-Walk w) ((agree u v).1 m)

-- For edges and roots between n files: adding the edges to a new graph does not panic, and after
-- `finish` the search returns n flags, set exactly at the files that some walk along the added
-- edges reaches from a root.
pub reachable_from_many-finish-add_edges :
    (n : ℕ) (edges : List (ℕ × ℕ)) (roots : List ℕ)
    → InRange n edges
    → All (λ v. v < n) roots
    → (g : FileGraph) × (add_edges (new n) edges ≡ some g)
      × (flags : List Bool) × (reachable_from_many (finish g) roots ≡ returned flags)
      × (length flags ≡ n)
      × ((v : ℕ) → (flag flags v ≡ true) ↔ ∥ Walk edges roots v ∥₁)
reachable_from_many-finish-add_edges n edges roots in_range h =
    let (g, added, holds) = add_edges_lem (new n) edges (rw (length-new n) in_range) in
    let size : length (finish g).outgoing ≡ n = length-finish g ∙ holds.size ∙ length-new n in
    let agree : (u v : ℕ) → Edge (finish g).outgoing u v ↔ Memᴰ {A = ℕ × ℕ} (u, v) edges =
      λ u v. ground (arith, Edge-finish g u v, holds.edges u v, Edge-new n u v) in
    let closed : IsClosed (length (finish g).outgoing) (finish g).outgoing = rw size (
      IsClosed-intro n (finish g).outgoing (λ u v e.
        (All-of-Memᴰ (λ (x : ℕ × ℕ). (x.0 < n) × (x.1 < n)) edges in_range ((agree u v).0 e)).1)) in
    let (flags, ends, len, exact) = reachable_from_many_lem (finish g) roots closed (rw size h) in
    (
      g,
      added,
      flags,
      ends,
      len ∙ size,
      λ v. (
        λ f. ∥∥₁_map ((exact v).0 f) (Walk-of-Reach (finish g).outgoing agree),
        λ w. (exact v).1 (∥∥₁_map w (Reach-of-Walk (finish g).outgoing agree)),
      ),
    )

mark-none : (s : Search (List Bool) ℕ) (v : ℕ) → length s.flags ≤ v → mark s v ≡ none
unfolding mark
mark-none s v h = rw (mark, get_elem?-none s.flags v h)

length-mark :
    (s : Search (List Bool) ℕ) (v : ℕ) {t : Search (List Bool) ℕ}
    → mark s v ≡ some t
    → length t.flags ≡ length s.flags
unfolding mark
length-mark s v e = ground (arith, length-set s.flags v true)

mark_all-none :
    (s : Search (List Bool) ℕ) (vs : List ℕ) (v : ℕ)
    → Memᴰ v vs
    → length s.flags ≤ v
    → mark_all s vs ≡ none
unfolding mark_all
mark_all-none s [] v m h = absurd (Memᴰ.not-nil m)
mark_all-none s (x ∷ xs) v m h = elim (Memᴰ.cases_cons m) [
  | inl e ↦ rw (mark-none s x (omega (arith, e)))
  | inr later ↦ elim (Option-cases (mark s x)) [
    | inl e ↦ rw e
    | inr (t, e) ↦ rw (e, and_then) (mark_all-none t xs v later (omega (arith, length-mark s x e)))
  ]
]

-- A root that is no file makes the search panic, whatever the other roots are.
pub reachable_from_many_panics :
    (g : FileGraph) (roots : List ℕ) (v : ℕ)
    → Memᴰ v roots
    → length g.outgoing ≤ v
    → reachable_from_many g roots ≡ panicked
unfolding reachable_from_many
reachable_from_many_panics g roots v m h = rw (
  reachable_from_many,
  mark_all-none (blank (length g.outgoing)) roots v m
      (omega (arith, length-replicate (length g.outgoing) false)),
)
