-- ===== src/Search/Loop.antt =====
-- The worklist loop ends within as many rounds as there are flags down and vertices queued, never
-- panics where the targets of valid vertices are valid, and marks exactly what the queue reaches.
use mathlib.Core.List.Memᴰ
use mathlib.Core.Logic.{∥∥₁_elim}
use mathlib.Core.Bool.{So-prop}
use orphanode.Common.{
  ℕ, zero, suc, ◌+◌, ◌≤◌, ◌≡◌, refl, ◌∙◌, ◌⊎◌, inl, inr, ◌↔◌, ⊎_elim, true, false, some, Option,
  List, [], ◌∷◌, Memᴰ, arith, length, All, All-intro, All-of-Memᴰ, Memᴰ-cons, and_then,
}
use orphanode.Search.{Board, Search, expand, drain, returned, Reach, root, step}
use orphanode.Search.Step.{up, IsIn, Marks, mark_all_lem}

-- The graph that a search runs on: the valid vertices, whose targets are found and valid.
pub record Net {V : Type 0} (targets : V → Option (List V)) (next : V → List V) : Type 1 where
  pub IsVertex : V → Type 0
  pub found : (u : V) → IsVertex u → targets u ≡ some (next u)
  pub closed : (u v : V) → IsVertex u → Memᴰ v (next u) → IsVertex v

module _ {F V : Type 0} ⦃b : Board F V⦄ {targets : V → Option (List V)} {next : V → List V}
    (net : Net targets next) (roots : List V) where
  -- What holds between two rounds: the marked vertices are reachable, the roots are marked, and
  -- only queued vertices may have unmarked targets.
  pub record Inv (flags : F) (queue : List V) : Type 0 where
    pub range : (v : V) → net.IsVertex v → IsIn flags v
    pub valid : (v : V) → Memᴰ v queue → net.IsVertex v
    pub queued : (v : V) → Memᴰ v queue → up flags v ≡ true
    pub sound : (v : V) → up flags v ≡ true → Reach next roots v
    pub started : (v : V) → Memᴰ v roots → up flags v ≡ true
    pub closed_under :
        (u v : V) → up flags u ≡ true → Memᴰ v (next u) → Memᴰ u queue ⊎ (up flags v ≡ true)

  -- A search that has marked the roots and nothing else.
  pub Inv-start :
      (blank : F) (s : Search F V)
      → ((v : V) → net.IsVertex v → IsIn blank v)
      → ((v : V) → up blank v ≡ false)
      → All net.IsVertex roots
      → Marks (record { flags = blank; queue = [] }) roots s
      → Inv s.flags s.queue
  Inv-start blank s inside off vertices m = record {
    range = λ v i. m.range v (inside v i);
    valid = λ v q. All-of-Memᴰ net.IsVertex roots vertices (elim ((m.queue_iff v).0 q) [
      | inl old ↦ absurd (Memᴰ.not-nil old)
      | inr (now, before) ↦ ground (arith, m.flags_iff v, now, before)
    ]);
    queued = λ v q. ground (arith, m.queue_iff v, λ (n : Memᴰ v []). Memᴰ.not-nil n);
    sound = λ v f. root (⊎_elim (λ e. absurd (cc (off v))) (λ r. r) ((m.flags_iff v).0 f));
    started = λ v r. (m.flags_iff v).1 (inr r);
    closed_under = λ u v f e. inl ((m.queue_iff u).1 (inr (f, off u)));
  }

  expand_lem :
      (flags : F) (u : V) (rest : List V)
      → Inv flags (u ∷ rest)
      → (t : Search F V) × (expand targets flags u rest ≡ some t)
        × Marks (record { flags = flags; queue = rest }) (next u) t
  unfolding expand
  expand_lem flags u rest inv =
      let valid_u = inv.valid u (Memᴰ.head refl) in
      let s : Search F V = record { flags = flags; queue = rest } in
      let inside : All (IsIn flags) (next u) =
        All-intro (IsIn flags) (next u) (λ v m. inv.range v (net.closed u v valid_u m)) in
      let (t, e, m) = mark_all_lem s (next u) inside in (t, rw (net.found u valid_u, and_then) e, m)

  pub Inv-expand :
      (flags : F) (u : V) (rest : List V) (t : Search F V)
      → Inv flags (u ∷ rest)
      → Marks (record { flags = flags; queue = rest }) (next u) t
      → Inv t.flags t.queue
  Inv-expand flags u rest t inv m = record {
    range = λ v i. m.range v (inv.range v i);
    valid = λ v q. elim ((m.queue_iff v).0 q) [
      | inl old ↦ inv.valid v (Memᴰ.tail old)
      | inr (now, before) ↦
          net.closed u v (inv.valid u (Memᴰ.head refl)) (ground (arith, m.flags_iff v, now, before))
    ];
    queued = λ v q. ground (arith, m.flags_iff v, m.queue_iff v, inv.queued v, Memᴰ-cons v u rest);
    sound = λ v f.
        ⊎_elim (inv.sound v) (step (inv.sound u (inv.queued u (Memᴰ.head refl))))
          ((m.flags_iff v).0 f);
    started = λ v r. (m.flags_iff v).1 (inl (inv.started v r));
    closed_under = λ x v f edge. ground (
      arith,
      m.flags_iff v,
      m.flags_iff x,
      m.queue_iff x,
      inv.closed_under x v,
      Memᴰ-cons x u rest,
    );
  }

  pub Reach-up : (flags : F) → Inv flags [] → {v : V} → Reach next roots v → up flags v ≡ true
  Reach-up flags inv (root m) = inv.started _ m
  Reach-up flags inv (step {u} {v} r e) = elim (inv.closed_under u v (Reach-up flags inv r) e) [
    | inl waiting ↦ absurd (Memᴰ.not-nil waiting)
    | inr f ↦ f
  ]

  -- From a state that satisfies the invariant the loop returns the reachable vertices.
  pub drain_lem :
      (fuel : ℕ) (flags : F) (queue : List V)
      → b.down flags + length queue ≤ fuel
      → Inv flags queue
      → (result : F) × (drain fuel targets flags queue ≡ returned result)
        × (b.size result ≡ b.size flags)
        × ((v : V) → (up result v ≡ true) ↔ ∥ Reach next roots v ∥₁)
  unfolding drain
  drain_lem fuel flags [] h inv = (
    flags,
    refl,
    refl,
    λ v. (λ f. ∣ inv.sound v f ∣₁, λ r. ∥∥₁_elim r (So-prop _) (Reach-up flags inv)),
  )
  drain_lem zero flags (u ∷ rest) h inv = absurd (omega arith)
  drain_lem (suc fuel) flags (u ∷ rest) h inv =
      let (t, e, m) = expand_lem flags u rest inv in
      let (result, ends, size, exact) =
        drain_lem fuel t.flags t.queue (omega (arith, m.work)) (Inv-expand flags u rest t inv m) in
      (result, rw (drain, e) ends, size ∙ m.size, exact)
