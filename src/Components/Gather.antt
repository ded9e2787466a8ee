-- ===== src/Components/Gather.antt =====
-- One component of the second search: it ends, and it holds exactly what it newly marks.
use mathlib.Core.List.Memᴰ
use orphanode.Common.{
  ℕ, zero, suc, ◌+◌, ◌≤◌, ◌≡◌, refl, ◌∙◌, ◌⊎◌, inl, inr, ◌↔◌, ⊎_elim, Bool, true, false, Option,
  some, List, [], ◌∷◌, Memᴰ, arith, length, length-set, set, get_elem?, All, All-intro, Memᴰ-cons,
  Memᴰ-singleton, and_then, subst, sym,
}
use orphanode.Search.{Search, expand, Reach, root, step}
use orphanode.Search.Step.{up, IsIn, Marks, mark_all_lem}
use orphanode.Search.Loop.{Net, Inv, Inv-expand}
use orphanode.Search.Vector.{vector_board, unmarked, up-set, is_some-set, unmarked-set}
use orphanode.Components.{push_onto, gather}

push_onto-Memᴰ :
    (w : ℕ) (vs stack : List ℕ) → Memᴰ w (push_onto vs stack) ↔ (Memᴰ w vs ⊎ Memᴰ w stack)
unfolding push_onto
push_onto-Memᴰ w [] stack = (inr, ⊎_elim (λ m. absurd (Memᴰ.not-nil m)) (λ m. m))
push_onto-Memᴰ w (v ∷ vs) stack =
    ground (arith, push_onto-Memᴰ w vs (v ∷ stack), Memᴰ-cons w v vs, Memᴰ-cons w v stack)

length-push_onto : (vs stack : List ℕ) → length (push_onto vs stack) ≡ length vs + length stack
unfolding push_onto
length-push_onto [] stack = omega arith
length-push_onto (v ∷ vs) stack = omega (arith, length-push_onto vs (v ∷ stack))

Marks-stack :
    (flags : List Bool) (stack vs : List ℕ) (t : Search (List Bool) ℕ)
    → Marks (record { flags = flags; queue = [] }) vs t
    → Marks
        (record { flags = flags; queue = stack })
        vs
        (record { flags = t.flags; queue = push_onto t.queue stack })
Marks-stack flags stack vs t m = record {
  size = m.size;
  range = m.range;
  work = omega (arith, m.work, length-push_onto t.queue stack);
  flags_iff = m.flags_iff;
  queue_iff = λ w.
      ground
        (arith, m.queue_iff w, push_onto-Memᴰ w t.queue stack, λ (n : Memᴰ w []). Memᴰ.not-nil n);
}

module _ {sources : ℕ → Option (List ℕ)} {next : ℕ → List ℕ} (net : Net sources next) where
  pub Reach-more : {roots : List ℕ} (r : ℕ) {v : ℕ} → Reach next roots v → Reach next (r ∷ roots) v
  Reach-more r (root m) = root (Memᴰ.tail m)
  Reach-more r (step p e) = step (Reach-more r p) e

  -- A root that is marked already changes nothing.
  pub Inv-skip :
      (roots : List ℕ) (r : ℕ) (flags : List Bool)
      → Inv net roots flags []
      → up flags r ≡ true
      → Inv net (r ∷ roots) flags []
  Inv-skip roots r flags inv f = record {
    range = inv.range;
    valid = inv.valid;
    queued = inv.queued;
    sound = λ v g. Reach-more r (inv.sound v g);
    started = λ v m. elim (Memᴰ.cases_cons m) [
      | inl same ↦ subst (λ x. up flags x ≡ true) (sym same) f
      | inr old ↦ inv.started v old
    ];
    closed_under = inv.closed_under;
  }

  pub Inv-root :
      (roots : List ℕ) (r : ℕ) (flags : List Bool)
      → Inv net roots flags []
      → get_elem? flags r ≡ some false
      → net.IsVertex r
      → Inv net (r ∷ roots) (set flags r true) (r ∷ [])
  Inv-root roots r flags inv e vertex = record {
    range = λ v i. is_some-set flags r v ∙ inv.range v i;
    valid = λ v m. subst net.IsVertex (sym (Memᴰ.eq_of_singleton m)) vertex;
    queued = λ v m. (up-set flags r v e).1 (inr (Memᴰ.eq_of_singleton m));
    sound = λ v f. elim ((up-set flags r v e).0 f) [
      | inl old ↦ Reach-more r (inv.sound v old)
      | inr new ↦ root (Memᴰ.head new)
    ];
    started = λ v m. elim (Memᴰ.cases_cons m) [
      | inl same ↦ (up-set flags r v e).1 (inr same)
      | inr old ↦ (up-set flags r v e).1 (inl (inv.started v old))
    ];
    closed_under = λ u v f edge. elim ((up-set flags r u e).0 f) [
      | inr new ↦ inl (Memᴰ.head new)
      | inl old ↦ elim (inv.closed_under u v old edge) [
        | inl waiting ↦ absurd (Memᴰ.not-nil waiting)
        | inr g ↦ inr ((up-set flags r v e).1 (inl g))
      ]
    ];
  }

  -- What a component under construction is, from the flags `base` before its start.
  pub record Collects (base flags : List Bool) (stack component : List ℕ) : Type 0 where
    pub newly :
        (v : ℕ) → (Memᴰ v stack ⊎ Memᴰ v component) ↔ (up flags v ≡ true) × (up base v ≡ false)
    pub kept : (v : ℕ) → up base v ≡ true → up flags v ≡ true
    pub size : length flags ≡ length base
    pub count : unmarked flags + (length stack + length component) ≡ unmarked base

  Collects-round :
      (base flags : List Bool) (u : ℕ) (stack component : List ℕ) (t : Search (List Bool) ℕ)
      → Collects base flags (u ∷ stack) component
      → Marks (record { flags = flags; queue = stack }) (next u) t
      → Collects base t.flags t.queue (u ∷ component)
  Collects-round base flags u stack component t c m = record {
    newly = λ v. ground (
      arith,
      c.newly v,
      c.kept v,
      m.flags_iff v,
      m.queue_iff v,
      Memᴰ-cons v u stack,
      Memᴰ-cons v u component,
    );
    kept = λ v f. (m.flags_iff v).1 (inl (c.kept v f));
    size = m.size ∙ c.size;
    count = omega (arith, c.count, m.work);
  }

  gather_lem :
      (fuel : ℕ) (roots : List ℕ) (base flags : List Bool) (stack component : List ℕ)
      → unmarked flags + length stack ≤ fuel
      → Inv net roots flags stack
      → Collects base flags stack component
      → (flags' : List Bool) × (component' : List ℕ) × (gather fuel sources flags stack component
          ≡ some (flags', component'))
        × Inv net roots flags' []
        × Collects base flags' [] component'
  unfolding gather expand
  gather_lem fuel roots base flags [] component h inv c = (flags, component, refl, inv, c)
  gather_lem zero roots base flags (u ∷ stack) component h inv c = absurd (omega arith)
  gather_lem (suc fuel) roots base flags (u ∷ stack) component h inv c =
      let vertex = inv.valid u (Memᴰ.head refl) in
      let inside : All (IsIn flags) (next u) =
        All-intro (IsIn flags) (next u) (λ v m. inv.range v (net.closed u v vertex m)) in
      let (t, e, m) = mark_all_lem (record { flags = flags; queue = [] }) (next u) inside in
      let pushed = Marks-stack flags stack (next u) t m in
      let (flags', component', ends, last, whole) =
        gather_lem fuel roots base t.flags (push_onto t.queue stack) (u ∷ component)
          (omega (arith, pushed.work))
          (Inv-expand net roots flags u stack
            (record { flags = t.flags; queue = push_onto t.queue stack }) inv pushed)
          (Collects-round base flags u stack component
            (record { flags = t.flags; queue = push_onto t.queue stack }) c pushed) in
      (flags', component', rw (net.found u vertex, and_then, e) ends, last, whole)

  -- From a start that is not marked yet.
  pub gather-start :
      (fuel : ℕ) (roots : List ℕ) (r : ℕ) (base : List Bool)
      → unmarked base ≤ fuel
      → Inv net roots base []
      → get_elem? base r ≡ some false
      → net.IsVertex r
      → (flags : List Bool) × (component : List ℕ) × (gather fuel sources
            (set base r true)
            (r ∷ [])
            []
          ≡ some (flags, component))
        × Inv net (r ∷ roots) flags []
        × Collects base flags [] component
  gather-start fuel roots r base h inv e vertex =
      gather_lem fuel (r ∷ roots) base (set base r true) (r ∷ []) []
        (omega (arith, unmarked-set base r e)) (Inv-root roots r base inv e vertex)
        (record {
          newly = λ v.
              ground (
                arith,
                e,
                up-set base r v e,
                Memᴰ-singleton v r,
                λ (n : Memᴰ v []). Memᴰ.not-nil n,
              );
          kept = λ v f. (up-set base r v e).1 (inl f);
          size = length-set base r true;
          count = omega (arith, unmarked-set base r e);
        })
