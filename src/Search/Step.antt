-- ===== src/Search/Step.antt =====
-- What marking one vertex, or a list of vertices, does to the flags and the queue.
use mathlib.Core.List.Memᴰ
use orphanode.Common.{
  ◌+◌, ◌≡◌, refl, ◌⊎◌, inl, inr, ◌↔◌, ⊎_elim, Bool, true, false, some, List, [], ◌∷◌, ◌++◌, Memᴰ,
  arith, length, All, All-intro, All-of-Memᴰ, length-append, Memᴰ-cons, Memᴰ-snoc, Memᴰ-singleton,
  and_then, Option-cases, subst, sym, ◌∙◌,
}
use orphanode.Search.{Board, Search, mark, mark_all, is_some, is_up}

module _ {F V : Type 0} ⦃b : Board F V⦄ where
  -- Whether a vertex is marked, and whether it has a flag at all.
  abbrev pub up : F → V → Bool
  up f v = is_up (b.read f v)

  abbrev pub IsIn : F → V → Type 0
  IsIn f v = is_some (b.read f v) ≡ true

  -- What a marking step from `s` to `t` owes: the vertices `vs` are marked, and nothing else.
  pub record Marks (s : Search F V) (vs : List V) (t : Search F V) : Type 0 where
    pub size : b.size t.flags ≡ b.size s.flags
    pub range : (w : V) → IsIn s.flags w → IsIn t.flags w
    pub work : b.down t.flags + length t.queue ≡ b.down s.flags + length s.queue
    pub flags_iff : (w : V) → (up t.flags w ≡ true) ↔ ((up s.flags w ≡ true) ⊎ Memᴰ w vs)
    pub queue_iff :
        (w : V) → Memᴰ w t.queue ↔ (Memᴰ w s.queue ⊎ (up t.flags w ≡ true) × (up s.flags w ≡ false))

  marked-Marks : (s : Search F V) (v : V) → up s.flags v ≡ true → Marks s (v ∷ []) s
  marked-Marks s v h = record {
    size = refl;
    range = λ w i. i;
    work = refl;
    flags_iff = λ w. (
      inl,
      ⊎_elim (λ m. m) (λ m. subst (λ x. up s.flags x ≡ true) (sym (Memᴰ.eq_of_singleton m)) h),
    );
    queue_iff = λ w. (inl, ⊎_elim (λ m. m) (λ (now, before). cc));
  }

  push-Marks :
      (s : Search F V) (v : V)
      → b.read s.flags v ≡ some false
      → Marks s (v ∷ []) (record { flags = b.raise s.flags v; queue = s.queue ++ v ∷ [] })
  push-Marks s v e = record {
    size = b.size_raise s.flags v;
    range = λ w i. ground (arith, b.range s.flags v w, i);
    work = omega (arith, b.fewer s.flags v e, length-append s.queue (v ∷ []));
    flags_iff = λ w. ground (arith, b.up_iff s.flags v w e, Memᴰ-singleton w v);
    queue_iff = λ w. ground (arith, e, b.up_iff s.flags v w e, Memᴰ-snoc w v s.queue);
  }

  pub mark_lem :
      (s : Search F V) (v : V)
      → IsIn s.flags v
      → (t : Search F V) × (mark s v ≡ some t) × Marks s (v ∷ []) t
  unfolding mark
  mark_lem s v h = elim (Option-cases (b.read s.flags v)) [
    | inl out ↦ absurd (ground (arith, h, out))
    | inr (true, e) ↦ (s, rw (mark, e), marked-Marks s v (rw e refl))
    | inr (false, e) ↦ (
      record { flags = b.raise s.flags v; queue = s.queue ++ v ∷ [] },
      rw (mark, e),
      push-Marks s v e,
    )
  ]

  Marks-trans :
      (s t u : Search F V) (v : V) (vs : List V)
      → Marks s (v ∷ []) t
      → Marks t vs u
      → Marks s (v ∷ vs) u
  Marks-trans s t u v vs m n = record {
    size = n.size ∙ m.size;
    range = λ w i. n.range w (m.range w i);
    work = omega (arith, m.work, n.work);
    flags_iff =
        λ w. ground (arith, m.flags_iff w, n.flags_iff w, Memᴰ-cons w v vs, Memᴰ-singleton w v);
    queue_iff = λ w. ground (arith, m.flags_iff w, n.flags_iff w, m.queue_iff w, n.queue_iff w);
  }

  -- Targets that are in range never panic.
  pub mark_all_lem :
      (s : Search F V) (vs : List V)
      → All (IsIn s.flags) vs
      → (t : Search F V) × (mark_all s vs ≡ some t) × Marks s vs t
  unfolding mark_all
  mark_all_lem s [] h = (
    s,
    refl,
    record {
      size = refl;
      range = λ w i. i;
      work = refl;
      flags_iff = λ w. (inl, ⊎_elim (λ m. m) (λ m. absurd (Memᴰ.not-nil m)));
      queue_iff = λ w. (inl, ⊎_elim (λ m. m) (λ (now, before). cc));
    },
  )
  mark_all_lem s (v ∷ vs) h =
      let (t, e, m) = mark_lem s v h.0 in
      let later : All (IsIn t.flags) vs =
        All-intro (IsIn t.flags) vs (λ w i. m.range w (All-of-Memᴰ (IsIn s.flags) vs h.1 i)) in
      let (u, f, n) = mark_all_lem t vs later in (u, rw (e, and_then) f, Marks-trans s t u v vs m n)
