-- ===== src/Interner/Stable.antt =====
-- Interned strings keep their identifiers, and equal identifiers mean equal strings.
use orphanode.Common.{
  ℕ, zero, suc, ◌+◌, ◌^◌, ◌≤◌, ◌<◌, ◌≡◌, refl, ◌⊎◌, inl, inr, ◌↔◌, Option, none, some, List, [],
  ◌∷◌, ◌++◌, length, get_elem?, arith, Bool-cases, Option-cases, ltb-true, length-append, and_then,
}
use orphanode.Common.Order.{same, same_iff, text_ord}
use orphanode.Common.Maps.{get, alter, get-alter, get-alter_other}
use orphanode.Common.Text.{Text}
use orphanode.Interner.{StringInterner, no_strings, intern, lookup}

-- The map and the vector describe the same numbering.
pub record IsConsistent (s : StringInterner) : Type 0 where
  pub agree :
      (value : Text) (id : ℕ) → (get s.ids_by_value value ≡ some id) ↔ (lookup s id ≡ some value)

get_elem?-snoc :
    (xs : List Text) (v : Text) (i : ℕ) (w : Text)
    → (get_elem? (xs ++ v ∷ []) i ≡ some w)
      ↔ ((get_elem? xs i ≡ some w) ⊎ ((i ≡ length xs) × (w ≡ v)))
get_elem?-snoc [] v zero w = ground arith
get_elem?-snoc [] v (suc i) w = ground arith
get_elem?-snoc (x ∷ xs) v zero w = ground arith
get_elem?-snoc (x ∷ xs) v (suc i) w = ground (arith, get_elem?-snoc xs v i w)

get_elem?-length : (xs : List Text) (i : ℕ) (w : Text) → get_elem? xs i ≡ some w → i < length xs
get_elem?-length [] i w h = cc
get_elem?-length (x ∷ xs) zero w h = omega arith
get_elem?-length (x ∷ xs) (suc i) w h = omega (arith, get_elem?-length xs i w h)

no_strings-IsConsistent : IsConsistent no_strings
unfolding lookup
no_strings-IsConsistent = record { agree = λ value id. (λ h. cc, λ h. cc) }

IsConsistent-push :
    (s : StringInterner) (value : Text)
    → IsConsistent s
    → get s.ids_by_value value ≡ none
    → IsConsistent (record {
      values = s.values ++ value ∷ [];
      ids_by_value = alter value (λ found. length s.values) s.ids_by_value;
    })
unfolding lookup
IsConsistent-push s value c fresh = record {
  agree = λ w id. elim (Bool-cases (same value w)) [
    | inl eq ↦ ground (
      arith,
      (same_iff value w).0 eq,
      fresh,
      get-alter value (λ found. length s.values) s.ids_by_value,
      get_elem?-snoc s.values value id w,
      c.agree w id,
    )
    | inr ne ↦ ground (
      arith,
      same_iff value w,
      get-alter_other value w (λ found. length s.values) s.ids_by_value ne,
      get_elem?-snoc s.values value id w,
      c.agree w id,
    )
  ];
}

-- What interning a string in a consistent interner does, where there is room for one more.
pub intern_lem :
    (s : StringInterner) (value : Text)
    → IsConsistent s
    → length s.values < 2 ^ 32
    → (id : ℕ) × (t : StringInterner) × (intern s value ≡ some (id, t))
      × IsConsistent t
      × (lookup t id ≡ some value)
      × (length t.values ≤ suc (length s.values))
      × ((i : ℕ) (w : Text) → lookup s i ≡ some w → lookup t i ≡ some w)
unfolding intern lookup
intern_lem s value c room = elim (Option-cases (get s.ids_by_value value)) [
  | inr (id, found) ↦
      (id, s, rw (intern, found) refl, c, (c.agree value id).0 found, omega arith, λ i w h. h)
  | inl fresh ↦
      let t : StringInterner = record {
        values = s.values ++ value ∷ [];
        ids_by_value = alter value (λ found. length s.values) s.ids_by_value;
      } in
      (
        length s.values,
        t,
        rw (intern, fresh, ltb-true (length s.values) (2 ^ 32) room) refl,
        IsConsistent-push s value c fresh,
        (get_elem?-snoc s.values value (length s.values) value).1 (inr (refl, refl)),
        omega (arith, length-append s.values (value ∷ [])),
        λ i w h. (get_elem?-snoc s.values value i w).1 (inl h),
      )
]

-- Interning one string after the other: the identifiers, and the interner at the end.
abbrev pub intern_all : StringInterner → List Text → Option (List ℕ × StringInterner)
intern_all s [] = some ([], s)
intern_all s (v ∷ vs) =
    and_then (intern s v) (λ (id, t). and_then (intern_all t vs) (λ (ids, u). some (id ∷ ids, u)))

lookup_cons :
    (t : StringInterner) (id : ℕ) (value : Text) (ids : List ℕ) (values : List Text)
    → lookup t id ≡ some value
    → ((k i : ℕ) (v : Text)
        → get_elem? ids k ≡ some i
        → get_elem? values k ≡ some v
        → lookup t i ≡ some v)
    → (k i : ℕ) (v : Text) → get_elem? (id ∷ ids) k ≡ some i
    → get_elem? (value ∷ values) k ≡ some v
    → lookup t i ≡ some v
lookup_cons t id value ids values h points zero i v a b = ground (arith, h)
lookup_cons t id value ids values h points (suc k) i v a b = points k i v a b

intern_all_lem :
    (s : StringInterner) (values : List Text)
    → IsConsistent s
    → length s.values + length values ≤ 2 ^ 32
    → (ids : List ℕ) × (t : StringInterner) × (intern_all s values ≡ some (ids, t))
      × IsConsistent t
      × ((i : ℕ) (w : Text) → lookup s i ≡ some w → lookup t i ≡ some w)
      × (length ids ≡ length values)
      × ((k : ℕ) (i : ℕ) (v : Text)
          → get_elem? ids k ≡ some i
          → get_elem? values k ≡ some v
          → lookup t i ≡ some v)
intern_all_lem s [] c room = ([], s, refl, c, λ i w h. h, refl, λ k i v h l. cc)
intern_all_lem s (v ∷ vs) c room =
    let (id, t, e, ct, found, size, keep) = intern_lem s v c (omega arith) in
    let (ids, u, es, cu, keep_all, count, points) = intern_all_lem t vs ct (omega arith) in
    (
      id ∷ ids,
      u,
      rw (intern_all, e, and_then, es) refl,
      cu,
      λ i w h. keep_all i w (keep i w h),
      omega (arith, count),
      lookup_cons u id v ids vs (keep_all id v found) points,
    )

-- Strings that are interned one after the other into an empty interner, at most 2^32 of them, all
-- get an identifier without a panic; the final interner gives each string back for its identifier;
-- and two of them get the same identifier exactly when they are the same string.
pub intern_all-no_strings :
    (values : List Text)
    → length values ≤ 2 ^ 32
    → (ids : List ℕ) × (t : StringInterner) × (intern_all no_strings values ≡ some (ids, t))
      × (length ids ≡ length values)
      × ((j k a b : ℕ) (v w : Text)
          → get_elem? ids j ≡ some a
          → get_elem? ids k ≡ some b
          → get_elem? values j ≡ some v
          → get_elem? values k ≡ some w
          → (lookup t a ≡ some v) × ((a ≡ b) ↔ (v ≡ w)))
intern_all-no_strings values room =
    let (ids, t, e, c, keep, count, points) =
      intern_all_lem no_strings values no_strings-IsConsistent (omega arith) in
    (
      ids,
      t,
      e,
      count,
      λ j k a b v w ha hb hv hw.
          ground (arith, points j a v ha hv, points k b w hb hw, c.agree v a, c.agree w b),
    )
