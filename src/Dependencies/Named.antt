-- ===== src/Dependencies/Named.antt =====
-- Names of packages: plain, and in a scope.
use orphanode.Common.{
  Bool, false, none, some, List, [], ◌∷◌, ◌++◌, ◌≡◌, ◌≢◌, refl, sym, ap, subst, inl, inr, ◌↔◌,
  arith, any, if◌then◌else◌, ◌||◌, ◌==◌,
}
use orphanode.Common.Order.{text_ord}
use orphanode.Common.Text.{Text, split, cons_first, byte_len, is_empty}
use orphanode.Dependencies.Names.{is_reserved, scoped_name, plain_name}
use orphanode.Dependencies.Parts.{
  HasNoSlash, IsUnreserved, Leads, any_reserved_iff, byte_len-pos, split_parts, split_slash,
  split-Leads,
}

-- A name, or one half of a scoped name: not empty, without a slash, `@`, `:`, `?` or `#`.
abbrev pub IsPart : Text → Type 0
IsPart p = (p ≢ []) × HasNoSlash p × IsUnreserved p

abbrev pub IsPlain : Text → Type 0
IsPlain p = IsPart p × ((q : Text) → p ≢ 46 ∷ q)

-- `@`, a scope, `/` and a name.
abbrev pub IsScoped : Text → Type 0
IsScoped p = (a : Text) × (b : Text) × IsPart a × IsPart b × (p ≡ 64 ∷ (a ++ 47 ∷ b))

pub is_empty_iff : (s : Text) → (is_empty s ≡ false) ↔ (s ≢ [])
is_empty_iff [] = (λ h. cc, λ h. absurd (h refl))
is_empty_iff (c ∷ s) = (λ _ e. cc, λ _. refl)

IsPart-iff : (x : Text) → HasNoSlash x → ((is_empty x || any is_reserved x) ≡ false) ↔ IsPart x
IsPart-iff x h = ground (arith, is_empty_iff x, any_reserved_iff x, h)

pub plain_name_iff : (t p : Text) → (plain_name (split 47 t) ≡ some p) ↔ (IsPart p × Leads p t)
unfolding plain_name
plain_name_iff t p = (
  λ h.
      let (x, xs, e, plain, rest) = split_parts t in
      let h2 : plain_name (x ∷ xs) ≡ some p = subst (λ ys. plain_name ys ≡ some p) e h in
      let is : ((is_empty x || any is_reserved x) ≡ false) × (x ≡ p) = ground (arith, h2) in
      let leads : Leads x t = elim rest [ inl (_, e) ↦ inl e | inr (r, e, _) ↦ inr (r, e) ] in
      subst (λ y. IsPart y × Leads y t) is.1 ((IsPart-iff x plain).0 is.0, leads),
  λ (part, leads).
      let (xs, e) = split-Leads p t part.1 leads in
      rw e (let test = (IsPart-iff p part.1).1 part in ground (arith, test)),
)

if_some :
    (test : Bool) {a p : Text} → (if test then none else some a) ≡ some p → (test ≡ false) × (p ≡ a)
if_some test h = ground (arith, h)

byte_len_iff : (s : Text) → (byte_len s ≡ 0) ↔ (s ≡ [])
unfolding byte_len
byte_len_iff s = (byte_len-pos s, λ e. rw e refl)

scoped_test_iff :
    (x y : Text)
    → HasNoSlash x
    → HasNoSlash y
    → (((byte_len (64 ∷ x) == 1) || is_empty y || any is_reserved x || any is_reserved y) ≡ false)
      ↔ (IsPart x × IsPart y)
unfolding byte_len
scoped_test_iff x y hx hy =
    ground (arith, byte_len_iff x, is_empty_iff y, any_reserved_iff x, any_reserved_iff y, hx, hy)

snoc_slash : (a b : Text) → (a ++ 47 ∷ []) ++ b ≡ a ++ 47 ∷ b
snoc_slash [] b = refl
snoc_slash (c ∷ a) b = ap (λ y. c ∷ y) (snoc_slash a b)

-- The result for two parts, by the test.
scoped_pair :
    (x y : Text) (ys : List Text)
    → scoped_name ((64 ∷ x) ∷ y ∷ ys) ≡ (
        if (byte_len (64 ∷ x) == 1) || is_empty y || any is_reserved x || any is_reserved y
        then none
        else some (64 ∷ (x ++ 47 ∷ y)))
unfolding scoped_name
scoped_pair x y ys = rw (snoc_slash x y) refl

append_slash : (a b r : Text) → (a ++ 47 ∷ b) ++ 47 ∷ r ≡ a ++ 47 ∷ (b ++ 47 ∷ r)
append_slash [] b r = refl
append_slash (c ∷ a) b r = ap (λ y. c ∷ y) (append_slash a b r)

-- What a scoped name leads, by what its second half leads.
Leads-scoped : (a b w : Text) → Leads b w → Leads (64 ∷ (a ++ 47 ∷ b)) (64 ∷ (a ++ 47 ∷ w))
Leads-scoped a b w (inl e) = inl (rw e refl)
Leads-scoped a b w (inr (r, e)) = inr (r, ap (λ y. 64 ∷ y) (rw (e, append_slash a b r) refl))

scoped-Leads :
    (a b u : Text)
    → Leads (64 ∷ (a ++ 47 ∷ b)) (64 ∷ u)
    → (w : Text) × (u ≡ a ++ 47 ∷ w) × Leads b w
scoped-Leads a b u (inl e) = (b, ground (arith, e), inl refl)
scoped-Leads a b u (inr (r, e)) =
    (b ++ 47 ∷ r, ground (arith, e, append_slash a b r), inr (r, refl))

pub scoped_name_iff :
    (u p : Text) → (scoped_name (split 47 (64 ∷ u)) ≡ some p) ↔ (IsScoped p × Leads p (64 ∷ u))
unfolding scoped_name split
scoped_name_iff u p = (
  λ h.
      let (x, xs, e, plain, rest) = split_parts u in
      let h2 : scoped_name ((64 ∷ x) ∷ xs) ≡ some p =
        subst (λ ys. scoped_name (cons_first 64 ys) ≡ some p) e h in
      elim rest [
        | inl (last, _) ↦
            absurd (ground (arith, subst (λ ys. scoped_name ((64 ∷ x) ∷ ys) ≡ some p) last h2))
        | inr (r, is_slash, more) ↦
            let (y, ys, f, plain2, rest2) = split_parts r in
            let h3 : scoped_name ((64 ∷ x) ∷ y ∷ ys) ≡ some p =
              subst (λ zs. scoped_name ((64 ∷ x) ∷ zs) ≡ some p) f
                (subst (λ zs. scoped_name ((64 ∷ x) ∷ zs) ≡ some p) more h2) in
            let is : (((byte_len (64 ∷ x) == 1)
                    || is_empty y
                    || any is_reserved x
                    || any is_reserved y)
                  ≡ false)
                × (p ≡ 64 ∷ (x ++ 47 ∷ y)) =
              if_some _ (subst (λ q. q ≡ some p) (scoped_pair x y ys) h3) in
            let parts = (scoped_test_iff x y plain plain2).0 is.0 in
            let leads : Leads y r = elim rest2 [
              | inl (_, e) ↦ inl e
              | inr (q, e, _) ↦ inr (q, e)
            ] in
            (
              (x, y, parts.0, parts.1, is.1),
              subst (λ q. Leads q (64 ∷ u)) (sym is.1)
                  (subst (λ v. Leads (64 ∷ (x ++ 47 ∷ y)) (64 ∷ v)) (sym is_slash)
                    (Leads-scoped x y r leads)),
            )
      ],
  λ ((a, b, pa, pb, e), leads).
      let (w, at, more) = scoped-Leads a b u (subst (λ q. Leads q (64 ∷ u)) e leads) in
      let (xs, f) = split-Leads b w pb.1 more in
      let test = (scoped_test_iff a b pa.1 pb.1).1 (pa, pb) in
      rw (at, split_slash a w pa.1, f, e) (rw (scoped_pair a b xs, test) refl),
)
