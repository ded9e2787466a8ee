-- ===== src/Common/Order.antt =====
-- Total orders as an interface: what `derive(PartialOrd, Ord)` gives the program's keys.
use orphanode.Common.Tests.{ltb, leb, ◌==◌, if◌then◌else◌}
use Prim.Native.Nat.{ℕ}
use mathlib.Core.Path.{◌≡◌, refl}
use mathlib.Core.Logic.{◌⊎◌, inl, inr, ◌↔◌}
use mathlib.Core.Bool.{Bool, true, false, ◌&&◌}
use mathlib.Core.List.{List, [], ◌∷◌}
use native.Mathlib.Omega.{arith}

pub record Ord {ℓ} (A : Type ℓ) : Type ℓ where
  pub leq : A → A → Bool
  pub total : (a b : A) → (leq a b ≡ true) ⊎ (leq b a ≡ true)
  pub trans : (a b c : A) → leq a b ≡ true → leq b c ≡ true → leq a c ≡ true
  pub antisym : (a b : A) → leq a b ≡ true → leq b a ≡ true → a ≡ b

module _ {ℓ} {A : Type ℓ} ⦃o : Ord A⦄ where
  abbrev pub leq : A → A → Bool
  leq = o.leq

  -- Two values are equal when each is at most the other.
  abbrev pub same : A → A → Bool
  same a b = o.leq a b && o.leq b a

  pub leq_refl : (a : A) → leq a a ≡ true
  leq_refl a = elim (o.total a a) [ inl h ↦ h | inr h ↦ h ]

  pub same_iff : (a b : A) → (same a b ≡ true) ↔ (a ≡ b)
  same_iff a b = (λ h. o.antisym a b (ground arith) (ground arith), λ e. rw e (rw (leq_refl b)))

  pub same_refl : (a : A) → same a a ≡ true
  same_refl a = (same_iff a a).1 refl

module _ {ℓ} {A : Type ℓ} (rank : A → ℕ) (injective : (a b : A) → rank a ≡ rank b → a ≡ b) where
  pub rank_total : (a b : A) → (leb (rank a) (rank b) ≡ true) ⊎ (leb (rank b) (rank a) ≡ true)
  rank_total a b = ground arith

  pub rank_trans :
      (a b c : A)
      → leb (rank a) (rank b) ≡ true
      → leb (rank b) (rank c) ≡ true
      → leb (rank a) (rank c) ≡ true
  rank_trans a b c h k = ground arith

  pub rank_antisym : (a b : A) → leb (rank a) (rank b) ≡ true → leb (rank b) (rank a) ≡ true → a ≡ b
  rank_antisym a b h k = injective a b (ground arith)

  -- The order of an enumeration is that of its constructors' positions.
  abbrev pub rank_ord : Ord A
  rank_ord = record {
    leq = λ a b. leb (rank a) (rank b);
    total = rank_total;
    trans = rank_trans;
    antisym = rank_antisym;
  }

instance abbrev pub nat_ord : Ord ℕ
nat_ord = rank_ord (λ n. n) (λ a b e. e)

-- Texts are ordered like `str`, by their first difference.
abbrev pub text_leq : List ℕ → List ℕ → Bool
text_leq [] ys = true
text_leq (x ∷ xs) [] = false
text_leq (x ∷ xs) (y ∷ ys) = if x == y then text_leq xs ys else ltb x y

pub text_total : (a b : List ℕ) → (text_leq a b ≡ true) ⊎ (text_leq b a ≡ true)
text_total [] b = inl refl
text_total (x ∷ a) [] = inr refl
text_total (x ∷ a) (y ∷ b) = ground (arith, text_total a b)

pub text_trans : (a b c : List ℕ) → text_leq a b ≡ true → text_leq b c ≡ true → text_leq a c ≡ true
text_trans [] b c h k = refl
text_trans (x ∷ a) [] c h k = cc
text_trans (x ∷ a) (y ∷ b) [] h k = cc
text_trans (x ∷ a) (y ∷ b) (z ∷ c) h k = ground (arith, text_trans a b c)

pub text_antisym : (a b : List ℕ) → text_leq a b ≡ true → text_leq b a ≡ true → a ≡ b
text_antisym [] [] h k = refl
text_antisym [] (y ∷ b) h k = cc
text_antisym (x ∷ a) [] h k = cc
text_antisym (x ∷ a) (y ∷ b) h k = ground (arith, text_antisym a b)

instance abbrev pub text_ord : Ord (List ℕ)
text_ord = record { leq = text_leq; total = text_total; trans = text_trans; antisym = text_antisym }

-- Structs and tuples compare field by field.
module _ {ℓ κ} {A : Type ℓ} {B : Type κ} (o : Ord A) (p : Ord B) where
  abbrev pub pair_leq : A × B → A × B → Bool
  pair_leq (a, b) (c, d) = if o.leq c a then o.leq a c && p.leq b d else o.leq a c

  pub pair_total : (x y : A × B) → (pair_leq x y ≡ true) ⊎ (pair_leq y x ≡ true)
  pair_total (a, b) (c, d) = ground (arith, o.total a c, p.total b d)

  pub pair_trans : (x y z : A × B) → pair_leq x y ≡ true → pair_leq y z ≡ true → pair_leq x z ≡ true
  pair_trans (a, b) (c, d) (e, f) h k = ground (
    arith,
    o.trans a c e,
    o.trans e c a,
    o.trans c e a,
    o.trans e a c,
    o.trans c a e,
    p.trans b d f,
    o.total a c,
    o.total c e,
    o.total a e,
  )

  pub pair_antisym : (x y : A × B) → pair_leq x y ≡ true → pair_leq y x ≡ true → x ≡ y
  pair_antisym (a, b) (c, d) h k = ground (arith, o.antisym a c, p.antisym b d)

  abbrev pub pair_ord : Ord (A × B)
  pair_ord = record {
    leq = pair_leq;
    total = pair_total;
    trans = pair_trans;
    antisym = pair_antisym;
  }

-- An order through a key that tells the values apart.
module _ {ℓ κ} {A : Type ℓ} {K : Type κ} (o : Ord K) (key : A → K)
    (injective : (a b : A) → key a ≡ key b → a ≡ b) where
  pub key_antisym : (a b : A) → o.leq (key a) (key b) ≡ true → o.leq (key b) (key a) ≡ true → a ≡ b
  key_antisym a b h k = injective a b (o.antisym (key a) (key b) h k)

  abbrev pub key_ord : Ord A
  key_ord = record {
    leq = λ a b. o.leq (key a) (key b);
    total = λ a b. o.total (key a) (key b);
    trans = λ a b c. o.trans (key a) (key b) (key c);
    antisym = key_antisym;
  }

module _ {ℓ} {A : Type ℓ} ⦃o : Ord A⦄ where
  -- Equality of sequences.
  abbrev pub same_list : List A → List A → Bool
  same_list [] [] = true
  same_list [] (_ ∷ _) = false
  same_list (_ ∷ _) [] = false
  same_list (x ∷ xs) (y ∷ ys) = same x y && same_list xs ys

  pub same_list_iff : (xs ys : List A) → (same_list xs ys ≡ true) ↔ (xs ≡ ys)
  same_list_iff [] [] = (λ _. refl, λ _. refl)
  same_list_iff [] (y ∷ ys) = (λ h. cc, λ e. cc)
  same_list_iff (x ∷ xs) [] = (λ h. cc, λ e. cc)
  same_list_iff (x ∷ xs) (y ∷ ys) = ground (arith, same_iff x y, same_list_iff xs ys)
