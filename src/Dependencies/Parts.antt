-- ===== src/Dependencies/Parts.antt =====
-- The parts of a specifier between its slashes, and what the tests on its text say of it.
use mathlib.Core.List.Memᴰ
use orphanode.Common.{
  ℕ, true, false, List, [], ◌∷◌, ◌++◌, ◌≡◌, ◌≢◌, refl, ap, subst, ◌⊎◌, inl, inr, ◌↔◌, arith, Memᴰ,
  Memᴰ-cons, All, any, Bool-cases, ◌==◌,
}
use orphanode.Common.Order.{same, same_iff, text_ord}
use orphanode.Common.Text.{Text, split, starts_with, contains_char, byte_len}
use orphanode.Dependencies.Names.{is_reserved, contains_text}

abbrev pub HasNoSlash : Text → Type 0
HasNoSlash = All (λ c. c ≢ 47)

-- None of the characters `@`, `:`, `?` and `#`.
abbrev pub IsUnreserved : Text → Type 0
IsUnreserved = All (λ c. (c ≢ 64) × (c ≢ 58) × (c ≢ 63) × (c ≢ 35))

-- The text is the part, or has a slash and more behind it.
abbrev pub Leads : Text → Text → Type 0
Leads p t = (t ≡ p) ⊎ ((r : Text) × (t ≡ p ++ 47 ∷ r))

pub any_reserved_iff : (s : Text) → (any is_reserved s ≡ false) ↔ IsUnreserved s
any_reserved_iff [] = (λ _. tt, λ _. refl)
any_reserved_iff (c ∷ s) = ground (arith, any_reserved_iff s)

pub starts_with_iff : (p s : Text) → (starts_with p s ≡ true) ↔ ((r : Text) × (s ≡ p ++ r))
starts_with_iff [] s = (λ _. (s, refl), λ _. refl)
starts_with_iff (x ∷ p) [] = (λ h. cc, λ (r, e). cc)
starts_with_iff (x ∷ p) (c ∷ s) = (
  λ h. let (r, e) = (starts_with_iff p s).0 (ground (arith, h)) in (r, ground (arith, h, e)),
  λ (r, e). ground (arith, e, (starts_with_iff p s).1 (r, ground (arith, e))),
)

contains_text_found : (p a b s : Text) → s ≡ a ++ (p ++ b) → contains_text p s ≡ true
contains_text_found p [] b [] e = (starts_with_iff p []).1 (b, e)
contains_text_found p (x ∷ a) b [] e = cc
contains_text_found p [] b (c ∷ s) e = ground (arith, (starts_with_iff p (c ∷ s)).1 (b, e))
contains_text_found p (x ∷ a) b (c ∷ s) e =
    ground (arith, contains_text_found p a b s (ground (arith, e)))

contains_text_finds :
    (p s : Text) → contains_text p s ≡ true → (a : Text) × (b : Text) × (s ≡ a ++ (p ++ b))
contains_text_finds p [] h = let (r, e) = (starts_with_iff p []).0 h in ([], r, e)
contains_text_finds p (c ∷ s) h = elim (Bool-cases (starts_with p (c ∷ s))) [
  | inl here ↦ let (r, e) = (starts_with_iff p (c ∷ s)).0 here in ([], r, e)
  | inr later ↦
      let (a, b, e) = contains_text_finds p s (ground (arith, h, later)) in
      (c ∷ a, b, ap (λ y. c ∷ y) e)
]

pub contains_text_iff :
    (p s : Text) → (contains_text p s ≡ true) ↔ ((a : Text) × (b : Text) × (s ≡ a ++ (p ++ b)))
contains_text_iff p s = (contains_text_finds p s, λ (a, b, e). contains_text_found p a b s e)

pub contains_char_iff : (c : ℕ) (s : Text) → (contains_char c s ≡ true) ↔ Memᴰ c s
contains_char_iff c [] = (λ h. cc, λ m. absurd (Memᴰ.not-nil m))
contains_char_iff c (x ∷ s) = ground (arith, contains_char_iff c s, Memᴰ-cons c x s)

pub any-same_iff : (p : Text) (xs : List Text) → (any (λ b. same b p) xs ≡ true) ↔ Memᴰ p xs
any-same_iff p [] = (λ h. cc, λ m. absurd (Memᴰ.not-nil m))
any-same_iff p (x ∷ xs) = ground (arith, any-same_iff p xs, Memᴰ-cons p x xs, same_iff x p)

pub byte_len-pos : (s : Text) → (byte_len s ≡ 0) → s ≡ []
unfolding byte_len
byte_len-pos [] h = refl
byte_len-pos (c ∷ s) h = ground (arith, h)

-- The first part, and the others.
pub split_parts :
    (t : Text)
    → (x : Text) × (xs : List Text) × (split 47 t ≡ x ∷ xs)
      × HasNoSlash x
      × (((xs ≡ []) × (t ≡ x)) ⊎ ((r : Text) × (t ≡ x ++ 47 ∷ r) × (xs ≡ split 47 r)))
unfolding split
split_parts [] = ([], [], refl, tt, inl (refl, refl))
split_parts (c ∷ t) = elim (Bool-cases (c == 47)) [
  | inl slash ↦ ([], split 47 t, rw (split, slash) refl, tt, inr (t, ground (arith, slash), refl))
  | inr other ↦
      let (x, xs, e, plain, rest) = split_parts t in
      (
        c ∷ x,
        xs,
        rw (split, other, e) refl,
        (ground (arith, other), plain),
        elim rest [
          | inl (last, is) ↦ inl (last, ap (λ y. c ∷ y) is)
          | inr (r, is, more) ↦ inr (r, ap (λ y. c ∷ y) is, more)
        ],
      )
]

pub split_single : (x : Text) → HasNoSlash x → split 47 x ≡ x ∷ []
unfolding split
split_single [] h = refl
split_single (c ∷ x) h = ground (arith, split_single x h.1, h.0)

pub split_slash : (x r : Text) → HasNoSlash x → split 47 (x ++ 47 ∷ r) ≡ x ∷ split 47 r
unfolding split
split_slash [] r h = refl
split_slash (c ∷ x) r h = ground (arith, split_slash x r h.1, h.0)

-- The first part of what the part leads is the part.
pub split-Leads : (p t : Text) → HasNoSlash p → Leads p t → (xs : List Text) × (split 47 t ≡ p ∷ xs)
split-Leads p t h (inl e) = ([], rw e (split_single p h))
split-Leads p t h (inr (r, e)) = (split 47 r, rw e (split_slash p r h))

-- A prefix without a slash of what the part leads is a prefix of the part.
pub starts_with-Leads :
    (q p t : Text) → HasNoSlash q → starts_with q t ≡ true → Leads p t → starts_with q p ≡ true
starts_with-Leads [] p t hq h l = refl
starts_with-Leads (x ∷ q) [] [] hq h l = cc
starts_with-Leads (x ∷ q) [] (c ∷ t) hq h l = ground (arith, h, hq.0, l)
starts_with-Leads (x ∷ q) (d ∷ p) [] hq h l = cc
starts_with-Leads (x ∷ q) (d ∷ p) (c ∷ t) hq h l =
    let rest : Leads p t = ground (arith, l) in
    ground (arith, h, l, starts_with-Leads q p t hq.1 (ground (arith, h)) rest)

-- What holds of each character holds of those of a prefix.
pub All-starts_with {κ} : (P : ℕ → Type κ) (q p : Text) → starts_with q p ≡ true → All P p → All P q
All-starts_with P [] p h all = tt
All-starts_with P (x ∷ q) [] h all = cc
All-starts_with P (x ∷ q) (c ∷ p) h all =
    let is : c ≡ x = ground (arith, h) in
    (subst P is all.0, All-starts_with P q p (ground (arith, h)) all.1)
