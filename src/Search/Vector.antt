-- ===== src/Search/Vector.antt =====
-- A vector of flags.
use orphanode.Common.{
  ℕ, zero, suc, ◌<◌, ◌≡◌, refl, ap, ◌⊎◌, inl, inr, ◌↔◌, Bool, true, false, some, Option-cases, List,
  [], ◌∷◌, arith, length, get_elem?, get_or, set, replicate, length-set,
}
use orphanode.Search.{Board, is_some, is_up}

-- How many flags are still down.
abbrev pub unmarked : List Bool → ℕ
unmarked [] = 0
unmarked (false ∷ bs) = suc (unmarked bs)
unmarked (true ∷ bs) = unmarked bs

pub up-set :
    (bs : List Bool) (i v : ℕ)
    → get_elem? bs i ≡ some false
    → (is_up (get_elem? (set bs i true) v) ≡ true) ↔ ((is_up (get_elem? bs v) ≡ true) ⊎ (v ≡ i))
up-set [] i v h = cc
up-set (b ∷ bs) zero zero h = (λ _. inr refl, λ _. refl)
up-set (b ∷ bs) zero (suc v) h = ground arith
up-set (b ∷ bs) (suc i) zero h = ground arith
up-set (b ∷ bs) (suc i) (suc v) h = ground (arith, up-set bs i v h)

pub is_some-set :
    (bs : List Bool) (i v : ℕ) → is_some (get_elem? (set bs i true) v) ≡ is_some (get_elem? bs v)
is_some-set [] i v = refl
is_some-set (b ∷ bs) zero zero = refl
is_some-set (b ∷ bs) zero (suc v) = refl
is_some-set (b ∷ bs) (suc i) zero = refl
is_some-set (b ∷ bs) (suc i) (suc v) = is_some-set bs i v

pub unmarked-set :
    (bs : List Bool) (i : ℕ)
    → get_elem? bs i ≡ some false
    → suc (unmarked (set bs i true)) ≡ unmarked bs
unmarked-set [] i h = cc
unmarked-set (true ∷ bs) zero h = cc
unmarked-set (false ∷ bs) zero h = refl
unmarked-set (true ∷ bs) (suc i) h = unmarked-set bs i h
unmarked-set (false ∷ bs) (suc i) h = ap suc (unmarked-set bs i h)

instance abbrev pub vector_board : Board (List Bool) ℕ
vector_board = record {
  read = get_elem?;
  raise = λ bs i. set bs i true;
  down = unmarked;
  size = length;
  size_raise = λ bs i. length-set bs i true;
  up_iff = up-set;
  range = is_some-set;
  fewer = unmarked-set;
}

-- A flag past the end counts as down.
abbrev pub flag : List Bool → ℕ → Bool
flag bs v = get_or bs v false

pub up-flag : (bs : List Bool) (v : ℕ) → is_up (get_elem? bs v) ≡ flag bs v
up-flag [] v = refl
up-flag (b ∷ bs) zero = refl
up-flag (b ∷ bs) (suc v) = up-flag bs v

pub IsIn-lt : (bs : List Bool) (v : ℕ) → v < length bs → is_some (get_elem? bs v) ≡ true
IsIn-lt [] v h = absurd (omega arith)
IsIn-lt (b ∷ bs) zero h = refl
IsIn-lt (b ∷ bs) (suc v) h = IsIn-lt bs v (omega arith)

pub flag-replicate : (n v : ℕ) → flag (replicate n false) v ≡ false
flag-replicate zero v = refl
flag-replicate (suc n) zero = refl
flag-replicate (suc n) (suc v) = flag-replicate n v

pub unmarked-replicate : (n : ℕ) → unmarked (replicate n false) ≡ n
unmarked-replicate zero = refl
unmarked-replicate (suc n) = ap suc (unmarked-replicate n)

pub flag-lt : (bs : List Bool) (v : ℕ) → flag bs v ≡ true → v < length bs
flag-lt [] v h = cc
flag-lt (b ∷ bs) zero h = omega arith
flag-lt (b ∷ bs) (suc v) h = omega (arith, flag-lt bs v h)

-- A flag that can be read is up or down.
pub read-cases :
    (flags : List Bool) (v : ℕ)
    → is_some (get_elem? flags v) ≡ true
    → (get_elem? flags v ≡ some true) ⊎ (get_elem? flags v ≡ some false)
read-cases flags v h = elim (Option-cases (get_elem? flags v)) [
  | inl out ↦ absurd (ground (arith, h, out))
  | inr (true, e) ↦ inl e
  | inr (false, e) ↦ inr e
]
