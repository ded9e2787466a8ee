-- ===== src/Symbols/Lanes.antt =====
-- crates/orphanode/src/analysis/symbols.rs: `reachable: Vec<[bool; 2]>`, two flags for each node.
use orphanode.Common.{
  ℕ, zero, suc, ◌+◌, ◌<◌, ◌≡◌, refl, ap, ◌⊎◌, inr, ◌↔◌, Bool, true, false, Option, none, some, List,
  [], ◌∷◌, arith, length, replicate,
}
use orphanode.Facts.{UsageKind, runtime, type_}
use orphanode.Search.{Board, is_some, is_up}

-- A node in a lane: `reachable[node][usage_index]`.
abbrev pub Place : Type 0
Place = ℕ × UsageKind

abbrev pub Lanes : Type 0
Lanes = List (Bool × Bool)

abbrev pub lane : UsageKind → Bool × Bool → Bool
lane runtime (r, t) = r
lane type_ (r, t) = t

abbrev raised : UsageKind → Bool × Bool → Bool × Bool
raised runtime (r, t) = (true, t)
raised type_ (r, t) = (r, true)

abbrev pub read_lane : Lanes → Place → Option Bool
read_lane [] (i, u) = none
read_lane (x ∷ xs) (zero, u) = some (lane u x)
read_lane (x ∷ xs) (suc i, u) = read_lane xs (i, u)

abbrev pub raise_lane : Lanes → Place → Lanes
raise_lane [] (i, u) = []
raise_lane (x ∷ xs) (zero, u) = raised u x ∷ xs
raise_lane (x ∷ xs) (suc i, u) = x ∷ raise_lane xs (i, u)

abbrev down_in : Bool × Bool → ℕ
down_in (true, true) = 0
down_in (true, false) = 1
down_in (false, true) = 1
down_in (false, false) = 2

abbrev pub down_lanes : Lanes → ℕ
down_lanes [] = 0
down_lanes (x ∷ xs) = down_in x + down_lanes xs

up-raised :
    (x : Bool × Bool) (u w : UsageKind)
    → (lane w (raised u x) ≡ true) ↔ ((lane w x ≡ true) ⊎ (w ≡ u))
up-raised (r, t) runtime runtime = (λ h. inr refl, λ h. refl)
up-raised (r, t) runtime type_ = ground arith
up-raised (r, t) type_ runtime = ground arith
up-raised (r, t) type_ type_ = (λ h. inr refl, λ h. refl)

pub up-raise_lane :
    (xs : Lanes) (v w : Place)
    → read_lane xs v ≡ some false
    → (is_up (read_lane (raise_lane xs v) w) ≡ true) ↔ ((is_up (read_lane xs w) ≡ true) ⊎ (w ≡ v))
up-raise_lane [] v w h = cc
up-raise_lane (x ∷ xs) (zero, u) (zero, z) h = ground (arith, up-raised x u z)
up-raise_lane (x ∷ xs) (zero, u) (suc j, z) h = ground arith
up-raise_lane (x ∷ xs) (suc i, u) (zero, z) h = ground arith
up-raise_lane (x ∷ xs) (suc i, u) (suc j, z) h = ground (arith, up-raise_lane xs (i, u) (j, z) h)

pub is_some-raise_lane :
    (xs : Lanes) (v w : Place) → is_some (read_lane (raise_lane xs v) w) ≡ is_some (read_lane xs w)
is_some-raise_lane [] v w = refl
is_some-raise_lane (x ∷ xs) (zero, u) (zero, z) = refl
is_some-raise_lane (x ∷ xs) (zero, u) (suc j, z) = refl
is_some-raise_lane (x ∷ xs) (suc i, u) (zero, z) = refl
is_some-raise_lane (x ∷ xs) (suc i, u) (suc j, z) = is_some-raise_lane xs (i, u) (j, z)

down-raised :
    (x : Bool × Bool) (u : UsageKind) → lane u x ≡ false → suc (down_in (raised u x)) ≡ down_in x
down-raised (true, t) runtime h = cc
down-raised (false, true) runtime h = refl
down-raised (false, false) runtime h = refl
down-raised (r, true) type_ h = cc
down-raised (true, false) type_ h = refl
down-raised (false, false) type_ h = refl

pub down-raise_lane :
    (xs : Lanes) (v : Place)
    → read_lane xs v ≡ some false
    → suc (down_lanes (raise_lane xs v)) ≡ down_lanes xs
down-raise_lane [] v h = cc
down-raise_lane (x ∷ xs) (zero, u) h = omega (arith, down-raised x u (ground arith))
down-raise_lane (x ∷ xs) (suc i, u) h = omega (arith, down-raise_lane xs (i, u) h)

pub length-raise_lane : (xs : Lanes) (v : Place) → length (raise_lane xs v) ≡ length xs
length-raise_lane [] v = refl
length-raise_lane (x ∷ xs) (zero, u) = refl
length-raise_lane (x ∷ xs) (suc i, u) = ap suc (length-raise_lane xs (i, u))

instance abbrev pub lane_board : Board (List (Bool × Bool)) (ℕ × UsageKind)
lane_board = record {
  read = read_lane;
  raise = raise_lane;
  down = down_lanes;
  size = length;
  up_iff = up-raise_lane;
  range = is_some-raise_lane;
  size_raise = length-raise_lane;
  fewer = down-raise_lane;
}

-- `vec![[false; 2]; n]`
abbrev pub all_down : ℕ → Lanes
all_down n = replicate n (false, false)

pub up-all_down : (n : ℕ) (v : Place) → is_up (read_lane (all_down n) v) ≡ false
up-all_down zero v = refl
up-all_down (suc n) (zero, runtime) = refl
up-all_down (suc n) (zero, type_) = refl
up-all_down (suc n) (suc i, u) = up-all_down n (i, u)

pub down-all_down : (n : ℕ) → down_lanes (all_down n) ≡ n + n
down-all_down zero = refl
down-all_down (suc n) = omega (arith, down-all_down n)

pub IsIn-all_down :
    (n i : ℕ) (u : UsageKind) → i < n → is_some (read_lane (all_down n) (i, u)) ≡ true
IsIn-all_down zero i u h = absurd (omega arith)
IsIn-all_down (suc n) zero u h = refl
IsIn-all_down (suc n) (suc i) u h = IsIn-all_down n i u (omega arith)
