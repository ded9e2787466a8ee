-- ===== src/Search.antt =====
-- The breadth-first worklist that the program writes out three times: in
-- `FileGraph::reachable_from_many` (crates/orphanode/src/domain/graph.rs) and in
-- `active_eager_regions` and `analyze_symbols` (crates/orphanode/src/analysis/symbols.rs).
-- Its flags are an interface: a vector of them, or a vector of pairs. An index past the end of a
-- vector panics in the program; here it is `none` or `panicked`.
pub mod Step
pub mod Loop
pub mod Vector
use orphanode.Common.{
  ℕ, zero, suc, ◌≡◌, ◌⊎◌, ◌↔◌, Bool, true, false, Option, none, some, List, [], ◌∷◌, ◌++◌, and_then,
  Memᴰ,
}

abbrev pub is_some : {A : Type 0} → Option A → Bool
is_some none = false
is_some (some _) = true

abbrev pub is_up : Option Bool → Bool
is_up none = false
is_up (some b) = b

-- Flags that are read and raised, how many there are and how many are still down, and what a raise changes.
pub record Board (F V : Type 0) : Type 0 where
  pub read : F → V → Option Bool
  pub raise : F → V → F
  pub down : F → ℕ
  pub size : F → ℕ
  pub up_iff :
      (f : F) (v w : V)
      → read f v ≡ some false
      → (is_up (read (raise f v) w) ≡ true) ↔ ((is_up (read f w) ≡ true) ⊎ (w ≡ v))
  pub range : (f : F) (v w : V) → is_some (read (raise f v) w) ≡ is_some (read f w)
  pub size_raise : (f : F) (v : V) → size (raise f v) ≡ size f
  pub fewer : (f : F) (v : V) → read f v ≡ some false → suc (down (raise f v)) ≡ down f

pub record Search (F V : Type 0) : Type 0 where
  pub flags : F
  pub queue : List V

pub data Outcome (F : Type 0) : Type 0 where
  returned : F → Outcome F
  panicked out_of_fuel : Outcome F

module _ {F V : Type 0} ⦃b : Board F V⦄ where
  -- `if !flags[v] { flags[v] = true; queue.push_back(v); }`
  unfoldable pub mark : Search F V → V → Option (Search F V)
  mark s v = elim (b.read s.flags v) [
    | none ↦ none
    | some true ↦ some s
    | some false ↦ some (record { flags = b.raise s.flags v; queue = s.queue ++ v ∷ [] })
  ]

  unfoldable pub mark_all : Search F V → List V → Option (Search F V)
  mark_all s [] = some s
  mark_all s (v ∷ vs) = and_then (mark s v) (λ s'. mark_all s' vs)

  -- One round: the head of the queue is taken off, and its unmarked targets are marked and queued.
  -- The targets of a vertex are looked up in a vector, which has none past its end.
  unfoldable pub expand : (V → Option (List V)) → F → V → List V → Option (Search F V)
  expand targets flags v rest =
      and_then (targets v) (mark_all (record { flags = flags; queue = rest }))

  -- `while let Some(v) = queue.pop_front() { ... }`
  unfoldable pub drain : ℕ → (V → Option (List V)) → F → List V → Outcome F
  drain fuel targets flags [] = returned flags
  drain zero targets flags (v ∷ rest) = out_of_fuel
  drain (suc fuel) targets flags (v ∷ rest) = elim (expand targets flags v rest) [
    | none ↦ panicked
    | some s ↦ drain fuel targets s.flags s.queue
  ]

-- Reachability from any of the roots along the targets.
pub data Reach {V : Type 0} (next : V → List V) (roots : List V) : V → Type 0 where
  root : {v : V} → Memᴰ v roots → Reach next roots v
  step : {u v : V} → Reach next roots u → Memᴰ v (next u) → Reach next roots v
