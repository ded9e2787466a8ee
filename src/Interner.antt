-- ===== src/Interner.antt =====
-- crates/orphanode/src/domain/ids.rs: the interner of strings, and the dense identifiers.
-- An identifier is its number. Where the count no longer fits 32 bits the program panics, and
-- `intern` is `none` here.
pub mod Stable
mod Samples
use orphanode.Common.{
  ℕ, ◌^◌, Bool, Option, none, some, List, [], ◌∷◌, ◌++◌, length, get_elem?, ltb, if◌then◌else◌,
}
use orphanode.Common.Order.{text_ord}
use orphanode.Common.Maps.{get, alter}
use orphanode.Common.Text.{Text}

pub record StringInterner : Type 0 where
  pub values : List Text
  pub ids_by_value : List (Text × ℕ)

-- `StringInterner::default()`
abbrev pub no_strings : StringInterner
no_strings = record { values = []; ids_by_value = [] }

unfoldable pub intern : StringInterner → Text → Option (ℕ × StringInterner)
intern s value = elim (get s.ids_by_value value) [
  | some id ↦ some (id, s)
  | none ↦
      let id = length s.values in
      if ltb id (2 ^ 32)
      then some (
        id,
        record {
          values = s.values ++ value ∷ [];
          ids_by_value = alter value (λ found. id) s.ids_by_value;
        },
      )
      else none
]

unfoldable pub lookup : StringInterner → ℕ → Option Text
lookup s id = get_elem? s.values id
