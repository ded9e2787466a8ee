-- ===== src/Interner/Samples.antt =====
-- Three strings, one of them twice, and the theorem at them.
use orphanode.Common.{ℕ, ◌≡◌, ◌↔◌, some, List, [], ◌∷◌, length, get_elem?, arith}
use orphanode.Common.Text.{Text, text}
use orphanode.Interner.{StringInterner, no_strings, lookup}
use orphanode.Interner.Stable.{intern_all, intern_all-no_strings}

abbrev strings : List Text
strings = text "src/index.ts" ∷ text "chalk" ∷ text "src/index.ts" ∷ []

intern_all-no_strings_example :
    (ids : List ℕ) × (t : StringInterner) × (intern_all no_strings strings ≡ some (ids, t))
    × (length ids ≡ length strings)
    × ((j k a b : ℕ) (v w : Text)
        → get_elem? ids j ≡ some a
        → get_elem? ids k ≡ some b
        → get_elem? strings j ≡ some v
        → get_elem? strings k ≡ some w
        → (lookup t a ≡ some v) × ((a ≡ b) ↔ (v ≡ w)))
intern_all-no_strings_example = intern_all-no_strings strings (omega arith)
