-- ===== src/Symbols/Graph/Unique.antt =====
-- Where no file declares an identifier twice, every node has a key that leads back to it.
use mathlib.Core.List.Memᴰ
use orphanode.Common.{
  ℕ, zero, suc, ◌≡◌, refl, sym, ap, subst, ◌∙◌, ◌⊎◌, inl, inr, some, List, [], ◌∷◌, ◌++◌, map, Memᴰ,
  Memᴰ-snoc, arith, length, get_elem?, All, Distinct, Distinct-append,
}
use orphanode.Common.Loops.{flat_map, enumerate, mem-flat_map, enumerated}
use orphanode.Facts.{FileFacts, SymbolFact}
use orphanode.Symbols.Data.{SymbolKey}
use orphanode.Symbols.Graph.{Numbering, number_key, number_keys, number_files, file_keys}
use orphanode.Symbols.Graph.Numbered.{node, number_key-cases, mem-map_ids}

-- No two symbols of a file have one identifier.
abbrev pub HasDistinctIds : List FileFacts → Type 0
HasDistinctIds = All (λ facts. Distinct (map (λ (s : SymbolFact). s.id) facts.symbol_facts.symbols))

-- A node's key leads back to the node.
abbrev pub IsUnique : Numbering → Type 0
IsUnique n = (i : ℕ) (k : SymbolKey) → get_elem? n.keys i ≡ some k → node n k ≡ some i

snoc-cases :
    (keys : List SymbolKey) (key k : SymbolKey) (i : ℕ)
    → get_elem? (keys ++ key ∷ []) i ≡ some k
    → (get_elem? keys i ≡ some k) × Memᴰ k keys ⊎ (i ≡ length keys) × (k ≡ key)
snoc-cases [] key k zero h = inr (refl, ground (arith, h))
snoc-cases [] key k (suc i) h = cc
snoc-cases (x ∷ keys) key k zero h = inl (h, Memᴰ.head (ground (arith, h)))
snoc-cases (x ∷ keys) key k (suc i) h = elim (snoc-cases keys key k i h) [
  | inl (at, m) ↦ inl (at, Memᴰ.tail m)
  | inr (e, same) ↦ inr (omega (arith, e), same)
]

IsUnique-number_key :
    (n : Numbering) (key : SymbolKey) → ¬ Memᴰ key n.keys → IsUnique n → IsUnique (number_key n key)
unfolding number_key
IsUnique-number_key n key new unique i k h = elim (snoc-cases n.keys key k i h) [
  | inl (at, m) ↦ elim (number_key-cases n key k) [
    | inl (same, _) ↦ absurd (new (subst (λ x. Memᴰ x n.keys) (sym same) m))
    | inr (ne, kept) ↦ kept ∙ unique i k at
  ]
  | inr (e, same) ↦ elim (number_key-cases n key k) [
    | inl (_, at) ↦ subst (λ j. node (number_key n key) k ≡ some j) (sym e) at
    | inr (ne, _) ↦ absurd (ne (sym same))
  ]
]

IsUnique-number_keys :
    (keys : List SymbolKey) (n : Numbering)
    → Distinct keys
    → ((k : SymbolKey) → Memᴰ k keys → ¬ Memᴰ k n.keys)
    → IsUnique n
    → IsUnique (number_keys n keys)
unfolding number_keys number_key
IsUnique-number_keys [] n once new unique = unique
IsUnique-number_keys (key ∷ keys) n once new unique =
    IsUnique-number_keys keys (number_key n key) once.1
      (λ k m i. elim ((Memᴰ-snoc k key n.keys).0 i) [
        | inl old ↦ absurd (new k (Memᴰ.tail m) old)
        | inr same ↦ absurd (once.0 (subst (λ x. Memᴰ x keys) same m))
      ])
      (IsUnique-number_key n key (new key (Memᴰ.head refl)) unique)

Distinct-ids :
    (file : ℕ) (symbols : List SymbolFact)
    → Distinct (map (λ (s : SymbolFact). s.id) symbols)
    → Distinct {A = SymbolKey} (map (λ s. record { file = file; symbol = s.id }) symbols)
Distinct-ids file [] once = tt
Distinct-ids file (x ∷ symbols) once = (
  λ m.
      let (s, i, _, same) = (mem-map_ids file _ symbols).0 m in
      absurd (once.0 (ids-Memᴰ x.id s symbols i same)),
  Distinct-ids file symbols once.1,
)
  where
    ids-Memᴰ :
        (id : ℕ) (s : SymbolFact) (symbols : List SymbolFact)
        → Memᴰ s symbols
        → s.id ≡ id
        → Memᴰ id (map (λ (s : SymbolFact). s.id) symbols)
    ids-Memᴰ id s [] m e = absurd (Memᴰ.not-nil m)
    ids-Memᴰ id s (x ∷ symbols) m e = elim (Memᴰ.cases_cons m) [
      | inl here ↦ Memᴰ.head (sym e ∙ ap (λ (y : SymbolFact). y.id) here)
      | inr later ↦ Memᴰ.tail (ids-Memᴰ id s symbols later e)
    ]

Distinct-keys :
    (i : ℕ) (files : List FileFacts)
    → HasDistinctIds files
    → Distinct (flat_map file_keys (enumerate i files))
Distinct-keys i [] h = tt
Distinct-keys i (facts ∷ files) h =
    Distinct-append (file_keys (i, facts)) (flat_map file_keys (enumerate (suc i) files))
      (Distinct-ids i facts.symbol_facts.symbols h.0) (Distinct-keys (suc i) files h.1)
      (λ k here there.
        let (_, _, first, _) = (mem-map_ids i k facts.symbol_facts.symbols).0 here in
        let ((file, other), m, at) = (mem-flat_map file_keys k (enumerate (suc i) files)).0 there in
        let (_, _, second, _) = (mem-map_ids file k other.symbol_facts.symbols).0 at in
        let (j, more, _) = enumerated (suc i) file other files m in
        omega (arith, first, second, more))

pub number_files-IsUnique :
    (files : List FileFacts) → HasDistinctIds files → IsUnique (number_files files)
unfolding number_files
number_files-IsUnique files h =
    IsUnique-number_keys (flat_map file_keys (enumerate 0 files))
      (record { node_by_key = []; keys = [] }) (Distinct-keys 0 files h) (λ k m i. Memᴰ.not-nil i)
      (λ i k e. cc)
