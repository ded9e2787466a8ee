-- ===== src/Symbols/Graph/Numbered.antt =====
-- Each declared symbol has a node of its own.
use mathlib.Core.List.Memᴰ
use orphanode.Common.{
  ℕ, zero, suc, ◌≡◌, refl, sym, subst, ◌⊎◌, inl, inr, ◌↔◌, Option, some, List, [], ◌∷◌, ◌++◌, map,
  Memᴰ, arith, length, get_elem?, Bool-cases,
}
use orphanode.Common.Loops.{flat_map, enumerate, mem-flat_map, mem-enumerate}
use orphanode.Common.Maps.{get, alter, get-alter, get-alter_other}
use orphanode.Common.Order.{same, same_iff, nat_ord}
use orphanode.Facts.{FileFacts, SymbolFact}
use orphanode.Symbols.Data.{SymbolKey, symbol_key_ord}
use orphanode.Symbols.Graph.{Numbering, number_key, number_keys, number_files, file_keys}

abbrev pub node : Numbering → SymbolKey → Option ℕ
node n key = get n.node_by_key key

-- A node's number leads back to its key.
abbrev IsSound : Numbering → Type 0
IsSound n = (key : SymbolKey) (i : ℕ) → node n key ≡ some i → get_elem? n.keys i ≡ some key

get_elem?-snoc_old :
    (keys : List SymbolKey) (key : SymbolKey) (i : ℕ) (k : SymbolKey)
    → get_elem? keys i ≡ some k
    → get_elem? (keys ++ key ∷ []) i ≡ some k
get_elem?-snoc_old [] key i k h = cc
get_elem?-snoc_old (x ∷ keys) key zero k h = h
get_elem?-snoc_old (x ∷ keys) key (suc i) k h = get_elem?-snoc_old keys key i k h

get_elem?-snoc_last :
    (keys : List SymbolKey) (key : SymbolKey)
    → get_elem? (keys ++ key ∷ []) (length keys) ≡ some key
get_elem?-snoc_last [] key = refl
get_elem?-snoc_last (x ∷ keys) key = get_elem?-snoc_last keys key

-- What numbering one key changes: that key has a number, and the others keep theirs.
pub number_key-cases :
    (n : Numbering) (key k : SymbolKey)
    → (key ≡ k) × (node (number_key n key) k ≡ some (length n.keys))
      ⊎ ¬ (key ≡ k) × (node (number_key n key) k ≡ node n k)
unfolding number_key
number_key-cases n key k = elim (Bool-cases (same key k)) [
  | inl eq ↦
      let e = (same_iff key k).0 eq in
      inl (
        e,
        subst (λ x. get (alter key (λ found. length n.keys) n.node_by_key) x ≡ some (length n.keys))
            e (get-alter key (λ found. length n.keys) n.node_by_key),
      )
  | inr ne ↦ inr (
    λ e. cc (ne, (same_iff key k).1 e),
    get-alter_other key k (λ found. length n.keys) n.node_by_key ne,
  )
]

IsSound-number_key : (n : Numbering) (key : SymbolKey) → IsSound n → IsSound (number_key n key)
unfolding number_key
IsSound-number_key n key sound k i h = elim (number_key-cases n key k) [
  | inl (e, at) ↦
      let last : length n.keys ≡ i = ground (arith, h, at) in
      subst (λ x. get_elem? (n.keys ++ key ∷ []) i ≡ some x) e
        (subst (λ j. get_elem? (n.keys ++ key ∷ []) j ≡ some key) last
          (get_elem?-snoc_last n.keys key))
  | inr (ne, at) ↦ get_elem?-snoc_old n.keys key i k (sound k i (ground (arith, h, at)))
]

abbrev IsNumbered : Numbering → SymbolKey → Type 0
IsNumbered n key = (i : ℕ) × (node n key ≡ some i)

number_keys_lem :
    (keys : List SymbolKey) (n : Numbering)
    → IsSound n
    → IsSound (number_keys n keys)
      × ((k : SymbolKey) → IsNumbered (number_keys n keys) k ↔ (IsNumbered n k ⊎ Memᴰ k keys))
unfolding number_keys
number_keys_lem [] n sound =
    (sound, λ k. (inl, λ s. elim s [ inl h ↦ h | inr m ↦ absurd (Memᴰ.not-nil m) ]))
number_keys_lem (key ∷ keys) n sound =
    let (sound_all, all) =
      number_keys_lem keys (number_key n key) (IsSound-number_key n key sound) in
    (
      sound_all,
      λ k. (
        λ h. elim ((all k).0 h) [
          | inl (i, at) ↦ elim (number_key-cases n key k) [
            | inl (e, new) ↦ inr (Memᴰ.head (sym e))
            | inr (ne, old) ↦ inl (i, ground (arith, at, old))
          ]
          | inr later ↦ inr (Memᴰ.tail later)
        ],
        λ s. (all k).1 (elim (number_key-cases n key k) [
          | inl (e, new) ↦ inl (length n.keys, new)
          | inr (ne, old) ↦ elim s [
            | inl (i, at) ↦ inl (i, ground (arith, at, old))
            | inr m ↦ elim (Memᴰ.cases_cons m) [
              | inl here ↦ absurd (ne (sym here))
              | inr later ↦ inr later
            ]
          ]
        ]),
      ),
    )

-- A symbol that the facts of its file declare.
abbrev pub IsDeclared : List FileFacts → SymbolKey → Type 0
IsDeclared files key =
    (facts : FileFacts) × (s : SymbolFact) × (get_elem? files key.file ≡ some facts)
    × Memᴰ s facts.symbol_facts.symbols
    × (s.id ≡ key.symbol)

pub mem-map_ids :
    (file : ℕ) (k : SymbolKey) (symbols : List SymbolFact)
    → Memᴰ {A = SymbolKey} k (map (λ s. record { file = file; symbol = s.id }) symbols)
      ↔ ((s : SymbolFact) × Memᴰ s symbols × (k.file ≡ file) × (s.id ≡ k.symbol))
mem-map_ids file k [] = (λ m. absurd (Memᴰ.not-nil m), λ (s, m, e, f). absurd (Memᴰ.not-nil m))
mem-map_ids file k (x ∷ symbols) = (
  λ m. elim (Memᴰ.cases_cons m) [
    | inl here ↦ (x, Memᴰ.head refl, ground (arith, here), ground (arith, here))
    | inr later ↦ let (s, i, e, f) = (mem-map_ids file k symbols).0 later in (s, Memᴰ.tail i, e, f)
  ],
  λ (s, m, e, f). elim (Memᴰ.cases_cons m) [
    | inl here ↦ Memᴰ.head (ground (arith, e, f, here))
    | inr later ↦ Memᴰ.tail ((mem-map_ids file k symbols).1 (s, later, e, f))
  ],
)

-- The numbered symbols are the declared ones, and no two of them share a node.
pub number_files_lem :
    (files : List FileFacts)
    → ((k : SymbolKey) → ((i : ℕ) × (node (number_files files) k ≡ some i)) ↔ IsDeclared files k)
      × ((k : SymbolKey) (i : ℕ)
          → node (number_files files) k ≡ some i
          → get_elem? (number_files files).keys i ≡ some k)
unfolding number_files
number_files_lem files =
    let empty : Numbering = record { node_by_key = []; keys = [] } in
    let keys = flat_map file_keys (enumerate 0 files) in
    let (sound, all) = number_keys_lem keys empty (λ k i h. cc) in
    (
      λ k. (
        λ h. elim ((all k).0 h) [
          | inl (i, at) ↦ absurd (cc (at))
          | inr m ↦
              let ((file, facts), i, at) = (mem-flat_map file_keys k (enumerate 0 files)).0 m in
              let (s, j, e, f) = (mem-map_ids file k facts.symbol_facts.symbols).0 at in
              (
                facts,
                s,
                subst (λ x. get_elem? files x ≡ some facts) (sym e)
                    ((mem-enumerate file facts files).0 i),
                j,
                f,
              )
        ],
        λ (facts, s, at, m, f). (all k).1 (
            inr (
              (mem-flat_map file_keys k (enumerate 0 files)).1 (
                (k.file, facts),
                (mem-enumerate k.file facts files).1 at,
                (mem-map_ids k.file k facts.symbol_facts.symbols).1 (s, m, refl, f),
              ))),
      ),
      sound,
    )
