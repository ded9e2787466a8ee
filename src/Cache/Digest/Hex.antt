-- ===== src/Cache/Digest/Hex.antt =====
-- The hexadecimal form of a digest, both ways.
use Prim.Native.Nat.{◌/◌, ◌%◌}
use mathlib.Core.Option
use orphanode.Common.{
  ℕ, zero, suc, ◌+◌, ◌*◌, ◌<◌, ◌≡◌, refl, ap, inl, inr, ◌&&◌, Option, some, List, [], ◌∷◌, map, leb,
  ◌==◌, if◌then◌else◌, length, All, and_then, arith, and_then-eq-some, Bool-cases,
}
use orphanode.Cache.Digest.{
  Digest, digest_bytes, decode_nibble, decode_pairs, from_hex, hex_digit, encode_bytes, to_hex,
}

-- What `[u8; 32]` ensures.
pub record IsDigest (d : Digest) : Type 0 where
  pub size : length d.bytes ≡ digest_bytes
  pub bytes : All (λ b. b < 256) d.bytes

decode_nibble-hex_digit : (n : ℕ) → n < 16 → decode_nibble (hex_digit n) ≡ some n
unfolding decode_nibble hex_digit
decode_nibble-hex_digit n h = ground arith

decode_pairs-encode_bytes :
    (bs : List ℕ) → All (λ b. b < 256) bs → decode_pairs (encode_bytes bs) ≡ some bs
unfolding decode_pairs encode_bytes
decode_pairs-encode_bytes [] h = refl
decode_pairs-encode_bytes (b ∷ bs) h =
    let e : b / 16 * 16 + b % 16 ≡ b = omega arith in
    rw
      (
        decode_nibble-hex_digit (b / 16) (ground (arith, h.0)),
        decode_nibble-hex_digit (b % 16) (omega arith),
        decode_pairs-encode_bytes bs h.1,
        and_then,
      )
      (ap {B = Option (List ℕ)} (λ (x : ℕ). some (x ∷ bs)) e)

length-encode_bytes : (bs : List ℕ) → length (encode_bytes bs) ≡ 2 * length bs
unfolding encode_bytes
length-encode_bytes [] = refl
length-encode_bytes (b ∷ bs) = omega (arith, length-encode_bytes bs)

-- Parsing the printed form gives the digest back.
pub from_hex-to_hex : (d : Digest) → IsDigest d → from_hex (to_hex d) ≡ some d
unfolding from_hex to_hex
from_hex-to_hex d h =
    let e : length (encode_bytes d.bytes) ≡ 64 =
      omega (arith, length-encode_bytes d.bytes, h.size) in
    rw (e, decode_pairs-encode_bytes d.bytes h.bytes)

-- ASCII lower case.
abbrev pub lower : ℕ → ℕ
lower c = if leb b'A' c && leb c b'Z' then c + 32 else c

decode_nibble-lt : (c : ℕ) {n : ℕ} → decode_nibble c ≡ some n → (n < 16) × (hex_digit n ≡ lower c)
unfolding decode_nibble hex_digit
decode_nibble-lt c h = ground arith

decode_pairs_lem :
    (n : ℕ) (cs : List ℕ) {bs : List ℕ}
    → length cs ≡ 2 * n
    → decode_pairs cs ≡ some bs
    → (length bs ≡ n) × All (λ b. b < 256) bs × (encode_bytes bs ≡ map lower cs)
unfolding decode_pairs encode_bytes
decode_pairs_lem n [] e h =
    let e' : n ≡ 0 = omega arith in rw (← (Option.some-injective [] _ h), e') (refl, tt, refl)
decode_pairs_lem n (_ ∷ []) e h = absurd (omega arith)
decode_pairs_lem zero (a ∷ b ∷ rest) e h = absurd (omega arith)
decode_pairs_lem (suc n) (a ∷ b ∷ rest) e h =
    let (high, e1, h1) = and_then-eq-some (decode_nibble a) _ h in
    let (low, e2, h2) = and_then-eq-some (decode_nibble b) _ h1 in
    let (bytes, e3, h3) = and_then-eq-some (decode_pairs rest) _ h2 in
    let (size, small, text) = decode_pairs_lem n rest (omega arith) e3 in
    let (hi, hi_text) = decode_nibble-lt a e1 in
    let (lo, lo_text) = decode_nibble-lt b e2 in
    let at : (high * 16 + low) / 16 ≡ high = omega arith in
    let rem : (high * 16 + low) % 16 ≡ low = omega arith in
    rw (← (Option.some-injective _ _ h3))
      (ap suc size, (omega arith, small), rw (at, rem, hi_text, lo_text, text))

-- Reading a text succeeds only on 64 hexadecimal characters; the result is a digest, and printing
-- it gives the text in lower case.
pub to_hex-from_hex :
    (value : List ℕ) (d : Digest)
    → from_hex value ≡ some d
    → (length value ≡ 64) × IsDigest d × (to_hex d ≡ map lower value)
unfolding from_hex to_hex
to_hex-from_hex value d h = elim (Bool-cases (length value == 64)) [
  | inl e ↦
      let size : length value ≡ 64 = ground arith in
      let (bytes, e1, h1) = and_then-eq-some (decode_pairs value) _ (rw (from_hex, e) at h) in
      let (len, small, text) = decode_pairs_lem 32 value size e1 in
      let same : record { bytes = bytes } ≡ d = Option.some-injective _ _ h1 in
      rw (← same) (size, record { size = len; bytes = small }, text)
  | inr e ↦ cc (rw (from_hex, e) at h)
]
