-- ===== src/Cache/Digest.antt =====
-- crates/orphanode/src/cache/digest.rs: a digest as 32 bytes, with its hexadecimal form.
-- SHA-256 itself is not modelled: code that hashes takes the hash as a parameter.
pub mod Hex
mod Samples
use orphanode.Common.{
  ℕ, zero, suc, ◌+◌, ◌-◌, ◌*◌, Bool, true, false, not, ◌&&◌, Option, none, some, List, [], ◌∷◌,
  ◌++◌, ltb, leb, ◌==◌, if◌then◌else◌, length, and_then,
}
use Prim.Native.Nat.{◌/◌, ◌%◌}
use orphanode.Common.Text.{Text}

pub record Digest : Type 0 where
  pub bytes : List ℕ

abbrev pub digest_bytes : ℕ
digest_bytes = 32

unfoldable pub decode_nibble : ℕ → Option ℕ
decode_nibble value =
    if leb b'0' value && leb value b'9'
    then some (value - b'0')
    else if leb b'a' value && leb value b'f'
    then some (value - b'a' + 10)
    else if leb b'A' value && leb value b'F'
    then some (value - b'A' + 10)
    else none

-- The loop over the pairs of characters. A nibble is below 16, so `(high << 4) | low` is a sum.
unfoldable pub decode_pairs : List ℕ → Option (List ℕ)
decode_pairs [] = some []
decode_pairs (_ ∷ []) = some []
decode_pairs (a ∷ b ∷ rest) = and_then (decode_nibble a) λ high.
    and_then (decode_nibble b)
      λ low. and_then (decode_pairs rest) λ bytes. some ((high * 16 + low) ∷ bytes)

-- `none` is the `DigestParseError`.
unfoldable pub from_hex : List ℕ → Option Digest
from_hex value =
    if not (length value == digest_bytes * 2)
    then none
    else and_then (decode_pairs value) λ bytes. some (record { bytes = bytes })

-- A digit of `{:02x}`.
unfoldable pub hex_digit : ℕ → ℕ
hex_digit n = if ltb n 10 then b'0' + n else b'a' + (n - 10)

unfoldable pub encode_bytes : List ℕ → Text
encode_bytes [] = []
encode_bytes (byte ∷ bytes) = hex_digit (byte / 16) ∷ hex_digit (byte % 16) ∷ encode_bytes bytes

unfoldable pub to_hex : Digest → Text
to_hex d = encode_bytes d.bytes
