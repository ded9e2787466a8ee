-- ===== src/Cache/Digest/Samples.antt =====
-- A digest, and the theorems at it.
use orphanode.Common.{◌≡◌, refl, some, none, ◌∷◌, map, replicate, length, arith}
use orphanode.Common.Text.{Text, text}
use orphanode.Cache.Digest.{Digest, from_hex, to_hex, decode_pairs, decode_nibble}
use orphanode.Cache.Digest.Hex.{IsDigest, lower, from_hex-to_hex, to_hex-from_hex}

abbrev sample : Digest
sample = record { bytes = 0xab ∷ 0x09 ∷ replicate 30 0x5f }

abbrev sample_text : Text
sample_text = text "aB095f5f5f5f5f5f5f5f5f5f5f5f5f5f5f5f5f5f5f5f5f5f5f5f5f5f5f5f5f5f"

from_hex_runs : from_hex sample_text ≡ some sample
unfolding from_hex decode_pairs decode_nibble
from_hex_runs = refl

too_short : from_hex (text "ab") ≡ none
unfolding from_hex
too_short = refl

from_hex-to_hex_example : from_hex (to_hex sample) ≡ some sample
from_hex-to_hex_example = from_hex-to_hex sample (omega arith)

to_hex-from_hex_example :
    (length sample_text ≡ 64) × IsDigest sample × (to_hex sample ≡ map lower sample_text)
to_hex-from_hex_example = to_hex-from_hex sample_text sample from_hex_runs
