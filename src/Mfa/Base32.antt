-- ===== src/Mfa/Base32.antt =====
-- packages/db/src/mfa.ts: `base32Encode` and `base32Decode`. The operators on 32-bit integers are
-- written out: the numbers of a JavaScript `<<` or `|` are kept modulo 2³², which `>>>` reads; what
-- a `|` adds has no bit in common with the other side.
pub mod Roundtrip
use ntauth.Common.{
  ℕ, zero, suc, ◌+◌, ◌-◌, ◌*◌, ◌/◌, ◌%◌, Bool, true, false, Option, none, some, List, [], ◌∷◌, ◌++◌,
  if◌then◌else◌, ltb, leb, ◌==◌, filter, not,
}
use Prim.Native.Nat.{◌^◌}
use ntauth.Text.{Text, text}

-- `BASE32`
abbrev pub alphabet : Text
alphabet = text "ABCDEFGHIJKLMNOPQRSTUVWXYZ234567"

-- `s[i]`, which is in range here
abbrev pub unit_at : Text → ℕ → ℕ
unit_at [] i = 0
unit_at (c ∷ s) zero = c
unit_at (c ∷ s) (suc i) = unit_at s i

-- `s.indexOf(c)`, `none` for -1
abbrev pub index_of : ℕ → Text → Option ℕ
index_of c [] = none
index_of c (d ∷ s) =
    let rest = index_of c s in
    if d == c then some 0 else elim rest [ none ↦ none | some i ↦ some (suc i) ]

-- `BASE32[i]` and `BASE32.indexOf(c)`
unfoldable pub to_character : ℕ → ℕ
to_character i = unit_at alphabet i

unfoldable pub from_character : ℕ → Option ℕ
from_character c = index_of c alphabet

abbrev pub word : ℕ → ℕ
word n = n % 4294967296

-- `(value >>> shift) & 31` and `(value >>> shift) & 255`
abbrev pub low : ℕ → ℕ → ℕ → ℕ
low modulus value shift = value / 2 ^ shift % modulus

-- `while (bits >= 5)`, on fuel: `bits` is at most 12, so there are at most two rounds.
abbrev pub emit : ℕ → ℕ → ℕ → Text × ℕ
emit zero value bits = ([], bits)
emit (suc fuel) value bits =
    let rest = emit fuel value (bits - 5) in
    if leb 5 bits then (to_character (low 32 value (bits - 5)) ∷ rest.0, rest.1) else ([], bits)

-- The loop of `base32Encode` from the variables `value` and `bits` on, with the last character.
abbrev pub encode_from : ℕ → ℕ → List ℕ → Text
encode_from value bits [] =
    if ltb 0 bits then to_character (word (value * 2 ^ (5 - bits)) % 32) ∷ [] else []
encode_from value bits (byte ∷ bytes) =
    let shifted = word (value * 256) + byte in
    let (output, left) = emit 2 shifted (bits + 8) in output ++ encode_from shifted left bytes

-- `base32Encode`
unfoldable pub base32_encode : List ℕ → Text
base32_encode bytes = encode_from 0 0 bytes

-- `bits` after a character
abbrev pub bits_after : ℕ → ℕ
bits_after bits = if leb 8 (bits + 5) then bits + 5 - 8 else bits + 5

abbrev pub put_front : ℕ → Option (List ℕ) → Option (List ℕ)
put_front byte none = none
put_front byte (some bytes) = some (byte ∷ bytes)

-- `buffer` after a character
abbrev pub buffer_after : ℕ → ℕ → ℕ
buffer_after buffer index = word (buffer * 32) + index

-- `if (bits >= 8)`
abbrev pub output_byte : ℕ → ℕ → ℕ → Option (List ℕ) → Option (List ℕ)
output_byte buffer bits index rest =
    if leb 8 (bits + 5)
    then put_front (low 256 (buffer_after buffer index) (bits + 5 - 8)) rest
    else rest

-- What a character does, by its index in the alphabet; `none` is the error that is thrown.
abbrev pub decode_index : ℕ → ℕ → (ℕ → Option (List ℕ)) → Option ℕ → Option (List ℕ)
decode_index buffer bits rest none = none
decode_index buffer bits rest (some index) = output_byte buffer bits index (rest index)

-- The loop of `base32Decode` from the variables `buffer` and `bits` on.
abbrev pub decode_from : ℕ → ℕ → Text → Option (List ℕ)
decode_from buffer bits [] = some []
decode_from buffer bits (c ∷ s) =
    let rest : ℕ → Option (List ℕ) =
      λ index. decode_from (buffer_after buffer index) (bits_after bits) s in
    decode_index buffer bits rest (from_character c)

-- `base32Decode`, with the upper case of a text as an argument
unfoldable pub base32_decode : (Text → Text) → Text → Option (List ℕ)
base32_decode to_upper_case value =
    decode_from 0 0 (to_upper_case (filter (λ c. not (c == 61)) value))
