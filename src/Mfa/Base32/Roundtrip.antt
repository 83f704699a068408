-- ===== src/Mfa/Base32/Roundtrip.antt =====
-- packages/db/src/mfa.ts: what `base32Encode` writes, `base32Decode` reads back.
use ntauth.Common.{
  ℕ, zero, suc, ◌+◌, ◌-◌, ◌*◌, ◌/◌, ◌%◌, ◌<◌, ◌≡◌, refl, ◌∙◌, ap, ap₂, Bool, true, false, Option,
  none, some, List, [], ◌∷◌, arith, ltb, leb, ◌&&◌, and_iff, All-append, Bool-cases, inl, inr,
  ==_iff, All, not, filter, ◌==◌,
}
use Prim.Native.Nat.{◌^◌}
use ntauth.Text.{Text}
use ntauth.Mfa.Base32.{
  to_character, from_character, word, low, emit, encode_from, base32_encode, bits_after, put_front,
  buffer_after, output_byte, decode_index, decode_from, base32_decode,
}

abbrev is_index : ℕ → Option ℕ → Bool
is_index i none = false
is_index i (some j) = j == i

abbrev reads_back : ℕ → Bool
reads_back i = is_index i (from_character (to_character i))

abbrev all_below : (ℕ → Bool) → ℕ → Bool
all_below p zero = true
all_below p (suc n) = p n && all_below p n

all_below_lem : (p : ℕ → Bool) (n i : ℕ) → all_below p n ≡ true → i < n → p i ≡ true
all_below_lem p zero i h below = absurd (omega (arith, below))
all_below_lem p (suc n) i h below =
    let (last, rest) = (and_iff (p n) (all_below p n)).0 h in
    elim (Bool-cases (i == n)) [
      | inl e ↦ ap p ((==_iff i n).0 e) ∙ last
      | inr e ↦ all_below_lem p n i rest (ground (arith, e, below))
    ]

reads_back_all : all_below reads_back 32 ≡ true
unfolding to_character from_character
reads_back_all = refl

is_index_lem : (i : ℕ) (o : Option ℕ) → is_index i o ≡ true → o ≡ some i
is_index_lem i none h = absurd (ground (arith, h))
is_index_lem i (some j) h = ap some ((==_iff j i).0 h)

-- A character is read back as what it was written for.
from-to : (i : ℕ) → i < 32 → from_character (to_character i) ≡ some i
from-to i below =
    is_index_lem i (from_character (to_character i))
      (all_below_lem reads_back 32 i reads_back_all below)

-- A character for `i`, decoded.
decode_character :
    (buffer bits i : ℕ) (s : Text)
    → i < 32
    → decode_from buffer bits (to_character i ∷ s)
      ≡ output_byte buffer bits i (decode_from (buffer_after buffer i) (bits_after bits) s)
decode_character buffer bits i s below =
    ap
      (decode_index buffer bits
        (λ index. decode_from (buffer_after buffer index) (bits_after bits) s))
      (from-to i below)

-- How many bits of a byte the encoder holds between two bytes.
data Held : Type 0 where
  h0 h1 h2 h3 h4 : Held

-- The bits that the encoder holds, and those of the same byte that the decoder has.
abbrev held : Held → ℕ × ℕ
held h0 = (0, 0)
held h1 = (1, 7)
held h2 = (2, 6)
held h3 = (3, 5)
held h4 = (4, 4)

-- The bits of a byte `x` that the encoder still holds are the low ones of `v`, and those that the
-- decoder already has are the low ones of `u`.
abbrev Linked : Held → ℕ → ℕ → ℕ → Type 0
Linked h0 u v x = Unit
Linked h1 u v x = (x < 256) × (u % 128 ≡ x / 2) × (v % 2 ≡ x % 2)
Linked h2 u v x = (x < 256) × (u % 64 ≡ x / 4) × (v % 4 ≡ x % 4)
Linked h3 u v x = (x < 256) × (u % 32 ≡ x / 8) × (v % 8 ≡ x % 8)
Linked h4 u v x = (x < 256) × (u % 16 ≡ x / 16) × (v % 16 ≡ x % 16)

-- What the decoder still has to give.
abbrev owed : Held → ℕ → List ℕ → List ℕ
owed h0 x bytes = bytes
owed _ x bytes = x ∷ bytes

low_small : (value shift : ℕ) → low 32 value shift < 32
low_small value shift = omega arith

link_0 :
    (u v y : ℕ)
    → y < 256
    → let sh = word (v * 256) + y in Linked h3 (buffer_after u (low 32 sh 3)) sh y
link_0 u v y below = (below, omega (arith, below), omega (arith, below))

link_3 :
    (u v x y : ℕ)
    → y < 256
    → Linked h3 u v x
    → let sh = word (v * 256) + y in
      let u1 = buffer_after u (low 32 sh 6) in
      let u2 = buffer_after u1 (low 32 sh 1) in (low 256 u1 2 ≡ x) × Linked h1 u2 sh y
link_3 u v x y below (small, top, bottom) =
    (omega (arith, below, top, bottom), (below, omega (arith, below), omega (arith, below)))

link_1 :
    (u v x y : ℕ)
    → y < 256
    → Linked h1 u v x
    → let sh = word (v * 256) + y in
      let u1 = buffer_after u (low 32 sh 4) in (low 256 u1 4 ≡ x) × Linked h4 u1 sh y
link_1 u v x y below (small, top, bottom) =
    (omega (arith, below, top, bottom), (below, omega (arith, below), omega (arith, below)))

link_4 :
    (u v x y : ℕ)
    → y < 256
    → Linked h4 u v x
    → let sh = word (v * 256) + y in
      let u1 = buffer_after u (low 32 sh 7) in
      let u2 = buffer_after u1 (low 32 sh 2) in (low 256 u1 1 ≡ x) × Linked h2 u2 sh y
link_4 u v x y below (small, top, bottom) =
    (omega (arith, below, top, bottom), (below, omega (arith, below), omega (arith, below)))

link_2 :
    (u v x y : ℕ)
    → y < 256
    → Linked h2 u v x
    → let sh = word (v * 256) + y in
      let u1 = buffer_after u (low 32 sh 5) in
      let u2 = buffer_after u1 (low 32 sh 0) in (low 256 u1 3 ≡ x) × (low 256 u2 0 ≡ y)
link_2 u v x y below (small, top, bottom) =
    (omega (arith, below, top, bottom), omega (arith, below))

abbrev pub IsByte : ℕ → Type 0
IsByte byte = byte < 256

-- The decoder, wherever it is with respect to the encoder, gives the bytes that are still to come.
decode-encode :
    (b : Held) (u v x : ℕ) (bytes : List ℕ)
    → Linked b u v x
    → All IsByte bytes
    → decode_from u (held b).1 (encode_from v (held b).0 bytes) ≡ some (owed b x bytes)
decode-encode h0 u v x [] link h = refl
decode-encode h1 u v x [] (small, top, bottom) h =
    decode_character u 7 (word (v * 16) % 32) [] (omega arith)
    ∙ ap (λ z. some (z ∷ [])) (omega (arith, small, top, bottom))
decode-encode h2 u v x [] (small, top, bottom) h =
    decode_character u 6 (word (v * 8) % 32) [] (omega arith)
    ∙ ap (λ z. some (z ∷ [])) (omega (arith, small, top, bottom))
decode-encode h3 u v x [] (small, top, bottom) h =
    decode_character u 5 (word (v * 4) % 32) [] (omega arith)
    ∙ ap (λ z. some (z ∷ [])) (omega (arith, small, top, bottom))
decode-encode h4 u v x [] (small, top, bottom) h =
    decode_character u 4 (word (v * 2) % 32) [] (omega arith)
    ∙ ap (λ z. some (z ∷ [])) (omega (arith, small, top, bottom))
decode-encode h0 u v x (y ∷ bytes) link (below, h) =
    let sh = word (v * 256) + y in
    let u1 = buffer_after u (low 32 sh 3) in
    decode_character u 0 (low 32 sh 3) (encode_from sh 3 bytes) (low_small sh 3)
    ∙ decode-encode h3 u1 sh y bytes (link_0 u v y below) h
decode-encode h1 u v x (y ∷ bytes) link (below, h) =
    let sh = word (v * 256) + y in
    let u1 = buffer_after u (low 32 sh 4) in
    let (whole, next) = link_1 u v x y below link in
    decode_character u 7 (low 32 sh 4) (encode_from sh 4 bytes) (low_small sh 4)
    ∙ (ap₂ put_front whole (decode-encode h4 u1 sh y bytes next h))
decode-encode h2 u v x (y ∷ bytes) link (below, h) =
    let sh = word (v * 256) + y in
    let u1 = buffer_after u (low 32 sh 5) in
    let u2 = buffer_after u1 (low 32 sh 0) in
    let rest = encode_from sh 0 bytes in
    let (whole, next) = link_2 u v x y below link in
    decode_character u 6 (low 32 sh 5) (to_character (low 32 sh 0) ∷ rest) (low_small sh 5)
    ∙ ap₂ put_front whole (
        decode_character u1 3 (low 32 sh 0) rest (low_small sh 0)
        ∙ ap₂ put_front next (decode-encode h0 u2 sh y bytes tt h))
decode-encode h3 u v x (y ∷ bytes) link (below, h) =
    let sh = word (v * 256) + y in
    let u1 = buffer_after u (low 32 sh 6) in
    let u2 = buffer_after u1 (low 32 sh 1) in
    let rest = encode_from sh 1 bytes in
    let (whole, next) = link_3 u v x y below link in
    decode_character u 5 (low 32 sh 6) (to_character (low 32 sh 1) ∷ rest) (low_small sh 6)
    ∙ ap₂ put_front whole (
        decode_character u1 2 (low 32 sh 1) rest (low_small sh 1)
        ∙ decode-encode h1 u2 sh y bytes next h)
decode-encode h4 u v x (y ∷ bytes) link (below, h) =
    let sh = word (v * 256) + y in
    let u1 = buffer_after u (low 32 sh 7) in
    let u2 = buffer_after u1 (low 32 sh 2) in
    let rest = encode_from sh 2 bytes in
    let (whole, next) = link_4 u v x y below link in
    decode_character u 4 (low 32 sh 7) (to_character (low 32 sh 2) ∷ rest) (low_small sh 7)
    ∙ ap₂ put_front whole (
        decode_character u1 1 (low 32 sh 2) rest (low_small sh 2)
        ∙ decode-encode h2 u2 sh y bytes next h)

-- A character of the alphabet.
abbrev pub IsCharacter : ℕ → Type 0
IsCharacter c = (i : ℕ) × (i < 32) × (c ≡ to_character i)

written : (i : ℕ) → i < 32 → IsCharacter (to_character i)
written i below = (i, below, refl)

emit-characters : (fuel value bits : ℕ) → All IsCharacter (emit fuel value bits).0
emit-characters zero value bits = tt
emit-characters (suc fuel) value bits = elim (Bool-cases (leb 5 bits)) [
  | inl e ↦ rw e (
    written (low 32 value (bits - 5)) (low_small value (bits - 5)),
    emit-characters fuel value (bits - 5),
  )
  | inr e ↦ rw e tt
]

encode_from-characters :
    (value bits : ℕ) (bytes : List ℕ) → All IsCharacter (encode_from value bits bytes)
encode_from-characters value bits [] = elim (Bool-cases (ltb 0 bits)) [
  | inl e ↦ rw e (written (word (value * 2 ^ (5 - bits)) % 32) (omega arith), tt)
  | inr e ↦ rw e tt
]
encode_from-characters value bits (byte ∷ bytes) =
    let shifted = word (value * 256) + byte in
    All-append IsCharacter (emit 2 shifted (bits + 8)).0
      (encode_from shifted (emit 2 shifted (bits + 8)).1 bytes)
      (emit-characters 2 shifted (bits + 8))
      (encode_from-characters shifted (emit 2 shifted (bits + 8)).1 bytes)

abbrev differs : ℕ → Bool
differs i = not (to_character i == 61)

differs_all : all_below differs 32 ≡ true
unfolding to_character
differs_all = refl

-- None of them is `=`.
filter-plain : (s : Text) → All IsCharacter s → filter (λ c. not (c == 61)) s ≡ s
filter-plain [] h = refl
filter-plain (c ∷ s) ((i, below, same), h) =
    let other : not (c == 61) ≡ true =
      ap (λ d. not (d == 61)) same ∙ all_below_lem differs 32 i differs_all below in
    rw other (ap (◌∷◌ c) (filter-plain s h))

-- Decoding the encoding of some bytes gives the bytes back, where upper case leaves a text of the
-- alphabet's characters as it is.
pub base32_decode-encode :
    (to_upper_case : Text → Text) (keeps : (s : Text) → All IsCharacter s → to_upper_case s ≡ s)
    (bytes : List ℕ)
    → All IsByte bytes
    → base32_decode to_upper_case (base32_encode bytes) ≡ some bytes
unfolding base32_decode base32_encode
base32_decode-encode to_upper_case keeps bytes h =
    let encoded = encode_from 0 0 bytes in
    let characters = encode_from-characters 0 0 bytes in
    ap (decode_from 0 0)
      (ap to_upper_case (filter-plain encoded characters) ∙ keeps encoded characters)
    ∙ decode-encode h0 0 0 0 bytes tt h
