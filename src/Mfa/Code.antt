-- ===== src/Mfa/Code.antt =====
-- packages/db/src/mfa.ts: the code for a counter, and the counters that a code is accepted for. The
-- HMAC with SHA-1, of a key and a message, is an argument, and so is the upper case of a text.
use ntauth.Common.{
  ℕ, zero, suc, ◌+◌, ◌-◌, ◌*◌, ◌/◌, ◌%◌, Bool, ◌&&◌, Option, none, some, List, [], ◌∷◌, ◌++◌,
  if◌then◌else◌, leb, ◌==◌, all, length,
}
use Prim.Native.Nat.{◌^◌}
use ntauth.Text.{Text, ◌===◌, decimal}
use ntauth.Mfa.Base32.{unit_at, base32_decode}

-- `counterBytes`: eight bytes, the most significant first
abbrev pub counter_bytes : ℕ → List ℕ
counter_bytes counter =
    counter / 2 ^ 56 % 256
    ∷ counter / 2 ^ 48 % 256
    ∷ counter / 2 ^ 40 % 256
    ∷ counter / 2 ^ 32 % 256
    ∷ counter / 2 ^ 24 % 256
    ∷ counter / 2 ^ 16 % 256
    ∷ counter / 2 ^ 8 % 256
    ∷ counter % 256
    ∷ []

-- `now.getTime() / 1_000 / PERIOD_SECONDS`, rounded down
abbrev pub totp_counter : ℕ → ℕ
totp_counter now = now / 1000 / 30

-- `padStart(6, "0")`
abbrev pub zeros : ℕ → Text
zeros zero = []
zeros (suc n) = 48 ∷ zeros n

abbrev pub pad_start : Text → Text
pad_start digits = zeros (6 - length digits) ++ digits

-- The four bytes at the offset that the last byte names, without the first bit.
abbrev pub truncate : List ℕ → ℕ
truncate digest =
    let offset = unit_at digest (length digest - 1) % 16 in
    unit_at digest offset % 128 * 2 ^ 24
    + unit_at digest (offset + 1) * 2 ^ 16
    + unit_at digest (offset + 2) * 2 ^ 8
    + unit_at digest (offset + 3)

abbrev pub is_digit : ℕ → Bool
is_digit c = leb 48 c && leb c 57

-- `/^\d{6}$/`
abbrev pub is_code : Text → Bool
is_code code = length code == 6 && all is_digit code

-- The counters `current` and `current - 1`. The one before the first is left out: no code is accepted
-- for it.
abbrev pub counters : ℕ → List ℕ
counters zero = zero ∷ []
counters (suc n) = suc n ∷ n ∷ []

module _ (to_upper_case : Text → Text) (hmac : List ℕ → List ℕ → List ℕ) where
  -- `generateTotpCode`, of the bytes of a secret
  unfoldable pub generate_totp_code : List ℕ → ℕ → Text
  unfolding decimal
  generate_totp_code key counter =
      pad_start (decimal (truncate (hmac key (counter_bytes counter)) % 1000000))

  -- `codes.indexOf(code)`, and the counter at that index
  abbrev pub first_for : List ℕ → Text → List ℕ → Option ℕ
  first_for key code [] = none
  first_for key code (counter ∷ rest) =
      let later = first_for key code rest in
      if generate_totp_code key counter === code then some counter else later

  abbrev pub with_key : Text → ℕ → Option (List ℕ) → Option (Option ℕ)
  with_key code now none = none
  with_key code now (some key) = some (first_for key code (counters (totp_counter now)))

  -- `matchingCounter`; the outer `none` is the error for a secret that cannot be decoded
  unfoldable pub matching_counter : Text → Text → ℕ → Option (Option ℕ)
  unfolding generate_totp_code base32_decode
  matching_counter secret code now =
      if is_code code then with_key code now (base32_decode to_upper_case secret) else some none
