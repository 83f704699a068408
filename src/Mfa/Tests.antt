-- ===== src/Mfa/Tests.antt =====
-- Runs of the one-time codes with a simple function in place of the HMAC, and the theorems on them.
use ntauth.Common.{ℕ, ◌<◌, ◌≡◌, refl, Option, none, some, List, [], ◌∷◌, ◌++◌, arith}
use ntauth.Text.{Text, text, ◌===◌, decimal}
use ntauth.Database.{platform_admin}
use ntauth.Database.Users.{is_platform_admin}
use ntauth.Mfa.Base32.{base32_encode, base32_decode, to_character, from_character}
use ntauth.Mfa.Base32.Roundtrip.{base32_decode-encode}
use ntauth.Mfa.Code.{generate_totp_code, matching_counter}
use ntauth.Mfa.Challenge.{
  MfaTables, verified, invalid, enforce_platform_admin_mfa, decrypted_counter,
}
use ntauth.Mfa.Challenge.Replay.{start, StandsFor, enforce_increases}

abbrev itself : Text → Text
itself s = s

run : Unit {0}
unfolding ◌===◌ decimal is_platform_admin base32_encode base32_decode to_character from_character
    generate_totp_code matching_counter decrypted_counter enforce_platform_admin_mfa
run = tt

-- The first test vector of RFC 4648 that has padding, without the padding.
foobar : base32_encode (text "fooba") ≡ text "MZXW6YTB"
unfolding run
foobar = refl

fo : base32_encode (text "fo") ≡ text "MZXQ"
unfolding run
fo = refl

base32_decode-encode_example :
    base32_decode itself (base32_encode (255 ∷ 0 ∷ 7 ∷ [])) ≡ some (255 ∷ 0 ∷ 7 ∷ [])
base32_decode-encode_example =
    base32_decode-encode itself (λ s h. refl) (255 ∷ 0 ∷ 7 ∷ [])
      (omega arith, (omega arith, (omega arith, tt)))

abbrev hmac : List ℕ → List ℕ → List ℕ
hmac key message = message ++ message ++ 0 ∷ 4 ∷ []

abbrev decrypt : Text → Option Text
decrypt secret = some secret

abbrev root : Text
root = text "root"

abbrev db : MfaTables
db = record {
  accounts = record {
    users = [];
    sessions = [];
    accounts = [];
    organizations = [];
    members = [];
    assignments = record { user_id = root; role = platform_admin } ∷ [];
    audit_events = [];
  };
  enrollments =
      record {
        user_id = root;
        encrypted_secret = text "MZXQ";
        verified_at = some 0;
        last_used_counter = none;
        updated_at = 0;
      }
      ∷ [];
}

abbrev code_at : ℕ → Option Text
unfolding run
code_at counter = some (generate_totp_code itself hmac [] counter)

abbrev once : MfaTables
once = (enforce_platform_admin_mfa itself hmac decrypt root (code_at 7) (text "r") 225000 db).1

accepted :
    (enforce_platform_admin_mfa itself hmac decrypt root (code_at 7) (text "r") 225000 db).0
    ≡ verified
unfolding run
accepted = refl

-- The same code, ten seconds later
refused :
    (enforce_platform_admin_mfa itself hmac decrypt root (code_at 7) (text "r") 235000 once).0
    ≡ invalid
unfolding run
refused = refl

next_accepted :
    (enforce_platform_admin_mfa itself hmac decrypt root (code_at 8) (text "r") 245000 once).0
    ≡ verified
unfolding run
next_accepted = refl

enforce_increases_example :
    (first : ℕ) × (second : ℕ) × StandsFor itself hmac decrypt root (code_at 7) 225000 db first
    × StandsFor itself hmac decrypt root (code_at 8) 245000 once second
    × (first < second)
enforce_increases_example =
    enforce_increases itself hmac decrypt root (code_at 7) (code_at 8) (text "r") (text "r") 225000
      245000 db accepted start next_accepted
