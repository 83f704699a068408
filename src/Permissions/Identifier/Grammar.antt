-- ===== src/Permissions/Identifier/Grammar.antt =====
-- The grammar of identifiers, stated without the code's tests: a service name, then one or more
-- segments joined by colons, of which only the last may be the wildcard `*`.
use ntauth.Common.{ℕ, ◌≤◌, ◌≡◌, ◌⊎◌, List, [], ◌∷◌, All, length}
use ntauth.Text.{Text}
use ntauth.Text.Split.{join}
use ntauth.Permissions.Identifier.{IdentifierKind, action, resource, star, identifier_length}

abbrev pub Between : ℕ → ℕ → ℕ → Type 0
Between lo hi c = (lo ≤ c) × (c ≤ hi)

abbrev pub Lower : ℕ → Type 0
Lower c = Between b'a' b'z' c

abbrev pub Digit : ℕ → Type 0
Digit c = Between b'0' b'9' c

abbrev pub NameUnit : ℕ → Type 0
NameUnit c = Lower c ⊎ Digit c ⊎ (c ≡ b'-')

abbrev pub Alphanumeric : ℕ → Type 0
Alphanumeric c = Between b'A' b'Z' c ⊎ Lower c ⊎ Digit c

abbrev pub ResourceUnit : ℕ → Type 0
ResourceUnit c = Alphanumeric c ⊎ (c ≡ b'.') ⊎ (c ≡ b'_') ⊎ (c ≡ b'/') ⊎ (c ≡ b'-')

-- A first unit of one kind, then at most `most` units of another.
abbrev pub Word : (ℕ → Type 0) → (ℕ → Type 0) → ℕ → Text → Type 0
Word First Rest most [] = ⊥
Word First Rest most (c ∷ s) = First c × All Rest s × (length s ≤ most)

abbrev pub Name : Text → Type 0
Name s = Word Lower NameUnit 62 s

abbrev pub Segment : IdentifierKind → Text → Type 0
Segment action s = Name s
Segment resource s = Word Alphanumeric ResourceUnit 127 s

abbrev pub Segments : IdentifierKind → List Text → Type 0
Segments kind [] = ⊥
Segments kind (last ∷ []) = (last ≡ star) ⊎ Segment kind last
Segments kind (s ∷ t ∷ more) = Segment kind s × Segments kind (t ∷ more)

-- `parts` is the way that the identifier is written.
pub record IsIdentifier (kind : IdentifierKind) (value : Text) : Type 0 where
  pub service : Text
  pub segments : List Text
  pub written : value ≡ join b':' service segments
  pub named : Name service
  pub placed : Segments kind segments
  pub short : length value ≤ identifier_length
