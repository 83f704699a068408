-- ===== src/Text.antt =====
-- JavaScript strings: sequences of UTF-16 code units, so that `length`, `===`, `slice`, `startsWith`,
-- `endsWith`, `includes` and `split` count and compare what the language does.
pub mod Laws
pub mod Split
pub mod Sort
use Prim.Native.Char.{code}
use Prim.Native.String
use ntauth.Common.{
  ℕ, zero, suc, ◌+◌, ◌-◌, ◌*◌, ◌/◌, ◌%◌, String, Bool, true, false, ◌&&◌, ◌||◌, List, [], ◌∷◌, ◌++◌,
  leb, ltb, ◌==◌, if◌then◌else◌, length, any,
}

abbrev pub Text : Type 0
Text = List ℕ

-- A literal of the source. All of them are ASCII, where code points and code units agree.
abbrev pub text : String → Text
text String.[] = []
text (String.◌∷◌ c s) = code c ∷ text s

infix 50 ◌===◌
unfoldable pub ◌===◌ : Text → Text → Bool
[] === [] = true
[] === (b ∷ t) = false
(a ∷ s) === [] = false
(a ∷ s) === (b ∷ t) = a == b && s === t

-- `list.includes(s)`, and `set.has(s)` of a set of strings
abbrev pub includes : List Text → Text → Bool
includes xs s = any (λ x. x === s) xs

-- `s.includes(c)` for a single code unit `c`
abbrev pub has_unit : ℕ → Text → Bool
has_unit c s = any (λ d. d == c) s

-- `s.startsWith(prefix)`
unfoldable pub starts_with : Text → Text → Bool
starts_with s [] = true
starts_with [] (b ∷ t) = false
starts_with (a ∷ s) (b ∷ t) = a == b && starts_with s t

abbrev pub drop : ℕ → Text → Text
drop zero s = s
drop (suc n) [] = []
drop (suc n) (c ∷ s) = drop n s

-- `s.endsWith(suffix)`
unfoldable pub ends_with : Text → Text → Bool
ends_with s suffix = leb (length suffix) (length s) && drop (length s - length suffix) s === suffix

-- `s.slice(0, -1)`
unfoldable pub drop_last : Text → Text
drop_last [] = []
drop_last (c ∷ []) = []
drop_last (c ∷ d ∷ s) = c ∷ drop_last (d ∷ s)

abbrev pub push_head : ℕ → List Text → List Text
push_head c [] = (c ∷ []) ∷ []
push_head c (part ∷ parts) = (c ∷ part) ∷ parts

-- `s.split(sep)` for a single code unit `sep`; the result is never empty
unfoldable pub split : ℕ → Text → List Text
split sep [] = [] ∷ []
split sep (c ∷ s) = let rest = split sep s in if c == sep then [] ∷ rest else push_head c rest

-- The digits of a number, most significant first. A number has at most as many digits as its
-- value plus one, which is the fuel.
decimal_from : ℕ → ℕ → Text → Text
decimal_from zero n acc = acc
decimal_from (suc fuel) n acc =
    let acc' = (b'0' + n % 10) ∷ acc in
    let rest = decimal_from fuel (n / 10) acc' in if n / 10 == 0 then acc' else rest

-- `String(n)` and `${n}` for a natural number
unfoldable pub decimal : ℕ → Text
unfolding decimal_from
decimal n = decimal_from (n + 1) n []

-- The order of `Array.prototype.sort` without a comparator.
unfoldable pub text_leb : Text → Text → Bool
text_leb [] t = true
text_leb (a ∷ s) [] = false
text_leb (a ∷ s) (b ∷ t) = ltb a b || a == b && text_leb s t

abbrev is_high : ℕ → Bool
is_high c = leb 0xD800 c && ltb c 0xDC00

abbrev is_low : ℕ → Bool
is_low c = leb 0xDC00 c && ltb c 0xE000

-- The iteration of `for (const character of s)` and of a regular expression with the `u` flag: by
-- code points, an unpaired surrogate standing for itself.
unfoldable pub code_points : Text → List ℕ
code_points [] = []
code_points (c ∷ []) = c ∷ []
code_points (c ∷ d ∷ s) =
    let paired = (0x10000 + (c - 0xD800) * 0x400 + (d - 0xDC00)) ∷ code_points s in
    let single = c ∷ code_points (d ∷ s) in if is_high c && is_low d then paired else single

-- White space and line terminators, which `s.trim()` removes.
abbrev pub is_white : ℕ → Bool
is_white c =
    (leb 9 c && leb c 13)
    || c == 32
    || c == 160
    || c == 5760
    || (leb 8192 c && leb c 8202)
    || c == 8232
    || c == 8233
    || c == 8239
    || c == 8287
    || c == 12288
    || c == 65279

abbrev pub trim_start : Text → Text
trim_start [] = []
trim_start (c ∷ s) = let rest = trim_start s in if is_white c then rest else c ∷ s

abbrev pub trim_end : Text → Text
trim_end [] = []
trim_end (c ∷ s) =
    let rest = trim_end s in if is_white c && leb (length rest) 0 then [] else c ∷ rest

-- `s.trim()`
unfoldable pub trim : Text → Text
trim s = trim_end (trim_start s)
