-- ===== src/Permissions/Conditions/Wildcard.antt =====
-- packages/permissions/src/conditions.ts, `wildcardPattern`: the regular expression that a pattern
-- of `StringLike` becomes, and the texts that it matches.
use ntauth.Common.{
  ℕ, Bool, true, false, not, ◌&&◌, ◌||◌, List, [], ◌∷◌, ◌++◌, ◌≡◌, refl, ◌≢◌, ◌↔◌, inl, inr, arith,
  ◌==◌, if◌then◌else◌, map, All, All-append, and_iff, or_iff, ==_iff, ap, sym, subst,
}
use ntauth.Text.{Text, code_points}
use ntauth.Text.Laws.{cons-eq_head, cons-eq_tail}

-- The parts of the source text: `.*`, `.` and an escaped character, of a pattern anchored at both ends.
pub data Token : Type 0 where
  any_run any_one : Token
  literal : ℕ → Token

-- One round of the loop over the pattern's characters.
pub token_of : ℕ → Token
token_of c = if c == b'*' then any_run else if c == b'?' then any_one else literal c

-- `wildcardPattern`
unfoldable pub wildcard_pattern : Text → List Token
unfolding token_of code_points
wildcard_pattern pattern = map token_of (code_points pattern)

-- The line terminators, which `.` does not match without the `s` flag.
abbrev pub ends_line : ℕ → Bool
ends_line c = c == 10 || c == 13 || c == 0x2028 || c == 0x2029

-- A run of characters that are no line terminators, and then what `k` accepts.
run_then : (List ℕ → Bool) → List ℕ → Bool
run_then k [] = k []
run_then k (c ∷ s) = k (c ∷ s) || not (ends_line c) && run_then k s

-- `regexp.test` on the code points of a text
unfoldable pub matches : List Token → List ℕ → Bool
unfolding run_then
matches [] [] = true
matches [] (c ∷ s) = false
matches (any_run ∷ ts) s = run_then (matches ts) s
matches (any_one ∷ ts) [] = false
matches (any_one ∷ ts) (c ∷ s) = not (ends_line c) && matches ts s
matches (literal d ∷ ts) [] = false
matches (literal d ∷ ts) (c ∷ s) = c == d && matches ts s

-- `wildcardPattern(pattern).test(actual)`
unfoldable pub like : Text → Text → Bool
unfolding wildcard_pattern matches code_points
like pattern actual = matches (wildcard_pattern pattern) (code_points actual)

-- What `.` matches: any character but a line terminator.
abbrev pub Inline : ℕ → Type 0
Inline c = (c ≢ 10) × (c ≢ 13) × (c ≢ 0x2028) × (c ≢ 0x2029)

-- The language of a pattern: the ways to write a text as a row of parts.
abbrev pub Matches : List Token → List ℕ → Type 0
Matches [] s = s ≡ []
Matches (any_run ∷ ts) s = (m : List ℕ) × (r : List ℕ) × (s ≡ m ++ r) × All Inline m × Matches ts r
Matches (any_one ∷ ts) s = (c : ℕ) × (r : List ℕ) × (s ≡ c ∷ r) × Inline c × Matches ts r
Matches (literal d ∷ ts) s = (r : List ℕ) × (s ≡ d ∷ r) × Matches ts r

ends_line_iff : (c : ℕ) → (not (ends_line c) ≡ true) ↔ Inline c
ends_line_iff c = ground arith

module _ (k : List ℕ → Bool) (K : List ℕ → Type 0)
    (decides : (s : List ℕ) → (k s ≡ true) ↔ K s) where
  run_then_sound :
      (s : List ℕ)
      → run_then k s ≡ true
      → (m : List ℕ) × (r : List ℕ) × (s ≡ m ++ r) × All Inline m × K r
  unfolding run_then
  run_then_sound [] h = ([], [], refl, tt, (decides []).0 h)
  run_then_sound (c ∷ s) h = elim ((or_iff _ _).0 h) [
    | inl here ↦ ([], c ∷ s, refl, tt, (decides (c ∷ s)).0 here)
    | inr later ↦
        let (inline, rest) = (and_iff _ _).0 later in
        let (m, r, e, all_inline, found) = run_then_sound s rest in
        (c ∷ m, r, ap (◌∷◌ c) e, ((ends_line_iff c).0 inline, all_inline), found)
  ]

  run_then_complete : (m r : List ℕ) → All Inline m → K r → run_then k (m ++ r) ≡ true
  unfolding run_then
  run_then_complete [] [] h found = (decides []).1 found
  run_then_complete [] (c ∷ r) h found = (or_iff _ _).1 (inl ((decides (c ∷ r)).1 found))
  run_then_complete (c ∷ m) r h found =
      (or_iff _ _).1
        (inr ((and_iff _ _).1 ((ends_line_iff c).1 h.0, run_then_complete m r h.1 found)))

-- `test` accepts exactly the language of the pattern: a literal character stands for itself, `?` for
-- one character and `*` for a run of them, none of which is a line terminator.
pub matches_iff : (ts : List Token) (s : List ℕ) → (matches ts s ≡ true) ↔ Matches ts s
unfolding matches
matches_iff [] [] = (λ h. refl, λ h. refl)
matches_iff [] (c ∷ s) = (λ h. cc, λ h. cc)
matches_iff (any_run ∷ ts) s = (
  λ h. run_then_sound (matches ts) (Matches ts) (matches_iff ts) s h,
  λ (m, r, e, inline, rest).
      subst (λ x. run_then (matches ts) x ≡ true) (sym e)
        (run_then_complete (matches ts) (Matches ts) (matches_iff ts) m r inline rest),
)
matches_iff (any_one ∷ ts) [] = (λ h. cc, λ (c, r, e, inline, rest). cc)
matches_iff (any_one ∷ ts) (c ∷ s) = (
  λ h.
      let (inline, rest) = (and_iff _ _).0 h in
      (c, s, refl, (ends_line_iff c).0 inline, (matches_iff ts s).0 rest),
  λ (d, r, e, inline, rest). (and_iff _ _).1 (
    (ends_line_iff c).1 (subst Inline (sym (cons-eq_head e)) inline),
    (matches_iff ts s).1 (subst (Matches ts) (sym (cons-eq_tail e)) rest),
  ),
)
matches_iff (literal d ∷ ts) [] = (λ h. cc, λ (r, e, rest). cc)
matches_iff (literal d ∷ ts) (c ∷ s) = (
  λ h.
      let (same, rest) = (and_iff _ _).0 h in
      (s, ap (λ x. x ∷ s) ((==_iff c d).0 same), (matches_iff ts s).0 rest),
  λ (r, e, rest). (and_iff _ _).1 (
    (==_iff c d).1 (cons-eq_head e),
    (matches_iff ts s).1 (subst (Matches ts) (sym (cons-eq_tail e)) rest),
  ),
)

abbrev pub InlineToken : Token → Type 0
InlineToken (literal d) = Inline d
InlineToken _ = Unit

Matches-Inline : (ts : List Token) (s : List ℕ) → All InlineToken ts → Matches ts s → All Inline s
Matches-Inline [] s h e = subst (All Inline) (sym e) tt
Matches-Inline (any_run ∷ ts) s h (m, r, e, inline, rest) =
    subst (All Inline) (sym e) (All-append Inline m r inline (Matches-Inline ts r h.1 rest))
Matches-Inline (any_one ∷ ts) s h (c, r, e, inline, rest) =
    subst (All Inline) (sym e) (inline, Matches-Inline ts r h.1 rest)
Matches-Inline (literal d ∷ ts) s h (r, e, rest) =
    subst (All Inline) (sym e) (h.0, Matches-Inline ts r h.1 rest)

-- A pattern in which no line terminator stands matches no text that holds one, whatever its
-- wildcards are.
pub like-Inline :
    (pattern actual : Text)
    → All InlineToken (wildcard_pattern pattern)
    → like pattern actual ≡ true
    → All Inline (code_points actual)
unfolding like
like-Inline pattern actual h e =
    Matches-Inline (wildcard_pattern pattern) (code_points actual) h ((matches_iff _ _).0 e)
