-- ===== src/Text/Laws.antt =====
-- Comparison, prefixes and suffixes of texts.
use ntauth.Common.{
  ℕ, zero, suc, ◌-◌, ◌≡◌, refl, ◌↔◌, ◌∙◌, true, List, [], ◌∷◌, ◌++◌, arith, ap, ap₂, sym, subst,
  leb, and_iff, ==_iff, length, length-append, Any, any_iff,
}
use ntauth.Text.{Text, ◌===◌, includes, starts_with, drop, ends_with, drop_last}

pub ===_iff : (s t : Text) → ((s === t) ≡ true) ↔ (s ≡ t)
unfolding ◌===◌
===_iff [] [] = ground arith
===_iff [] (b ∷ t) = ground arith
===_iff (a ∷ s) [] = ground arith
===_iff (a ∷ s) (b ∷ t) = ground (arith, ===_iff s t)

pub ===_refl : (s : Text) → (s === s) ≡ true
===_refl s = (===_iff s s).1 refl

pub includes_iff : (xs : List Text) (s : Text) → (includes xs s ≡ true) ↔ Any (λ x. x ≡ s) xs
includes_iff xs s = any_iff (λ x. x === s) (λ x. x ≡ s) (λ x. ===_iff x s) xs

pub cons-eq_head : {a b : ℕ} {s t : Text} → a ∷ s ≡ b ∷ t → a ≡ b
cons-eq_head e = cc

pub cons-eq_tail : {a b : ℕ} {s t : Text} → a ∷ s ≡ b ∷ t → s ≡ t
cons-eq_tail e = cc

-- `s.startsWith(p)` tells exactly when `s` is `p` followed by something.
pub starts_with_iff : (s p : Text) → (starts_with s p ≡ true) ↔ ((r : Text) × (s ≡ p ++ r))
unfolding starts_with
starts_with_iff s [] = (λ h. (s, refl), λ h. refl)
starts_with_iff [] (b ∷ p) = (λ h. cc, λ (r, e). cc)
starts_with_iff (a ∷ s) (b ∷ p) = (
  λ h.
      let (same, more) = (and_iff _ _).0 h in
      let (r, e) = (starts_with_iff s p).0 more in (r, ap₂ ◌∷◌ ((==_iff a b).0 same) e),
  λ (r, e).
      (and_iff _ _).1
        ((==_iff a b).1 (cons-eq_head e), (starts_with_iff s p).1 (r, cons-eq_tail e)),
)

pub drop-append : (p s : Text) → drop (length p) (p ++ s) ≡ s
drop-append [] s = refl
drop-append (c ∷ p) s = drop-append p s

drop-suffix : (n : ℕ) (s : Text) → (p : Text) × (s ≡ p ++ drop n s)
drop-suffix zero s = ([], refl)
drop-suffix (suc n) [] = ([], refl)
drop-suffix (suc n) (c ∷ s) = let (p, e) = drop-suffix n s in (c ∷ p, ap (◌∷◌ c) e)

ends_with-append : (p t : Text) → ends_with (p ++ t) t ≡ true
unfolding ends_with
ends_with-append p t =
    let size : length (p ++ t) - length t ≡ length p = omega (arith, length-append p t) in
    let fits : leb (length t) (length (p ++ t)) ≡ true = ground (arith, length-append p t) in
    rw fits (rw size (rw (drop-append p t) (===_refl t)))

-- `s.endsWith(t)` tells exactly when `s` is something followed by `t`.
pub ends_with_iff : (s t : Text) → (ends_with s t ≡ true) ↔ ((p : Text) × (s ≡ p ++ t))
unfolding ends_with
ends_with_iff s t = (
  λ h.
      let (_, same) = (and_iff _ _).0 h in
      let (p, e) = drop-suffix (length s - length t) s in
      (p, e ∙ ap (λ x. p ++ x) ((===_iff _ _).0 same)),
  λ (p, e). subst (λ x. ends_with x t ≡ true) (sym e) (ends_with-append p t),
)

pub drop_last-append : (p : Text) (c : ℕ) → drop_last (p ++ c ∷ []) ≡ p
unfolding drop_last
drop_last-append [] c = refl
drop_last-append (a ∷ []) c = refl
drop_last-append (a ∷ b ∷ p) c = ap (◌∷◌ a) (drop_last-append (b ∷ p) c)
