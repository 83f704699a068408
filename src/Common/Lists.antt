-- ===== src/Common/Lists.antt =====
-- Lists measured by native numbers, tests over lists, and predicates on their elements.
use Prim.Native.Nat.{ℕ, suc, ◌+◌}
use mathlib.Core.Path.{◌≡◌}
use mathlib.Core.Logic.{◌↔◌, ◌⊎◌}
use mathlib.Core.Bool.{Bool, true, false, ◌&&◌, ◌||◌}
use mathlib.Core.List.{List, [], ◌∷◌, ◌++◌}
use native.Mathlib.Omega.{arith}
use ntauth.Common.Tests.{if◌then◌else◌}

module _ {ℓ} {A : Type ℓ} where
  abbrev pub length : List A → ℕ
  length [] = 0
  length (x ∷ xs) = suc (length xs)

  -- `Array.prototype.some`
  abbrev pub any : (A → Bool) → List A → Bool
  any p [] = false
  any p (x ∷ xs) = p x || any p xs

  -- `Array.prototype.every`
  abbrev pub all : (A → Bool) → List A → Bool
  all p [] = true
  all p (x ∷ xs) = p x && all p xs

  -- `Array.prototype.filter`
  abbrev pub filter : (A → Bool) → List A → List A
  filter p [] = []
  filter p (x ∷ xs) = let rest = filter p xs in if p x then x ∷ rest else rest

  pub length-append : (xs ys : List A) → length (xs ++ ys) ≡ length xs + length ys
  length-append [] ys = omega arith
  length-append (x ∷ xs) ys = omega (arith, length-append xs ys)

module _ {ℓ κ} {A : Type ℓ} (P : A → Type κ) where
  abbrev pub All : List A → Type κ
  All [] = Unit
  All (x ∷ xs) = P x × All xs

  pub All-append : (xs ys : List A) → All xs → All ys → All (xs ++ ys)
  All-append [] ys h k = k
  All-append (x ∷ xs) ys (p, h) k = (p, All-append xs ys h k)

module _ {ℓ} {A : Type ℓ} (P : A → Type 0) where
  abbrev pub Any : List A → Type 0
  Any [] = ⊥
  Any (x ∷ xs) = P x ⊎ Any xs

-- The tests decide the predicates, where the test of an element decides its predicate.
module _ {ℓ} {A : Type ℓ} (p : A → Bool) (P : A → Type 0)
    (decides : (x : A) → (p x ≡ true) ↔ P x) where
  pub all_iff : (xs : List A) → (all p xs ≡ true) ↔ All P xs
  all_iff [] = ground arith
  all_iff (x ∷ xs) = ground (arith, decides x, all_iff xs)

  pub any_iff : (xs : List A) → (any p xs ≡ true) ↔ Any P xs
  any_iff [] = ground arith
  any_iff (x ∷ xs) = ground (arith, decides x, any_iff xs)

module _ {A : Type 0} where
  abbrev pub Among : A → List A → Type 0
  Among x xs = Any (λ y. y ≡ x) xs

  -- No element stands twice.
  abbrev pub Unrepeated : List A → Type 0
  Unrepeated [] = Unit
  Unrepeated (x ∷ xs) = (¬ Among x xs) × Unrepeated xs

  -- None of the elements stands in `seen`.
  abbrev pub AllNew : List A → List A → Type 0
  AllNew seen xs = All (λ x. ¬ Among x seen) xs

  -- Elements that are new to `x ∷ seen` are new to `seen`, and `x` is not among them.
  pub AllNew-cons :
      (x : A) (seen xs : List A) → AllNew (x ∷ seen) xs ↔ ((¬ Among x xs) × AllNew seen xs)
  AllNew-cons x seen [] = ground arith
  AllNew-cons x seen (y ∷ xs) = ground (arith, AllNew-cons x seen xs)

  pub AllNew-nil : (xs : List A) → AllNew [] xs
  AllNew-nil [] = tt
  AllNew-nil (x ∷ xs) = (λ h. h, AllNew-nil xs)

  pub filter_mem :
      (p : A → Bool) (x : A) (xs : List A) → Among x (filter p xs) ↔ (Among x xs × (p x ≡ true))
  filter_mem p x [] = ground arith
  filter_mem p x (y ∷ xs) = ground (arith, filter_mem p x xs)
