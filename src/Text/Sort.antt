-- ===== src/Text/Sort.antt =====
-- `Array.prototype.sort` on texts, without a comparator: ascending by code units. Equal texts are
-- identical, so every sort gives this result.
use ntauth.Common.{
  suc, length, ◌≡◌, refl, ap, ◌∙◌, ◌↔◌, ◌⊎◌, true, false, List, [], ◌∷◌, arith, if◌then◌else◌, Any,
}
use ntauth.Text.{Text, text_leb}

pub insert : Text → List Text → List Text
insert s [] = s ∷ []
insert s (t ∷ ts) = if text_leb s t then s ∷ t ∷ ts else t ∷ insert s ts

unfoldable pub sort : List Text → List Text
unfolding insert text_leb
sort [] = []
sort (s ∷ ss) = insert s (sort ss)

text_leb_total : (s t : Text) → text_leb s t ≡ false → text_leb t s ≡ true
unfolding text_leb
text_leb_total [] t h = cc
text_leb_total (a ∷ s) [] h = refl
text_leb_total (a ∷ s) (b ∷ t) h = ground (arith, text_leb_total s t)

text_leb_antisymm : (s t : Text) → text_leb s t ≡ true → text_leb t s ≡ true → s ≡ t
unfolding text_leb
text_leb_antisymm [] [] h k = refl
text_leb_antisymm [] (b ∷ t) h k = cc
text_leb_antisymm (a ∷ s) [] h k = cc
text_leb_antisymm (a ∷ s) (b ∷ t) h k = ground (arith, text_leb_antisymm s t)

text_leb_trans : (s t u : Text) → text_leb s t ≡ true → text_leb t u ≡ true → text_leb s u ≡ true
unfolding text_leb
text_leb_trans [] t u h k = refl
text_leb_trans (a ∷ s) [] u h k = cc
text_leb_trans (a ∷ s) (b ∷ t) [] h k = cc
text_leb_trans (a ∷ s) (b ∷ t) (c ∷ u) h k = ground (arith, text_leb_trans s t u)

-- The order in which two texts are inserted does not show.
pub insert_comm : (s t : Text) (l : List Text) → insert s (insert t l) ≡ insert t (insert s l)
unfolding insert
insert_comm s t [] = ground (arith, text_leb_total s t, text_leb_antisymm s t)
insert_comm s t (u ∷ l) = ground (
  arith,
  text_leb_total s t,
  text_leb_antisymm s t,
  text_leb_trans s t u,
  text_leb_trans t s u,
  insert_comm s t l,
)

pub sort-cons : (s : Text) (l : List Text) → sort (s ∷ l) ≡ insert s (sort l)
unfolding sort
sort-cons s l = refl

-- Each text is before the next one or equal to it.
abbrev pub IsSorted : List Text → Type 0
IsSorted [] = Unit
IsSorted (s ∷ []) = Unit
IsSorted (s ∷ t ∷ l) = (text_leb s t ≡ true) × IsSorted (t ∷ l)

insert-IsSorted : (s : Text) (l : List Text) → IsSorted l → IsSorted (insert s l)
unfolding insert
insert-IsSorted s [] h = tt
insert-IsSorted s (t ∷ []) h = ground (arith, text_leb_total s t)
insert-IsSorted s (t ∷ u ∷ l) h =
    ground (arith, text_leb_total s t, text_leb_total s u, insert-IsSorted s (u ∷ l))

pub sort-IsSorted : (l : List Text) → IsSorted (sort l)
unfolding sort
sort-IsSorted [] = tt
sort-IsSorted (s ∷ l) = insert-IsSorted s (sort l) (sort-IsSorted l)

insert_mem :
    (x s : Text) (l : List Text) → Any (λ y. y ≡ x) (insert s l) ↔ ((s ≡ x) ⊎ Any (λ y. y ≡ x) l)
unfolding insert
insert_mem x s [] = ground arith
insert_mem x s (t ∷ l) = ground (arith, insert_mem x s l)

-- Sorting keeps the elements.
pub sort_mem : (x : Text) (l : List Text) → Any (λ y. y ≡ x) (sort l) ↔ Any (λ y. y ≡ x) l
unfolding sort
sort_mem x [] = ((λ h. h), (λ h. h))
sort_mem x (s ∷ l) = ground (arith, insert_mem x s (sort l), sort_mem x l)

length-insert : (s : Text) (l : List Text) → length (insert s l) ≡ suc (length l)
unfolding insert
length-insert s [] = refl
length-insert s (t ∷ l) = ground (arith, length-insert s l)

pub length-sort : (l : List Text) → length (sort l) ≡ length l
unfolding sort
length-sort [] = refl
length-sort (s ∷ l) = length-insert s (sort l) ∙ ap suc (length-sort l)
