-- ===== src/Text/Split.antt =====
-- Splitting at a separator, and joining.
use ntauth.Common.{
  ℕ, ◌≡◌, refl, ◌≢◌, List, [], ◌∷◌, ◌++◌, ◌∙◌, arith, ap, ap₂, sym, All, Bool-cases, ◌==◌, ==_iff,
  inl, inr,
}
use ntauth.Text.{Text, push_head, split}

unfoldable pub join : ℕ → Text → List Text → Text
join sep part [] = part
join sep part (next ∷ parts) = part ++ (sep ∷ join sep next parts)

abbrev pub Lacks : ℕ → Text → Type 0
Lacks sep s = All (λ c. c ≢ sep) s

abbrev AllLack : ℕ → List Text → Type 0
AllLack sep parts = All (Lacks sep) parts

-- The first part and the others, as `const [first, ...others] = s.split(sep)` takes them apart.
abbrev pub head_of : List Text → Text
head_of [] = []
head_of (part ∷ parts) = part

abbrev pub tail_of : List Text → List Text
tail_of [] = []
tail_of (part ∷ parts) = parts

abbrev pub join_all : ℕ → List Text → Text
join_all sep parts = join sep (head_of parts) (tail_of parts)

split-cons : (sep : ℕ) (s : Text) → split sep s ≡ head_of (split sep s) ∷ tail_of (split sep s)
unfolding split
split-cons sep [] = refl
split-cons sep (c ∷ s) = elim (Bool-cases (c == sep)) [
  | inl e ↦ rw e
  | inr e ↦ rw (e, split-cons sep s)
]

join-push_head :
    (sep c : ℕ) (part : Text) (parts : List Text)
    → join sep (c ∷ part) parts ≡ c ∷ join sep part parts
unfolding join
join-push_head sep c part [] = refl
join-push_head sep c part (next ∷ parts) = refl

join_all-push_head :
    (sep c : ℕ) (parts : List Text)
    → parts ≡ head_of parts ∷ tail_of parts
    → join_all sep (push_head c parts) ≡ c ∷ join_all sep parts
join_all-push_head sep c [] e = cc
join_all-push_head sep c (part ∷ parts) e = join-push_head sep c part parts

-- Joining what `split` returns gives the text back.
pub join_all-split : (sep : ℕ) (s : Text) → join_all sep (split sep s) ≡ s
unfolding split join
join_all-split sep [] = refl
join_all-split sep (c ∷ s) = elim (Bool-cases (c == sep)) [
  | inl e ↦ rw e (rw (split-cons sep s) (ap₂ ◌∷◌ (sym ((==_iff c sep).0 e)) (join_all-split sep s)))
  | inr e ↦ rw e (
      join_all-push_head sep c (split sep s) (split-cons sep s) ∙ ap (◌∷◌ c) (join_all-split sep s))
]

AllLack-push_head :
    (sep c : ℕ) (parts : List Text) → c ≢ sep → AllLack sep parts → AllLack sep (push_head c parts)
AllLack-push_head sep c [] h hs = ((h, tt), tt)
AllLack-push_head sep c (part ∷ parts) h hs = ((h, hs.0), hs.1)

pub split-AllLack : (sep : ℕ) (s : Text) → AllLack sep (split sep s)
unfolding split
split-AllLack sep [] = (tt, tt)
split-AllLack sep (c ∷ s) = elim (Bool-cases (c == sep)) [
  | inl e ↦ rw e (tt, split-AllLack sep s)
  | inr e ↦ rw e (AllLack-push_head sep c (split sep s) (ground arith) (split-AllLack sep s))
]

split_step : (sep c : ℕ) (s : Text) → c ≢ sep → split sep (c ∷ s) ≡ push_head c (split sep s)
unfolding split
split_step sep c s h = ground arith

split_here : (sep : ℕ) (s : Text) → split sep (sep ∷ s) ≡ [] ∷ split sep s
unfolding split
split_here sep s = ground arith

-- Splitting what `join` returns gives the parts back, if no part holds the separator.
pub split-join :
    (sep : ℕ) (part : Text) (parts : List Text)
    → Lacks sep part
    → AllLack sep parts
    → split sep (join sep part parts) ≡ part ∷ parts
unfolding split join
split-join sep [] [] h hs = refl
split-join sep [] (next ∷ parts) h hs =
    split_here sep _ ∙ ap (◌∷◌ []) (split-join sep next parts hs.0 hs.1)
split-join sep (c ∷ part) [] h hs =
    split_step sep c part h.0 ∙ ap (push_head c) (split-join sep part [] h.1 hs)
split-join sep (c ∷ part) (next ∷ parts) h hs =
    split_step sep c _ h.0 ∙ ap (push_head c) (split-join sep part (next ∷ parts) h.1 hs)
