-- ===== src/Database/Rows.antt =====
-- Selecting, updating and deleting the rows of a table. A row is selected by a test, which stands
-- for a `where` clause; a primary key makes the first such row the only one.
use ntauth.Common.{
  ◌≡◌, refl, sym, ap, ◌∙◌, subst, Among, ◌++◌, ◌↔◌, inl, inr, Bool, true, false, not, ◌&&◌, ◌||◌,
  Option, none, some, List, [], ◌∷◌, arith, if◌then◌else◌, any, filter, Bool-cases, length, ℕ, ◌+◌,
  ◌≤◌,
}
use ntauth.Text.{Text, ◌===◌}
use ntauth.Text.Laws.{===_iff}

abbrev pub one_if : Bool → ℕ
one_if b = if b then 1 else 0

module _ {ℓ} {A : Type ℓ} where
  -- `select … where … limit 1`
  abbrev pub find : (A → Bool) → List A → Option A
  find p [] = none
  find p (x ∷ xs) = let rest = find p xs in if p x then some x else rest

  -- `update … set … where …`
  abbrev pub update : (A → Bool) → (A → A) → List A → List A
  update p f [] = []
  update p f (x ∷ xs) = (if p x then f x else x) ∷ update p f xs

  -- `delete … where …`
  abbrev pub delete : (A → Bool) → List A → List A
  delete p xs = filter (λ x. not (p x)) xs

  pub find-none_iff : (p : A → Bool) (xs : List A) → (find p xs ≡ none) ↔ (any p xs ≡ false)
  find-none_iff p [] = ground arith
  find-none_iff p (x ∷ xs) = ground (arith, find-none_iff p xs)

  pub any-delete : (p : A → Bool) (xs : List A) → any p (delete p xs) ≡ false
  any-delete p [] = refl
  any-delete p (x ∷ xs) = ground (arith, any-delete p xs)

  -- The rows that a test keeps are kept, if no row is both kept and deleted.
  pub filter-delete :
      (p q : A → Bool) (apart : (x : A) → q x ≡ true → p x ≡ false) (xs : List A)
      → filter q (delete p xs) ≡ filter q xs
  filter-delete p q apart [] = refl
  filter-delete p q apart (x ∷ xs) =
      let rest = filter-delete p q apart xs in
      elim (Bool-cases (q x)) [
        | inl e ↦ rw (apart x e) (rw e (rw rest refl))
        | inr e ↦ elim (Bool-cases (p x)) [ inl d ↦ rw d (rw e rest) | inr d ↦ rw d (rw e rest) ]
      ]

  pub filter-update :
      (p q : A → Bool) (f : A → A) (apart : (x : A) → p x ≡ true → q x ≡ false)
      (moved : (x : A) → p x ≡ true → q (f x) ≡ false) (xs : List A)
      → filter q (update p f xs) ≡ filter q xs
  filter-update p q f apart moved [] = refl
  filter-update p q f apart moved (x ∷ xs) =
      let rest = filter-update p q f apart moved xs in
      elim (Bool-cases (p x)) [
        | inl e ↦ rw e (rw (apart x e) (rw (moved x e) rest))
        | inr e ↦ rw e (elim (Bool-cases (q x)) [ inl d ↦ rw d (rw rest refl) | inr d ↦ rw d rest ])
      ]

  pub find-true : (p : A → Bool) (xs : List A) (x : A) → find p xs ≡ some x → p x ≡ true
  find-true p [] x h = ground (arith, h)
  find-true p (y ∷ xs) x h = ground (arith, find-true p xs x)

  -- No updated row passes the test if no row did, and no row comes to pass it.
  pub any-update :
      (p q : A → Bool) (f : A → A) (moved : (x : A) → p x ≡ true → q (f x) ≡ false) (xs : List A)
      → any q xs ≡ false
      → any q (update p f xs) ≡ false
  any-update p q f moved [] h = refl
  any-update p q f moved (x ∷ xs) h = ground (arith, any-update p q f moved xs, moved x)

  pub update-none :
      (p : A → Bool) (f : A → A) (xs : List A) → length (filter p xs) ≡ 0 → update p f xs ≡ xs
  update-none p f [] h = refl
  update-none p f (x ∷ xs) h = ground (arith, update-none p f xs)

  -- the number of rows that pass a test
  abbrev pub count : (A → Bool) → List A → ℕ
  count p xs = length (filter p xs)

  -- Where a row stands alone, its update changes the count by what it changes for that row.
  pub count-update :
      (p q : A → Bool) (f : A → A) (xs : List A) (x : A)
      → count p xs ≤ 1
      → find p xs ≡ some x
      → count q (update p f xs) + one_if (q x) ≡ count q xs + one_if (q (f x))
  count-update p q f [] x single h = ground (arith, h)
  count-update p q f (y ∷ xs) x single h = elim (Bool-cases (p y)) [
    | inl e ↦
        let same : y ≡ x = ground (arith, h, e) in
        let rest : update p f xs ≡ xs = update-none p f xs (ground (arith, single, e)) in
        rw e (rw rest (rw (sym same) (ground arith)))
    | inr e ↦
        let rest = count-update p q f xs x (ground (arith, single, e)) (ground (arith, h, e)) in
        rw e (ground (arith, rest))
  ]

  pub count-append : (p : A → Bool) (xs ys : List A) → count p (xs ++ ys) ≡ count p xs + count p ys
  count-append p [] ys = omega arith
  count-append p (x ∷ xs) ys = ground (arith, count-append p xs ys)

  pub any-count : (p : A → Bool) (xs : List A) → any p xs ≡ false → count p xs ≡ 0
  any-count p [] h = refl
  any-count p (x ∷ xs) h = ground (arith, any-count p xs)

  -- An update that keeps the key leaves the row of the key in place.
  pub find-update :
      (p : A → Bool) (f : A → A) (kept : (x : A) → p x ≡ true → p (f x) ≡ true) (xs : List A)
      (x : A)
      → find p xs ≡ some x
      → find p (update p f xs) ≡ some (f x)
  find-update p f kept [] x h = ground (arith, h)
  find-update p f kept (y ∷ xs) x h = elim (Bool-cases (p y)) [
    | inl e ↦ let same : y ≡ x = ground (arith, h, e) in rw e (rw (kept y e) (rw same refl))
    | inr e ↦ rw e (rw e (find-update p f kept xs x (ground (arith, h, e))))
  ]

  pub update-others :
      (p : A → Bool) (f : A → A) (kept : (x : A) → p x ≡ true → p (f x) ≡ true) (xs : List A)
      → delete p (update p f xs) ≡ delete p xs
  update-others p f kept [] = refl
  update-others p f kept (x ∷ xs) =
      let rest = update-others p f kept xs in
      elim (Bool-cases (p x)) [
        | inl e ↦ rw e (rw (kept x e) rest)
        | inr e ↦ rw e (rw e (rw rest refl))
      ]

  pub delete-others : (p : A → Bool) (xs : List A) → delete p (delete p xs) ≡ delete p xs
  delete-others p [] = refl
  delete-others p (x ∷ xs) =
      let rest = delete-others p xs in
      elim (Bool-cases (p x)) [ inl e ↦ rw e rest | inr e ↦ rw e (rw e (rw rest refl)) ]

  pub count-update_kept :
      (p q : A → Bool) (f : A → A) (kept : (x : A) → q (f x) ≡ q x) (xs : List A)
      → count q (update p f xs) ≡ count q xs
  count-update_kept p q f kept [] = refl
  count-update_kept p q f kept (x ∷ xs) =
      let rest = count-update_kept p q f kept xs in
      elim (Bool-cases (p x)) [
        | inl e ↦ rw e (rw (kept x) (ground (arith, rest)))
        | inr e ↦ rw e (ground (arith, rest))
      ]

  pub count-delete : (p q : A → Bool) (xs : List A) → count q (delete p xs) ≤ count q xs
  count-delete p q [] = omega arith
  count-delete p q (x ∷ xs) = ground (arith, count-delete p q xs)

  pub count-delete_all :
      (p q : A → Bool) (xs : List A)
      → any (λ x. q x && not (p x)) xs ≡ false
      → count q (delete p xs) ≡ 0
  count-delete_all p q [] h = refl
  count-delete_all p q (x ∷ xs) h = ground (arith, count-delete_all p q xs)

  pub any-or : (p q : A → Bool) (xs : List A) → any (λ x. p x || q x) xs ≡ false → any q xs ≡ false
  any-or p q [] h = refl
  any-or p q (x ∷ xs) h = ground (arith, any-or p q xs)

  pub any-or_left :
      (p q : A → Bool) (xs : List A) → any (λ x. p x || q x) xs ≡ false → any p xs ≡ false
  any-or_left p q [] h = refl
  any-or_left p q (x ∷ xs) h = ground (arith, any-or_left p q xs)

  -- Looking a row up after an update finds what the update makes of the row found before.
  abbrev pub updated : (A → Bool) → (A → A) → Option A → Option A
  updated p f none = none
  updated p f (some x) = some (if p x then f x else x)

  pub find-update_any :
      (k p : A → Bool) (f : A → A) (kept : (x : A) → k (f x) ≡ k x) (xs : List A)
      → find k (update p f xs) ≡ updated p f (find k xs)
  find-update_any k p f kept [] = refl
  find-update_any k p f kept (x ∷ xs) =
      let rest = find-update_any k p f kept xs in
      elim (Bool-cases (k x)) [
        | inl e ↦ elim (Bool-cases (p x)) [
          | inl d ↦ rw d (rw (kept x) (rw e (rw d refl)))
          | inr d ↦ rw d (rw e (rw d refl))
        ]
        | inr e ↦ elim (Bool-cases (p x)) [
          | inl d ↦ rw d (rw (kept x) (rw e rest))
          | inr d ↦ rw d (rw e rest)
        ]
      ]

  pub find-append :
      (k : A → Bool) (xs ys : List A) (x : A) → find k xs ≡ some x → find k (xs ++ ys) ≡ some x
  find-append k [] ys x h = ground (arith, h)
  find-append k (y ∷ xs) ys x h = elim (Bool-cases (k y)) [
    | inl e ↦ rw e (rw e at h)
    | inr e ↦ rw e (find-append k xs ys x (rw e at h))
  ]

-- A row whose key no other has keeps the keys distinct.
pub append-keyed :
    {A : Type 0} (k : A → Text) (xs : List A) (x : A)
    → any (λ y. k y === k x) xs ≡ false
    → ((key : Text) → count (λ y. k y === key) xs ≤ 1)
    → (key : Text) → count (λ y. k y === key) (xs ++ x ∷ []) ≤ 1
append-keyed k xs x fresh keyed key =
    let size = count-append (λ y. k y === key) xs (x ∷ []) in
    elim (Bool-cases (k x === key)) [
      | inl e ↦
          let empty : count (λ y. k y === key) xs ≡ 0 =
            subst (λ i. count (λ y. k y === i) xs ≡ 0) ((===_iff (k x) key).0 e)
              (any-count (λ y. k y === k x) xs fresh) in
          ground (arith, size, e, empty)
      | inr e ↦ ground (arith, size, e, keyed key)
    ]

module _ {A : Type 0} where
  pub find-Among : (p : A → Bool) (xs : List A) (x : A) → find p xs ≡ some x → Among x xs
  find-Among p [] x h = ground (arith, h)
  find-Among p (y ∷ xs) x h = elim (Bool-cases (p y)) [
    | inl e ↦ inl (ground (arith, rw e at h))
    | inr e ↦ inr (find-Among p xs x (rw e at h))
  ]

  pub append-Among : (xs : List A) (x : A) → Among x (xs ++ x ∷ [])
  append-Among [] x = inl refl
  append-Among (y ∷ xs) x = inr (append-Among xs x)

  count-member : (k : A → Bool) (xs : List A) (x : A) → Among x xs → k x ≡ true → 1 ≤ count k xs
  count-member k [] x h e = elim h [ ]
  count-member k (y ∷ xs) x (inl same) e = ground (arith, ap k same ∙ e)
  count-member k (y ∷ xs) x (inr h) e = ground (arith, count-member k xs x h e)

  -- Where a key is unique, the row with the key of a row is that row.
  pub find-keyed :
      (k : A → Bool) (xs : List A) (x : A)
      → count k xs ≤ 1
      → Among x xs
      → k x ≡ true
      → find k xs ≡ some x
  find-keyed k [] x single h e = elim h [ ]
  find-keyed k (y ∷ xs) x single (inl same) e = rw (ap k same ∙ e) (ap some same)
  find-keyed k (y ∷ xs) x single (inr h) e = elim (Bool-cases (k y)) [
    | inl d ↦ absurd (ground (arith, d, single, count-member k xs x h e))
    | inr d ↦ rw d (find-keyed k xs x (ground (arith, d, single)) h e)
  ]
