-- ===== src/Permissions/Evaluator/Permuted.antt =====
-- The order of the statements does not show in the answer, if each has a `sid`.
use ntauth.Common.{
  ℕ, suc, ◌≡◌, refl, ap, ap₂, sym, subst, ◌∙◌, ◌≢◌, inl, inr, Bool, none, List, [], ◌∷◌, arith, All,
  Bool-cases, if◌then◌else◌, Option-cases,
}
use mathlib.Core.List.{Perm, Permᴰ}
use mathlib.Core.Logic.{∥∥₁_elim}
use ntauth.Text.{Text}
use ntauth.Text.Sort.{insert, sort, insert_comm, sort-cons}
use ntauth.Permissions.Evaluator.{
  PolicyStatement, PolicyDecision, Query, identifier, evaluate_policy, decide,
}
use ntauth.Permissions.Evaluator.Outcome.{
  selected, grants, denies, both_iff, evaluate-eq, both_concrete, evaluate_malformed,
}

abbrev pub IsNamed : PolicyStatement → Type 0
IsNamed statement = statement.sid ≢ none

identifier_shift : (s : PolicyStatement) (n m : ℕ) → IsNamed s → identifier s n ≡ identifier s m
identifier_shift s n m h = elim (Option-cases (s.sid)) [ inl e ↦ absurd (h e) | inr (x, e) ↦ rw e ]

module _ (test : PolicyStatement → Bool) where
  abbrev add : PolicyStatement → ℕ → List Text → List Text
  add s n l = if test s then insert (identifier s n) l else l

  sort-selected :
      (s : PolicyStatement) (n : ℕ) (rest : List PolicyStatement)
      → sort (selected test n (s ∷ rest)) ≡ add s n (sort (selected test (suc n) rest))
  sort-selected s n rest = elim (Bool-cases (test s)) [
    | inl e ↦ rw e (sort-cons _ _)
    | inr e ↦ rw e
  ]

  add_shift : (s : PolicyStatement) (n m : ℕ) (l : List Text) → IsNamed s → add s n l ≡ add s m l
  add_shift s n m l h = ap (λ x. if test s then insert x l else l) (identifier_shift s n m h)

  add_comm :
      (s t : PolicyStatement) (n m : ℕ) (l : List Text) → add s n (add t m l) ≡ add t m (add s n l)
  add_comm s t n m l = ground (arith, insert_comm (identifier s n) (identifier t m) l)

  sort_shift :
      (n m : ℕ) (l : List PolicyStatement)
      → All IsNamed l
      → sort (selected test n l) ≡ sort (selected test m l)
  sort_shift n m [] h = refl
  sort_shift n m (s ∷ l) h =
      sort-selected s n l
      ∙ add_shift s n m _ h.0
      ∙ ap (add s m) (sort_shift (suc n) (suc m) l h.1)
      ∙ sym (sort-selected s m l)

  sort-selected_two :
      (s t : PolicyStatement) (n : ℕ) (l : List PolicyStatement)
      → sort (selected test n (s ∷ t ∷ l))
        ≡ add s n (add t (suc n) (sort (selected test (suc (suc n)) l)))
  sort-selected_two s t n l = sort-selected s n (t ∷ l) ∙ ap (add s n) (sort-selected t (suc n) l)

  sort_swap :
      (a b : PolicyStatement) (n : ℕ) (l : List PolicyStatement)
      → IsNamed a
      → IsNamed b
      → sort (selected test n (a ∷ b ∷ l)) ≡ sort (selected test n (b ∷ a ∷ l))
  sort_swap a b n l ha hb =
      sort-selected_two a b n l
      ∙ add_comm a b n (suc n) _
      ∙ ap (add b (suc n)) (add_shift a n (suc n) _ ha)
      ∙ add_shift b (suc n) n _ hb
      ∙ sym (sort-selected_two b a n l)

  sort_perm :
      {l r : List PolicyStatement}
      → Permᴰ l r
      → All IsNamed l
      → (n : ℕ) → All IsNamed r × (sort (selected test n l) ≡ sort (selected test n r))
  sort_perm Permᴰ.nil h n = (tt, refl)
  sort_perm (Permᴰ.cons e p) h n =
      let (named, same) = sort_perm p h.1 (suc n) in
      (
        (subst IsNamed e h.0, named),
        sort-selected _ n _ ∙ ap₂ (λ s l. add s n l) e same ∙ sym (sort-selected _ n _),
      )
  sort_perm (Permᴰ.swap {a} {b} {l} e f) h n = (
    (subst IsNamed f h.1.0, (subst IsNamed e h.0, h.1.1)),
    sort_swap a b n l h.0 h.1.0 ∙ ap₂ (λ s t. sort (selected test n (s ∷ t ∷ l))) f e,
  )
  sort_perm (Permᴰ.trans p q) h n =
      let (named, same) = sort_perm p h n in
      let (named', same') = sort_perm q named n in (named', same ∙ same')

PolicyDecision-set : IsSet PolicyDecision
PolicyDecision-set = hlevel

permuted :
    (query : Query) (l r : List PolicyStatement)
    → All IsNamed l
    → Permᴰ l r
    → evaluate_policy query l ≡ evaluate_policy query r
permuted query l r h p = elim (Bool-cases (both_concrete query)) [
  | inr e ↦ evaluate_malformed query l e ∙ sym (evaluate_malformed query r e)
  | inl e ↦
      let (ca, cr) = (both_iff query).0 e in
      evaluate-eq query l ca cr
      ∙ ap₂ decide (sort_perm (grants query) p h 0).1 (sort_perm (denies query) p h 0).1
      ∙ sym (evaluate-eq query r ca cr)
]

-- Statements that all have a `sid` give the same answer in every order: the same decision, the same
-- reason and the same two lists.
pub evaluate_policy-perm :
    (query : Query) (l r : List PolicyStatement)
    → All IsNamed l
    → Perm l r
    → evaluate_policy query l ≡ evaluate_policy query r
evaluate_policy-perm query l r h p = ∥∥₁_elim p (PolicyDecision-set _ _) (permuted query l r h)
