-- ===== src/Policies/Merge.antt =====
-- packages/db/src/effective-policies.ts: what `mergeEffectivePolicies` keeps of the rows.
use ntauth.Common.{
  subst, ◌≡◌, sym, ◌∙◌, ◌↔◌, ◌⊎◌, inl, inr, List, [], ◌∷◌, map, arith, Among, Unrepeated,
  Bool-cases,
}
use ntauth.Text.{Text, ◌===◌}
use ntauth.Text.Laws.{===_iff}
use ntauth.Policies.{
  EffectivePolicyRow, Order, set_row, by_policy, precedes, insert_row, to_sorted,
  merge_effective_policies,
}

-- the identifiers of the policies
abbrev pub policy_ids : List EffectivePolicyRow → List Text
policy_ids rows = map (λ row. row.policy_id) rows

module _ (locale_compare : Text → Text → Order) where
  set_row-ids :
      (row : EffectivePolicyRow) (xs : List EffectivePolicyRow) (id : Text)
      → Among id (policy_ids (set_row locale_compare row xs))
        ↔ ((row.policy_id ≡ id) ⊎ Among id (policy_ids xs))
  set_row-ids row [] id = ground arith
  set_row-ids row (x ∷ xs) id = elim (Bool-cases (x.policy_id === row.policy_id)) [
    | inl e ↦
        let equal = (===_iff x.policy_id row.policy_id).0 e in
        rw e (
          λ h. elim h [ inl a ↦ inl a | inr b ↦ inr (inr b) ],
          λ h. elim h [
            | inl a ↦ inl a
            | inr b ↦ elim b [ inl c ↦ inl (sym equal ∙ c) | inr d ↦ inr d ]
          ],
        )
    | inr e ↦ rw e (ground (arith, set_row-ids row xs id))
  ]

  set_row-Unrepeated :
      (row : EffectivePolicyRow) (xs : List EffectivePolicyRow)
      → Unrepeated (policy_ids xs)
      → Unrepeated (policy_ids (set_row locale_compare row xs))
  set_row-Unrepeated row [] h = (λ k. k, tt)
  set_row-Unrepeated row (x ∷ xs) (new, rest) = elim (Bool-cases (x.policy_id === row.policy_id)) [
    | inl e ↦
        let equal = (===_iff x.policy_id row.policy_id).0 e in
        rw e (subst (λ i. ¬ Among i (policy_ids xs)) equal new, rest)
    | inr e ↦
        let ids = set_row-ids row xs x.policy_id in
        let kept = set_row-Unrepeated row xs rest in
        let other : ¬ (row.policy_id ≡ x.policy_id) =
          λ k. absurd (ground (arith, e, (===_iff x.policy_id row.policy_id).1 (sym k))) in
        rw e (λ k. elim (ids.0 k) [ inl a ↦ other a | inr b ↦ new b ], kept)
  ]

  by_policy-ids :
      (seen rows : List EffectivePolicyRow) (id : Text)
      → Among id (policy_ids (by_policy locale_compare seen rows))
        ↔ (Among id (policy_ids seen) ⊎ Among id (policy_ids rows))
  by_policy-ids seen [] id = ground arith
  by_policy-ids seen (row ∷ rows) id =
      ground
        (arith, by_policy-ids (set_row locale_compare row seen) rows id, set_row-ids row seen id)

  by_policy-Unrepeated :
      (seen rows : List EffectivePolicyRow)
      → Unrepeated (policy_ids seen)
      → Unrepeated (policy_ids (by_policy locale_compare seen rows))
  by_policy-Unrepeated seen [] h = h
  by_policy-Unrepeated seen (row ∷ rows) h =
      by_policy-Unrepeated (set_row locale_compare row seen) rows (set_row-Unrepeated row seen h)

  insert_row-ids :
      (row : EffectivePolicyRow) (xs : List EffectivePolicyRow) (id : Text)
      → Among id (policy_ids (insert_row locale_compare row xs))
        ↔ ((row.policy_id ≡ id) ⊎ Among id (policy_ids xs))
  insert_row-ids row [] id = ground arith
  insert_row-ids row (x ∷ xs) id = elim (Bool-cases (precedes locale_compare row x)) [
    | inl e ↦ rw e (ground arith)
    | inr e ↦ rw e (ground (arith, insert_row-ids row xs id))
  ]

  insert_row-Unrepeated :
      (row : EffectivePolicyRow) (xs : List EffectivePolicyRow)
      → (¬ Among row.policy_id (policy_ids xs))
      → Unrepeated (policy_ids xs)
      → Unrepeated (policy_ids (insert_row locale_compare row xs))
  insert_row-Unrepeated row [] new h = (λ k. k, tt)
  insert_row-Unrepeated row (x ∷ xs) new (first, rest) =
      elim (Bool-cases (precedes locale_compare row x)) [
        | inl e ↦ rw e (new, (first, rest))
        | inr e ↦
            let ids = insert_row-ids row xs x.policy_id in
            rw e (
              λ k. elim (ids.0 k) [ inl a ↦ new (inl (sym a)) | inr b ↦ first b ],
              insert_row-Unrepeated row xs (λ k. new (inr k)) rest,
            )
      ]

  to_sorted-ids :
      (rows : List EffectivePolicyRow) (id : Text)
      → Among id (policy_ids (to_sorted locale_compare rows)) ↔ Among id (policy_ids rows)
  to_sorted-ids [] id = ground arith
  to_sorted-ids (row ∷ rows) id =
      ground (arith, to_sorted-ids rows id, insert_row-ids row (to_sorted locale_compare rows) id)

  to_sorted-Unrepeated :
      (rows : List EffectivePolicyRow)
      → Unrepeated (policy_ids rows)
      → Unrepeated (policy_ids (to_sorted locale_compare rows))
  to_sorted-Unrepeated [] h = tt
  to_sorted-Unrepeated (row ∷ rows) (new, rest) =
      let ids = to_sorted-ids rows row.policy_id in
      insert_row-Unrepeated row (to_sorted locale_compare rows) (λ k. new (ids.0 k))
        (to_sorted-Unrepeated rows rest)

  -- The merged policies are those of the rows, each of them once, however often it was attached.
  pub merge_effective_policies-ids :
      (rows : List EffectivePolicyRow) (id : Text)
      → (Among id (policy_ids (merge_effective_policies locale_compare rows).0)
          ↔ Among id (policy_ids rows))
        × Unrepeated (policy_ids (merge_effective_policies locale_compare rows).0)
  unfolding merge_effective_policies
  merge_effective_policies-ids rows id =
      let merged = by_policy locale_compare [] rows in
      let sorted = to_sorted-ids merged id in
      let kept = by_policy-ids [] rows id in
      (ground (arith, sorted, kept), to_sorted-Unrepeated merged (by_policy-Unrepeated [] rows tt))
