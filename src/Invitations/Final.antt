-- ===== src/Invitations/Final.antt =====
-- packages/db/src/invitations.ts: an invitation is settled once.
use ntauth.Common.{
  ◌≤◌, ◌≡◌, ◌≢◌, refl, sym, ◌∙◌, ap, subst, inl, inr, Bool, Option, some, List, [], ◌∷◌, arith,
  Bool-cases,
}
use ntauth.Text.{Text, ◌===◌}
use ntauth.Text.Laws.{===_iff, ===_refl}
use ntauth.Database.Rows.{
  append-keyed, find, update, count, count-update_kept, find-true, find-Among, find-keyed,
  find-update_any, find-append,
}
use ntauth.Invitations.{
  Invitation, pending, InvitationTables, has_invitation_id, has_token_hash, with_cancellation,
  with_acceptance,
}
use ntauth.Invitations.Lifecycle.{
  Turns, untouched, invited, withdrawn, taken, perform_invitation-Turns, ReachesInvitations, start,
  later,
}

-- The primary key: at most one row has an identifier.
abbrev pub AreDistinct : List Invitation → Type 0
AreDistinct invitations = (id : Text) → count (has_invitation_id id) invitations ≤ 1

change-AreDistinct :
    (invitations : List Invitation) (p : Invitation → Bool) (f : Invitation → Invitation)
    (kept : (i : Invitation) → (f i).id ≡ i.id)
    → AreDistinct invitations
    → AreDistinct (update p f invitations)
change-AreDistinct invitations p f kept distinct id =
    subst (λ n. n ≤ 1)
      (sym (
        count-update_kept p (has_invitation_id id) f (λ i. ap (λ j. j === id) (kept i))
          invitations))
      (distinct id)

Turns-AreDistinct :
    {before after : List Invitation} → Turns before after → AreDistinct before → AreDistinct after
Turns-AreDistinct untouched distinct id = distinct id
Turns-AreDistinct {before = before} (invited i fresh free at) distinct id =
    append-keyed (λ j. j.id) before i fresh distinct id
Turns-AreDistinct {before = before} (withdrawn invitation_id now i found at) distinct id =
    change-AreDistinct before (has_invitation_id invitation_id) (with_cancellation now) (λ i. refl)
      distinct id
Turns-AreDistinct {before = before} (taken token_hash now i found at early) distinct id =
    change-AreDistinct before (has_invitation_id i.id) (with_acceptance now) (λ i. refl) distinct id

-- Only the pending row of an identifier is changed, so a settled row stays.
change-settled :
    (invitations : List Invitation) (f : Invitation → Invitation)
    (kept : (i : Invitation) → (f i).id ≡ i.id) (id : Text) (settled current : Invitation)
    → find (has_invitation_id current.id) invitations ≡ some current
    → current.status ≡ pending
    → find (has_invitation_id id) invitations ≡ some settled
    → settled.status ≢ pending
    → find (has_invitation_id id) (update (has_invitation_id current.id) f invitations)
      ≡ some settled
change-settled invitations f kept id settled current found at there done =
    let after =
      find-update_any (has_invitation_id id) (has_invitation_id current.id) f
        (λ i. ap (λ j. j === id) (kept i)) invitations in
    elim (Bool-cases (has_invitation_id current.id settled)) [
      | inr e ↦ after ∙ (rw there (rw e refl))
      | inl e ↦
          let own =
            (===_iff settled.id id).0
              (find-true (has_invitation_id id) invitations settled there) in
          let named = (===_iff settled.id current.id).0 e in
          let same : some settled ≡ some current =
            sym there
            ∙ ap (λ j. find (has_invitation_id j) invitations) (sym own ∙ named)
            ∙ found in
          let row : settled ≡ current = ground (arith, same) in
          absurd (done (ap (λ i. i.status) row ∙ at))
    ]

Turns-settled :
    {before after : List Invitation} (id : Text) (settled : Invitation)
    → Turns before after
    → AreDistinct before
    → find (has_invitation_id id) before ≡ some settled
    → settled.status ≢ pending
    → find (has_invitation_id id) after ≡ some settled
Turns-settled id settled untouched distinct there done = there
Turns-settled {before = before} id settled (invited i fresh free at) distinct there done =
    find-append (has_invitation_id id) before (i ∷ []) settled there
Turns-settled {before = before} id settled (withdrawn invitation_id now i found at) distinct there
      done =
    let own =
      (===_iff i.id invitation_id).0 (find-true (has_invitation_id invitation_id) before i found) in
    let named : find (has_invitation_id i.id) before ≡ some i =
      ap (λ j. find (has_invitation_id j) before) own ∙ found in
    subst
      (λ j.
        find (has_invitation_id id) (update (has_invitation_id j) (with_cancellation now) before)
        ≡ some settled)
      own
      (change-settled before (with_cancellation now) (λ i. refl) id settled i named at there done)
Turns-settled {before = before} id settled (taken token_hash now i found at early) distinct there
      done =
    let named =
      find-keyed (has_invitation_id i.id) before i (distinct i.id)
        (find-Among (has_token_hash token_hash) before i found) (===_refl i.id) in
    change-settled before (with_acceptance now) (λ i. refl) id settled i named at there done

module _ (to_lower_case : Text → Text) (hash : Text → Text) (normalized : Text → Bool)
    (accept_url : Text → Text → Option Text) where
  reaches_distinct :
      {db after : InvitationTables}
      → ReachesInvitations to_lower_case hash normalized accept_url db after
      → AreDistinct db.invitations
      → AreDistinct after.invitations
  reaches_distinct start distinct = distinct
  reaches_distinct (later {db = mid} call now before) distinct =
      Turns-AreDistinct
        (perform_invitation-Turns to_lower_case hash normalized accept_url call now mid)
        (reaches_distinct before distinct)

  -- Where the identifiers of the invitations are distinct, an invitation that is accepted or cancelled
  -- stays exactly as it is, whatever calls are made.
  pub ReachesInvitations-settled :
      {db after : InvitationTables} (id : Text) (settled : Invitation)
      → ReachesInvitations to_lower_case hash normalized accept_url db after
      → AreDistinct db.invitations
      → find (has_invitation_id id) db.invitations ≡ some settled
      → settled.status ≢ pending
      → find (has_invitation_id id) after.invitations ≡ some settled
  ReachesInvitations-settled id settled start distinct there done = there
  ReachesInvitations-settled id settled (later {db = mid} call now before) distinct there done =
      Turns-settled id settled
        (perform_invitation-Turns to_lower_case hash normalized accept_url call now mid)
        (reaches_distinct before distinct)
        (ReachesInvitations-settled id settled before distinct there done) done
