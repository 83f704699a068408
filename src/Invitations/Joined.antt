-- ===== src/Invitations/Joined.antt =====
-- packages/db/src/invitations.ts: what an acceptance does.
use ntauth.Common.{
  ℕ, ◌<◌, ◌≡◌, refl, ◌∙◌, ◌⊎◌, inl, inr, Bool, true, Option, none, some, List, [], ◌∷◌, ◌++◌, arith,
  Bool-cases, any, Among, leb, and_iff,
}
use ntauth.Text.{Text, text}
use ntauth.Text.Laws.{===_iff, ===_refl}
use ntauth.Database.{User, Membership}
use ntauth.Database.Rows.{find, update, find-true, find-Among, append-Among, find-update_any}
use ntauth.Database.Users.{has_id}
use ntauth.Database.Organizations.Members.{membership_ok}
use ntauth.Invitations.{
  Invitation, InvitationStatus, accepted, cancelled, pending, InvitationTables, invalid_invitation,
  violated, answered, failed, InvitationRun, has_token_hash, has_email,
}
use ntauth.Invitations.Accept.{
  AcceptInput, Acceptance, invited_user, verified, with_user, is_credential_of, credential_account,
  account_taken, with_credential, join_organization, accept_as, accepted_before, is_accepted_member,
  accept_status, accept_found, accept_invitation,
}

-- The invitation can be accepted.
abbrev pub IsOpen : ℕ → Invitation → Type 0
IsOpen now i = (i.status ≡ pending) × (now < i.expires_at)

-- The user of the answer has the invitation's address, which counts as verified, a credential account,
-- and a membership of the organization in the invitation's role; only a violated constraint prevents
-- that, and then nothing changes.
abbrev pub IsJoined : Invitation → InvitationTables → InvitationRun Acceptance → Type 0
IsJoined i db (answered a, after) =
    (a.email ≡ i.email)
    × (a.organization_id ≡ i.organization_id)
    × ((u : User) × Among u after.tables.users
        × (u.id ≡ a.user_id)
        × (u.email ≡ i.email)
        × (u.email_verified ≡ true))
    × ((m : Membership) × Among m after.tables.members
        × (m.organization_id ≡ i.organization_id)
        × (m.user_id ≡ a.user_id)
        × (m.role ≡ i.role))
    × (any (is_credential_of a.user_id) after.tables.accounts ≡ true)
IsJoined i db (failed violated, after) = after ≡ db
IsJoined i db (failed _, after) = ⊥

-- The users hold a verified one with the identifier and the address.
abbrev IsVerifiedAs : Text → Text → List User → Type 0
IsVerifiedAs user_id email users =
    (u : User) × Among u users × (u.id ≡ user_id) × (u.email ≡ email) × (u.email_verified ≡ true)

any-last :
    {A : Type 0} (p : A → Bool) (xs : List A) (x : A) → p x ≡ true → any p (xs ++ x ∷ []) ≡ true
any-last p [] x h = ground (arith, h)
any-last p (y ∷ xs) x h = ground (arith, any-last p xs x h)

join-IsJoined :
    (input : AcceptInput) (now : ℕ) (i : Invitation) (user_id : Text) (before db : InvitationTables)
    → IsVerifiedAs user_id i.email db.tables.users
    → any (is_credential_of user_id) db.tables.accounts ≡ true
    → IsJoined i before (join_organization input now i user_id before (some db))
join-IsJoined input now i user_id before db known credential =
    elim (Bool-cases (membership_ok input.fresh_member i.organization_id user_id db.tables)) [
      | inr e ↦ rw e refl
      | inl e ↦
          rw e
            (refl, refl, known, (_, append-Among db.tables.members _, refl, refl, refl), credential)
    ]

credential-IsJoined :
    (input : AcceptInput) (now : ℕ) (i : Invitation) (user_id : Text) (before db : InvitationTables)
    → IsVerifiedAs user_id i.email db.tables.users
    → IsJoined i before
        (join_organization input now i user_id before (with_credential input user_id db))
credential-IsJoined input now i user_id before db known =
    elim (Bool-cases (any (is_credential_of user_id) db.tables.accounts)) [
      | inl e ↦ rw e (join-IsJoined input now i user_id before db known e)
      | inr e ↦ elim (Bool-cases (account_taken input user_id db.tables.accounts)) [
        | inl t ↦ rw e (rw t refl)
        | inr t ↦ rw e (
            rw t (
              join-IsJoined input now i user_id before _ known (
                any-last (is_credential_of user_id) db.tables.accounts
                  (credential_account input user_id)
                  ((and_iff _ _).1 (===_refl user_id, ===_refl (text "credential"))))))
      ]
    ]

user-IsJoined :
    (input : AcceptInput) (now : ℕ) (i : Invitation) (db : InvitationTables) (o : Option User)
    → find (has_email i.email) db.tables.users ≡ o
    → IsJoined i db (accept_as input now i db (with_user input i.email now db.tables.users o))
user-IsJoined input now i db none found =
    elim (Bool-cases (any (has_id input.fresh_user) db.tables.users)) [
      | inl e ↦ rw e refl
      | inr e ↦ rw e (
          credential-IsJoined input now i input.fresh_user db _
            (_, append-Among db.tables.users (invited_user input i.email now), refl, refl, refl))
    ]
user-IsJoined input now i db (some u) found =
    let after =
      find-update_any (has_email i.email) (has_id u.id) verified (λ u. refl) db.tables.users in
    let there : find (has_email i.email) (update (has_id u.id) verified db.tables.users)
        ≡ some (verified u) =
      after ∙ (rw found (rw (===_refl u.id) refl)) in
    let named =
      (===_iff u.email i.email).0 (find-true (has_email i.email) db.tables.users u found) in
    credential-IsJoined input now i u.id db _
      (verified u, find-Among (has_email i.email) _ (verified u) there, refl, named, refl)

-- What an acceptance with the token of an invitation does: an open invitation is accepted; any other
-- changes nothing, and gives the error of the file if the invitation is not accepted already.
abbrev pub IsOutcome : ℕ → Invitation → InvitationTables → InvitationRun Acceptance → Type 0
IsOutcome now i db run =
    (IsOpen now i × IsJoined i db run)
    ⊎ ((IsOpen now i → ⊥)
        × (run.1 ≡ db)
        × ((i.status ≡ accepted) ⊎ (run.0 ≡ failed invalid_invitation)))

status-IsOutcome :
    (input : AcceptInput) (now : ℕ) (i : Invitation) (db : InvitationTables)
    (status : InvitationStatus)
    → i.status ≡ status
    → IsOutcome now i db (accept_status input now db i status)
status-IsOutcome input now i db accepted at =
    elim (find (λ m. is_accepted_member i db.tables (m.organization_id, m.user_id))
        db.tables.members)
      as (λ o. IsOutcome now i db (accepted_before i db o)) [
        | none ↦ inr (λ h. ground (arith, h, at), refl, inl at)
        | some m ↦ inr (λ h. ground (arith, h, at), refl, inl at)
      ]
status-IsOutcome input now i db cancelled at = inr (λ h. ground (arith, h, at), refl, inr refl)
status-IsOutcome input now i db pending at = elim (Bool-cases (leb i.expires_at now)) [
  | inl e ↦ rw e (inr (λ h. ground (arith, h, e), refl, inr refl))
  | inr e ↦ rw e (
      inl (
        (at, ground (arith, e)),
        user-IsJoined input now i db (find (has_email i.email) db.tables.users) refl,
      ))
]

-- An acceptance with the token of an invitation that is pending and has not expired gives a user with
-- its address, which then counts as verified, with a credential account and with a membership of the
-- organization in its role, or leaves the tables as they were because a constraint is violated. With
-- the token of any other invitation it leaves the tables as they were, and fails unless the invitation
-- is accepted already.
pub accept_invitation-IsOutcome :
    (hash : Text → Text) (input : AcceptInput) (now : ℕ) (i : Invitation) (db : InvitationTables)
    → find (has_token_hash (hash input.token)) db.invitations ≡ some i
    → IsOutcome now i db (accept_invitation hash input now db)
unfolding accept_invitation accept_found
accept_invitation-IsOutcome hash input now i db found =
    rw found (status-IsOutcome input now i db i.status refl)
