-- ===== src/Invitations/Lifecycle.antt =====
-- packages/db/src/invitations.ts: what becomes of an invitation, whatever calls are made.
use ntauth.Common.{
  ℕ, ◌+◌, ◌<◌, ◌≡◌, refl, ap, inl, inr, Bool, true, false, ◌||◌, Option, none, some, List, [], ◌∷◌,
  ◌++◌, arith, Bool-cases, any, leb,
}
use ntauth.Text.{Text, text, trim}
use ntauth.Database.{Actor}
use ntauth.Database.Rows.{find, update, any-or, any-or_left}
use ntauth.Database.Organizations.{can_manage}
use ntauth.Database.Organizations.Members.{membership_ok}
use ntauth.Invitations.{
  Invitation, InvitationStatus, accepted, cancelled, pending, InvitationTables, is_pending,
  has_invitation_id, has_token_hash, has_email, with_cancellation, with_acceptance, new_invitation,
  invitation_lifetime_ms, cancel_found, cancel_invitation,
}
use ntauth.Invitations.Accept.{
  AcceptInput, account_taken, is_credential_of, with_account, with_user, with_credential,
  join_organization, accept_as, accepted_before, is_accepted_member, accept_status, accept_found,
  accept_invitation,
}
use ntauth.Invitations.Create.{
  InvitationInput, invitation_ok, job_ok, insert_with, insert_invitation, create_invitation,
}

-- What a call may do to the invitations: nothing, add a pending one with an identifier and a token that
-- no other has, or settle one that is pending, by its acceptance before it expires or otherwise.
pub data Turns (before : List Invitation) : List Invitation → Type 0 where
  untouched : Turns before before
  invited :
      (i : Invitation)
      → any (has_invitation_id i.id) before ≡ false
      → any (has_token_hash i.token_hash) before ≡ false
      → i.status ≡ pending
      → Turns before (before ++ i ∷ [])
  withdrawn :
      (invitation_id : Text) (now : ℕ) (i : Invitation)
      → find (has_invitation_id invitation_id) before ≡ some i
      → i.status ≡ pending
      → Turns before (update (has_invitation_id invitation_id) (with_cancellation now) before)
  taken :
      (token_hash : Text) (now : ℕ) (i : Invitation)
      → find (has_token_hash token_hash) before ≡ some i
      → i.status ≡ pending
      → now < i.expires_at
      → Turns before (update (has_invitation_id i.id) (with_acceptance now) before)

pending_status : (status : InvitationStatus) → is_pending status ≡ true → status ≡ pending
pending_status pending h = refl
pending_status accepted h = ground (arith, h)
pending_status cancelled h = ground (arith, h)

cancel_found-Turns :
    (invitation_id : Text) (actor : Actor) (now : ℕ) (db : InvitationTables) (o : Option Invitation)
    → find (has_invitation_id invitation_id) db.invitations ≡ o
    → Turns db.invitations (cancel_found invitation_id actor now db o).1.invitations
unfolding cancel_found
cancel_found-Turns invitation_id actor now db none found = untouched
cancel_found-Turns invitation_id actor now db (some i) found =
    elim (Bool-cases (is_pending i.status)) [
      | inr e ↦ rw e untouched
      | inl e ↦ elim (Bool-cases (can_manage actor.user_id i.organization_id db.tables)) [
        | inl m ↦ rw e (rw m (withdrawn invitation_id now i found (pending_status i.status e)))
        | inr m ↦ rw e (rw m untouched)
      ]
    ]

join-Turns :
    (input : AcceptInput) (now : ℕ) (i : Invitation) (user_id token_hash : Text)
    (before : InvitationTables) (db : Option InvitationTables)
    (same : (after : InvitationTables) → db ≡ some after → after.invitations ≡ before.invitations)
    → find (has_token_hash token_hash) before.invitations ≡ some i
    → i.status ≡ pending
    → now < i.expires_at
    → Turns before.invitations (join_organization input now i user_id before db).1.invitations
join-Turns input now i user_id token_hash before none same found waiting early = untouched
join-Turns input now i user_id token_hash before (some db) same found waiting early =
    elim (Bool-cases (membership_ok input.fresh_member i.organization_id user_id db.tables)) [
      | inr e ↦ rw e untouched
      | inl e ↦ rw e (rw (same db refl) (taken token_hash now i found waiting early))
    ]

credential_same :
    (input : AcceptInput) (user_id : Text) (db after : InvitationTables)
    → with_credential input user_id db ≡ some after
    → after.invitations ≡ db.invitations
credential_same input user_id db after e =
    elim (Bool-cases (any (is_credential_of user_id) db.tables.accounts)) [
      | inl c ↦ let same : after ≡ db = ground (arith, rw c at e) in ap (λ d. d.invitations) same
      | inr c ↦ elim (Bool-cases (account_taken input user_id db.tables.accounts)) [
        | inl t ↦ absurd (ground (arith, rw t at (rw c at e)))
        | inr t ↦
            let same : after ≡ with_account input user_id db =
              ground (arith, rw t at (rw c at e)) in
            ap (λ d. d.invitations) same
      ]
    ]

status-Turns :
    (input : AcceptInput) (now : ℕ) (i : Invitation) (token_hash : Text) (db : InvitationTables)
    (status : InvitationStatus)
    → find (has_token_hash token_hash) db.invitations ≡ some i
    → i.status ≡ status
    → Turns db.invitations (accept_status input now db i status).1.invitations
status-Turns input now i token_hash db accepted found at =
    elim (find (λ m. is_accepted_member i db.tables (m.organization_id, m.user_id))
        db.tables.members)
      as (λ o. Turns db.invitations (accepted_before i db o).1.invitations) [
        | none ↦ untouched
        | some m ↦ untouched
      ]
status-Turns input now i token_hash db cancelled found at = untouched
status-Turns input now i token_hash db pending found at = elim (Bool-cases (leb i.expires_at now)) [
  | inl e ↦ rw e untouched
  | inr e ↦
      rw e
        (elim (with_user input i.email now db.tables.users
            (find (has_email i.email) db.tables.users))
          as (λ o. Turns db.invitations (accept_as input now i db o).1.invitations) [
            | none ↦ untouched
            | some known ↦
                join-Turns input now i known.0 token_hash db _
                  (λ after h.
                    credential_same input known.0
                      (record db { tables = record db.tables { users = known.1 } }) after h)
                  found at (ground (arith, e))
          ])
]

found-Turns :
    (input : AcceptInput) (now : ℕ) (token_hash : Text) (db : InvitationTables)
    (o : Option Invitation)
    → find (has_token_hash token_hash) db.invitations ≡ o
    → Turns db.invitations (accept_found input now db o).1.invitations
unfolding accept_found
found-Turns input now token_hash db none found = untouched
found-Turns input now token_hash db (some i) found =
    status-Turns input now i token_hash db i.status found refl

insert-Turns :
    (input : InvitationInput) (i : Invitation) (actor : Actor) (now : ℕ) (db : InvitationTables)
    (url : Option Text)
    → any (λ j. has_invitation_id i.id j || has_token_hash i.token_hash j) db.invitations ≡ false
    → i.status ≡ pending
    → Turns db.invitations (insert_with input i actor now db url).1.invitations
insert-Turns input i actor now db none free at = untouched
insert-Turns input i actor now db (some address) free at =
    let other_id =
      any-or_left (has_invitation_id i.id) (has_token_hash i.token_hash) db.invitations free in
    let other_hash =
      any-or (has_invitation_id i.id) (has_token_hash i.token_hash) db.invitations free in
    elim (Bool-cases (job_ok input.fresh_job (text "invitation:" ++ i.id) db.jobs)) [
      | inl e ↦ rw e (invited i other_id other_hash at)
      | inr e ↦ rw e untouched
    ]

create-Turns :
    (input : InvitationInput) (normalized : Bool) (i : Invitation) (actor : Actor) (now : ℕ)
    (db : InvitationTables) (url : Option Text)
    → i.status ≡ pending
    → Turns db.invitations (insert_invitation input normalized i actor now db url).1.invitations
create-Turns input normalized i actor now db url at =
    elim (Bool-cases (invitation_ok normalized i db)) [
      | inr e ↦ rw e untouched
      | inl e ↦ rw e (insert-Turns input i actor now db url (ground (arith, e)) at)
    ]

-- A call, with its input; showing an invitation changes nothing.
pub data InvitationCall : Type 0 where
  create : InvitationInput → Actor → InvitationCall
  cancel : Text → Actor → InvitationCall
  accept : AcceptInput → InvitationCall

module _ (to_lower_case : Text → Text) (hash : Text → Text) (normalized : Text → Bool)
    (accept_url : Text → Text → Option Text) where
  unfoldable pub perform_invitation : InvitationCall → ℕ → InvitationTables → InvitationTables
  unfolding create_invitation cancel_invitation accept_invitation
  perform_invitation (create input actor) now db =
      (create_invitation to_lower_case hash normalized accept_url input actor now db).1
  perform_invitation (cancel invitation_id actor) now db =
      (cancel_invitation invitation_id actor now db).1
  perform_invitation (accept input) now db = (accept_invitation hash input now db).1

  created-Turns :
      (input : InvitationInput) (actor : Actor) (now : ℕ) (db : InvitationTables)
      → Turns db.invitations
          (create_invitation to_lower_case hash normalized accept_url input actor now
            db).1.invitations
  unfolding create_invitation
  created-Turns input actor now db =
      let email = to_lower_case (trim input.email) in
      let made =
        create-Turns input (normalized email)
          (new_invitation input.fresh_invitation email input.organization_id input.role
            (hash input.token) actor.user_id (now + invitation_lifetime_ms) now)
          actor now db (accept_url input.invitation_base_url input.token) refl in
      elim (Bool-cases (can_manage actor.user_id input.organization_id db.tables)) [
        | inl e ↦ rw (e, create_invitation) made
        | inr e ↦ rw (e, create_invitation) untouched
      ]

  -- Whatever call is made, the invitations stay as they are, or a pending one is added with an
  -- identifier and a token that no other has, or one that is pending is cancelled, or one that is
  -- pending and has not expired is accepted.
  pub perform_invitation-Turns :
      (call : InvitationCall) (now : ℕ) (db : InvitationTables)
      → Turns db.invitations (perform_invitation call now db).invitations
  unfolding perform_invitation create_invitation cancel_invitation accept_invitation accept_found
  perform_invitation-Turns (create input actor) now db = created-Turns input actor now db
  perform_invitation-Turns (cancel invitation_id actor) now db =
      cancel_found-Turns invitation_id actor now db
        (find (has_invitation_id invitation_id) db.invitations) refl
  perform_invitation-Turns (accept input) now db =
      found-Turns input now (hash input.token) db
        (find (has_token_hash (hash input.token)) db.invitations) refl

  -- The tables that some calls, of anybody at any times, make of `before`.
  pub data ReachesInvitations (before : InvitationTables) : InvitationTables → Type 0 where
    start : ReachesInvitations before before
    later :
        {db : InvitationTables} (call : InvitationCall) (now : ℕ)
        → ReachesInvitations before db
        → ReachesInvitations before (perform_invitation call now db)
