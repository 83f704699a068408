-- ===== src/Passwords/Spent.antt =====
-- packages/db/src/passwords.ts: a token resets a password at most once.
use ntauth.Common.{
  ℕ, ◌≡◌, refl, ◌∙◌, subst, inl, inr, Bool, true, false, ◌||◌, Option, none, some, List, [], ◌∷◌,
  ◌++◌, arith, Bool-cases, any, leb,
}
use ntauth.Text.{Text}
use ntauth.Text.Laws.{===_iff}
use ntauth.Database.{User, Actor}
use ntauth.Database.Rows.{update, any-or, any-update}
use ntauth.Worker.Queue.{has_key, has_job_id}
use ntauth.Passwords.{
  Credential, PasswordReset, PasswordTables, is_live, is_unused_of, has_reset_id, has_reset_hash,
  use_reset, is_active_user, reset_ok, reset_key, new_reset, ResetInput, insert_reset, request_for,
  complete_found,
}
use ntauth.Passwords.Change.{change_known, change_found, known_password}

-- A request with the hash was made, and none with it is unused.
abbrev pub IsSpent : Text → List PasswordReset → Type 0
IsSpent token_hash resets =
    (any (has_reset_hash token_hash) resets ≡ true) × (any (is_live token_hash) resets ≡ false)

-- Requests are used up, or one with a new hash is added to them.
any_kept :
    (token_hash : Text) (p : PasswordReset → Bool) (now : ℕ) (resets : List PasswordReset)
    → any (has_reset_hash token_hash) (update p (use_reset now) resets)
      ≡ any (has_reset_hash token_hash) resets
any_kept token_hash p now [] = refl
any_kept token_hash p now (r ∷ resets) =
    let rest = any_kept token_hash p now resets in
    elim (Bool-cases (p r)) [ inl e ↦ rw e (rw rest refl) | inr e ↦ rw e (rw rest refl) ]

used_live :
    (token_hash : Text) (now : ℕ) (r : PasswordReset) → is_live token_hash (use_reset now r) ≡ false
used_live token_hash now r = ground arith

pub use-IsSpent :
    (token_hash : Text) (p : PasswordReset → Bool) (now : ℕ) (resets : List PasswordReset)
    → IsSpent token_hash resets
    → IsSpent token_hash (update p (use_reset now) resets)
use-IsSpent token_hash p now resets (made, spent) = (
  any_kept token_hash p now resets ∙ made,
  any-update p (is_live token_hash) (use_reset now) (λ r h. used_live token_hash now r) resets
      spent,
)

any-append :
    {A : Type 0} (p : A → Bool) (xs : List A) (x : A) → any p (xs ++ x ∷ []) ≡ (any p xs || p x)
any-append p [] x = ground arith
any-append p (y ∷ xs) x = ground (arith, any-append p xs x)

append-IsSpent :
    (token_hash : Text) (r : PasswordReset) (resets : List PasswordReset)
    → any (has_reset_hash r.token_hash) resets ≡ false
    → IsSpent token_hash resets
    → IsSpent token_hash (resets ++ r ∷ [])
append-IsSpent token_hash r resets fresh (made, spent) =
    elim (Bool-cases (has_reset_hash token_hash r)) [
      | inl e ↦
          let same = (===_iff r.token_hash token_hash).0 e in
          absurd
            (ground (arith, made, subst (λ h. any (has_reset_hash h) resets ≡ false) same fresh))
      | inr e ↦ (
        any-append (has_reset_hash token_hash) resets r ∙ (rw made refl),
        any-append (is_live token_hash) resets r ∙ (rw spent (rw e refl)),
      )
    ]

insert-IsSpent :
    (token_hash : Text) (input : ResetInput) (email : Text) (r : PasswordReset) (now : ℕ)
    (db : PasswordTables) (url : Option Text)
    → any (λ s. has_reset_id r.id s || has_reset_hash r.token_hash s) db.resets ≡ false
    → IsSpent token_hash db.resets
    → IsSpent token_hash (insert_reset input email r now db url).1.resets
insert-IsSpent token_hash input email r now db none fresh spent = spent
insert-IsSpent token_hash input email r now db (some address) fresh spent =
    let free = any-or (has_reset_id r.id) (has_reset_hash r.token_hash) db.resets fresh in
    elim (Bool-cases
      (any (λ j. has_job_id input.fresh_job j || has_key (reset_key r.id) j) db.jobs)) [
        | inl e ↦ rw e spent
        | inr e ↦ rw e (
            append-IsSpent token_hash r (update (is_unused_of r.user_id) (use_reset now) db.resets)
              (any_kept r.token_hash (is_unused_of r.user_id) now db.resets ∙ free)
              (use-IsSpent token_hash (is_unused_of r.user_id) now db.resets spent))
      ]

pub request-IsSpent :
    (token_hash : Text) (input : ResetInput) (email hashed : Text) (now : ℕ) (db : PasswordTables)
    (url : Option Text) (o : Option User)
    → IsSpent token_hash db.resets
    → IsSpent token_hash (request_for input email hashed now db url o).1.resets
request-IsSpent token_hash input email hashed now db url none spent = spent
request-IsSpent token_hash input email hashed now db url (some u) spent =
    let row = new_reset input u.id hashed now in
    elim (Bool-cases (reset_ok row db.resets)) [
      | inr e ↦ rw e spent
      | inl e ↦
          rw e (insert-IsSpent token_hash input email row now db url (ground (arith, e)) spent)
    ]

pub complete-IsSpent :
    (token_hash password : Text) (now : ℕ) (db : PasswordTables) (o : Option PasswordReset)
    → IsSpent token_hash db.resets
    → IsSpent token_hash (complete_found password now db o).1.resets
unfolding complete_found
complete-IsSpent token_hash password now db none spent = spent
complete-IsSpent token_hash password now db (some r) spent =
    elim (Bool-cases (is_active_user r.user_id db.tables.users)) [
      | inr e ↦ rw e spent
      | inl e ↦ elim (Bool-cases (leb r.expires_at now)) [
        | inl d ↦ rw e (rw d spent)
        | inr d ↦ rw e (rw d (use-IsSpent token_hash (has_reset_id r.id) now db.resets spent))
      ]
    ]

known_same :
    (verify : Text → Bool) (password : Text) (actor : Actor) (now : ℕ) (db : PasswordTables)
    (o : Option Text)
    → (change_known verify password actor now db o).1.resets ≡ db.resets
known_same verify password actor now db none = refl
known_same verify password actor now db (some current) = elim (Bool-cases (verify current)) [
  | inl e ↦ rw e refl
  | inr e ↦ rw e refl
]

pub change_same :
    (verify : Text → Bool) (password : Text) (actor : Actor) (now : ℕ) (db : PasswordTables)
    (o : Option Credential)
    → (change_found verify password actor now db o).1.resets ≡ db.resets
change_same verify password actor now db none = refl
change_same verify password actor now db (some c) =
    elim (Bool-cases (is_active_user actor.user_id db.tables.users)) [
      | inl e ↦ rw e (known_same verify password actor now db (known_password c.password))
      | inr e ↦ rw e refl
    ]
