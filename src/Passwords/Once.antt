-- ===== src/Passwords/Once.antt =====
-- packages/db/src/passwords.ts: a token resets a password at most once, whatever calls are made.
use ntauth.Common.{
  ℕ, ◌≤◌, ◌≡◌, refl, sym, subst, inl, inr, Bool, true, false, Option, none, some, List, [], ◌∷◌,
  arith, Bool-cases, any, leb,
}
use ntauth.Text.{Text, trim}
use ntauth.Text.Laws.{===_refl}
use ntauth.Database.{Actor}
use ntauth.Database.Rows.{
  find, update, count, count-update, find-true, find-none_iff, find-Among, find-keyed,
}
use ntauth.Passwords.{
  PasswordReset, PasswordTables, done, refused, invalid_reset, is_live, has_reset_id,
  has_reset_hash, use_reset, is_active_user, ResetInput, request_password_reset, complete_found,
  complete_password_reset, is_credential_of, may_reset,
}
use ntauth.Passwords.Change.{change_password}
use ntauth.Passwords.Spent.{IsSpent, request-IsSpent, complete-IsSpent, change_same}

-- the primary key, and the unique hashes
abbrev pub AreIndexedResets : List PasswordReset → Type 0
AreIndexedResets resets =
    ((id : Text) → count (has_reset_id id) resets ≤ 1)
    × ((token_hash : Text) → count (has_reset_hash token_hash) resets ≤ 1)

count-is_live :
    (token_hash : Text) (resets : List PasswordReset)
    → count (is_live token_hash) resets ≤ count (has_reset_hash token_hash) resets
count-is_live token_hash [] = omega arith
count-is_live token_hash (r ∷ resets) = ground (arith, count-is_live token_hash resets)

none_counted : {A : Type 0} (p : A → Bool) (xs : List A) → count p xs ≡ 0 → any p xs ≡ false
none_counted p [] h = refl
none_counted p (x ∷ xs) h = ground (arith, none_counted p xs, h)

one_counted :
    {A : Type 0} (p : A → Bool) (xs : List A) (x : A) → find p xs ≡ some x → any p xs ≡ true
one_counted p [] x h = ground (arith, h)
one_counted p (y ∷ xs) x h = ground (arith, one_counted p xs x)

any_hash :
    (token_hash : Text) (p : PasswordReset → Bool) (now : ℕ) (resets : List PasswordReset)
    → any (is_live token_hash) resets ≡ true
    → any (has_reset_hash token_hash) (update p (use_reset now) resets) ≡ true
any_hash token_hash p now [] h = ground (arith, h)
any_hash token_hash p now (r ∷ resets) h =
    let rest = any_hash token_hash p now resets in
    elim (Bool-cases (p r)) [
      | inl e ↦ rw e (ground (arith, h, rest))
      | inr e ↦ rw e (ground (arith, h, rest))
    ]

-- Using the only unused request with a hash leaves none.
used-IsSpent :
    (token_hash : Text) (now : ℕ) (resets : List PasswordReset) (r : PasswordReset)
    → AreIndexedResets resets
    → find (is_live token_hash) resets ≡ some r
    → IsSpent token_hash (update (has_reset_id r.id) (use_reset now) resets)
used-IsSpent token_hash now resets r (ids, hashes) found =
    let row =
      find-keyed (has_reset_id r.id) resets r (ids r.id)
        (find-Among (is_live token_hash) resets r found) (===_refl r.id) in
    let after =
      count-update (has_reset_id r.id) (is_live token_hash) (use_reset now) resets r (ids r.id)
        row in
    let live = find-true (is_live token_hash) resets r found in
    let one = count-is_live token_hash resets in
    let left : count (is_live token_hash) (update (has_reset_id r.id) (use_reset now) resets) ≡ 0 =
      ground (arith, after, live, one, hashes token_hash) in
    (
      any_hash token_hash (has_reset_id r.id) now resets
          (one_counted (is_live token_hash) resets r found),
      none_counted (is_live token_hash) _ left,
    )

completed-IsSpent :
    (token_hash password user_id : Text) (now : ℕ) (db : PasswordTables) (o : Option PasswordReset)
    → AreIndexedResets db.resets
    → find (is_live token_hash) db.resets ≡ o
    → (complete_found password now db o).0 ≡ done user_id
    → IsSpent token_hash (complete_found password now db o).1.resets
unfolding complete_found
completed-IsSpent token_hash password user_id now db none indexed found h =
    absurd (ground (arith, h))
completed-IsSpent token_hash password user_id now db (some r) indexed found h =
    elim (Bool-cases (is_active_user r.user_id db.tables.users)) [
      | inr e ↦ absurd (ground (arith, rw e at h))
      | inl e ↦ elim (Bool-cases (leb r.expires_at now)) [
        | inl d ↦ absurd (ground (arith, rw d at (rw e at h)))
        | inr d ↦ rw e (rw d (used-IsSpent token_hash now db.resets r indexed found))
      ]
    ]

-- A call, with its input.
pub data PasswordCall : Type 0 where
  request : ResetInput → PasswordCall
  complete : Text → Text → PasswordCall
  change : (Text → Bool) → Text → Actor → PasswordCall

module _ (to_lower_case : Text → Text) (hash : Text → Text)
    (reset_url : Text → Text → Option Text) where
  unfoldable pub perform_password : PasswordCall → ℕ → PasswordTables → PasswordTables
  unfolding request_password_reset complete_password_reset change_password
  perform_password (request input) now db =
      (request_password_reset to_lower_case hash reset_url input now db).1
  perform_password (complete password token) now db =
      (complete_password_reset hash password token now db).1
  perform_password (change verify password actor) now db =
      (change_password verify password actor now db).1

  -- The tables that some calls, of anybody at any times, make of `before`.
  pub data ReachesPasswords (before : PasswordTables) : PasswordTables → Type 0 where
    start : ReachesPasswords before before
    later :
        {db : PasswordTables} (call : PasswordCall) (now : ℕ)
        → ReachesPasswords before db
        → ReachesPasswords before (perform_password call now db)

  perform_password-IsSpent :
      (token_hash : Text) (call : PasswordCall) (now : ℕ) (db : PasswordTables)
      → IsSpent token_hash db.resets
      → IsSpent token_hash (perform_password call now db).resets
  unfolding perform_password request_password_reset complete_password_reset change_password
  perform_password-IsSpent token_hash (request input) now db spent =
      let email = to_lower_case (trim input.email) in
      request-IsSpent token_hash input email (hash input.token) now db
        (reset_url input.reset_base_url input.token) (find (may_reset email) db.tables.users) spent
  perform_password-IsSpent token_hash (complete password token) now db spent =
      complete-IsSpent token_hash password now db (find (is_live (hash token)) db.resets) spent
  perform_password-IsSpent token_hash (change verify password actor) now db spent =
      subst (IsSpent token_hash)
        (sym (
          change_same verify password actor now db
            (find (is_credential_of actor.user_id) db.credentials)))
        spent

  reaches-IsSpent :
      {db after : PasswordTables} (token_hash : Text)
      → ReachesPasswords db after
      → IsSpent token_hash db.resets
      → IsSpent token_hash after.resets
  reaches-IsSpent token_hash start spent = spent
  reaches-IsSpent token_hash (later {db = mid} call now before) spent =
      perform_password-IsSpent token_hash call now mid (reaches-IsSpent token_hash before spent)

  -- Where the identifiers and the hashes of the requests are distinct, a token that has reset a
  -- password resets none again: whatever calls follow, completing a reset with it fails and leaves the
  -- tables as they are.
  pub complete_password_reset_once :
      (password again token user_id : Text) (now then_now : ℕ) (db after : PasswordTables)
      → AreIndexedResets db.resets
      → (complete_password_reset hash password token now db).0 ≡ done user_id
      → ReachesPasswords (complete_password_reset hash password token now db).1 after
      → complete_password_reset hash again token then_now after ≡ (refused invalid_reset, after)
  unfolding complete_password_reset complete_found
  complete_password_reset_once password again token user_id now then_now db after indexed h
        reached =
      let spent = reaches-IsSpent (hash token) reached (
        completed-IsSpent (hash token) password user_id now db
          (find (is_live (hash token)) db.resets) indexed refl h) in
      rw ((find-none_iff (is_live (hash token)) after.resets).1 spent.1) refl
