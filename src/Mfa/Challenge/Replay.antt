-- ===== src/Mfa/Challenge/Replay.antt =====
-- packages/db/src/mfa.ts: a one-time code is accepted once.
use ntauth.Common.{
  ℕ, ◌<◌, ◌≡◌, refl, sym, ◌∙◌, ap, subst, inl, inr, Bool, true, false, ◌&&◌, Option, none, some,
  List, arith, Bool-cases, and_iff,
}
use ntauth.Text.{Text}
use ntauth.Text.Laws.{===_iff}
use ntauth.Database.Rows.{find, update, find-update_any, find-true}
use ntauth.Database.Users.{is_platform_admin}
use ntauth.Mfa.Challenge.{
  Enrollment, MfaTables, verified, is_of, is_verified, use_counter, is_used, challenge_with,
  counter_of, challenge_found, enforce_platform_admin_mfa,
}

-- A user's verified enrolment, as the challenge looks it up.
abbrev pub is_enrolled : Text → Enrollment → Bool
is_enrolled user_id e = is_of user_id e && is_verified e

abbrev pub enrolled_row : Text → MfaTables → Option Enrollment
enrolled_row user_id db = find (is_enrolled user_id) db.enrollments

-- The user is enrolled with this secret, and the counter is used up.
abbrev pub HasUsed : Text → Text → ℕ → MfaTables → Type 0
HasUsed user_id secret counter db =
    (e : Enrollment) × (enrolled_row user_id db ≡ some e)
    × (e.encrypted_secret ≡ secret)
    × (is_used e.last_used_counter counter ≡ true)

-- A counter that replaces one that is no greater keeps all counters used that were.
is_used_trans :
    (last : Option ℕ) (counter new : ℕ)
    → is_used last counter ≡ true
    → is_used last new ≡ false
    → is_used (some new) counter ≡ true
is_used_trans none counter new h k = absurd (ground (arith, h))
is_used_trans (some last) counter new h k = ground (arith, h, k)

is_used_order :
    (last : Option ℕ) (counter new : ℕ)
    → is_used last counter ≡ true
    → is_used last new ≡ false
    → counter < new
is_used_order none counter new h k = absurd (ground (arith, h))
is_used_order (some last) counter new h k = ground (arith, h, k)

use_counter-HasUsed :
    (user_id other secret : Text) (counter new now : ℕ) (db : MfaTables) (own : Enrollment)
    → enrolled_row other db ≡ some own
    → is_used own.last_used_counter new ≡ false
    → HasUsed user_id secret counter db
    → HasUsed user_id secret counter
        (record db { enrollments = update (is_of other) (use_counter new now) db.enrollments })
use_counter-HasUsed user_id other secret counter new now db own found free (e, there, same, used) =
    let after =
      find-update_any (is_enrolled user_id) (is_of other) (use_counter new now) (λ x. refl)
        db.enrollments in
    elim (Bool-cases (is_of other e)) [
      | inl h ↦
          let mine =
            (and_iff (is_of user_id e) (is_verified e)).0
              (find-true (is_enrolled user_id) db.enrollments e there) in
          let named : user_id ≡ other =
            sym ((===_iff e.user_id user_id).0 mine.0) ∙ (===_iff e.user_id other).0 h in
          let equal : some e ≡ some own = sym there ∙ (ap (λ i. enrolled_row i db) named ∙ found) in
          let row_equal : own ≡ e = ground (arith, equal) in
          let open_yet : is_used e.last_used_counter new ≡ false =
            subst (λ (x : Enrollment). is_used x.last_used_counter new ≡ false) row_equal free in
          (
            use_counter new now e,
            after ∙ (rw there (rw h refl)),
            same,
            is_used_trans e.last_used_counter counter new used open_yet,
          )
      | inr h ↦ (e, after ∙ (rw there (rw h refl)), same, used)
    ]

module _ (to_upper_case : Text → Text) (hmac : List ℕ → List ℕ → List ℕ)
    (decrypt : Text → Option Text) where
  challenge_with-HasUsed :
      (user_id other secret request_id : Text) (counter now : ℕ) (db : MfaTables) (own : Enrollment)
      (o : Option (Option ℕ))
      → enrolled_row other db ≡ some own
      → HasUsed user_id secret counter db
      → HasUsed user_id secret counter
          (challenge_with to_upper_case hmac decrypt other request_id now db own o).1
  challenge_with-HasUsed user_id other secret request_id counter now db own none found h = h
  challenge_with-HasUsed user_id other secret request_id counter now db own (some none) found h = h
  challenge_with-HasUsed user_id other secret request_id counter now db own (some (some new)) found
        h =
      elim (Bool-cases (is_used own.last_used_counter new)) [
        | inl e ↦ rw e h
        | inr e ↦ rw e (use_counter-HasUsed user_id other secret counter new now db own found e h)
      ]

  challenge_found-HasUsed :
      (user_id other secret : Text) (code : Option Text) (request_id : Text) (counter now : ℕ)
      (db : MfaTables) (o : Option Enrollment)
      → enrolled_row other db ≡ o
      → HasUsed user_id secret counter db
      → HasUsed user_id secret counter
          (challenge_found to_upper_case hmac decrypt other code request_id now db o).1
  challenge_found-HasUsed user_id other secret code request_id counter now db none found h = h
  challenge_found-HasUsed user_id other secret code request_id counter now db (some own) found h =
      challenge_with-HasUsed user_id other secret request_id counter now db own
        (counter_of to_upper_case hmac decrypt own.encrypted_secret code now) found h

  enforce-HasUsed :
      (user_id other secret : Text) (code : Option Text) (request_id : Text) (counter now : ℕ)
      (db : MfaTables)
      → HasUsed user_id secret counter db
      → HasUsed user_id secret counter
          (enforce_platform_admin_mfa to_upper_case hmac decrypt other code request_id now db).1
  unfolding enforce_platform_admin_mfa
  enforce-HasUsed user_id other secret code request_id counter now db h =
      let called =
        challenge_found-HasUsed user_id other secret code request_id counter now db
          (enrolled_row other db) refl h in
      elim (Bool-cases (is_platform_admin other db.accounts)) [
        | inl e ↦ rw e called
        | inr e ↦ rw e h
      ]

  -- Further challenges, of any users with any codes at any times.
  pub data Challenged (before : MfaTables) : MfaTables → Type 0 where
    start : Challenged before before
    later :
        {db : MfaTables} (user_id : Text) (code : Option Text) (request_id : Text) (now : ℕ)
        → Challenged before db
        → Challenged before
            (enforce_platform_admin_mfa to_upper_case hmac decrypt user_id code request_id now db).1

  Challenged-HasUsed :
      (user_id secret : Text) (counter : ℕ) {before after : MfaTables}
      → Challenged before after
      → HasUsed user_id secret counter before
      → HasUsed user_id secret counter after
  Challenged-HasUsed user_id secret counter start h = h
  Challenged-HasUsed user_id secret counter (later {db = db} other code request_id now reached) h =
      enforce-HasUsed user_id other secret code request_id counter now db
        (Challenged-HasUsed user_id secret counter reached h)

  -- The counter that a code of a user stands for at some time.
  abbrev pub StandsFor : Text → Option Text → ℕ → MfaTables → ℕ → Type 0
  StandsFor user_id code now db counter =
      (e : Enrollment) × (enrolled_row user_id db ≡ some e)
      × (counter_of to_upper_case hmac decrypt e.encrypted_secret code now ≡ some (some counter))

  -- What an accepted challenge does to the user's row.
  abbrev pub IsAccepted : Text → Option Text → ℕ → MfaTables → MfaTables → Type 0
  IsAccepted user_id code now db after =
      (counter : ℕ) × (e : Enrollment) × (enrolled_row user_id db ≡ some e)
      × (counter_of to_upper_case hmac decrypt e.encrypted_secret code now ≡ some (some counter))
      × (is_used e.last_used_counter counter ≡ false)
      × HasUsed user_id e.encrypted_secret counter after

  challenge_with-IsAccepted :
      (user_id : Text) (code : Option Text) (request_id : Text) (now : ℕ) (db : MfaTables)
      (own : Enrollment) (o : Option (Option ℕ))
      → enrolled_row user_id db ≡ some own
      → counter_of to_upper_case hmac decrypt own.encrypted_secret code now ≡ o
      → (challenge_with to_upper_case hmac decrypt user_id request_id now db own o).0 ≡ verified
      → IsAccepted user_id code now db
          (challenge_with to_upper_case hmac decrypt user_id request_id now db own o).1
  challenge_with-IsAccepted user_id code request_id now db own none found same h =
      absurd (ground (arith, h))
  challenge_with-IsAccepted user_id code request_id now db own (some none) found same h =
      absurd (ground (arith, h))
  challenge_with-IsAccepted user_id code request_id now db own (some (some new)) found same h =
      elim (Bool-cases (is_used own.last_used_counter new)) [
        | inl e ↦ absurd (ground (arith, rw e at h))
        | inr e ↦
            let after =
              find-update_any (is_enrolled user_id) (is_of user_id) (use_counter new now)
                (λ x. refl) db.enrollments in
            let mine =
              (and_iff (is_of user_id own) (is_verified own)).0
                (find-true (is_enrolled user_id) db.enrollments own found) in
            let there : find (is_enrolled user_id)
                  (update (is_of user_id) (use_counter new now) db.enrollments)
                ≡ some (use_counter new now own) =
              after ∙ (rw found (rw mine.0 refl)) in
            rw e (new, own, found, same, e, (use_counter new now own, there, refl, ground arith))
      ]

  challenge_found-IsAccepted :
      (user_id : Text) (code : Option Text) (request_id : Text) (now : ℕ) (db : MfaTables)
      (o : Option Enrollment)
      → enrolled_row user_id db ≡ o
      → (challenge_found to_upper_case hmac decrypt user_id code request_id now db o).0 ≡ verified
      → IsAccepted user_id code now db
          (challenge_found to_upper_case hmac decrypt user_id code request_id now db o).1
  challenge_found-IsAccepted user_id code request_id now db none found h =
      absurd (ground (arith, h))
  challenge_found-IsAccepted user_id code request_id now db (some own) found h =
      challenge_with-IsAccepted user_id code request_id now db own
        (counter_of to_upper_case hmac decrypt own.encrypted_secret code now) found refl h

  enforce-IsAccepted :
      (user_id : Text) (code : Option Text) (request_id : Text) (now : ℕ) (db : MfaTables)
      → (enforce_platform_admin_mfa to_upper_case hmac decrypt user_id code request_id now db).0
        ≡ verified
      → IsAccepted user_id code now db
          (enforce_platform_admin_mfa to_upper_case hmac decrypt user_id code request_id now db).1
  unfolding enforce_platform_admin_mfa
  enforce-IsAccepted user_id code request_id now db h =
      elim (Bool-cases (is_platform_admin user_id db.accounts)) [
        | inl e ↦ rw e (
            challenge_found-IsAccepted user_id code request_id now db (enrolled_row user_id db) refl
              (rw e at h))
        | inr e ↦ absurd (ground (arith, rw e at h))
      ]

  -- Of two challenges of a user that are verified, whatever challenges come between them, the second is
  -- for a greater counter than the first: no code is accepted again for the counter that it was
  -- accepted for, nor for an older one.
  pub enforce_increases :
      (user_id : Text) (code again : Option Text) (request_id next_id : Text) (now then : ℕ)
      (db : MfaTables) {after : MfaTables}
      → (enforce_platform_admin_mfa to_upper_case hmac decrypt user_id code request_id now db).0
        ≡ verified
      → Challenged
          (enforce_platform_admin_mfa to_upper_case hmac decrypt user_id code request_id now db).1
          after
      → (enforce_platform_admin_mfa to_upper_case hmac decrypt user_id again next_id then after).0
        ≡ verified
      → (first : ℕ) × (second : ℕ) × StandsFor user_id code now db first
        × StandsFor user_id again then after second
        × (first < second)
  enforce_increases user_id code again request_id next_id now then db {after = after} h reached k =
      let (first, e, found, stands, free, used) =
        enforce-IsAccepted user_id code request_id now db h in
      let (second, f, found_f, stands_f, free_f, used_f) =
        enforce-IsAccepted user_id again next_id then after k in
      let (g, found_g, same, kept) =
        Challenged-HasUsed user_id e.encrypted_secret first reached used in
      let row_equal : g ≡ f = ground (arith, sym found_g ∙ found_f) in
      let still : is_used f.last_used_counter first ≡ true =
        subst (λ (x : Enrollment). is_used x.last_used_counter first ≡ true) row_equal kept in
      (
        first,
        second,
        (e, found, stands),
        (f, found_f, stands_f),
        is_used_order f.last_used_counter first second still free_f,
      )
