-- ===== src/Audit/Purge.antt =====
-- packages/db/src/audit-events.ts: deleting the old events does not change what is read.
use ntauth.Common.{
  ℕ, suc, ◌≤◌, ◌≡◌, refl, ap, inl, inr, Bool, true, not, Option, none, some, List, [], ◌∷◌, arith,
  Bool-cases, filter,
}
use ntauth.Text.{Text}
use ntauth.Database.{Actor}
use ntauth.Audit.{
  LoggedEvent, AuditTables, given, is_old, purge_expired_audit_events, can_read_service_audit,
}
use ntauth.Audit.Cursor.{AuditCursor, decode_audit_cursor}
use ntauth.Audit.Visible.{is_listed-IsVisible}
use ntauth.Audit.Query.{IamAuditQuery, is_listed, truthy, can_read, limit_of, order_rows}
use ntauth.Audit.Query.Page.{rows_of, page_of, page_or, take, list_from, list_iam_audit_events}

filter-filter :
    {A : Type 0} (p q : A → Bool) (within : (x : A) → p x ≡ true → q x ≡ true) (xs : List A)
    → filter p (filter q xs) ≡ filter p xs
filter-filter p q within [] = refl
filter-filter p q within (x ∷ xs) =
    let rest = filter-filter p q within xs in
    elim (Bool-cases (q x)) [
      | inl e ↦ elim (Bool-cases (p x)) [
        | inl d ↦ rw e (rw d (rw rest refl))
        | inr d ↦ rw e (rw d rest)
      ]
      | inr e ↦ elim (Bool-cases (p x)) [
        | inl d ↦ absurd (ground (arith, within x d, e))
        | inr d ↦ rw e (rw d rest)
      ]
    ]

old_later :
    (now later : ℕ) (e : LoggedEvent) → now ≤ later → is_old now e ≡ true → is_old later e ≡ true
old_later now later e h old = ground (arith, h, old)

kept_listed :
    (q : IamAuditQuery) (cursor : Option AuditCursor) (now later : ℕ) (e : LoggedEvent)
    → now ≤ later
    → is_listed q cursor later e ≡ true
    → not (is_old now e) ≡ true
kept_listed q cursor now later e h listed = elim (Bool-cases (is_old now e)) [
  | inr d ↦ rw d refl
  | inl d ↦
      let young = (is_listed-IsVisible q cursor later e listed).1 in
      absurd (ground (arith, old_later now later e h d, young))
]

can_read_same :
    (q : IamAuditQuery) (actor : Actor) (now : ℕ) (db : AuditTables)
    → can_read q actor (purge_expired_audit_events now db).1 ≡ can_read q actor db
unfolding can_read can_read_service_audit
can_read_same q actor now db = refl

module _ (iso : ℕ → Text) (parse_date : Text → Option ℕ) (to_base64 from_base64 : Text → Text) where
  rows-same :
      (q : IamAuditQuery) (cursor : Option AuditCursor) (now later : ℕ) (db : AuditTables)
      → now ≤ later
      → rows_of iso parse_date to_base64 from_base64 q cursor later
          (purge_expired_audit_events now db).1
        ≡ rows_of iso parse_date to_base64 from_base64 q cursor later db
  rows-same q cursor now later db h =
      ap (λ es. take (suc (limit_of q)) (order_rows es))
        (filter-filter (is_listed q cursor later) (λ e. not (is_old now e))
          (λ e listed. kept_listed q cursor now later e h listed) db.log)

  from_same :
      (q : IamAuditQuery) (now later : ℕ) (db : AuditTables) (value : Option Text)
      → now ≤ later
      → list_from iso parse_date to_base64 from_base64 q later
          (purge_expired_audit_events now db).1
          value
        ≡ list_from iso parse_date to_base64 from_base64 q later db value
  from_same q now later db none h =
      ap (λ rows. given (page_of iso parse_date to_base64 from_base64 (limit_of q) rows))
        (rows-same q none now later db h)
  from_same q now later db (some value) h =
      elim (decode_audit_cursor iso parse_date to_base64 from_base64 value)
        as (λ o.
          page_or iso parse_date to_base64 from_base64 q later (purge_expired_audit_events now db).1
            o
          ≡ page_or iso parse_date to_base64 from_base64 q later db o) [
            | none ↦ refl
            | some c ↦
                ap (λ rows. given (page_of iso parse_date to_base64 from_base64 (limit_of q) rows))
                  (rows-same q (some c) now later db h)
          ]

  -- After the events that are too old at some time are deleted, every query from that time on gives
  -- what it gave before, on the first page and after every cursor.
  pub list_iam_audit_events-purge :
      (q : IamAuditQuery) (actor : Actor) (now later : ℕ) (db : AuditTables)
      → now ≤ later
      → list_iam_audit_events iso parse_date to_base64 from_base64 q actor later
          (purge_expired_audit_events now db).1
        ≡ list_iam_audit_events iso parse_date to_base64 from_base64 q actor later db
  unfolding list_iam_audit_events
  list_iam_audit_events-purge q actor now later db h =
      rw (can_read_same q actor now db) (rw (from_same q now later db (truthy q.cursor) h) refl)
