-- ===== src/Audit/Bounded.antt =====
-- packages/db/src/audit-events.ts: an export ends.
use ntauth.Common.{
  ℕ, zero, suc, ◌+◌, ◌*◌, ◌≤◌, ◌<◌, ◌≡◌, refl, inl, inr, Option, none, some, List, [], ◌∷◌, ◌++◌,
  arith, Bool-cases, ltb, length, length-append,
}
use ntauth.Text.{Text, text}
use ntauth.Database.{Actor, AuditOutcome, denied, success}
use ntauth.Json.{Value, number}
use ntauth.Grants.{or_null}
use ntauth.Audit.{LoggedEvent, AuditTables, AuditAnswer, given, unauthorized_audit, invalid_input}
use ntauth.Audit.Cursor.{decode_audit_cursor}
use ntauth.Audit.Query.{IamAuditQuery, truthy, query_ok, can_read}
use ntauth.Audit.Query.Page.{
  PublicEvent, AuditPage, list_from, page_or, page_of, take, public_event, list_iam_audit_events,
}
use ntauth.Audit.Visible.{length-map, length-take}
use ntauth.Audit.Export.{
  Collected, ended, broken, without_fuel, export_max_size, page_query, proceed, collect_page,
  collect, finish_export, AuditExport, log_event, export_event, export_iam_audit_events,
}

length-take_more : {A : Type 0} (n : ℕ) (xs : List A) → n < length xs → length (take n xs) ≡ n
length-take_more zero xs h = refl
length-take_more (suc n) [] h = ground (arith, h)
length-take_more (suc n) (x ∷ xs) h = omega (arith, length-take_more n xs (omega (arith, h)))

-- A page has at most 100 events, and exactly 100 if it has a cursor for the next.
abbrev IsFull : AuditAnswer AuditPage → Type 0
IsFull (given page) =
    (length page.events ≤ 100)
    × ((cursor : Text) → truthy page.next_cursor ≡ some cursor → length page.events ≡ 100)
IsFull _ = Unit

-- The recursion ends, and has at most 10,000 events then.
abbrev IsEnded : Collected → Type 0
IsEnded (ended events cursor) = length events ≤ 10000
IsEnded (broken error) = Unit
IsEnded without_fuel = ⊥

-- One event is logged after the others, with the outcome, and reports who asked for which
-- organization.
abbrev pub IsReported :
    Text
    → ℕ
    → AuditOutcome
    → IamAuditQuery
    → Actor
    → List (Text × Value)
    → AuditTables
    → AuditTables
    → Type 0
IsReported fresh at outcome q actor metadata db after =
    (e : LoggedEvent) × (after ≡ record db { log = db.log ++ e ∷ [] })
    × (e.id ≡ fresh)
    × (e.created_at ≡ at)
    × (e.event.outcome ≡ outcome)
    × (e.event.action ≡ text "iam.audit.export")
    × (e.event.actor_user_id ≡ some actor.user_id)
    × (e.event.request_id ≡ actor.request_id)
    × (e.event.organization_id ≡ q.organization_id)
    × (e.event.resource_type ≡ text "audit_export")
    × (e.event.resource_id ≡ none)
    × (e.event.metadata ≡ metadata)

-- What an export gives and logs.
abbrev pub IsExported :
    Text
    → ℕ
    → IamAuditQuery
    → Actor
    → AuditTables
    → Option (AuditAnswer AuditExport × AuditTables)
    → Type 0
IsExported fresh at q actor db none = ⊥
IsExported fresh at q actor db (some (given export, after)) =
    (length export.events ≤ 10000)
    × IsReported fresh at success q actor
        ((text "count", number (length export.events)) ∷ (text "service", or_null q.service) ∷ [])
        db after
IsExported fresh at q actor db (some (unauthorized_audit, after)) =
    IsReported fresh at denied q actor ((text "service", or_null q.service) ∷ []) db after
IsExported fresh at q actor db (some (invalid_input, after)) = after ≡ db

export_event-IsReported :
    (fresh : Text) (at : ℕ) (outcome : AuditOutcome) (q : IamAuditQuery) (actor : Actor)
    (metadata : List (Text × Value)) (db : AuditTables)
    → IsReported fresh at outcome q actor metadata db
        (log_event (export_event fresh at outcome q actor metadata) db)
export_event-IsReported fresh at outcome q actor metadata db = (
  export_event fresh at outcome q actor metadata,
  refl,
  refl,
  refl,
  refl,
  refl,
  refl,
  refl,
  refl,
  refl,
  refl,
  refl,
)

finish-IsExported :
    (fresh : Text) (at : ℕ) (q : IamAuditQuery) (actor : Actor) (db : AuditTables)
    (collected : Collected)
    → IsEnded collected
    → IsExported fresh at q actor db (finish_export fresh at q actor db collected)
finish-IsExported fresh at q actor db (ended events cursor) h =
    (h, export_event-IsReported fresh at success q actor _ db)
finish-IsExported fresh at q actor db (broken unauthorized_audit) h =
    export_event-IsReported fresh at denied q actor _ db
finish-IsExported fresh at q actor db (broken invalid_input) h = refl
finish-IsExported fresh at q actor db (broken (given _)) h = refl
finish-IsExported fresh at q actor db without_fuel h = elim h [ ]

module _ (iso : ℕ → Text) (parse_date : Text → Option ℕ) (to_base64 from_base64 : Text → Text) where
  page-IsFull :
      (rows : List LoggedEvent)
      → IsFull (given (page_of iso parse_date to_base64 from_base64 100 rows))
  page-IsFull rows =
      let size = length-map public_event (take 100 rows) in
      (
        omega (arith, size, length-take 100 rows),
        λ cursor more. elim (Bool-cases (ltb 100 (length rows))) [
          | inl e ↦ omega (arith, size, length-take_more 100 rows (ground (arith, e)))
          | inr e ↦ absurd (ground (arith, rw e at more))
        ],
      )

  from-IsFull :
      (q : IamAuditQuery) (cursor : Option Text) (now : ℕ) (db : AuditTables) (value : Option Text)
      → IsFull (list_from iso parse_date to_base64 from_base64 (page_query q cursor) now db value)
  from-IsFull q cursor now db none = page-IsFull _
  from-IsFull q cursor now db (some value) =
      elim (decode_audit_cursor iso parse_date to_base64 from_base64 value)
        as (λ o.
          IsFull (page_or iso parse_date to_base64 from_base64 (page_query q cursor) now db o)) [
            | none ↦ tt
            | some c ↦ page-IsFull _
          ]

  list-IsFull :
      (q : IamAuditQuery) (cursor : Option Text) (actor : Actor) (now : ℕ) (db : AuditTables)
      → IsFull (
          list_iam_audit_events iso parse_date to_base64 from_base64
            (page_query q cursor)
            actor
            now
            db)
  unfolding list_iam_audit_events
  list-IsFull q cursor actor now db = elim (Bool-cases (query_ok (page_query q cursor))) [
    | inr e ↦ rw e tt
    | inl e ↦ elim (Bool-cases (can_read (page_query q cursor) actor db)) [
      | inl r ↦ rw e (rw r (from-IsFull q cursor now db (truthy cursor)))
      | inr r ↦ rw e (rw r tt)
    ]
  ]

  proceed-IsEnded :
      (next : List PublicEvent → Option Text → Collected) (events : List PublicEvent)
      (cursor : Option Text)
      → length events ≤ 10000
      → ((c : Text) → cursor ≡ some c → length events < 10000 → IsEnded (next events (some c)))
      → IsEnded (proceed next events cursor)
  proceed-IsEnded next events none bound rest = bound
  proceed-IsEnded next events (some c) bound rest =
      elim (Bool-cases (ltb (length events) export_max_size)) [
        | inl e ↦ rw e (rest c refl (ground (arith, e)))
        | inr e ↦ rw e bound
      ]

  page-IsEnded :
      (next : List PublicEvent → Option Text → Collected) (fuel : ℕ) (events : List PublicEvent)
      (answer : AuditAnswer AuditPage)
      → IsFull answer
      → length events + 100 * suc fuel ≡ 10000
      → ((more : List PublicEvent) (c : Text)
          → length more + 100 * fuel ≡ 10000
          → length more < 10000
          → IsEnded (next more (some c)))
      → IsEnded (collect_page next events answer)
  page-IsEnded next fuel events (given page) (few, full) left rest =
      let size = length-append events page.events in
      proceed-IsEnded next (events ++ page.events) (truthy page.next_cursor)
        (omega (arith, size, few, left))
        (λ c more below.
          rest (events ++ page.events) c (omega (arith, size, full c more, left)) below)
  page-IsEnded next fuel events unauthorized_audit full left rest = tt
  page-IsEnded next fuel events invalid_input full left rest = tt

  collect-IsEnded :
      (q : IamAuditQuery) (actor : Actor) (now : ℕ) (db : AuditTables) (fuel : ℕ)
      (events : List PublicEvent) (cursor : Option Text)
      → length events + 100 * fuel ≡ 10000
      → length events < 10000
      → IsEnded (collect iso parse_date to_base64 from_base64 q actor now db fuel events cursor)
  collect-IsEnded q actor now db zero events cursor left below = omega (arith, left, below)
  collect-IsEnded q actor now db (suc fuel) events cursor left below =
      page-IsEnded (collect iso parse_date to_base64 from_base64 q actor now db fuel) fuel events _
        (list-IsFull q cursor actor now db) left
        (λ more c left below. collect-IsEnded q actor now db fuel more (some c) left below)

  -- An export always ends: with at most 10,000 events, whose number one new event in the log reports as
  -- a success of the actor; or refused, which one new event in the log reports as a denial; or for an
  -- invalid query, with the log as it was.
  pub export_iam_audit_events-IsExported :
      (fresh : Text) (at : ℕ) (q : IamAuditQuery) (actor : Actor) (now : ℕ) (db : AuditTables)
      → IsExported fresh at q actor db
          (export_iam_audit_events iso parse_date to_base64 from_base64 fresh at q actor now db)
  export_iam_audit_events-IsExported fresh at q actor now db =
      finish-IsExported fresh at q actor db
        (collect iso parse_date to_base64 from_base64 q actor now db 100 [] none)
        (collect-IsEnded q actor now db 100 [] none refl (omega arith))
