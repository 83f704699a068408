-- ===== src/Audit/Visible.antt =====
-- packages/db/src/audit-events.ts: what a page shows, and to whom.
use ntauth.Common.{
  ℕ, zero, suc, ◌≤◌, ◌≡◌, refl, inl, inr, Bool, true, false, not, ◌&&◌, Option, none, some, List,
  [], ◌∷◌, arith, Bool-cases, filter, filter_mem, map, leb, length, Among,
}
use ntauth.Text.{Text}
use ntauth.Database.{Actor}
use ntauth.Audit.{
  LoggedEvent, AuditTables, AuditAnswer, given, unauthorized_audit, invalid_input, is_old,
  audit_page_max_size,
}
use ntauth.Audit.Cursor.{AuditCursor, decode_audit_cursor}
use ntauth.Audit.Query.{
  IamAuditQuery, is_listed, in_scope, is_iam, truthy, query_ok, can_read, limit_of, order_rows,
  insert_row, comes_first,
}
use ntauth.Audit.Query.Page.{
  AuditPage, PublicEvent, public_event, rows_of, page_of, page_or, take, list_from,
  list_iam_audit_events,
}

take-Among : {A : Type 0} (n : ℕ) (xs : List A) (x : A) → Among x (take n xs) → Among x xs
take-Among zero xs x h = elim h [ ]
take-Among (suc n) [] x h = elim h [ ]
take-Among (suc n) (y ∷ xs) x (inl same) = inl same
take-Among (suc n) (y ∷ xs) x (inr h) = inr (take-Among n xs x h)

pub length-take : {A : Type 0} (n : ℕ) (xs : List A) → length (take n xs) ≤ n
length-take zero xs = omega arith
length-take (suc n) [] = omega arith
length-take (suc n) (x ∷ xs) = omega (arith, length-take n xs)

pub length-map : {A B : Type 0} (f : A → B) (xs : List A) → length (map f xs) ≡ length xs
length-map f [] = refl
length-map f (x ∷ xs) = ground (arith, length-map f xs)

insert_row-Among :
    (e : LoggedEvent) (es : List LoggedEvent) (x : LoggedEvent)
    → Among x (insert_row e es)
    → Among x (e ∷ es)
insert_row-Among e [] x h = h
insert_row-Among e (f ∷ es) x h = elim (Bool-cases (comes_first e f)) [
  | inl d ↦ rw d at h
  | inr d ↦ ground (arith, rw d at h, insert_row-Among e es x)
]

order_rows-Among : (es : List LoggedEvent) (x : LoggedEvent) → Among x (order_rows es) → Among x es
order_rows-Among [] x h = h
order_rows-Among (e ∷ es) x h = elim (insert_row-Among e (order_rows es) x h) [
  | inl same ↦ inl same
  | inr d ↦ inr (order_rows-Among es x d)
]

-- An event as it is given stands for an event.
map-Among :
    {A B : Type 0} (f : A → B) (xs : List A) (y : B)
    → Among y (map f xs)
    → (x : A) × Among x xs × (f x ≡ y)
map-Among f [] y h = elim h [ ]
map-Among f (x ∷ xs) y (inl same) = (x, inl refl, same)
map-Among f (x ∷ xs) y (inr h) = let (z, among, same) = map-Among f xs y h in (z, inr among, same)

three_parts :
    (a b c d : Bool) → (a && not b && c && d) ≡ true → (a ≡ true) × (b ≡ false) × (c ≡ true)
three_parts true false true d h = (refl, refl, refl)
three_parts false b c d h = ground (arith, h)
three_parts true true c d h = ground (arith, h)
three_parts true false false d h = ground (arith, h)

-- Whatever else is asked, the event is of the asked organization, or of none, is not too old, and is
-- about the policies or the service grants.
abbrev pub IsVisible : IamAuditQuery → ℕ → LoggedEvent → Type 0
IsVisible q now e =
    (in_scope (truthy q.organization_id) e.event ≡ true)
    × (is_old now e ≡ false)
    × (is_iam e.event ≡ true)

pub is_listed-IsVisible :
    (q : IamAuditQuery) (cursor : Option AuditCursor) (now : ℕ) (e : LoggedEvent)
    → is_listed q cursor now e ≡ true
    → IsVisible q now e
unfolding is_listed
is_listed-IsVisible q cursor now e h =
    three_parts (in_scope (truthy q.organization_id) e.event) (is_old now e) (is_iam e.event) _ h

first_parts : (a b c d e f g h : Bool) → (a && b && c && d && e && f && g && h) ≡ true → b ≡ true
first_parts true true c d e f g h k = refl
first_parts false b c d e f g h k = ground (arith, k)
first_parts true false c d e f g h k = ground (arith, k)

few : (q : IamAuditQuery) → query_ok q ≡ true → limit_of q ≤ 100
unfolding query_ok
few q h =
    let bounded : leb (limit_of q) audit_page_max_size ≡ true =
      first_parts (leb 1 (limit_of q)) (leb (limit_of q) audit_page_max_size) _ _ _ _ _ _ h in
    ground (arith, bounded)

-- The events of a page, and who may see them.
abbrev pub IsAllowed : IamAuditQuery → Actor → ℕ → AuditTables → AuditAnswer AuditPage → Type 0
IsAllowed q actor now db (given page) =
    (can_read q actor db ≡ true)
    × (length page.events ≤ 100)
    × ((v : PublicEvent)
        → Among v page.events
        → (e : LoggedEvent) × Among e db.log × (public_event e ≡ v) × IsVisible q now e)
IsAllowed q actor now db unauthorized_audit = can_read q actor db ≡ false
IsAllowed q actor now db invalid_input = Unit

module _ (iso : ℕ → Text) (parse_date : Text → Option ℕ) (to_base64 from_base64 : Text → Text) where
  page-IsAllowed :
      (q : IamAuditQuery) (actor : Actor) (now : ℕ) (db : AuditTables) (cursor : Option AuditCursor)
      → can_read q actor db ≡ true
      → limit_of q ≤ 100
      → IsAllowed q actor now db (
          given (
            page_of iso parse_date to_base64 from_base64
              (limit_of q)
              (rows_of iso parse_date to_base64 from_base64 q cursor now db)))
  page-IsAllowed q actor now db cursor may few =
      let listed = filter (is_listed q cursor now) db.log in
      let rows = take (suc (limit_of q)) (order_rows listed) in
      let size = length-map public_event (take (limit_of q) rows) in
      let bound = length-take (limit_of q) rows in
      (
        may,
        omega (arith, size, bound, few),
        λ v h.
            let (e, among, same) = map-Among public_event (take (limit_of q) rows) v h in
            let kept = order_rows-Among listed e (
              take-Among (suc (limit_of q)) (order_rows listed) e
                (take-Among (limit_of q) rows e among)) in
            let (there, passes) = (filter_mem (is_listed q cursor now) e db.log).0 kept in
            (e, there, same, is_listed-IsVisible q cursor now e passes),
      )

  from-IsAllowed :
      (q : IamAuditQuery) (actor : Actor) (now : ℕ) (db : AuditTables) (value : Option Text)
      → can_read q actor db ≡ true
      → limit_of q ≤ 100
      → IsAllowed q actor now db (list_from iso parse_date to_base64 from_base64 q now db value)
  from-IsAllowed q actor now db none may few = page-IsAllowed q actor now db none may few
  from-IsAllowed q actor now db (some value) may few =
      elim (decode_audit_cursor iso parse_date to_base64 from_base64 value)
        as (λ o.
          IsAllowed q actor now db (page_or iso parse_date to_base64 from_base64 q now db o)) [
            | none ↦ tt
            | some c ↦ page-IsAllowed q actor now db (some c) may few
          ]

  -- A page has at most 100 events and is given only to an actor that may read what the query names;
  -- every event on it stands for an event of the log that is of the organization that the query names,
  -- or of none if it names none, that is not older than 365 days, and whose action is one of the
  -- policies or of the service grants. Access is refused only to an actor that may not read.
  pub list_iam_audit_events-IsAllowed :
      (q : IamAuditQuery) (actor : Actor) (now : ℕ) (db : AuditTables)
      → IsAllowed q actor now db
          (list_iam_audit_events iso parse_date to_base64 from_base64 q actor now db)
  unfolding list_iam_audit_events
  list_iam_audit_events-IsAllowed q actor now db = elim (Bool-cases (query_ok q)) [
    | inr e ↦ rw e tt
    | inl e ↦ elim (Bool-cases (can_read q actor db)) [
      | inl r ↦ rw e (rw r (from-IsAllowed q actor now db (truthy q.cursor) r (few q e)))
      | inr r ↦ rw e (rw r r)
    ]
  ]
