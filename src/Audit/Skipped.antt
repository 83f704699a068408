-- ===== src/Audit/Skipped.antt =====
-- packages/db/src/audit-events.ts: a cursor holds the millisecond of an event, not its time.
use ntauth.Common.{and_false, ℕ, ◌<◌, ◌≡◌, false, some, arith}
use ntauth.Audit.{LoggedEvent, created_date, in_micros}
use ntauth.Audit.Query.{IamAuditQuery, before_cursor, is_asked, is_listed}
use ntauth.Audit.Query.Page.{cursor_at_event}

skipped_before :
    (shown e : LoggedEvent)
    → created_date e ≡ created_date shown
    → in_micros (created_date e) < e.created_at
    → before_cursor e (cursor_at_event shown) ≡ false
skipped_before shown e same later = ground (arith, same, later)

-- After the cursor of an event, no query gives an event that was logged later than the start of the
-- same millisecond, whether it comes before or after that event in the order of the pages.
pub is_listed_skips :
    (q : IamAuditQuery) (now : ℕ) (shown e : LoggedEvent)
    → created_date e ≡ created_date shown
    → in_micros (created_date e) < e.created_at
    → is_listed q (some (cursor_at_event shown)) now e ≡ false
unfolding is_listed
is_listed_skips q now shown e same later =
    and_false _ (is_asked q (some (cursor_at_event shown)) e)
      (and_false _ (before_cursor e (cursor_at_event shown)) (skipped_before shown e same later))
