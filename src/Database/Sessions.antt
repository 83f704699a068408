-- ===== src/Database/Sessions.antt =====
-- packages/db/src/sessions.ts: revoking the sessions of a user.
use ntauth.Common.{ℕ, not, none, some, List, [], ◌∷◌, if◌then◌else◌, filter, length}
use ntauth.Text.{Text, text, ◌===◌}
use ntauth.Json.{Value, string, number}
use ntauth.Database.{
  Actor, Tables, Run, returned, AuditEvent, AuditOutcome, denied, success, record_event, deny,
}
use ntauth.Database.Rows.{delete}
use ntauth.Database.Users.{is_platform_admin}

pub data RevocationReason : Type 0 where
  administrative compromised : RevocationReason

abbrev pub reason_text : RevocationReason → Text
reason_text administrative = text "administrative"
reason_text compromised = text "compromised"

abbrev pub revocation_event : AuditOutcome → Text → Actor → List (Text × Value) → AuditEvent
revocation_event outcome target actor metadata = record {
  actor_user_id = some actor.user_id;
  action = text "user.sessions.revoke";
  resource_type = text "user_sessions";
  resource_id = some target;
  organization_id = none;
  outcome = outcome;
  request_id = actor.request_id;
  metadata = metadata;
}

-- `revokeUserSessions`
unfoldable pub revoke_user_sessions : RevocationReason → Text → Actor → Tables → Run ℕ
unfolding is_platform_admin
revoke_user_sessions reason target actor db =
    let revoked = length (filter (λ s. s.user_id === target) db.sessions) in
    if not (is_platform_admin actor.user_id db)
    then deny
        (revocation_event denied target actor (
          (text "reason", string (reason_text reason)) ∷ (text "targetUserId", string target) ∷ []))
        db
    else (
      returned revoked,
      record_event
          (revocation_event success target actor (
            (text "reason", string (reason_text reason))
            ∷ (text "revokedCount", number revoked)
            ∷ (text "targetUserId", string target)
            ∷ []))
          record db { sessions = delete (λ s. s.user_id === target) db.sessions },
    )
