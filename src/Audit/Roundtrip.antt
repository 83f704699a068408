-- ===== src/Audit/Roundtrip.antt =====
-- packages/db/src/audit-events.ts: a cursor that was made for a page is read back.
use ntauth.Common.{
  ℕ, ◌≡◌, refl, sym, ◌∙◌, ap, Bool, true, false, Option, none, some, List, [], ◌∷◌, ◌++◌, any,
  arith, and_iff,
}
use ntauth.Text.{Text, split}
use ntauth.Text.Split.{Lacks, join, split-join}
use ntauth.Audit.Cursor.{
  AuditCursor, uuid_shape, conforms, is_uuid, bar, encode_audit_cursor, cursor_of,
  decode_audit_cursor,
}

-- A text whose places all refuse the separator does not have it.
conforms-Lacks :
    (shape : List (ℕ → Bool)) (s : Text)
    → any (λ p. p bar) shape ≡ false
    → conforms shape s ≡ true
    → Lacks bar s
conforms-Lacks [] [] apart h = tt
conforms-Lacks [] (c ∷ s) apart h = ground (arith, h)
conforms-Lacks (p ∷ shape) [] apart h = tt
conforms-Lacks (p ∷ shape) (c ∷ s) apart h = (
  λ same.
      let passes : p bar ≡ true = ap p (sym same) ∙ ((and_iff _ _).0 h).0 in
      ground (arith, passes, apart),
  conforms-Lacks shape s (ground (arith, apart)) ((and_iff _ _).0 h).1,
)

id-Lacks : (id : Text) → is_uuid id ≡ true → Lacks bar id
unfolding is_uuid
id-Lacks id h = conforms-Lacks uuid_shape id refl h

module _ (iso : ℕ → Text) (parse_date : Text → Option ℕ) (to_base64 from_base64 : Text → Text) where
  two_parts :
      (timestamp id : Text) (date : ℕ)
      → parse_date [] ≡ none
      → parse_date timestamp ≡ some date
      → is_uuid id ≡ true
      → cursor_of iso parse_date to_base64 from_base64 (timestamp ∷ id ∷ [])
        ≡ some record { created_at = date; id = id }
  unfolding is_uuid
  two_parts [] id date invalid parsed h = absurd (ground (arith, invalid, parsed))
  two_parts (c ∷ timestamp) [] date invalid parsed h = absurd (ground (arith, h))
  two_parts (c ∷ timestamp) (d ∷ id) date invalid parsed h = rw parsed (rw h refl)

  -- Decoding the encoding of a cursor gives the cursor back, if its identifier has the form of one, its
  -- time is parsed back from its text, which does not have the separator, and the text of both is
  -- decoded back; an empty text is no date.
  pub decode_audit_cursor-encode :
      (c : AuditCursor)
      → parse_date [] ≡ none
      → parse_date (iso c.created_at) ≡ some c.created_at
      → Lacks bar (iso c.created_at)
      → is_uuid c.id ≡ true
      → from_base64 (to_base64 (iso c.created_at ++ bar ∷ c.id)) ≡ iso c.created_at ++ bar ∷ c.id
      → decode_audit_cursor iso parse_date to_base64 from_base64
          (encode_audit_cursor iso parse_date to_base64 from_base64 c)
        ≡ some c
  unfolding decode_audit_cursor join
  decode_audit_cursor-encode c invalid parsed free h decoded =
      let parts : split bar (iso c.created_at ++ bar ∷ c.id) ≡ iso c.created_at ∷ c.id ∷ [] =
        split-join bar (iso c.created_at) (c.id ∷ []) free (id-Lacks c.id h, tt) in
      rw decoded (rw parts (two_parts (iso c.created_at) c.id c.created_at invalid parsed h))
