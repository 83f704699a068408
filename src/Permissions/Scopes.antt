-- ===== src/Permissions/Scopes.antt =====
-- packages/permissions/src/oauth.ts: the catalogue of OAuth scopes and its filter.
use ntauth.Common.{
  ◌≡◌, ◌↔◌, Bool, true, ◌&&◌, List, [], ◌∷◌, Among, filter, filter_mem, and_iff, map,
}
use ntauth.Text.{Text, text, includes}
use ntauth.Text.Laws.{includes_iff}

-- `OAUTH_SCOPE_CATALOG`, each scope with its claims; the descriptions are left out
abbrev pub oauth_scope_catalog : List (Text × List Text)
oauth_scope_catalog =
    (text "openid", text "sub" ∷ [])
    ∷ (text "profile", text "name" ∷ [])
    ∷ (text "email", text "email" ∷ text "email_verified" ∷ [])
    ∷ (text "offline_access", [])
    ∷ (text "ntscout:access", text "organization_id" ∷ text "service" ∷ text "policies_etag" ∷ [])
    ∷ []

-- `OAUTH_SCOPES`
abbrev pub oauth_scopes : List Text
oauth_scopes = map (λ e. e.0) oauth_scope_catalog

pub is_oauth_scope : Text → Bool
is_oauth_scope value = includes oauth_scopes value

unfoldable pub filter_oauth_scopes : List Text → List Text → List Text
unfolding is_oauth_scope
filter_oauth_scopes requested allowed =
    filter (λ scope. is_oauth_scope scope && includes allowed scope) requested

is_oauth_scope_iff : (value : Text) → (is_oauth_scope value ≡ true) ↔ Among value oauth_scopes
unfolding is_oauth_scope
is_oauth_scope_iff value = includes_iff oauth_scopes value

-- The granted scopes are exactly those that were requested, are allowed to the client and stand in
-- the catalogue.
pub filter_oauth_scopes_iff :
    (requested allowed : List Text) (scope : Text)
    → Among scope (filter_oauth_scopes requested allowed)
      ↔ (Among scope requested × Among scope allowed × Among scope oauth_scopes)
unfolding filter_oauth_scopes
filter_oauth_scopes_iff requested allowed scope =
    let kept = filter_mem (λ s. is_oauth_scope s && includes allowed s) scope requested in
    let tests = and_iff (is_oauth_scope scope) (includes allowed scope) in
    let known = is_oauth_scope_iff scope in
    let permitted = includes_iff allowed scope in
    (
      λ h.
          let (asked, test) = kept.0 h in
          let (k, p) = tests.0 test in (asked, permitted.0 p, known.0 k),
      λ (asked, p, k). kept.1 (asked, tests.1 (known.1 k, permitted.1 p)),
    )
