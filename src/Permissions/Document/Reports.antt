-- ===== src/Permissions/Document/Reports.antt =====
-- packages/permissions/src/iam.ts: the issues of a validation.
use ntauth.Common.{Bool, List, [], ◌∷◌, ◌++◌, if◌then◌else◌}
use ntauth.Text.{Text}

pub data IssueCode : Type 0 where
  catalogue duplicate format limit required scope wrong_type unknown : IssueCode

pub record PolicyValidationIssue : Type 0 where
  pub code : IssueCode
  pub message : Text
  pub path : Text

abbrev pub Issues : Type 0
Issues = List PolicyValidationIssue

-- `addIssue`
unfoldable pub add_issue : Issues → Text → IssueCode → Text → Issues
add_issue issues path code message =
    issues ++ record { code = code; message = message; path = path } ∷ []

-- `if (condition) addIssue(...)`
unfoldable pub add_if : Bool → Issues → Text → IssueCode → Text → Issues
unfolding add_issue
add_if condition issues path code message =
    if condition then add_issue issues path code message else issues
