-- ===== src/Lib.antt =====
-- NTAuth: the authorization core of an identity and access service, modelled from its TypeScript.
--
-- The parts, and the files that model them:
--
-- * packages/permissions/src is the policy language, which the API validates and stores and the
--   clients evaluate. Permissions/Identifier (isPolicyIdentifier of iam.ts), Permissions/Document
--   (validatePolicyDocument of iam.ts), Permissions/Conditions (conditions.ts),
--   Permissions/Evaluator (evaluator.ts) and Permissions/Scopes (oauth.ts). A function of the source
--   has the same name here, in snake case. The array of issues that a validation pushes to is passed
--   from call to call; each loop is a recursion with the loop's variables as arguments.
-- * packages/db/src keeps users, sessions and organizations in a database. Database holds the tables
--   of schema.ts, Database/Users the functions of user-lifecycle.ts, Database/Sessions that of
--   sessions.ts, and Database/Organizations those of organizations.ts. Each function of the source is
--   one transaction: it takes the tables, and gives a value or the error that is thrown, with the
--   tables that are then committed; the tables are unchanged if the error is thrown inside the
--   transaction. Database/History has sequences of such calls, each of which runs alone, although
--   some reads of the source take no lock.
-- * Policies is packages/db/src/effective-policies.ts: it joins memberships, grants, groups and
--   attachments of the database to the policies that the evaluator then reads.
-- * Grants is packages/db/src/service-grants.ts, over the same tables with those of the services and
--   their grants: which member of an organization may use which service. Grants/Update switches and
--   revokes a grant, and Grants/Calls has sequences of calls.
-- * Invitations is packages/db/src/invitations.ts, over the same tables with those of the invitations
--   and of the jobs, whose rows are those of Worker/Queue: Invitations/Create creates an invitation
--   and previews it, Invitations/Accept accepts it.
-- * Passwords is packages/db/src/passwords.ts, over the same tables with the passwords, the requests
--   to reset them and the jobs; Passwords/Change changes a known password.
-- * Audit is packages/db/src/audit-events.ts, over the same tables with the services and the events
--   with their identifiers and times: Audit/Query the conditions of listIamAuditEvents,
--   Audit/Query/Page its pages, Audit/Cursor the texts by which the next page is asked for, and
--   Audit/Export the export of all pages.
-- * Mfa is packages/db/src/mfa.ts: Mfa/Base32 the texts of secrets, Mfa/Code the codes, and
--   Mfa/Challenge the enrolment and the challenge of platform administrators.
-- * Worker is apps/worker/src: Worker/Queue the methods of JobQueue (queue.ts), each one statement on
--   the table of jobs, which runs alone, so that `skip locked` has no effect, and Worker/Processor one
--   round of a worker (worker.ts), whose claim and settlement follow each other.
-- * apps/api/src/rate-limit.ts limits the requests that authenticate. Api/RateLimit has its rules,
--   `check` and `observe` over a store that may fail, and Api/RateLimit/Redis the scripts that Redis
--   runs for the store; time passes between their runs, and keys expire then.
-- * Text models JavaScript strings as lists of UTF-16 code units, and Json the values of type
--   `unknown`. Both stand for the language, not for a file of the repository.
--
-- Parameters: the commands of Redis, with their documented laws, HMAC-SHA-256 and the lower case
-- of a text are arguments of the request limits, and `localeCompare` of the effective policies;
-- HMAC with SHA-1, AES-GCM and random secrets those of the second factor, the handlers those of
-- the worker, and SHA-256, `URL`, lower case, the address check of the database and the check of
-- a password those of the invitations and passwords; the texts of dates and the encodings of
-- bytes those of the audit log. `JSON.stringify` followed by a UTF-8 encoding gives a number of
-- bytes or throws; the validation takes it as a function. The identifier that the database makes
-- for a new row and the time of a call are arguments. A regular expression is modelled by the
-- language that it denotes.
--
-- Fuel: the decimal digits of a number are computed on fuel, one more than the number, which has
-- no more digits than that; the inner loop of base32Encode on 2, since it has at most 12 bits at
-- hand; the export of the audit log on 100, since a page with a successor has 100 events and the
-- export stops at 10,000.
--
-- Not modelled: in packages/db the listings of users and organizations, the tag of the effective
-- policies, the administration of policies and OAuth clients and the verification of e-mail
-- addresses, which have no file here; the clients of packages/elysia-auth and packages/nuxt-
-- auth; HTTP routing, Vue code, the database driver, Better Auth, mail delivery and deployment,
-- which only move data between the parts above or belong to other projects.
pub mod Common
pub mod Text
pub mod Json
pub mod Permissions
pub mod Database
pub mod Api
pub mod Policies
pub mod Worker
pub mod Mfa
pub mod Grants
pub mod Invitations
pub mod Passwords
pub mod Audit
