-- ===== src/Lib.antt =====
-- SCHAPP runs a school: Django applications over one database per school, called by a web client and
-- by a mobile client that queues its writes while it is offline. Services change the tables inside
-- `tenant_atomic`, so that what they wrote is taken back where they raise; batches run row by row in
-- one transaction; money comes over a counter or through a payment gateway whose verdicts arrive by
-- webhook, by a bursar's click and by a periodic sweep; a middleware answers replayed writes.
--
-- Parts, and the files that model them:
--   Base, Int: Boolean tests, lists, texts as code points, whole numbers of kobo.
--   Db: actions on a state that may raise, and `tenant_atomic` (apps/tenants/db.py) as their rollback.
--   Bulk: batches (apps/api/bulk.py).
--   Numbering: number formats and `next_number` (apps/people/numbering.py).
--   Academics: apps/academics. Models holds the enrolments and students that several parts read
--     (apps/academics/models.py, apps/people/models.py). Of apps/academics/services.py, Calendar is the
--     current session and term, Placement the enrolment of students and their classes, Registration
--     the registration of courses and, in Approval, what is decided on it, Prerequisites the walk for
--     cycles, and Timetable the periods; the other children hold proofs.
--   Finance: bills and payments. Models is apps/finance/models.py; Books the tables, with the reads
--     and writes of the services; Invoicing and Payments the two halves of apps/finance/services.py,
--     a function per service with its name; Gateway the answers of apps/finance/gateways/base.py.
--     Sums, Invariant and the children of Invoicing and Payments hold proofs, and Steps runs the
--     services one after the other.
--   Idempotency: the middleware of apps/api/idempotency.py around any view.
--   Assessment: Promotion is `apply_promotions` (apps/assessment/services.py) over the enrolments of
--     Academics; Pending and Again hold proofs.
--   Attendance: `mark_bulk` (apps/attendance/services.py), with the rows of apps/attendance/models.py.
--     Gate is the biometric webhook; Versions, Stale and Punches hold proofs.
--   Phone: RateLimit is apps/auth_phone/ratelimit.py over a cache whose entries expire, Otp the
--     verification of a code in apps/auth_phone/services.py, Msisdn the phone numbers of
--     apps/numbering/msisdn.py, Tokens the refresh tokens of apps/auth_phone/tokens.py; Lockout,
--     SingleUse and the children of Msisdn and Tokens hold proofs.
--   Grading: apps/assessment/grading.py; Order and Rank hold the proofs
--     about bands and positions.
--   People: Admissions is `transition_application` (apps/people/services.py), and History its runs.
--   Tests: the theorems at concrete inputs.
--
-- A table is a list of rows, and a row's key is a number. `objects.get`, `filter` and `save` are
-- searches and rewrites of the list; a unique constraint is a test before the write. Amounts are
-- whole kobo, marks whole hundredths, times seconds, in Phone microseconds, and dates days. A service that reads the clock
-- takes the time as an argument. Every function is total by structural recursion. Fuel is used
-- twice: in Numbering.Decimal it bounds the digits of a number by the number itself, and the walk of
-- Prerequisites has two more than the rows of the catalogue, each round but the first of which marks a
-- row that was not marked.
--
-- Parameters are what the repository does not hold: the gateways' answers, SHA-256, the keyed MAC, the
-- shape of a UUID, simplejwt, libphonenumber with Unicode's digits, the settings' limits, the decoding of
-- an answer's bytes, and the view behind the middleware.
--
-- Not modelled: the rest of the services of people, results, messaging,
-- provisioning of databases, requests for codes, views and most serializers, which are still
-- to come or only pass data on, and the mobile client, which is another program. Messages and log
-- lines are left out, and the audit trail is a list of what was done to which row.
pub mod Base
pub mod Int
pub mod Db
pub mod Numbering
pub mod Finance
pub mod Bulk
pub mod Academics
pub mod Idempotency
pub mod Grading
pub mod Assessment
pub mod Attendance
pub mod Phone
pub mod Tests
pub mod People
