-- ===== src/Lib.antt =====
-- Attendance V3: a backend that turns camera sightings of students into daily attendance records,
-- under a governance ledger. This library models the parts of the backend that decide what is stored
-- and who may do it, and proves what they promise.
--
-- The parts, and the files that model them (paths from the repository's root):
--
-- - Prelude, Prelude/*: tests on numbers, Python lists and dicts, and floats. A finite double is a
--   whole multiple of 2^-1074, so comparisons are exact; float arithmetic is not modelled.
-- - Storage, Storage/Models: the rows of backend/app/domain/models, and the request's AsyncSession as
--   the committed rows and the rows that the open transaction sees. What the database answers to a
--   statement, a flush or a commit is the parameter `Platform`, with the clock and Python's text
--   functions; Storage/Atomic has the rules for code that never commits. A query reads the open
--   transaction and is taken to succeed: a query that fails raises before any row is written.
-- - Audit: backend/app/services/audit_service.py. Events, the ledger rows that they become, strict
--   and advisory emission. Crud: backend/app/services/base.py, the commit-or-rollback block and the
--   generic write service with its queue of events. Every later part stores its rows through these.
-- - Attendance: backend/app/services/attendance_service.py. Sightings logs heartbeats, Evaluation
--   aggregates a day, Override sets a verdict by hand, Interplay has the two after one another,
--   Listing is `list_session_records`, in the order of the table, and Export assembles the rows of
--   `export_daily_roster`. SQL's `avg` and the texts of floats and moments are parameters, a missing
--   identity is a KeyError; `Platform.strip` is Python's, and what is asked of it is `StripsBlank`.
--   Identifiers are numbers in the order of their text; moments are microseconds since the epoch in
--   UTC and dates are days, so the window of a day is `date * day` up to the next.
-- - Redis: what the code relies on of Redis keys with an expiry, as a record of operations and laws;
--   Redis/Memory is an instance. Auth/Tokens: backend/app/core/security.py, claims, validation and the
--   blocklist; PyJWT with the schema of the claims is the record `Jwt`, with the instance Auth/Tokens/Plain, and
--   Decoding says when a token decodes. Login, Refresh and
--   Logout are the routes of backend/app/api/v1/auth.py, which store their evidence through Audit.
--   A token expires at a whole second, and its moments are microseconds. Argon2 is a
--   parameter whose runs are counted; the cache of the dummy hash is an argument of the login. The order
--   of the response's cookies is not modelled. A rollback expires the user of a login, so that reading
--   it afterwards raises.
-- - Access: backend/app/api/deps.py, the guards in front of the routes, on top of Auth.
-- - Realtime: backend/app/api/v1/websockets.py. Limiter has the caps over Redis counters, whose calls
--   within one attempt are taken at one moment, since they are made under a lock; Connections has the
--   broadcast set, with what other requests do during the sends as a list of events; Tickets is the
--   ticket part of backend/app/core/pubsub.py and Admission the way from a ticket to an open stream.
--   `json`, `uuid` and `isoformat` are the record `Texts`, with the instance Tickets/Plain, and the
--   script of `consume_ticket` is made of GET and DEL. The ticket and the counter keys of Redis, which differ in their prefix, are two states. The five attempts at a ticket are the bound
--   of the source.
-- - Tracking: backend/app/services/pipeline/tracking.py, the identities of detections. Float addition
--   and distance and the order in which Python walks a set are parameters.
-- - Students: the consent decision of backend/app/api/v1/students.py, and in Profiles
--   backend/app/services/student_service.py with its routes. Users: backend/app/services/user_service.py
--   and backend/app/api/v1/users.py. Both stand on Crud, with Crud/Requests for one request and
--   Crud/Payloads for what they share. A patch is a list of fields with what each does to the row;
--   what foreign keys cascade to is not modelled.
-- - Templates: the enrollment route of students.py, with the threshold of
--   backend/app/services/enrollment_quality.py. Store has the rotation, Gates what stands before it,
--   Enroll the route; Rotation has the map with one template for each student and pose that the rows
--   stand for. Pillow, the pipeline's extraction and float parsing are parameters, and so is whether a
--   refused write is an IntegrityError. That PostgreSQL serializes two rotations of one pose is not
--   modelled: a session is alone.
-- - Importer: backend/scripts/import_enrollments.py. Inputs reads the manifest or the folder, Paths
--   resolves images, Retry asks the pipeline again, Upsert is the rotation over Templates/Store, Rows
--   the loop with the counters and the journal, Program the run and its exit codes. What is on the
--   disk, CSV and JSON parsing, SHA-256, Pillow and the extraction are parameters, an extraction for
--   each row and attempt. The retries are bounded by the source's two. A run keeps its state in one
--   record, and an upsert has a session of its own on the committed rows.
-- - Matching: backend/app/services/pipeline/matching.py. The similarity, the index scan and the texts
--   of vectors are parameters; of the scan it is used that it gives one of the rows.
--
-- Identifiers that the database generates, the clock of a call and the requester enter a request
-- record. Loops are recursions on the lists that they walk, so there is no fuel, except where a part
-- says otherwise.
--
-- Not modelled: configuration from the environment, HTTP serialisation, the ORM's relationships and
-- indexes, logging, migrations, the neural networks and their server, the task queue, the frontend
-- and the tests. The manifest lists each part with its reason.
pub mod Prelude
pub mod Fixtures
pub mod Storage
pub mod Audit
pub mod Crud
pub mod Attendance
pub mod Redis
pub mod Auth
pub mod Access
pub mod Realtime
pub mod Tracking
pub mod Students
pub mod Templates
pub mod Importer
pub mod Matching
pub mod Users
