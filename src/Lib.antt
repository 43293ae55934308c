-- ===== src/Lib.antt =====
-- The e-campus server: the decision engine, the domain services and their SQL adapters, as functions
-- on explicit state.
--
-- Parts. internal/authz decides who may do what; every route of the server asks it first. It reads
-- facts through ports (policies, lineage, seats, posts). internal/management keeps the academic
-- calendar; its services read and write rows through repositories, which internal/management/postgres
-- implements. Several requests run at once, and a version column settles their races.
-- internal/classroom teaches inside one offering; of it the exams are modelled, whose attempts are
-- limited by the insert statement. internal/files keeps stored content, one inode for each hash, and
-- counts the references that the other parts hold; its janitor deletes what nothing refers to.
-- internal/subscription holds the institution's limits, which uploads ask for.
--
-- Files.
--   Prelude: shared names, tests, list loops, results and state-passing calls, and tables (Table).
--   Authz/Vocabulary, Keys, Policy: the string types, policy keys and records of internal/authz.
--   Authz/Staff, Engine: the checks of staff.go, classroom.go and posts.go, one function each, under
--     the Go name in snake case.
--   Authz/Defaults: the table of policy_defaults.go, row by row.
--   Authz/Laziness, Grants, Reach, Audit: theorems. Authz/Examples: tests.
--   Management/Semester: internal/management/semester.go (Data, Service, and End for EndSemester) and
--     postgres/semester.go (Postgres), other transactions between the statements (Interleaving),
--     theorems (Commit, Status, Progression, Writes, Stale, Versions) and tests (Examples).
--   Management/Leave: internal/management/leave.go and UpdateStudent of student.go (Data, Service) with their
--     statements (Postgres), requests in sequence (Serving), theorems (Sound, Status, Edits) and tests
--     (Examples). A request runs as a whole here.
--   Classroom/Exam: internal/classroom/exam.go (Data, Scoring, Inputs, Service) and postgres/exam.go (Postgres
--     for exams, Attempts), requests and their sequences (Serving), theorems (Counting, Caps,
--     Existence, AttemptCaps, ManualCaps, Requests, Marks, Awards, Visibility) and tests (Examples). A request
--     to the exams runs as a whole here.
--   Classroom/Grading: internal/classroom/grading.go (Data, Service) with the statements on enrollments, the
--     outcome of Finalize (Outcome, Finalize) and tests (Examples).
--   Classroom/Attendance: internal/classroom/attendance.go (Service) with its statements (Postgres), requests
--     and deletions of lessons in sequence (Serving, with Standing), a repeated initialization (Sheets)
--     and tests (Examples). Notifications, lists and other deletions that take lessons are left out.
--   Files: internal/files (Data, Service), its postgres adapters (Postgres), and the attachments of
--     internal/classroom/content.go with the calls of files_reader.go (Lessons); requests and ticks in sequence
--     (Serving), an upload between the two steps of a reclaim (Race), theorems (Tally, Counted, Linking,
--     Attaching, Bytes) and tests (Examples). Other tables that refer to inodes are left out.
--   Pagination: internal/shared/pagination/pagination.go, with what the escaped text matches (Escape), the
--     cursor (Cursor), and tests (Examples).
--   Subscription: internal/subscription/subscription.go (Data, Service) and its postgres adapter
--     (Postgres), an update among other transactions (Atomic), effective limits (Effects), the history
--     (Log), and tests (Examples).
--
-- Conventions. A UUID is a number (`uuid.Nil` is 0), a nil pointer is `none`, a named string type is a
-- data type with its constants and `other` for any other string. A port is a record of functions
-- that may fail; nothing is assumed of it unless a theorem says so. An SQL statement is a function on
-- the tables; statements are atomic, and what runs between two of them is explicit. Retry loops are
-- recursive on the number of rounds left (`maxUpdateRetries` is 3).
--
-- Bounds. Exam scores, which are floats in the code, are natural numbers, so fractions and rounding are
-- left out of their sums; automatic grading only takes weights over, and is for weights of any kind.
-- Indices in answers and the tiers' limits are natural numbers. A cursor's nanoseconds are signed, and
-- its theorem is about those of 64 bits. Of the floats in course grades nothing is assumed. What the
-- server stores as JSON is its decoded value.
--
-- Not modelled: HTTP handlers, wiring, logging, Redis and MinIO clients, migrations.
pub mod Prelude
pub mod Authz
pub mod Management
pub mod Classroom
pub mod Files
pub mod Pagination
pub mod Subscription
