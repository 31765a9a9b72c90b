-- ===== src/Lib.antt =====
-- The core of box-fraise-server, a Rust service over Postgres for a running club: how two people
-- who met come to talk, the channel they then have, adverts that runners are paid to open, the
-- answers that strangers send to an editor, the columns and photographs of members, memberships
-- granted in person or by the scan of a device, runners who log their runs, and identity cards.
--
-- The program's parts. A handler (src/domain/<part>/service.rs) opens a transaction for its caller
-- (src/db.rs), reads and writes through one function for each SQL statement (repository.rs),
-- commits, writes an audit event (src/audit.rs) and replies with a value or an error
-- (src/error.rs). Row-level security and constraints of migrations/ decide what a statement may
-- see and write. Pairings open channels; messages travel over channels that the pairings have
-- opened; adverts, the anonymous answers of src/domain/runaway, and the cards of
-- src/domain/consultations are apart. Submissions read the numbers and the attendances of
-- src/domain/members, and src/domain/onboarding makes members in the tables of src/domain/members.
-- src/http/middleware.rs resolves the tokens that members and running hand out, and
-- src/http/cookies.rs takes them to a browser and back.
--
-- Files. Prelude holds the shared names, the tests on numbers, lists, signed integers and texts.
-- Table holds the SQL statements as functions on lists of rows, and Table/* the lemmas on them.
-- Errors is src/error.rs. Server is what a request meets outside its tables: clocks, randomness,
-- src/audit.rs, src/crypto.rs. Pairings is src/domain/pairings: Types, Repository and Service are
-- the files of those names, one function for each of theirs, and Trace is routes.rs, with
-- sequences of requests. A handler takes the environment and the tables, and returns its reply
-- with the tables as they are committed; its early returns are a function `check_…` in the monad
-- of Result, its writes a function `write_…`, and what follows them a function `conclude_…`.
-- Pairings/Lifecycle, Claims, Deciding, Gate, Atomic and Privacy are proofs. Messages, Adverts and
-- Runaway are built in the same way from src/domain/messages, src/domain/adverts and
-- src/domain/runaway; Adverts/Requests is the part of repository.rs for businesses and admins,
-- Runaway/Service is all files of its part. Consultations, Running, Members, Onboarding and
-- Submissions are the parts of those names: Consultations/Serial is the serials of service.rs,
-- Running/Board the arithmetic of the score, Submissions/Content the validation helpers of
-- service.rs. Http/Cookies and Http/Middleware are those files of src/http, with the extractors.
-- The proofs are in Messages/Access, Blocking, Reading and Keys, in Adverts/Opening, Cases, Books,
-- Attention, Refusals, Listing, Settling, Receipts, Ledgers and Accepting, in Runaway/Review and
-- Publishing, in Consultations/Canonical, Cards, Completion, Racing and Lookup, in Running/Cases,
-- Sound, Signing, Averages and Standing, in Members/Credentials, in Onboarding/Cases, Replay,
-- Verifying, Numbers, Numbering and Knowing, in Http/Resolving, Plain, Visible, Lines and Pairs, and in
-- Submissions/Inversion, Review and Posting. The modules called Tests run the theorems on concrete
-- tables.
--
-- How state is modelled. A table is the list of its rows in order of insertion. Uuids are natural
-- numbers, of which only the order is used; times are natural numbers of microseconds; a text is
-- the list of its Unicode scalar values. What the random generators and clocks give is in the
-- record Env: the first and the later Utc::now() of a handler and the now() of its database
-- transaction, which no theorem relates to each other. A transaction that fails returns the tables
-- it began with; each request is atomic, and an interleaving of requests is a list of them; only
-- replace_card of consultations, whose two transactions may have others between them, is two steps
-- as well. Rows with equal keys of an ORDER BY, whose order SQL leaves open, stay in order. Every
-- loop is over a list, but for the one that prints a number in decimal, whose fuel is the number
-- and one more, where each round takes a tenth.
--
-- Integers. The amounts of adverts are i32 in the requests, where they may be negative: they are
-- the type ℤ there, and natural numbers in the tables, whose constraints admit positive ones only.
-- The sums are i64 in Rust; at the 100,000 cents and 100,000 opens that an advert may have they
-- stay below 2^63 for any table of fewer than nine hundred million adverts.
--
-- The measures of a run are i32 in the requests and natural numbers in the table in the same way.
-- The score of the board is an exact fraction here, where Postgres rounds; the f64 test of a speed
-- against 0.5 and 8 is exact for the integers it meets, and is written without division. The
-- sequence of member numbers has no end here; in Postgres it stops at 2^31 - 1.
--
-- Parameters. The crates base64 and p256 are the record Crypto; the calendar of America/Edmonton
-- and the Unicode case tables are the record Locale. The crates sha2 and argon2 are the record
-- Hashing, and the header values of the crate http are the record HeaderValues; running takes the
-- lower case of characters that are not ASCII as a function. Three laws are assumed of them: in
-- Messages/Reading, that base64url without padding encodes what it has decoded as it was, in
-- Running/Signing, that Argon2 verifies what it has hashed, and in Http/Pairs, that visible ASCII
-- becomes a header value of those bytes and is read back from it.
--
-- Not modelled: deletion of users and the foreign keys to them, two transactions that overlap
-- inside the database, the pool and the network, the static files of src/http/admin_assets.rs, the
-- multipart reader of submissions, the maintenance loop but for its deletion of submissions, and
-- the other parts of src/domain.

pub mod Prelude
pub mod Table
pub mod Errors
pub mod Server
pub mod Pairings
pub mod Messages
pub mod Adverts
pub mod Consultations
pub mod Running
pub mod Members
pub mod Onboarding
pub mod Http
pub mod Submissions
pub mod Runaway
