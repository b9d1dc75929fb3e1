-- ===== src/Lib.antt =====
-- strix is an object store with the interface of S3. This library models the parts that decide who
-- may do what and what becomes of the data, and proves what they do.
--
-- The parts, and the files that model them:
--
--   Base        Boolean tests, lists, texts and results that the other files share.
--   Wildcard    `matches_wildcard` of crates/strix-iam/src/policy.rs, row by row of its table;
--               Wildcard/Glob is what a match means.
--   Effect, Action, Resource, Policy
--               IAM policies and `Policy::evaluate` of the same file.
--   Condition   `evaluate_condition`, `ConditionContext` and `ip_matches_cidr` of the same file.
--   BucketPolicy
--               `BucketPolicy` of the same file, with principals and conditions.
--   Iam         the tables of crates/strix-iam/src/store.rs. Iam/Authorize is `is_authorized` and
--               `is_authorized_detailed`, Iam/Admin the operations on users, groups and their
--               policies, Iam/BucketPolicies the table of bucket policies, Iam/Keys access keys and
--               temporary credentials. Iam/Secrets is secrets.rs, and Iam/Smtp the settings of the
--               mail relay with the types of smtp.rs, and Iam/Oidc the providers of logins with
--               `OidcConfig` of idp.rs. Iam/Managed is the table of policies without an
--               owner.
--   RateLimit   the lockout of logins in the same file.
--   Gateway     `get_username`, `validate_session_token` and `check_authorization` of
--               crates/strix-s3/src/service.rs. The trait `IamProvider` is a record; Gateway/Overridden
--               fills it with the IAM store. Gateway/IamAuth is crates/strix-s3/src/iam_auth.rs.
--   Crypto      crates/strix-crypto/src/lib.rs.
--   Chrono      what the code uses of the crate chrono, as parameters.
--   Storage     crates/strix-storage/src/localfs.rs with the rows of db.rs: buckets, locks, puts,
--               deletes, reads, copies, multipart uploads and listings. Storage/Cleanup is
--               cleanup.rs.
--   Examples    concrete policies, stores and requests.
--
-- How the code is modelled. A text is the list of its code points, and bytes are a list of numbers. A
-- database is a record of tables and a table the list of its rows, in the order in which they were
-- inserted; a query that reads one row reads the first that fits. An operation that changes the
-- database takes the store and gives the new store or an error; an error leaves the store as it was. A
-- document in a column is what the parser of JSON reads from it, but in Iam/BucketPolicies, where it is
-- the text. What the code takes from outside is an
-- argument: the time, new identifiers, and the nonce of an encryption. Instants are nanoseconds.
--
-- Parameters stand for code of other libraries: `Externals` for floats and the texts of addresses
-- and numbers, `Ciphers` for hashes, base64 and AES-256-GCM, `Chrono` for sums of instants and
-- durations and where they panic, `PolicyJson` for the texts of bucket policies, `newest` for the
-- row that the database picks by `ORDER BY created_at DESC LIMIT 1`, `like` for the operator of
-- that name of the database, `sha256` for the hash of that name, and, in Gateway/Overridden, the
-- lookups of access keys. The theorems on encryption have the hypothesis `IsAead`, that
-- AES-256-GCM opens what it sealed and adds a tag of 16 bytes; those on stored secrets also
-- `IsBase64`, that base64 reads what it writes. Those on lockouts have `IsChrono`, that chrono is
-- exact on its instants. New identifiers are ULIDs; where a theorem needs that one is fresh, it
-- says so.
--
-- An operation that can fail after it changed something, `upload_part`, gives the store beside its
-- result; a body that fails leaves in the file all that came before.
--
-- All loops of the code are structural recursion on lists. Only the client of Storage/Listing/Pages,
-- which asks for page after page, has fuel: one more than there are objects is enough.
-- The casts of the settings of RateLimit and its counter of attempts, an `i32`, wrap as in a release
-- build. Sizes are natural numbers without a bound, since the columns are far from their limits.
--
-- Not modelled: failures of the disk and of the database other than the constraints named in
-- Iam/Admin, concurrent requests between two statements of an operation, the audit log other than the
-- event of a refused request, listings of versions and of uploads, notifications, presigned URLs,
-- passwords, the admin API, the command line, the web interface and
-- the start of the server.
pub mod Base
pub mod Wildcard
pub mod Effect
pub mod Action
pub mod Resource
pub mod Policy
pub mod Condition
pub mod BucketPolicy
pub mod Iam
pub mod Gateway
pub mod Crypto
pub mod Chrono
pub mod RateLimit
pub mod Storage
pub mod Examples
