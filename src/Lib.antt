-- ===== src/Lib.antt =====
-- A model of tinyland-auth: roles, permissions, sessions, second factors and their storage.
--
-- The program is a TypeScript library that an application builds its authentication of
-- administrators on. Storage adapters keep users, sessions, second factors, invitations and audit
-- events; services hold the rules and call an adapter through an interface; permission functions
-- are pure. Each part is a tree of modules here, over the helpers of Base.
--
--   Roles, Roles/Order            src/types/auth.ts: AdminRole, ROLE_HIERARCHY, isValidAdminRole,
--                                 hasHigherRole, ROLE_MANAGEMENT_ORDER
--   Permissions/*                 src/types/permissions.ts and src/core/permissions/index.ts: the
--                                 constants (Catalog), hasPermission and its relatives (Check), the
--                                 predicates on a role's text (Predicates), visibility of content
--                                 (Visibility), names for display (Display); Grants, Floor,
--                                 Management, Spelling and Viewing hold the theorems
--   Ownership, Ownership/Laws     src/core/permissions/ownership.ts
--   Types, Types/*                the records of src/types/auth.ts and the filters of
--                                 src/storage/interface.ts
--   Sessions/Policy               src/storage/session-policy.ts: assertBoundedSessionPolicy,
--                                 assertStoredSessions, boundedSessions; theorems in Order,
--                                 Inserted, Bounds, Eviction and Store
--   Sessions/Storage              the session operations of src/storage/interface.ts as a record
--                                 SessionStorage, and what the manager relies on as SessionLaws
--   Sessions/Manager, Lifecycle,  src/core/session/index.ts: SessionManager over any SessionStorage;
--   Sessions/Removed              Removed follows a store through any calls of the manager
--   Memory, Memory/*              src/storage/memory.ts: MemoryStorageAdapter, one module for each
--                                 kind of data; SessionLaws shows that it is a lawful
--                                 SessionStorage, Indexing, Lookup, Reindex and UserLaws treat the
--                                 maps from handles and emails to users, Bounded the bound on
--                                 sessions
--   Activity, Activity/Throttle   src/core/session/activity-tracking.ts: the renewal of sessions on
--                                 activity, over any SessionStorage
--   BackupCodes, BackupCodes/*    src/core/backup-codes/index.ts
--   Authenticator                 src/totp/otplib-compat.ts
--   Totp, Totp/Replay             src/core/totp/index.ts: verifyToken, verifyTokenWithStep
--   File, File/*                  src/storage/file.ts: FileStorageAdapter, one module for each kind of
--                                 data, and Expected for the deletions of expected material;
--                                 Abstract is the session store as a partial map, and Lookup,
--                                 Refinement and Runs show that the operations implement it
--   Journal                       the coded errors of the journalled coordinators
--   Retirement, Retirement/*      src/storage/totp-retirement-material.ts (Material) and
--                                 src/storage/file-totp-retirement.ts: Records has the records and
--                                 their tests, Store the journal, Apply the projection, Operations
--                                 recover, retire and readReceipt; Checks, Owner, Effects, Keeps,
--                                 Writes, Deletions, Valid and Completes treat the projection step by step,
--                                 Sound and Authorized what a receipt says
--   Bootstrap, Bootstrap/*        src/modules/bootstrap/index.ts: BootstrapService over the record
--                                 BootstrapStorage of the operations that it calls (Service); Once
--                                 and Sound rely on BootstrapLaws, Adapters shows that both adapters
--                                 keep them; Completes relies on CompletionLaws, which the memory
--                                 adapter and files whose writes succeed keep (Durable)
--   Audit, Audit/*                src/modules/audit/index.ts: AuditLogger over the record AuditStorage,
--                                 its timer a flag; a run is a list of calls and firings of the timer
--                                 (Delivery), Kept is about storages that fail, Attempts about the
--                                 count of failed logins, Adapters about both adapters
--   Invitations, Invitations/*    src/modules/invitation/index.ts: InvitationService over the record
--                                 InvitationStorage; Laws relies on InvitationLaws, which both
--                                 adapters keep (Adapters), Counts is about the statistics
--   StepUp, StepUp/*              src/storage/action-step-up.ts: FileActionStepUpStore. Records has
--                                 the records and their tests, Store the directory, read and write,
--                                 Prune the removal of expired files, Operations issue, verify and
--                                 consume; Spent, Keeping and Once follow a consumed record through
--                                 any operations; Written, Sound, Approval, Reading, Valid and
--                                 Budget treat single operations
--
-- How the code is represented. An adapter is a record of its fields; an operation takes the record
-- and returns its answer with the new record. A Map is a list of entries in the order of their
-- first insertion (Base/Assoc). A function that throws returns a Result, whose err holds the
-- message; where a method throws after it may have changed state, the answer is a Result beside
-- the state. Random ids and the time are arguments, the time in milliseconds since the epoch. A
-- date text is a Timestamp: the milliseconds that Date.parse reads, or an invalid date, with which
-- every comparison is false. Dates before 1970 and fractions of a millisecond do not occur, and
-- whole numbers are below 2^53, so that isSafeInteger holds of them. An optional field is an
-- Option; null and undefined are both none. toLowerCase and toUpperCase are those of ASCII text.
-- Methods run one at a time: the memory adapter's methods contain no await between a read and the
-- write that depends on it, the session operations of the file adapter and the step-up store are
-- queued, and the retirement coordinator runs under its gate. The file adapter's other methods
-- have no such queue, and calls of them that overlap are not modelled, nor are calls of the
-- bootstrap's complete that overlap, of which both may pass the test for users. Loggers are left
-- out and do not throw.
--
-- Parameters. SHA-256 is a function from text to text, about which nothing is assumed. The RFC
-- 6238 library is a record of its two verification functions, which may answer anything or throw.
-- The step-up store has a Custody, its keyed digest and its JSON texts, of which some theorems
-- assume that the digest is 64 hexadecimal digits, and Surroundings, which say for one operation
-- what of the file system works and what each reading of the clock gives; random ids and the
-- answer of the factor check are arguments. Its directory is a map from file names; temporary
-- files, which hold no authority, reading errors other than a missing file, and clocks or keys
-- that are refused are left out, and a text's length counts its characters. A write of the file
-- adapter has a Writing, which says whether its rename or unlink happens and whether all of it
-- succeeds; one projection of a retirement has Writings, with the times that it reads. The
-- retirement material has an Encoding, SHA-256 and the JSON text of texts, numbers and dates, and
-- the journal a Sealing, its keyed digest under a key that is long enough and the JSON text of a
-- record; nothing is assumed about them. In `current` of the retirement both readings of the clock
-- give the same time; temporary files, limits on the size of a file, the checks of the paths above
-- it and read failures are left out there and in the file adapter. bcrypt, the cipher of a TOTP
-- secret and the rendering of a QR code are functions that may answer anything or throw. setHours
-- adds whole hours, as in a zone without clock changes. The session manager takes any adapter with
-- the laws of SessionLaws.
--
-- Recursion is on lists and texts, so no fuel is needed.
--
-- Not modelled: bcrypt, ciphers, QR codes, random generation, timers and the delays against
-- timing attacks; the coordinators of bootstrap and enrolment over files, handle
-- validation, the repository and the adapter for SvelteKit.
pub mod Base
pub mod Roles
pub mod Types
pub mod Permissions
pub mod Ownership
pub mod Sessions
pub mod Memory
pub mod BackupCodes
pub mod Bootstrap
pub mod Authenticator
pub mod Totp
pub mod File
pub mod Invitations
pub mod Journal
pub mod Retirement
pub mod StepUp
pub mod Activity
pub mod Audit
pub mod Tests
