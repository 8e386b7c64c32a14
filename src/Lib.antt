-- ===== src/Lib.antt =====
-- Verification of the public lighting fault reporting service: the backend in backend/src, whose
-- PostgreSQL tables are the state that its services share.
--
-- The parts and the files that model them:
--   Base         numbers, lists, texts as lists of UTF-16 code units, and the statements of SQL that
--                the services send, as functions on a list of rows: find_row (SELECT), update_rows,
--                delete_rows, count_rows, delete_oldest (DELETE ... ORDER BY ... LIMIT)
--   Email        the verification of a reporter's address: Email.Data (rows, results and constants),
--                Email.Rates, Email.Cleanup and Email.Store for
--                backend/src/services/emailVerificationStore.ts, Email.Service for
--                emailVerification.service.ts beside it; the other children hold the proofs
--   Auth         the administrators' sessions: backend/src/services/auth.service.ts
--   Csv          the scanner of CSV records in backend/src/services/streetLightsImport.service.ts and
--                the writer of CSV rows in streetLightsExport.service.ts
--   History      the history of fault reports: backend/src/services/faultReportHistory.service.ts and
--                backend/src/domain/reportTarget.ts; Record.Ledger is its abstract specification,
--                which Record.Refine shows it to implement
--   Import       the parsing and the preview of inventory files: Records, Source and Preview for
--                parseRecord, parseImportSource and buildImportPreview of
--                backend/src/services/streetLightsImport.service.ts
--   ImportQueue  the queue of inventory imports: Rows and Worker for the statements of
--                backend/src/services/importQueueWorker.service.ts, Batches for its loop, for the
--                claim of a batch and for confirmImport of streetLightsImport.service.ts
--   Limiter      the token buckets by client: backend/src/security/addressIpLimiter.ts
--   Scheduler    the backup scheduler and its journal: backend/src/operations/scheduler.ts
--   Retention    the deletion of old records: backend/src/operations/retention.ts
--   Migration    the migration runner: backend/src/db/migrate.ts
--   Monitoring   the checks of operations: backend/src/operations/monitoring.ts
--   Suggest      the admission of address suggestions: BoundedAdmissionController of
--                backend/src/services/reportAddressSuggestion.service.ts, its operations in
--                Admission and its events in Events
--   Phone        telephone numbers: backend/src/utils/slovakPhone.ts
--
-- A function of the source keeps its name in snake case (verifyChallenge is verify_challenge), a
-- type its own name. A service's operation takes the tables, the readings of the clock and the
-- random values that it uses, and returns the tables after it with its result; a thrown error is
-- `none` or a constructor of the result. A function that is long in the source is split where it
-- branches, and each piece says in its comment which part it is.
--
-- How the model stands to the program:
--   - Times are whole milliseconds or seconds, as the statements compare them. A statement reads the
--     clock once; different statements read it separately. In Email each reading is an argument.
--   - A transaction, and a single statement, runs alone on the tables, as its row locks and the
--     advisory locks of the source make it. Calls are not interleaved below that level.
--   - Digests, tokens, identifiers, names and other texts that are only copied and compared are
--     numbers. SHA-256, HMAC, bcrypt, jsonwebtoken, the mail provider, the backup executor, the
--     statements of a migration and the constraints of PostgreSQL are parameters.
--   - The tokens of Limiter are whole 60000ths, where the source holds doubles.
--   - In Suggest an entry is a cell of a list and its reference the position; the clock and the
--     policies answer their n-th call. `pump` runs on fuel, one turn more than the queue has entries,
--     which is enough. The signal that tells the provider to stop is not modelled, since the provider
--     is free to end its work at any time.
--   - `refresh_tokens` of Auth is the request alone; `live_session` is its SELECT and `refresh_session`
--     the rest, and the statements of other requests may fall between them.
--   - A fault of an import statement depends on the payloads that it writes, so it is met again by the
--     replay; the statements that set a row aside or complete a batch do not fail. Pending rows of one
--     batch have different inventory numbers after the preview.
--   - What the bytes of one call of `response.write` are read back as is a parameter of Csv.
--   - Loops are recursion on the list they read, or on the bound that the source gives them (chunks,
--     batches, rows of a replay). `process_batch`, which the source bounds by nothing, runs on fuel;
--     one turn more than there are pending rows is enough. `write_chunks` runs on the length of its
--     text, since each chunk takes at least one unit.
--
-- Not modelled: routes, controllers, middleware and configuration, which call these services; the
-- HTTP clients and file access; the inventory's filters, recovery drills, backup
-- archives and restores; and the web applications in frontend.
pub mod Base
pub mod Email
pub mod Limiter
pub mod Scheduler
pub mod Csv
pub mod ImportQueue
pub mod Auth
pub mod Retention
pub mod Migration
pub mod Phone
pub mod Monitoring
pub mod Suggest
pub mod Import
pub mod History
