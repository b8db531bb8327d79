-- ===== src/Lib.antt =====
-- The core of Voucher Management Desktop (src/voucher_management), a desktop program that prepares,
-- prints, deletes and reports the guest vouchers of a UniFi controller. The controller owns the
-- vouchers; a local SQLite database owns the history: who a voucher is for, whether it was printed,
-- whether it was ever used, and why it was deleted.
--
-- The parts, and how they interact:
--   Prelude            Boolean tests, lists over the native numbers, dictionaries, and the `str`
--                      functions that the program calls.
--   Database           src/voucher_management/database.py. `Rows` has a record for a row of each table;
--                      a table is the list of its rows in the order of their rowids. `Action` is a
--                      call on the connection: it takes the tables and gives a result, or the error of
--                      a `raise`, with the tables as they are then. `transaction` commits or rolls
--                      back. `Upsert` is `upsert_voucher`, `Created` is
--                      `mark_application_created_vouchers`, `PrintLabels` and `PrintAudit` are
--                      `record_print_audit`, `PrintSummary` is `print_summary`. `WellFormed` states
--                      the constraints of the table of vouchers, `Selection` what it means that a
--                      query returns as many rows as ids were asked for.
--   Alignment          src/voucher_management/alignment.py: `align_vouchers`.
--   PreparationDeletion  src/voucher_management/preparation_deletion.py: the durable intent before a
--                      remote DELETE (`Requests`) and how it is closed (`Resolution`).
--   SecurityRevocation src/voucher_management/security_revocation.py: the durable request, the record
--                      of a revocation, the reconciliation of pending requests, and the batch that
--                      reads, requests, deletes and records each candidate (`Live`).
--   SyncStore          src/voucher_management/sync_store.py: the plan of absences, the transaction of a
--                      snapshot, and the persistence of a creation. It calls Database,
--                      PreparationDeletion and SecurityRevocation on its own transaction.
--   Models, Calendar   the voucher that src/voucher_management/unifi_api.py reads, and the calls of
--                      `datetime`.
--   Policy             src/voucher_management/policy.py, reprint_policy.py and report_policy.py.
--   Reporting          src/voucher_management/reporting.py: `_matches`, `_status`, `_totals` and
--                      `_validated_totals`.
--   Workflows          src/voucher_management/workflows.py: `verify_snapshot_absences`,
--                      `create_vouchers_and_refresh`, the deletion workflow, `build_print_batch`,
--                      `execute_print_job` (`PrintJob`, which calls History) and
--                      `validate_create_params` (`Params`).
--   Json               the JSON values that a response or a marker file holds.
--   UnifiApi           src/voucher_management/unifi_api.py: `_request` (`Http`), `_voucher_from_json`
--                      (`Voucher`), `_page` and `list_vouchers` (`Pages`), `get_voucher`,
--                      `create_vouchers` and `delete_vouchers` (`Mutations`), `_list_sites` and
--                      `connect` (`Connect`).
--   Recovery           src/voucher_management/uncertain_create_recovery.py (`Marker`, `Intent`,
--                      `Matching`, `Association`),
--                      src/voucher_management/create_reporting_recovery.py (`Reporting`) and
--                      src/voucher_management/mutation_guard.py (`Guard`): the marker files of an
--                      interrupted creation, and how they are closed. It calls Database.
--   History            src/voucher_management/history.py. `Base` is the disk (settings' fingerprint, key,
--                      journal, descriptor of a pending print), reading and appending the journal;
--                      `Identity` the key and its fingerprint; `Pending` pending_print_audit.json;
--                      `Records` and `Journal` the records of a print and how they are verified;
--                      `Print` `prepare_print_audit`, `record_print` and
--                      `recover_pending_print_audit`; `Resolve` `resolve_pending_print`; `Queries` and
--                      `Batch` the generated documents. `Steps` is an abstract machine of the changes
--                      that are allowed on disk, which the calls refine.
--   Review             the lists of vouchers for review: `security_revocation_candidates` (`Revocation`),
--                      `unprinted_warning_candidates` of src/voucher_management/operational_alerts.py
--                      (`Alerts`), and src/voucher_management/retention.py (`Retention`,
--                      `Blockers`), with the table of settings (`Settings`). SQLite's comparison of texts and `julianday` are
--                      parameters (`Queries`).
--   Samples            vouchers and a database that the modules named Tests run on.
--
-- To the workflows and to a batch of revocations the UniFi client is a parameter (Workflows/Remote): a
-- record of functions that answer each call from the log of all calls before it, with a result, one of
-- the client's errors, or another exception. To the client itself (UnifiApi) the transport is a
-- parameter of the same kind. What the controller answers is any JSON value but for one restriction:
-- numbers with a fraction, which json.loads reads as floats (infinite ones too), are not among the values
-- of Json, so that what is stated of an answer does not speak of these. The calendar, the conversions of
-- Python, and the digest of a recipient are parameters too.
--
-- The print journal takes SHA-256 and HMAC, `Path.name` and `str.lower` as a parameter (`Platform`), and
-- what the file system refuses in a call (`Env`). A line of the journal is what `json.loads` makes of
-- it; an append that fails leaves some whole lines, and a damaged one where it is torn. A line that is
-- torn exactly before its newline, which can be read until the next append glues a row to it, is not
-- modelled.
--
-- Every loop of the modelled code is over a list, and is structural recursion here, but for the pages of
-- `list_vouchers` and of `_list_sites`. These run on fuel, one more than the `totalCount` of the first
-- page, which is enough: every page but the last adds an element, and there are never more than
-- `totalCount`.
-- Counters are natural numbers, as SQLite's integers with CHECK constraints that exclude negative ones.
-- A set is a list, with membership as its only use; a dictionary is a list of its entries in their
-- order of insertion. A call of `uuid4` whose text nothing reads is left out. `str.upper` is exact on
-- the characters whose upper case holds an ASCII letter.
--
-- Not modelled: the user interface, rendering, certificates and the text of HTTP and JSON, backup and
-- migration, settings, locks and threads, which are input and output for the most part. Of
-- src/voucher_management/history.py the reads `status` and `stats_for_codes` are left out; retention of
-- PDF files and the exchange of the journal between computers are not modelled. `Database.initialize`, sessions, controllers, and the queries of reports and of the
-- alignment window are not modelled either.
pub mod Prelude
pub mod Samples
pub mod Database
pub mod History
pub mod Alignment
pub mod PreparationDeletion
pub mod Models
pub mod Calendar
pub mod SecurityRevocation
pub mod SyncStore
pub mod Policy
pub mod Reporting
pub mod Workflows
pub mod Json
pub mod UnifiApi
pub mod Recovery
pub mod Review
