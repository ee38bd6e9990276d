-- ===== src/Lib.antt =====
-- Arduino component knowledge base: a model of the core of the Python backend under
-- src/arduino_component_kb.
--
-- The backend keeps its state in PostgreSQL. A repository class issues the statements, a service
-- class composes them into the methods that a request calls, and each request runs in one
-- transaction, which is committed or rolled back as a whole. The model has a record of tables for
-- the database, a list of rows for a table, and a function on the tables for a statement. A method
-- that may raise is an `Exec`: it takes the database, and gives back its result or its exception
-- with the database as it was then. What the method reads from outside, the clock and the random
-- identifiers and tokens, is its `Draw`.
--
-- Files:
--   * Prelude: Boolean tests, texts, the table operations. Exec: methods that read, write and
--     raise; Exec.Keeps has the rules by which an action keeps an invariant, Exec.Leaves and
--     Exec.Returns those for what holds when it returns.
--   * Auth.Domain: auth/domain.py, the roles, permissions, identities and exceptions.
--     Auth.Schema: auth/models.py, the rows. Auth.Audit: the audit trail of auth/repository.py.
--     Auth.Throttle: its brute-force limits. Auth.Grants: its role grants. Auth.Accounts: its
--     users and sessions.
--   * Auth.Platform: the third-party functions that the service calls (argon2, hashlib, hmac, the
--     Unicode database, datetime's formatting) as fields of a record, a parameter of all methods,
--     and auth/passwords.py above them.
--   * Auth.Service: auth/service.py, one definition for each method that changes the database, and
--     `authenticate`.
--   * Auth.Invariants: invariants of the database as an interface, `IsStable`, with one law for
--     each repository statement, and the induction over service methods and committed requests
--     that a stable invariant allows. Auth.Administrators and Auth.Identity fill the interface.
--   * Auth.SignOut, Auth.LoginOutcome, Auth.Throttle.Lockout: the behaviour of single methods.
--     Auth.Throttle.Concurrent: `register_failure` with another login in the middle of it.
--   * Dispatch: dispatch/models.py, dispatch/repository.py and dispatch/reconciler.py, the delivery
--     of background jobs to the broker: Schema the tables, with the columns of the job tables that
--     dispatch touches, Queries joins, order and limit, Writes what is written to one row, Recovery
--     `recover_lost_deliveries`, Repository the other methods, Reconciler one pass. Claims, Answers,
--     Restarts, Attempts, Stranded and Batches have the theorems; Undisturbed, what other transactions
--     leave of a row, and Between, the transactions between two claims, serve them.
--   * Catalog: the cards. Domain and Schema have catalog/domain.py and the tables; Content what
--     catalog/service.py reads of a card, Published what the public reads, Publication the checks
--     before a publication, Lifecycle the methods `transition`, `show_hidden`, `restore_archived`
--     and `touch_media_attachment`, Operations catalog/operations.py with its commit and its audit
--     event. Changes gives what a method has done in one form, from which Steps, Withdrawn, History,
--     Conflicts, Outcomes, Machine, Publishable, Public, Reading and RoundTrip draw the theorems. Batch
--     has the snapshots that a page of cards reads.
--     CatalogPlatform has the Unicode functions of Python, a parameter.
--   * Media: the jobs of media/repository.py, and the failures of the image worker
--     (media/processor.py) and of the video worker (media/video_processor.py), on the rows of one job
--     and its asset. Sound, Leases and Retries have the theorems. A worker reports without asking
--     whether it still has its lease, so in Sound and Retries a report comes at any time; Leases has
--     what a late one may do.
--   * Examples: concrete databases, and the theorems applied to them.
--
-- Times are numbers of microseconds, identifiers numbers, both natural. Advisory and row locks have
-- no counterpart: one transaction runs at a time, which is what the locks of the code are for. Where
-- they leave a gap the interleaving is written out: `register_key_amid` has what others commit
-- between two statements of `register_failure`, and late reports of media workers are steps. No
-- definition runs on fuel; loops go over lists. A transaction of dispatch is a `Session`, which reads
-- what it has flushed and not what it has only written, because db.py turns autoflush off; in the
-- other methods every read comes before the writes it could miss, or after a flush.
--
-- Not modelled: the HTTP routers and their dependencies; of the catalog the creation and editing of
-- cards, correction proposals, the merge of duplicates and the full-text search; the import
-- pipeline; of media the uploads, the storage, the decoding and the retention; deduplication and
-- the legacy conversion; the listings of users and audit events, which only read; the constraints
-- of the database server, which the models state as invariants instead; logging.
pub mod Prelude
pub mod Exec
pub mod Auth
pub mod Dispatch
pub mod Catalog
pub mod Media
mod Examples
