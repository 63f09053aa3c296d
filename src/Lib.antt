-- ===== src/Lib.antt =====
-- The evidence store and the decisions of HATE (harness-auto-test-evidence), modelled from the
-- Python sources under src/hate.
--
-- Parts and files:
--   Store/Disk: the files of a local store and the operations on them
--     (src/hate/store/atomic_write.py). Every operation consumes one event of a schedule, which
--     says whether it succeeds, fails, or is where the process dies; a late event leaves its effect
--     behind. Store/Disk/Triples has the rules for reasoning on such actions.
--   Store/AtomicWrites: atomic_write_bytes call by call (src/hate/store/atomic_write.py), which is
--     one operation of Store/Disk. Child: Phases.
--   Store/Transaction: ImportTransaction and recover_pending_import
--     (src/hate/store/transaction.py), with one definition for each function and each step of it.
--     Its children: States (the states in which a transaction can be broken off), Loops and
--     Snapshots (the loops over the indexes), Bundles, Recovery, Enter, Commit, Atomic and Block
--     (the parts of the with statement), Recoveries, Atomicity
--     and Refusals.
--   Store/Locking: the lock and the sessions of a store (src/hate/store/locking.py), by threads
--     that take steps in any order. Children: Invariant, Exclusion.
--   Indexes: the index files of a store and their lookups (src/hate/store/indexes.py), on texts as
--     code points (CodePoints). Children: Shapes (the values), Sound, Reading, Lookups, Sorting,
--     Writing, Chunks, Manager (the seven indexes together).
--   Retries: the aggregation of retried and sharded executions
--     (src/hate/p1a_internal/retry_aggregation.py, src/hate/execution_status.py). Children: Sets,
--     Attempts, Groups, Soundness, Summary, and Grouping (which executions are aggregated together)
--     with Put, Unique, Links, Kept and Backed.
--   Identity: the canonical identity of a test (src/hate/p1a_internal/identity.py, with
--     _normalize_source_ref of src/hate/p1a_io.py). Children: Names, Cuts, RoundTrip, Duplicates.
--   EvidenceGraph: the integrity of an evidence graph and the lineage of its risks
--     (src/hate/p1a_graph.py). Children: TextSets, Lineage, Integrity, Executed.
--   Scores: the trust score of a run over the evidence graph and the retries
--     (src/hate/p1a_internal/aete_scoring.py, src/hate/p1a_scores.py). Children: Rubric, Stored,
--     Dimensions, Determinism, Passed (full marks on a whole bundle).
--   Evaluation/Baseline: the governance of baselines by their events
--     (src/hate/evaluation/baseline_governance.py). Children: Records, Folds, Variables,
--     Usable, Serving.
--   Evaluation/Readiness: the readiness of a product by its claims (src/hate/readiness_model.py).
--     Children: Supported, Go.
--   Evaluation/Regressions: regressions against a baseline
--     (src/hate/evaluation/regression_engine.py). Child: Reports.
--   Access: role-based access (src/hate/enterprise/rbac.py). Children: Roles,
--     Decisions, Viewers.
--   Audit: the audit events of access decisions and their validation
--     (src/hate/enterprise/audit.py). Child: Validation.
--   Worker: the life of a worker job (src/hate/runtime_worker.py). Children: Trace, Verdicts.
--   Retention: legal holds and retention (src/hate/enterprise/legal_hold.py,
--     src/hate/enterprise/retention.py). Children: Holds, Reports.
--   Tenants: the isolation of tenants (src/hate/tenant_isolation.py) over the role table of
--     src/hate/authz.py. Child: Isolation.
--   Entitlements: editions, features and usage limits (src/hate/entitlement.py). Child: Decisions.
--   RateLimit: rate limits of API requests (src/hate/api/rate_limit.py). Child: Quotas.
--   Release: release channels and migrations (src/hate/release_channel.py). Child: Policy.
--   Prelude: lists, sorting, texts, tests and finite maps that the others share.
--
-- The transaction writes through the atomic writes; the other parts are decisions on records that
-- other code has validated. Tests hold small runs of each part.
--
-- Conventions: numbers are natural, since the validation of execution metadata rejects negative
-- ones; a text field that may be missing is an Option; loops are structural recursions. The
-- only fuel is that of the chunks of a record in Indexes: one more than its bytes, which
-- Indexes/Chunks shows to be enough. A schedule with no event left means that every further operation succeeds.
--
-- Not modelled: path resolution and symbolic links, the JSON text of the journal (a journal file is
-- a record or unreadable), SHA-256 (a parameter), what a broken-off rmtree leaves (a parameter that
-- only may take the journal away or keep it), str.lower and the order of strings (parameters of
-- Retries, Tenants, EvidenceGraph and Scores; CodePoints has the order of code points), json
-- and hashlib for Indexes and Identity (parameters), the parsing and printing of times (parameters
-- of Retention), identity fields of a test that are no texts, products with floats (parameters of
-- Evaluation/Regressions), and the texts
-- of messages. The body of a transaction is a parameter that leaves the stage alone.
pub mod Prelude
pub mod Store
pub mod Retries
pub mod Access
pub mod Worker
pub mod Retention
pub mod Tenants
pub mod Entitlements
pub mod Release
pub mod CodePoints
pub mod Indexes
pub mod EvidenceGraph
pub mod Scores
pub mod Audit
pub mod RateLimit
pub mod Identity
pub mod Evaluation
