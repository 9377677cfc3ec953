-- ===== src/Lib.antt =====
-- The core of the Multi-Stage Agentic SAST Engine, a pipeline that scans a repository for
-- vulnerabilities (PREPARE, SCAN, DEDUPLICATE), rates what it found (RISK, SLA), asks a language model
-- to validate it (VALIDATE), runs a sandboxed proof (PROVE), and lets a human approve what follows
-- (APPROVAL). The unit that passes through the stages is a candidate finding; each stage keeps its
-- results in a store of its own, keyed by the finding or by an id that it makes.
--
-- Files, and the code that each is about:
--   - Prelude and below: shared types, tests, dictionaries, datetimes, errors and sorting;
--     Prelude.Datetime has backend/app/core/time.py
--   - Findings, Verdicts: backend/app/scan/models.py (CandidateFinding), and the verdicts of
--     backend/app/validate/models.py and backend/app/prove/models.py
--   - Findings.Store: FindingStore of backend/app/validate/store.py
--   - Approval.Models: backend/app/approval/models.py and policies.py
--   - Approval.Store: backend/app/approval/store.py: ApprovalStore, method by method
--   - Approval.Service, Approval.Moves: backend/app/approval/service.py: ApprovalService;
--     a call reads the verdicts of VALIDATE and PROVE through Gates
--   - Approval.Steps: the life of an approval store: calls of the service and deletions in any
--     order, with the interleavings of several users as sequences of steps
--   - Approval.{Commit, Outcomes, Audit, Exclusive, Decisions, Transitions}:
--     proofs about these
--   - Risk.Models, Risk.Scoring: backend/app/risk/models.py, risk/scoring.py (RiskScorer)
--   - Risk.Sla: backend/app/risk/policies.py and SLAService of risk/service.py
--   - Risk.Sla.Store: the stores of backend/app/risk/service.py, with check_and_persist_sla as one
--     step under its lock, and SlaEvaluator.evaluate_once of risk/sla_evaluator.py
--   - Risk.Scoring.{Explained, Monotone}, Risk.Sla.{Checks, Escalation, Evaluator, Stats, Forward}:
--     proofs about these
--   - Runs.Models, Runs.Store, Runs.Reads: backend/app/scan/run_models.py, run_store.py (ScanRunStore)
--   - Runs.Service: backend/app/scan/run_service.py: record_stage_execution, the checks of a stage
--     context, and ScanRunService.execute_scan, which ties the run store, the finding store and the
--     scan engine (an argument) together
--   - Runs.{Lookups, Counts, Executions, Scans, Lineage}:
--     proofs about these; Counts has the steps of a run store
--   - Rbac, Rbac.Areas: backend/app/auth/rbac.py, and the permissions by areas of work
--   - Benchmark: backend/app/benchmark: matcher.py (BenchmarkMatcher) and metrics.py
--   - Benchmark.{Matching, Accounting}: proofs about these
--   - Scan.Syntax, Scan.Rule: the Python trees that the scanner reads; ScanRule of
--     backend/app/scan/rules/__init__.py and the snippets of scan/evidence.py
--   - Scan.Rules and below: backend/app/scan/rules: common.py, sql_injection.py, command_injection.py,
--     ssrf.py and deserialization.py
--   - Scan.Expressions, Scan.Sinks, Scan.Engine:
--     backend/app/scan/taint_engine.py: the taint of an
--     expression, the sinks, and the statements and functions
--   - Scan.Service: backend/app/scan/service.py: ScanService, the rules over the files
--   - Scan.{Paths, Traces, Traced, Reports, Confidence}:
--     proofs about what the scan reports
--   - Scan.Reachability: taint as a Boolean, without the steps that lead to it
--   - Scan.{Flows, Origins}: how a taint goes through an expression, and from where; proofs
--   - Scan.Trails: the paths of a program on which the engine misses no taint, as steps
--   - Scan.{Coverage, Refinement}: the engine over-approximates these paths
--   - Dedup, Dedup.Registry: backend/app/dedup: fingerprint.py, and service.py with its registry of
--     groups, which reads the finding store
--   - Dedup.{Buckets, Groups, Removal}: proofs about these
--   - Remediation, Remediation.{Service, Actions}:
--     backend/app/remediation: models.py, store.py,
--     apply_proposal of patches.py, and service.py, which reads the approvals, the run store and the
--     findings and scans again
--   - Remediation.{Guarded, Verified}: proofs about these
--   - Prove, Prove.{Models, Store}: backend/app/prove: service.py (ProofService), the guards of sandbox.py,
--     models.py and store.py
--   - Prove.Gate: what a proof needs, and what a verified one has seen
--   - Database: backend/app/db/persistence.py: the rows of a table by key
--   - Database.{Mirror, Stores}: proofs about the rows and their reload; Stores has the uses of a finding
--     store as steps
--   - Cpg, Cpg.Search: backend/app/prepare/cpg/models.py: the graph and its search, and proofs
--
-- Conventions:
--   - A Python dict is an association list in insertion order (Prelude.Dict), as iteration sees it. A
--     str is a native string. An int that can be negative is an integer of Prelude.Int, else a natural
--     number.
--   - A datetime is naive or aware with a count of microseconds (Prelude.Datetime); a timedelta is a
--     count of microseconds.
--   - A method that raises is a function into Prelude.Exec.Result, with one constructor of the error
--     type for each raise; a method on a store is a function from the store to the store.
--   - Each store writes through to a database if a session factory is set. A model of a store keeps
--     the list of these writes, in order, and a Boolean that says whether there is a factory. Database
--     has the table of the finding store and its reload at start-up.
--   - Digests, random tokens, the clock and the formats of datetimes and numbers are not in the
--     repository: they are inputs of the operations that use them, as are the functions of ast, str,
--     tokenize, pathlib and re that the code calls, and the trees that ast.parse makes. That a new
--     random id is not in use yet is a hypothesis of the theorems that need it.
--   - Log lines are left out.
--
-- Only the search of the code property graph has fuel, one round for the source and one for each edge,
-- which is enough since a node is expanded once; every other loop is over a finite list.
--
-- Not modelled: the HTTP routes, authentication by password and token, the database tables, the
-- language model providers, the process of a sandbox, git and the parser, PDF drawing, the DefectDojo client, and
-- the frontend, which are input and output or code of other packages; the rules that compute a
-- patch and, so far, the validation service, reports and dashboards.
pub mod Prelude
pub mod Verdicts
pub mod Approval
pub mod Findings
pub mod Risk
pub mod Runs
pub mod Scan
pub mod Benchmark
pub mod Rbac
pub mod Dedup
pub mod Remediation
pub mod Database
pub mod Cpg
pub mod Prove
