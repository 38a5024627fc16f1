-- ===== src/Lib.antt =====
-- AstrContinuum keeps the long conversations of a chat bot within a model's context: it journals
-- every message and tool call, cuts the history into segments, compiles them into snapshots in the
-- background, and assembles each request from the active snapshot and the events after it.
--
-- Domain (astrcontinuum/domain): Identity is the seven-field SessionKey, whose SHA-256 digest is the
-- interface SessionHash; Event is EventEnvelope with its validator and `create`.
--
-- Storage (astrcontinuum/storage/repository.py, on the tables of migrations.py): Rows has the tables
-- as lists of rows in the order of insertion, `find`, `update_where` and `row_count` for SELECT and
-- UPDATE, and `transaction` for the roll back of a body that raises. Schema has the constraints of
-- compaction_jobs, Envelope the model class of domain/jobs.py. A transaction is a function from the
-- store to an error or a result with the next store, in the order of the source's statements.
--  - Journal: Tables has the statements on sessions, journal_events and the token metrics
--    (token_metrics.py), Capture has _capture_event and its three entry points, View the reads of the
--    Journal for a request.
--  - Jobs: Changes has the WHERE and SET clauses, Lookup the reads and the fenced UPDATE, Worker the
--    transactions of a worker that holds a lease (transition_job, renew_job_lease, fail_job), Queue the
--    others (raise_compaction_intent, claim_job, recover_expired_leases). Rewritten, Turned and Due have
--    the words that tell what a transaction did to the table, apart from its SQL.
-- The Journal and the jobs share the session row: its next sequence number bounds the intents.
--
-- Runtime.ToolLoop (astrcontinuum/runtime/tool_loop.py): Fingerprint has the identity of a tool call,
-- Parse the state machine over a Journal delta and durable_event_units.
--
-- Runtime.Candidate (astrcontinuum/runtime/types.py) has the candidate blocks of a request and the
-- settings of its budget, Runtime.Budget (astrcontinuum/runtime/budget.py) the assembly: Order the
-- canonical candidates and their counts, Select the normal selection and the removal of groups by exact
-- cost, Emergency the selection by slots, Assemble `assemble` and its trace. It takes its groups from
-- ContextGraph.Closure (astrcontinuum/context_graph/closure.py): the connected components of the
-- structural companions and the closure of a selection. An assembly reads the RequestView that the
-- Journal returns.
--
-- Runtime.ReadView (astrcontinuum/runtime/read_view.py) tests the Journal part of that view.
--
-- Runtime.Projection (astrcontinuum/runtime/projection.py) is the guard, the projection into the host's
-- list of messages and its restoration, on the identities of the objects.
--
-- Compaction.Segmenter (astrcontinuum/compaction/segmenter.py): Pack cuts the durable units of a
-- history into segments under a limit of events and a limit of tokens.
--
-- Prelude has the Boolean tests on the native numbers, integers, equality as an interface, lists,
-- texts, predicates of all members of a list, and a result type for code that raises.
-- Tests has the runs at concrete inputs.
--
-- Numbers are unbounded, as Python's are; the store's INTEGER columns of 64 bits are not bounded. A
-- moment is the number that orders it as its normalised text does: that a stored text can be read as a
-- moment, and has a time zone, is not tested. The columns are in the clear:
-- encryption (crypto.py, security.py) is left out, and so are the fault injector `_inject`, type checks
-- of arguments that the model's types make, and foreign keys. SHA-256 and the JSON parser are
-- parameters. claim_loop runs on fuel: a round but the last cancels an eligible job or claims one, and
-- the fuel is one more than there are jobs. The loops of closure.py and of the exact selection run on
-- fuel too: a walk has as many rounds as indexes remain, the components as many as candidates, the closure
-- one more than the universe has blocks, the exact selection one more than blocks are selected. A score
-- is the bit pattern of its float, where -0.0 is ordered as 0.0, and the tokenizer is a
-- parameter that returns a count, a value that is none, or an error.
--
-- Not modelled: publication of a snapshot, the metric backfill batches, the worker, the compiler, the
-- validator and the auditors, the snapshot part of a request's view, its pressure and retrieval, the
-- graph of the context and its solvers, the reorganisation, tokenisation,
-- encryption, migrations, the host's adapters and the first in-memory service.
pub mod Prelude
pub mod Domain
pub mod Runtime
pub mod Compaction
pub mod Storage
pub mod ContextGraph
mod Tests
