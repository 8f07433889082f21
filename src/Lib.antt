-- ===== src/Lib.antt =====
-- The core of the hybrid quantum-classical runtime, modelled file by file.
--
-- A producer's result travels as an execution contract (execution_contract.py). The governance
-- layer (governance.py) checks its policies and hands the contract to the blind core
-- (runtime_core.py), which validates it once more, applies the confidence thresholds and answers
-- with an acknowledgement and a runtime hash. The replay registry (replay_registry.py) numbers each
-- message identifier once and keeps the numbers on disk; the replay authority
-- (canonical_replay_authority.py) wraps it and keeps a lineage of what was accepted. The evidence
-- ledger (evidence_ledger.py, execution_record.py) chains what was executed. Before any of this a
-- contract's producer is verified (producer_verification.py) by the signatures that it carries
-- (provenance.py, node_identity.py), and handoffs between nodes make a chain of custody
-- (trust_chain.py). Messages between producers and receivers cross the communication gateway
-- (gateway.py, communication_contract.py), which limits their rate and asks the replay authority.
-- The execution process (execution_process.py) runs the whole path for each message: authority,
-- trust, core, ledger; provenance_api.py checks and certifies the records of that ledger.
-- audit_trail.py keeps a Merkle tree of events, whose levels it updates in place. The consensus
-- engine (consensus_simulation.py) lets several nodes run the core on one contract and counts their
-- signed hashes. A second path starts at the quantum channel: hybrid_gateway.py takes a message
-- through models.py, quantum_producer.py and translation_layer.py to an endpoint behind the
-- expiring replay cache (replay_enforcer.py), and degraded_runtime.py decides what may act on the
-- result. adapters.py makes contracts from the outputs of producers. transport.py carries documents
-- between processes, and runtime_services.py runs the path of a message as services that call each
-- other over it. quantum_problem_compiler.py builds an optimisation problem and qubo_translation.py
-- its matrix. observability.py stores the traces of what ran. replay_bundle.py signs the record of
-- one execution. config.py holds the settings that all of them read.
--
-- Files:
-- - Prelude, Prelude/: shared names, lists, dictionaries with Python's insertion order, integers,
--   JSON values, and the record Hashing of the hash functions that the program calls.
-- - Config: config.py. The settings are a record, an argument of what reads them.
-- - Contract/Semver, Contract/Defs: execution_contract.py, `_parse_semver`, the contract and
--   `validate_contract`. Contract/Validity: what validation accepts.
-- - Runtime/Defs: runtime_core.py, `RuntimeCore.execute`. Runtime/Outcomes: its answers.
-- - Governance/Defs: governance.py, `GovernanceLayer.enforce`. Governance/Violations and
--   Governance/Enforcement: the log, and what is accepted.
-- - Replay/Registry/File: the document that `_persist` writes and `_load` reads.
--   Replay/Registry/Defs: the rest of replay_registry.py. The other children of Replay/Registry:
--   the invariant, the decisions, and what a restart keeps. Replay/Authority/Defs:
--   canonical_replay_authority.py, with its lineage and its verdicts in the children.
-- - Ledger/Defs: evidence_ledger.py. Ledger/Integrity: the chain; Ledger/Root: the Merkle root.
-- - Trust/Identity: node_identity.py. Trust/Chain: trust_chain.py. Trust/Provenance: provenance.py.
--   Trust/Producers: producer_verification.py, its registry and its verdicts.
-- - Communication: communication_contract.py. Gateway/Limiter: `_RateLimiter`, with tokens counted
--   in whole parts. Gateway/Defs: `Receiver` and `CommunicationGateway` of gateway.py;
--   Gateway/Delivery and Gateway/Repeats: what it accepts.
-- - Execution/Defs: `run` of execution_process.py, a turn of its loop and the loop;
--   Execution/Executed: what an executed message has passed; Execution/Loop: the answers and the
--   ledger; Execution/Spent: repeated trace identifiers; Execution/Recorded: the records it writes.
-- - Ledger/Provenance: provenance_api.py; Ledger/Provenance/Graph: its graph.
-- - Audit/Merkle: the Merkle tree of audit_trail.py; Audit/Inclusion: its proofs.
--   Audit/Trail/Update: `_rebuild_tree`; Audit/Trail/Defs: the entries, `append` and the two
--   verifications. The other children of Audit/Trail relate the levels that append leaves to a tree
--   built anew.
-- - Consensus/Node and Consensus/Engine: consensus_simulation.py, a node and `run_consensus`. Its
--   other children count votes (Votes, Agreement) and follow the nodes (Nodes, Honest, Unanimous).
-- - Replay/Enforcer/Defs: replay_enforcer.py; its children bound the cache and follow one artifact.
-- - Replay/Deterministic/Defs: deterministic_replay.py; Replay/Deterministic/Agreement: its
--   verdict.
-- - Replay/Bundle/Defs: replay_bundle.py; Replay/Bundle/Passes: its verification.
-- - Pipeline/Models, Pipeline/Translation, Pipeline/Transmit: models.py with quantum_producer.py,
--   translation_layer.py and hybrid_gateway.py; Pipeline/Posture: degraded_runtime.py.
--   Pipeline/Accepted, Once and Delivered: what an accepted message has gone through.
-- - Transport/Framing: the frames of `put` and the loops of `get` in transport.py;
--   Transport/Delivery and Transport/Roundtrip: a connection. Transport/Breaker: CircuitBreaker;
--   Transport/Outage: its history. Transport/Sender: TCPTransportSender; Transport/Stale: a
--   connection that failed.
-- - Services/Replies, Services/Turn: runtime_services.py, the bodies of the services, and a turn of
--   a message over all of them. Services/Follows and Services/Process compare with the execution
--   process; Services/Agreed, Accounts and Records follow what is carried out, counted and
--   recorded.
-- - Problem/Num: coefficients. Problem/Compiler: quantum_problem_compiler.py. Problem/Translator:
--   qubo_translation.py. Its other children follow the energy of an assignment (Terms, Sums,
--   Energy, Total).
-- - Observability/Defs: observability.py. Observability/Window: what the store keeps;
--   Observability/Traced: the entries of a trace and the order of their kinds, said without the
--   store; Observability/Order and Observability/Proof: the reconstruction of a replay.
-- - Adapters/Values, Adapters/Defs: adapters.py. Adapters/Rounding and Adapters/Accepted: what the
--   core does with adapted contracts.
-- - Samples and the Tests modules: concrete data and runs.
--
-- Conventions. A method is a function from the state to its answer and the next state; a raised
-- exception is an `err` or a `none`. The locks make each method one step. A ratio (confidence,
-- noise, threshold) is an integer of ten-thousandths, so that comparisons are exact where the
-- program uses floating point. A time is an integer, an argument of what reads the clock. Time
-- stamps that only describe a record are left out. json.dumps, SHA-256, UUID version 5 and ECDSA
-- are arguments; a theorem that needs one of their documented laws names it. The simulator of the
-- quantum channel, Python's rounding and the socket are arguments too. The agreement percentage of
-- a consensus is kept as the number of agreeing nodes. A coefficient of an optimisation problem is
-- an exact number, the difference of two natural numbers, where the program has floating point. A
-- call of a service is unsent, answered or without an answer, and the message to the consensus
-- service is refused, not read, or read: these are inputs of a turn. A pass of the loop of the
-- execution service is an idle second, a message without the keys that it reads, or a turn. A value
-- has the type that the source declares for it, which Python does not check: a contract with, say,
-- a confidence that is no number, which raises a TypeError in the program, is not modelled, nor is
-- a registry file whose fields have other types. A message of the execution process that lacks a
-- key is modelled, and ends its loop. Writes to a file are taken to succeed. Lists, dictionaries
-- and files have no size limit. The loops that build a Merkle level run on fuel, one unit for each
-- node of the lowest level; each round shortens the level, so that the fuel is enough. `decimal`,
-- the text of a number n, has n units, one for each digit after the first. The loops of `get` run
-- on fuel, one unit for each byte that is still missing; a pass takes at least one byte or ends.
--
-- Not modelled: accepting, timeouts and the HTTP part of transport.py; registration, discovery,
-- health pages and the demo producer of runtime_services.py; the export of observability.py as
-- spans; processes, threads and web pages (network_ipc.py, service_orchestrator.py,
-- process_runner.py and their like), log output, the circuits and the noise model of the quantum
-- producer, and the scripts that only print runs. Still open: lineage.py, replay_doctrine.py,
-- integration_interfaces.py and the registries.
pub mod Prelude
pub mod Config
pub mod Contract
mod Samples
pub mod Runtime
pub mod Governance
pub mod Replay
pub mod Ledger
pub mod Transport
pub mod Trust
pub mod Communication
pub mod Consensus
pub mod Gateway
pub mod Pipeline
pub mod Audit
pub mod Problem
pub mod Observability
pub mod Adapters
pub mod Execution
pub mod Services
