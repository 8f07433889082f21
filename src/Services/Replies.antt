-- ===== src/Services/Replies.antt =====
-- The turns of run_replay_service, run_trust_service and run_consensus_service on a request. A service
-- keeps its counters; gauges of the time that passes, log lines and the registration are left out.
use text.Mathlib.Text.{find?}
use qcg_task.Prelude.{
  ℕ, suc, String, Bool, true, false, Option, none, some, List, [], ◌∷◌, ◌++◌, if◌then◌else◌,
  is_some, Result, ok, err,
}
use qcg_task.Prelude.Json.{Hashing}
use qcg_task.Config.{Config}
use qcg_task.Contract.{Contract, post_init}
use qcg_task.Runtime.{ExecutionResult, Texts, ack_text}
use qcg_task.Replay.Registry.{Call, Status}
use qcg_task.Replay.Authority as AuthorityModule
use qcg_task.Replay.Authority.{
  Authority, ReplayVerdict, ReplayLineageRecord, is_valid, last_verdict, lineage,
}
use qcg_task.Ledger.{ExecutionRecord, LedgerSnapshot}
use qcg_task.Trust.Identity.{Ecdsa, NodeSigner}
use qcg_task.Trust.Producers.Defs.{
  ProducerRegistry, VerificationFailure, RegisterError, producer_entry, verify_producer,
}
use qcg_task.Execution.Defs.{Body, fields, malformed, contact}
use qcg_task.Consensus.Engine.{ConsensusProof, Faults, run_consensus}

-- the counters of `_metrics`
pub record Metrics : Type 0 where
  pub requests_total : ℕ
  pub failures_total : ℕ
  pub replay_valid_total : ℕ
  pub replay_invalid_total : ℕ
  pub consensus_reached_total : ℕ
  pub consensus_failed_total : ℕ

abbrev pub no_metrics : Metrics
no_metrics = record {
  requests_total = 0;
  failures_total = 0;
  replay_valid_total = 0;
  replay_invalid_total = 0;
  consensus_reached_total = 0;
  consensus_failed_total = 0;
}

abbrev pub count_request : Metrics → Metrics
count_request m = record m { requests_total = suc m.requests_total }

abbrev pub count_failure : Metrics → Metrics
count_failure m = record m { failures_total = suc m.failures_total }

pub data ReplayRequest : Type 0 where
  submit_request : Call → ReplayRequest
  lookup_request : String → ReplayRequest
  lineage_request : ReplayRequest
  other_request : ReplayRequest

pub record SubmitResponse : Type 0 where
  pub valid : Bool
  pub status : Status
  pub sequence_number : ℕ
  pub verification_hash : String

pub data ReplayResponse : Type 0 where
  submitted : SubmitResponse → ReplayResponse
  found : Option Status → ReplayResponse
  lineage_of : List ReplayLineageRecord → ReplayResponse
  no_response : ReplayResponse

pub record ReplayService : Type 0 where
  pub authority : Authority
  pub metrics : Metrics

abbrev pub response_of : ReplayVerdict → SubmitResponse
response_of v = record {
  valid = is_valid v;
  status = v.status;
  sequence_number = v.sequence_number;
  verification_hash = if is_valid v then v.lineage_record.verification_hash else "";
}

abbrev pub count_verdict : Bool → Metrics → Metrics
count_verdict true m = record m { replay_valid_total = suc m.replay_valid_total }
count_verdict false m = record m { replay_invalid_total = suc m.replay_invalid_total }

-- why the trust service refuses
pub data TrustHalt : Type 0 where
  key_mismatch : TrustHalt
  invalid_contract : TrustHalt
  untrusted : VerificationFailure → TrustHalt

-- `none` is a pass.
pub record TrustResponse : Type 0 where
  pub halt : Option TrustHalt

abbrev pub passed : TrustResponse
passed = record { halt = none }

abbrev pub refused : TrustHalt → TrustResponse
refused reason = record { halt = some reason }

abbrev pub verdict_response : Option VerificationFailure → TrustResponse
verdict_response none = passed
verdict_response (some failure) = refused (untrusted failure)

-- What the execution service sends on.
pub data Forward : Type 0 where
  halted_replay : Status → Forward
  halted_trust : TrustHalt → Forward
  carried_out : ExecutionResult → Contract → String → ExecutionRecord → LedgerSnapshot → Forward

-- a line of the consensus log
pub data ProofLine : Type 0 where
  not_run : ProofLine
  proof : ConsensusProof → ProofLine

pub record ConsensusService : Type 0 where
  pub nodes : List NodeSigner
  pub lines : List ProofLine
  pub metrics : Metrics

abbrev pub count_consensus : Bool → Metrics → Metrics
count_consensus true m = record m { consensus_reached_total = suc m.consensus_reached_total }
count_consensus false m = record m { consensus_failed_total = suc m.consensus_failed_total }

-- `engine.run_consensus(contract, pub_key)` without fault injection
abbrev pub default_faults : Faults
default_faults = record { faulty = none; missing = none; round = 1 }

abbrev pub not_agreed : ConsensusService → ConsensusService
not_agreed s = record s {
  lines = s.lines ++ not_run ∷ [];
  metrics = count_consensus false (count_request s.metrics);
}

module _ (h : Hashing) where
  unfoldable pub serve_replay : ReplayRequest → ReplayService → ReplayResponse × ReplayService
  serve_replay (submit_request c) s =
      let (v, authority) = AuthorityModule.submit h c none s.authority in
      (
        submitted (response_of v),
        record {
          authority = authority;
          metrics = count_verdict (is_valid v) (count_request s.metrics);
        },
      )
  serve_replay (lookup_request id) s = (
    found (elim (last_verdict id s.authority) [ none ↦ none | some v ↦ some v.status ]),
    record s { metrics = count_request s.metrics },
  )
  serve_replay lineage_request s =
      (lineage_of (lineage s.authority), record s { metrics = count_request s.metrics })
  serve_replay other_request s = (no_response, record s { metrics = count_request s.metrics })

module _ (h : Hashing) (e : Ecdsa) where
  -- after the contact: a key that `register` refuses raises inside the `try`
  abbrev pub verify_contacted :
      Contract
      → ProducerRegistry
      → Result RegisterError (Bool × ProducerRegistry)
      → TrustResponse × ProducerRegistry
  verify_contacted c trust (err failure) = (refused invalid_contract, trust)
  verify_contacted c trust (ok (false, _)) = (refused key_mismatch, trust)
  verify_contacted c trust (ok (true, trust')) =
      (verdict_response (verify_producer h e c trust').failure_mode, trust')

  unfoldable pub serve_trust : Body → String → ProducerRegistry → TrustResponse × ProducerRegistry
  serve_trust (malformed trace_id) key trust = (refused invalid_contract, trust)
  serve_trust (fields raw) key trust =
      let c = post_init h raw in
      verify_contacted c trust (contact c key trust (producer_entry c.producer_id trust))

module _ (cfg : Config) (h : Hashing) (e : Ecdsa) (t : Texts) where
  abbrev pub agreed_on : ConsensusProof → ConsensusService → ConsensusService
  agreed_on p s = record s {
    lines = s.lines ++ proof p ∷ [];
    metrics = count_consensus p.consensus_reached (count_request s.metrics);
  }

  -- Every halt signal contains "HALT", and of the results those whose acknowledgement does.
  unfoldable pub serve_consensus : Forward → ConsensusService → ConsensusService
  serve_consensus (halted_replay status) s = not_agreed s
  serve_consensus (halted_trust reason) s = not_agreed s
  serve_consensus (carried_out result raw key rec snapshot) s =
      if is_some (find? (ack_text t result.ack) "HALT")
      then not_agreed s
      else agreed_on (run_consensus cfg h t e s.nodes (post_init h raw) key default_faults) s
