-- ===== src/Runtime/Defs.antt =====
-- `RuntimeCore.execute`. The evidence ledger is read for its head alone, so the head is an argument:
-- the empty text where there is no ledger. Log lines and the time stamp of the result are left out.
use Prim.Native.String.{◌++◌}
use qcg_task.Prelude.{String, Bool, true, false, [], if◌then◌else◌, Result, ok, err}
use qcg_task.Prelude.Int.{ℤ, ltb_ℤ}
use qcg_task.Prelude.Json.{Json, Hashing, json_hash, text, fraction, obj, field, done}
use qcg_task.Config.{Config}
use qcg_task.Contract.{Contract, ContractError, validate_contract}

-- The acknowledgements of the core and of the governance layer, one constructor for each text.
pub data Ack : Type 0 where
  ack_ok : Ack
  ack_degraded : ℤ → Ack
  halt_low_confidence : ℤ → Ack
  halt_invalid_contract : ContractError → Ack
  halt_unauthorized_producer : Ack
  halt_contract_downgrade : Ack

-- How Python writes a confidence under the format `.4f`, and the message of a validation error.
pub record Texts : Type 0 where
  pub fixed4 : ℤ → String
  pub message : ContractError → String

abbrev pub ack_text : Texts → Ack → String
ack_text t ack_ok = "ACK:OK"
ack_text t (ack_degraded c) = "ACK:DEGRADED:confidence=" ++ t.fixed4 c
ack_text t (halt_low_confidence c) = "HALT:LOW_CONFIDENCE:" ++ t.fixed4 c
ack_text t (halt_invalid_contract e) = "HALT:INVALID_CONTRACT:" ++ t.message e
ack_text t halt_unauthorized_producer = "HALT:UNAUTHORIZED_PRODUCER"
ack_text t halt_contract_downgrade = "HALT:CONTRACT_DOWNGRADE"

abbrev pub is_accepted : Ack → Bool
is_accepted ack_ok = true
is_accepted (ack_degraded c) = true
is_accepted _ = false

pub record ExecutionResult : Type 0 where
  pub contract_trace_id : String
  pub producer_type : String
  pub ack : Ack
  pub confidence : ℤ
  pub runtime_hash : String

abbrev pub path_seed : Texts → String → Contract → Ack → Json
path_seed t head c ack = obj (
    field "payload_hash" (text c.payload_hash) (
      field "confidence" (fraction c.confidence)
        (field "ack" (text (ack_text t ack)) (field "latest_evidence" (text head) done))))

-- `_result`, and `_halt`, which only logs before it
abbrev pub result_of : Hashing → Texts → String → Contract → Ack → ExecutionResult
result_of h t head c ack = record {
  contract_trace_id = c.trace_id;
  producer_type = c.producer_type;
  ack = ack;
  confidence = c.confidence;
  runtime_hash = json_hash h (path_seed t head c ack);
}

-- step 3: the confidence thresholds
unfoldable pub threshold_ack : Config → ℤ → Ack
threshold_ack cfg confidence =
    if ltb_ℤ confidence cfg.corruption_threshold
    then halt_low_confidence confidence
    else if ltb_ℤ confidence cfg.confidence_threshold
    then ack_degraded confidence
    else ack_ok

abbrev pub ack_of : Config → Contract → Result ContractError (Unit {0}) → Ack
ack_of cfg c (err e) = halt_invalid_contract e
ack_of cfg c (ok _) = threshold_ack cfg c.confidence

unfoldable pub execute : Config → Hashing → Texts → String → Contract → ExecutionResult
unfolding threshold_ack
execute cfg h t head c = result_of h t head c (ack_of cfg c (validate_contract cfg h [] "" c))
