-- ===== src/Adapters/Defs.antt =====
-- The three adapters. What an adapter raises is an `err`; log lines are left out. A time stamp is an
-- argument, and `write` is Python's `str` of a number.
use Prim.Native.String.{◌++◌ as join}
use qcg_task.Prelude.{String, List, [], ◌∷◌, if◌then◌else◌, Result, ok, err, ◌>>=◌}
use qcg_task.Prelude.Int.{ℤ, leb_ℤ}
use qcg_task.Prelude.Json.{
  get_field, Json, text, fraction, arr, obj, Items, Fields, field, done, Hashing, json_hash,
}
use qcg_task.Config.{Config}
use qcg_task.Contract.{Contract, post_init}
use qcg_task.Pipeline.Models.{Modes, QuantumDistribution}
use qcg_task.Pipeline.Translation.{ClassicalContract, TranslationError, Rounding, translate}
use qcg_task.Adapters.Values.{
  AdapterTrace, AdapterError, translation_failed, not_a_dict, join_parts, given, check_confidence,
  check_result, or_empty, metadata_keys, distribution_json, quantum_payload, quantum_constraints,
  hybrid_payload,
}

module _ (cfg : Config) (modes : Modes) (h : Hashing) (r : Rounding) (write : Json → String) where
  abbrev pub deterministic_trace_id : String → List String → String
  deterministic_trace_id namespace_label parts =
      h.uuid5 (join namespace_label (join ":" (join_parts parts)))

  -- a contract with the defaults of the fields that no adapter gives
  abbrev pub adapted : String → Json → ℤ → String → Json → String → Contract
  adapted producer_type payload confidence trace_id constraints timestamp = post_init h (record {
    producer_type = producer_type;
    payload = payload;
    confidence = confidence;
    trace_id = trace_id;
    contract_version = cfg.execution_contract_version;
    execution_constraints = constraints;
    payload_hash = "";
    producer_id = "";
    producer_signature = "";
    contract_signature = "";
    timestamp = timestamp;
  })

  -- the contract with the record of its adaptation
  abbrev pub traced : String → String → Json → Contract → Contract × AdapterTrace
  traced adapter_type input_type input c = (
    c,
    record {
      adapter_type = adapter_type;
      producer_type = c.producer_type;
      input_type = input_type;
      input_hash = json_hash h input;
      output_trace_id = c.trace_id;
      output_hash = c.payload_hash;
    },
  )

  abbrev pub quantum_trace_id : QuantumDistribution → String → String
  quantum_trace_id d original_message = deterministic_trace_id "quantum" (
      original_message
      ∷ r.write_seed d.seed
      ∷ d.encoded_bits
      ∷ write (fraction d.noise_factor)
      ∷ [])

  abbrev pub quantum_contract :
      QuantumDistribution → String → String → ClassicalContract → Contract × AdapterTrace
  quantum_contract d original_message timestamp c =
      traced "QuantumAdapter" "QuantumDistribution" (distribution_json d) (
        adapted "QUANTUM" (quantum_payload c) c.confidence (quantum_trace_id d original_message)
          (quantum_constraints d) timestamp)

  abbrev pub quantum_result :
      QuantumDistribution
      → String
      → String
      → Result TranslationError ClassicalContract
      → Result AdapterError (Contract × AdapterTrace)
  quantum_result d original_message timestamp (err e) = err (translation_failed e)
  quantum_result d original_message timestamp (ok c) =
      ok (quantum_contract d original_message timestamp c)

  -- `QuantumAdapter.adapt`
  unfoldable pub adapt_quantum :
      QuantumDistribution → String → String → Result AdapterError (Contract × AdapterTrace)
  adapt_quantum d original_message timestamp =
      quantum_result d original_message timestamp (translate cfg modes h r d original_message)

  abbrev pub classical_contract :
      Fields → String → Json → Json × ℤ → Json → Items → Contract × AdapterTrace
  classical_contract fs timestamp result confidence metadata keys =
      traced "ClassicalAdapter" "dict" (obj fs) (
        adapted "CLASSICAL" (obj (field "result" result (field "metadata" metadata done)))
          confidence.1
          (deterministic_trace_id "classical" (h.dumps result ∷ write confidence.0 ∷ []))
          (obj (
            field "source" (text "classical_optimisation") (field "metadata_keys" (arr keys) done)))
          timestamp)

  -- `ClassicalAdapter.adapt`
  unfoldable pub adapt_classical : Json → String → Result AdapterError (Contract × AdapterTrace)
  unfolding get_field
  adapt_classical (obj fs) timestamp = do
    result ← check_result (given (get_field "result" fs))
    confidence ← check_confidence (given (get_field "confidence" fs))
    keys ← metadata_keys (or_empty (get_field "metadata" fs))
    ok (classical_contract fs timestamp result confidence (or_empty (get_field "metadata" fs)) keys)
  adapt_classical _ timestamp = err not_a_dict

  abbrev pub hybrid_contract : Contract → Contract → String → Contract
  hybrid_contract primary secondary timestamp =
      adapted "HYBRID" (hybrid_payload primary secondary) primary.confidence
        (deterministic_trace_id "hybrid" (primary.trace_id ∷ secondary.trace_id ∷ []))
        (obj (
          field "primary_constraints" primary.execution_constraints (
            field "secondary_constraints" secondary.execution_constraints
              (field "merge_strategy" (text "confidence_weighted") done))))
        timestamp

  -- `HybridAdapter.adapt`
  unfoldable pub adapt_hybrid : Contract → Contract → String → Contract × AdapterTrace
  adapt_hybrid q c timestamp =
      traced "HybridAdapter" "ComputationExecutionContract+ComputationExecutionContract"
        (obj (
          field "quantum_trace" (text q.trace_id) (field "classical_trace" (text c.trace_id) done)))
        (if leb_ℤ c.confidence q.confidence
          then hybrid_contract q c timestamp
          else hybrid_contract c q timestamp)
