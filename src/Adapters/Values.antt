-- ===== src/Adapters/Values.antt =====
-- What the adapters read of their inputs and write into their contracts.
use Prim.Native.String.{◌++◌ as join}
use qcg_task.Prelude.{
  ℕ, ◌+◌, ◌*◌, String, Bool, true, false, not, ◌&&◌, Option, none, some, List, [], ◌∷◌, ◌==◌,
  equal_ℕ, if◌then◌else◌, Result, ok, err,
}
use qcg_task.Prelude.Dict.{Dict}
use qcg_task.Prelude.Int.{ℤ, pos, negsuc, leb_ℤ}
use qcg_task.Prelude.Json.{
  Json, null, flag, text, count, number, fraction, arr, obj, Items, nil, cons, Fields, field, done,
}
use qcg_task.Config.{one}
use qcg_task.Contract.{Contract}
use qcg_task.Pipeline.Models.{QuantumDistribution}
use qcg_task.Pipeline.Translation.{
  TransmissionStatus, status_ok, status_degraded, status_rejected, ClassicalContract,
  TranslationError,
}
use qcg_task.Replay.Deterministic.Defs.{sort_names}

pub record AdapterTrace : Type 0 where
  pub adapter_type : String
  pub producer_type : String
  pub input_type : String
  pub input_hash : String
  pub output_trace_id : String
  pub output_hash : String

pub data AdapterError : Type 0 where
  translation_failed : TranslationError → AdapterError
  not_a_dict : AdapterError
  no_result : AdapterError
  bad_confidence : AdapterError
  -- a confidence that cannot be compared, and metadata without keys
  type_error : AdapterError
  attribute_error : AdapterError

-- `":".join(parts)`
abbrev pub join_parts : List String → String
join_parts [] = ""
join_parts (s ∷ []) = s
join_parts (s ∷ t ∷ rest) = join s (join ":" (join_parts (t ∷ rest)))

abbrev pub status_text : TransmissionStatus → String
status_text status_ok = "OK"
status_text status_degraded = "DEGRADED"
status_text status_rejected = "REJECTED"

-- `None`, or a key that is missing
abbrev pub given : Option Json → Option Json
given none = none
given (some null) = none
given (some v) = some v

-- the value of a number
abbrev pub times_one : ℤ → ℤ
times_one (pos n) = pos (n * 10000)
times_one (negsuc n) = negsuc (n * 10000 + 9999)

abbrev pub number_of : Json → Option ℤ
number_of (fraction c) = some c
number_of (flag b) = some (if b then one else pos 0)
number_of (count n) = some (pos (n * 10000))
number_of (number z) = some (times_one z)
number_of _ = none

abbrev pub in_range : ℤ → Bool
in_range c = leb_ℤ (pos 0) c && leb_ℤ c one

abbrev pub check_number : Json → Option ℤ → Result AdapterError (Json × ℤ)
check_number v none = err type_error
check_number v (some c) = if not (in_range c) then err bad_confidence else ok (v, c)

-- `confidence is None or not (0.0 <= confidence <= 1.0)`
abbrev pub check_confidence : Option Json → Result AdapterError (Json × ℤ)
check_confidence none = err bad_confidence
check_confidence (some v) = check_number v (number_of v)

abbrev pub check_result : Option Json → Result AdapterError Json
check_result none = err no_result
check_result (some v) = ok v

-- `classical_output.get("metadata", {})`
abbrev pub or_empty : Option Json → Json
or_empty none = obj done
or_empty (some v) = v

abbrev pub field_names : Fields → List String
field_names done = []
field_names (field k v fs) = k ∷ field_names fs

abbrev pub name_items : List String → Items
name_items [] = nil
name_items (n ∷ ns) = cons (text n) (name_items ns)

-- Whether a value that is no dictionary counts as false.
abbrev pub is_falsy : Json → Bool
is_falsy null = true
is_falsy (flag b) = not b
is_falsy (text s) = s == ""
is_falsy (count n) = equal_ℕ n 0
is_falsy (number (pos n)) = equal_ℕ n 0
is_falsy (fraction (pos n)) = equal_ℕ n 0
is_falsy (arr nil) = true
is_falsy _ = false

-- `sorted(metadata.keys()) if metadata else []`
abbrev pub metadata_keys : Json → Result AdapterError Items
metadata_keys (obj fs) = ok (name_items (sort_names (field_names fs)))
metadata_keys v = if is_falsy v then ok nil else err attribute_error

-- `asdict(distribution)["counts"]`
abbrev pub counts_fields : Dict ℕ → Fields
counts_fields [] = done
counts_fields ((k, n) ∷ d) = field k (count n) (counts_fields d)

abbrev pub distribution_json : QuantumDistribution → Json
distribution_json d = obj (
    field "encoded_bits" (text d.encoded_bits) (
      field "transmission_mode" (text d.transmission_mode) (
        field "noise_factor" (fraction d.noise_factor) (
          field "shots" (number d.shots)
            (field "counts" (obj (counts_fields d.counts)) (field "seed" (number d.seed) done))))))

abbrev pub quantum_payload : ClassicalContract → Json
quantum_payload c = obj (
    field "decoded_message" (text c.decoded_message) (
      field "transmission_status" (text (status_text c.transmission_status)) (
        field "original_trace_id" (text c.trace_id)
          (field "uncertainty_score" (fraction c.uncertainty_score) done))))

abbrev pub quantum_constraints : QuantumDistribution → Json
quantum_constraints d = obj (
    field "shots" (number d.shots) (
      field "noise_factor" (fraction d.noise_factor) (
        field "seed" (number d.seed) (
          field "encoded_bits" (text d.encoded_bits)
            (field "transmission_mode" (text d.transmission_mode) done)))))

abbrev pub hybrid_payload : Contract → Contract → Json
hybrid_payload primary secondary = obj (
    field "primary_payload" primary.payload (
      field "secondary_payload" secondary.payload (
        field "primary_producer" (text primary.producer_type) (
          field "secondary_producer" (text secondary.producer_type) (
            field "selection_strategy" (text "confidence_weighted") (
              field "primary_confidence" (fraction primary.confidence)
                (field "secondary_confidence" (fraction secondary.confidence) done)))))))
