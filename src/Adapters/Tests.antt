-- ===== src/Adapters/Tests.antt =====
-- One output of each producer, adapted under the default settings.
use native.Mathlib.Nat.{le-div_iff_mul-le, div-lt_iff_lt-mul}
use qcg_task.Prelude.{
  ◌+◌, ◌-◌, ◌*◌, ◌/◌, String, ◌≡◌, refl, ◌↔◌, ◌⊎◌, true, [], ◌∷◌, arith, Result, ok, err,
}
use qcg_task.Prelude.Int.{pos, ◌≤ℤ◌}
use qcg_task.Prelude.Json.{
  get_field, Json, Fields, Hashing, text, count, number, fraction, arr, nil, cons, obj, field, done,
  json_hash,
}
use qcg_task.Samples.{cfg, plain, sample}
use qcg_task.Contract.{
  Contract, is_filled_dict, validate_contract, check_version, parse_semver, earlier,
}
use qcg_task.Contract.Validity.{IsAcceptable, validate_contract_iff}
use qcg_task.Runtime.{Texts, is_accepted, execute}
use qcg_task.Pipeline.Models.{Modes, QuantumDistribution, message_to_bits}
use qcg_task.Pipeline.Translation.{
  ClassicalContract, Rounding, translate, status_for, dominant_from, total_count, contract_for,
}
use qcg_task.Adapters.Values.{
  AdapterTrace, AdapterError, bad_confidence, not_a_dict, attribute_error,
}
use qcg_task.Adapters.Defs.{adapt_quantum, adapt_classical, adapt_hybrid}
use qcg_task.Adapters.Rounding.{IsFaithful}
use qcg_task.Adapters.Accepted.{
  IsReady, adapt_quantum_accepted, adapt_classical_accepts_iff, adapt_hybrid_accepts_iff,
}

abbrev hashing : Hashing
hashing = record plain { uuid5 = λ s. "id" }

abbrev modes : Modes
modes = record { supported_modes = "entangled" ∷ "direct" ∷ []; contract_version = "1.0.0" }

abbrev texts : Texts
texts = record { fixed4 = λ c. "0.9"; message = λ e. "invalid" }

abbrev write : Json → String
write v = "0.9"

-- the nearest multiple of the last digit
abbrev nearest : Rounding
nearest = record {
  share = λ n m. pos ((n * 20000 + m) / (2 * m));
  rest = λ n m. pos (10000 - (n * 20000 + m) / (2 * m));
  write_seed = λ s. "42";
}

faithful : IsFaithful nearest
faithful = record {
  share_low = λ n m. omega arith;
  share_high = λ n m filled few. omega (
    arith,
    (div-lt_iff_lt-mul {k = 2 * m} {x = n * 20000 + m} {y = 10001} (omega arith)).1 (omega arith),
  );
  share_keeps = λ t n m filled enough. omega (
    arith,
    (le-div_iff_mul-le {k = 2 * m} {x = t} {y = n * 20000 + m} (omega arith)).1 (omega arith),
  );
}

fit :
    (c : Contract)
    → validate_contract cfg hashing [] "" c ≡ ok tt
    → IsAcceptable hashing cfg.allowed_producer_types cfg.minimum_contract_version c
fit c = (validate_contract_iff cfg hashing [] "" c).0

ready : IsReady cfg hashing
unfolding validate_contract check_version parse_semver earlier is_filled_dict
ready = record {
  current = (fit (record sample { payload_hash = "document" }) refl).current;
  named = λ s e. cc e;
  positive = omega arith;
}

abbrev distribution : QuantumDistribution
distribution = record {
  encoded_bits = "11";
  transmission_mode = "direct";
  noise_factor = pos 1200;
  shots = pos 1000;
  counts = ("11", 800) ∷ ("01", 200) ∷ [];
  seed = pos 42;
}

abbrev decoded : ClassicalContract
decoded = contract_for cfg modes hashing nearest "b" (pos 42) "11" 800 1000

adapt_quantum_accepted_example :
    (out : Contract × AdapterTrace) × (adapt_quantum cfg modes hashing nearest write distribution
        "b" "now"
      ≡ ok out)
    × (is_accepted (execute cfg hashing texts "" out.0).ack ≡ true)
    × (out.1.output_hash ≡ json_hash hashing out.0.payload)
unfolding translate message_to_bits status_for dominant_from total_count
adapt_quantum_accepted_example =
    adapt_quantum_accepted cfg modes hashing nearest write ready faithful refl texts "" distribution
      "b" "now" (λ e. cc e) decoded refl

abbrev output : Fields
output = field "result" (count 3) (
    field "confidence" (fraction (pos 3500))
      (field "metadata" (obj (field "solver" (text "s") (field "gap" (count 0) done))) done))

adapt_classical_accepts_iff_example :
    (out : Contract × AdapterTrace) × (adapt_classical cfg modes hashing nearest write
        (obj output)
        "now"
      ≡ ok out)
    × ((is_accepted (execute cfg hashing texts "" out.0).ack ≡ true) ↔ (pos 4000 ≤ℤ pos 3500))
unfolding get_field
adapt_classical_accepts_iff_example =
    adapt_classical_accepts_iff cfg modes hashing nearest write ready refl texts "" output "now"
      (λ e. cc e) (count 3) (fraction (pos 3500)) (pos 3500)
      (cons (text "gap") (cons (text "solver") nil)) refl refl refl refl refl

abbrev adapt : Json → Result AdapterError (Contract × AdapterTrace)
adapt v = adapt_classical cfg modes hashing nearest write v "now"

errors :
    (adapt (arr nil) ≡ err not_a_dict)
    × (adapt (obj (field "result" (count 3) (field "confidence" (count 2) done)))
        ≡ err bad_confidence)
    × (adapt (
          obj (
            field "result"
              (count 3)
              (field "confidence" (number (pos 1)) (field "metadata" (count 7) done))))
        ≡ err attribute_error)
unfolding adapt_classical get_field
errors = (refl, refl, refl)

abbrev strong : Contract
strong = record sample { payload_hash = "document" }

abbrev weak : Contract
weak = record strong { confidence = pos 3500; producer_type = "CLASSICAL" }

adapt_hybrid_accepts_iff_example :
    let x = (adapt_hybrid cfg modes hashing nearest write weak strong "now").0 in
    ((is_accepted (execute cfg hashing texts "" x).ack ≡ true) ↔ (
      (is_accepted (execute cfg hashing texts "" weak).ack ≡ true)
      ⊎ (is_accepted (execute cfg hashing texts "" strong).ack ≡ true)))
    × (weak.confidence ≤ℤ x.confidence)
    × (strong.confidence ≤ℤ x.confidence)
    × ((x.confidence ≡ weak.confidence) ⊎ (x.confidence ≡ strong.confidence))
unfolding validate_contract check_version parse_semver earlier is_filled_dict
adapt_hybrid_accepts_iff_example =
    adapt_hybrid_accepts_iff cfg modes hashing nearest write ready refl texts "" weak strong "now"
      (λ e. cc e) (fit weak refl) (fit strong refl)
