-- ===== src/Pipeline/Translation.antt =====
-- `translate`. The confidence is the share that the dominant bits have of all counts, compared with
-- a threshold in ten-thousandths without division.
use Prim.Native.String.{◌++◌ as join}
use qcg_task.Prelude.{
  ℕ, ◌+◌, ◌*◌, String, Bool, not, [], ◌∷◌, ◌==◌, if◌then◌else◌, ltb, equal_ℕ, Result, ok, err,
}
use qcg_task.Prelude.Dict.{Dict}
use qcg_task.Prelude.Int.{ℤ, pos_part}
use qcg_task.Prelude.Json.{Hashing}
use qcg_task.Config.{Config}
use qcg_task.Pipeline.Models.{Modes, QuantumDistribution, message_to_bits}

pub data TransmissionStatus : Type 0 where
  status_ok : TransmissionStatus
  status_degraded : TransmissionStatus
  status_rejected : TransmissionStatus

pub record ClassicalContract : Type 0 where
  pub trace_id : String
  pub confidence : ℤ
  pub decoded_message : String
  pub transmission_status : TransmissionStatus
  pub uncertainty_score : ℤ
  pub contract_version : String

pub data TranslationError : Type 0 where
  contract_rejected : ClassicalContract → TranslationError
  no_counts : TranslationError
  division_by_zero : TranslationError

-- How Python rounds the share of two counts, and its difference from one, to four digits, and writes
-- a seed.
pub record Rounding : Type 0 where
  pub share : ℕ → ℕ → ℤ
  pub rest : ℕ → ℕ → ℤ
  pub write_seed : ℤ → String

-- `sum(counts.values())`
unfoldable pub total_count : Dict ℕ → ℕ
total_count [] = 0
total_count ((k, n) ∷ d) = n + total_count d

-- `max(counts, key=counts.get)`: the first of the largest, from a first candidate on
unfoldable pub dominant_from : String → ℕ → Dict ℕ → String × ℕ
dominant_from best n [] = (best, n)
dominant_from best n ((k, m) ∷ d) =
    let rest_from = λ (x : String × ℕ). dominant_from x.0 x.1 d in
    rest_from (if ltb n m then (k, m) else (best, n))

-- `confidence < threshold`, for `count / total` and a threshold that is not negative
abbrev pub is_below : ℕ → ℕ → ℤ → Bool
is_below count total threshold = ltb (count * 10000) (pos_part threshold * total)

unfoldable pub status_for : Config → ℕ → ℕ → Bool → TransmissionStatus
status_for cfg count total is_match =
    if is_below count total cfg.corruption_threshold
    then status_rejected
    else if not is_match
    then status_rejected
    else if is_below count total cfg.confidence_threshold
    then status_degraded
    else status_ok

-- the label of a message whose bits do not match
abbrev pub corrupted_label : String → String → String
corrupted_label expected got =
    join "CORRUPTED[expected=" (join expected (join ",got=" (join got "]")))

module _ (cfg : Config) (modes : Modes) (h : Hashing) (r : Rounding) where
  abbrev pub trace_of : String → ℤ → String → String
  trace_of message seed bits =
      h.uuid5 (join message (join ":" (join (r.write_seed seed) (join ":" bits))))

  -- `_verify_bits`
  abbrev pub verify_bits : String → String → String × Bool
  verify_bits received message =
      let expected = message_to_bits h message in
      (
        if received == expected then message else corrupted_label expected received,
        received == expected,
      )

  -- the contract for the dominant bits, their count and the total
  abbrev pub contract_for : String → ℤ → String → ℕ → ℕ → ClassicalContract
  contract_for message seed bits count total = record {
    trace_id = trace_of message seed bits;
    confidence = r.share count total;
    decoded_message = (verify_bits bits message).0;
    transmission_status = status_for cfg count total (verify_bits bits message).1;
    uncertainty_score = r.rest count total;
    contract_version = modes.contract_version;
  }

  abbrev pub unless_rejected :
      TransmissionStatus → ClassicalContract → Result TranslationError ClassicalContract
  unless_rejected status_rejected c = err (contract_rejected c)
  unless_rejected _ c = ok c

  abbrev pub translate_counts : String → ℤ → Dict ℕ → Result TranslationError ClassicalContract
  translate_counts message seed [] = err no_counts
  translate_counts message seed ((k, n) ∷ d) =
      let (bits, count) = dominant_from k n d in
      let total = n + total_count d in
      let c = contract_for message seed bits count total in
      if equal_ℕ total 0 then err division_by_zero else unless_rejected c.transmission_status c

  unfoldable pub translate :
      QuantumDistribution → String → Result TranslationError ClassicalContract
  translate d original_message = translate_counts original_message d.seed d.counts
