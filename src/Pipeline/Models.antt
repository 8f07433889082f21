-- ===== src/Pipeline/Models.antt =====
-- The requests and distributions of models.py, with their checks, and the producer's encoding. White
-- space is that of ASCII. A count of shots is a natural number.
use Prim.Native.Char.{code}
use Prim.Native.String.{count as text_length}
use qcg_task.Prelude.{
  ℕ, ◌+◌, ◌*◌, ◌-◌, ◌%◌, String, Bool, not, ◌&&◌, ◌||◌, List, [], ◌∷◌, ◌==◌, if◌then◌else◌, leb,
  equal_ℕ, member, Result, ok, err, ◌>>◌, raise_if,
}
use qcg_task.Prelude.Dict.{Dict}
use qcg_task.Prelude.Int.{ℤ, pos, ltb_ℤ, leb_ℤ}
use qcg_task.Prelude.Json.{Hashing}
use qcg_task.Config.{Config, one}

-- The settings that only this pipeline reads.
pub record Modes : Type 0 where
  pub supported_modes : List String
  pub contract_version : String

pub data InputError : Type 0 where
  empty_message : InputError
  message_too_long : ℕ → InputError
  noise_outside : ℤ → InputError
  unsupported_mode : String → InputError
  empty_counts : InputError
  no_shots : InputError

is_space : ℕ → Bool
is_space c = equal_ℕ c 32 || (leb 9 c && leb c 13) || (leb 28 c && leb c 31)

strip_left : String → String
unfolding is_space
strip_left String.[] = ""
strip_left (String.◌∷◌ c s) =
    let rest = strip_left s in if is_space (code c) then rest else String.◌∷◌ c s

strip_right : String → String
unfolding is_space
strip_right String.[] = ""
strip_right (String.◌∷◌ c s) =
    let rest = strip_right s in if is_space (code c) && rest == "" then "" else String.◌∷◌ c rest

-- `message.strip()`
unfoldable pub strip : String → String
unfolding strip_left strip_right
strip s = strip_right (strip_left s)

pub record TransmissionRequest : Type 0 where
  pub message : String
  pub noise : ℤ
  pub mode : String

-- `TransmissionRequest(message, noise, mode)`, with `__post_init__`
unfoldable pub new_request :
    Config → Modes → String → ℤ → String → Result InputError TransmissionRequest
new_request cfg modes message noise mode = do
  raise_if (strip message == "") empty_message
  raise_if (ltb_ℤ cfg.max_message_length (pos (text_length (strip message))))
      (message_too_long (text_length (strip message)))
  raise_if (not (leb_ℤ (pos 0) noise && leb_ℤ noise one)) (noise_outside noise)
  raise_if (not (member mode modes.supported_modes)) (unsupported_mode mode)
  ok (record { message = strip message; noise = noise; mode = mode })

pub record QuantumDistribution : Type 0 where
  pub encoded_bits : String
  pub transmission_mode : String
  pub noise_factor : ℤ
  pub shots : ℤ
  pub counts : Dict ℕ
  pub seed : ℤ

-- `__post_init__`, by the counts
abbrev pub check_counts : Dict ℕ → QuantumDistribution → Result InputError QuantumDistribution
check_counts [] d = err empty_counts
check_counts (_ ∷ _) d = if leb_ℤ d.shots (pos 0) then err no_shots else ok d

-- the value of a hexadecimal digit; a digest has no other characters
abbrev pub hex_value : ℕ → ℕ
hex_value c = if leb c b'9' then c - 48 else c - 87

-- `int(digest[:2], 16)`
abbrev pub first_byte : String → ℕ
first_byte String.[] = 0
first_byte (String.◌∷◌ a String.[]) = hex_value (code a)
first_byte (String.◌∷◌ a (String.◌∷◌ b s)) = hex_value (code a) * 16 + hex_value (code b)

-- `f"{n:02b}"`, for the remainders modulo 4
abbrev pub two_bits : ℕ → String
two_bits n =
    if equal_ℕ n 0 then "00" else if equal_ℕ n 1 then "01" else if equal_ℕ n 2 then "10" else "11"

-- `_message_to_bits`, which `_verify_bits` repeats
unfoldable pub message_to_bits : Hashing → String → String
message_to_bits h message = two_bits (first_byte (h.sha256 message) % 4)

-- The simulator of the quantum channel: the counts for the encoded bits, the noise, the shots and the
-- seed.
abbrev pub Simulator : Type 0
Simulator = String → ℤ → ℤ → ℤ → Dict ℕ

abbrev pub produced_for :
    Config → Hashing → Simulator → TransmissionRequest → ℤ → QuantumDistribution
produced_for cfg h simulate q seed =
    let bits = message_to_bits h q.message in
    record {
      encoded_bits = bits;
      transmission_mode = q.mode;
      noise_factor = q.noise;
      shots = cfg.shots;
      counts = simulate bits q.noise cfg.shots seed;
      seed = seed;
    }

unfoldable pub run_quantum_producer :
    Config → Hashing → Simulator → TransmissionRequest → ℤ → Result InputError QuantumDistribution
run_quantum_producer cfg h simulate q seed =
    let d = produced_for cfg h simulate q seed in check_counts d.counts d
