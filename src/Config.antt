-- ===== src/Config.antt =====
-- config.py: the settings and `validate`. A float setting is an integer of ten-thousandths.
mod Tests
use qcg_task.Prelude.{
  String, ◌≡◌, refl, ◌↔◌, Bool, true, false, not, ◌||◌, List, [], ◌∷◌, arith, member, Result, ok,
  err, ◌>>◌, ◌>>=◌, raise_if, Bool-cases, inl, inr,
}
use qcg_task.Prelude.Int.{ℤ, pos, ltb_ℤ, leb_ℤ, ◌<ℤ◌, ◌≤ℤ◌}

abbrev pub one : ℤ
one = pos 10000

pub record Config : Type 0 where
  pub shots : ℤ
  pub max_message_length : ℤ
  pub confidence_threshold : ℤ
  pub corruption_threshold : ℤ
  pub rate_limit_per_minute : ℤ
  pub execution_contract_version : String
  pub minimum_contract_version : String
  pub allowed_producer_types : List String
  pub governance_strict_mode : Bool
  pub replay_ttl_seconds : ℤ
  pub replay_max_sequence_gap : ℤ
  pub consensus_quorum_threshold : ℤ
  pub simulation_node_count : ℤ
  pub simulation_producer_count : ℤ
  pub transport_type : String

pub data ConfigError : Type 0 where
  confidence_range corruption_range threshold_order : ConfigError
  bad_shots bad_message_length bad_rate_limit bad_node_count bad_producer_count : ConfigError
  bad_ttl bad_gap bad_quorum bad_transport : ConfigError

abbrev pub transports : List String
transports = "tcp" ∷ "uds" ∷ "http" ∷ "grpc" ∷ "nats" ∷ "zeromq" ∷ []

-- `not (low < x <= high)`
abbrev pub outside : ℤ → ℤ → ℤ → Bool
outside low high x = not (ltb_ℤ low x) || not (leb_ℤ x high)

abbrev pub nonpositive : ℤ → Bool
nonpositive x = leb_ℤ x (pos 0)

-- the checks of the counts
abbrev pub validate_counts : Config → Result ConfigError (Unit {0})
validate_counts c = do
  raise_if (nonpositive c.shots) bad_shots
  raise_if (nonpositive c.max_message_length) bad_message_length
  raise_if (nonpositive c.rate_limit_per_minute) bad_rate_limit
  raise_if (nonpositive c.simulation_node_count) bad_node_count
  raise_if (nonpositive c.simulation_producer_count) bad_producer_count
  raise_if (nonpositive c.replay_ttl_seconds) bad_ttl
  raise_if (nonpositive c.replay_max_sequence_gap) bad_gap

unfoldable pub validate : Config → Result ConfigError (Unit {0})
validate c = do
  raise_if (outside (pos 0) one c.confidence_threshold) confidence_range
  raise_if (outside (pos 0) one c.corruption_threshold) corruption_range
  raise_if (leb_ℤ c.confidence_threshold c.corruption_threshold) threshold_order
  validate_counts c
  raise_if (outside (pos 5000) one c.consensus_quorum_threshold) bad_quorum
  raise_if (not (member c.transport_type transports)) bad_transport

-- What the other components rely on.
pub record IsSane (c : Config) : Type 0 where
  pub corruption_positive : pos 0 <ℤ c.corruption_threshold
  pub thresholds_apart : c.corruption_threshold <ℤ c.confidence_threshold
  pub confidence_at_most_one : c.confidence_threshold ≤ℤ one
  pub shots_positive : pos 0 <ℤ c.shots
  pub length_positive : pos 0 <ℤ c.max_message_length
  pub rate_positive : pos 0 <ℤ c.rate_limit_per_minute
  pub nodes_positive : pos 0 <ℤ c.simulation_node_count
  pub producers_positive : pos 0 <ℤ c.simulation_producer_count
  pub ttl_positive : pos 0 <ℤ c.replay_ttl_seconds
  pub gap_positive : pos 0 <ℤ c.replay_max_sequence_gap
  pub quorum_above_half : pos 5000 <ℤ c.consensus_quorum_threshold
  pub quorum_at_most_one : c.consensus_quorum_threshold ≤ℤ one
  pub transport_known : member c.transport_type transports ≡ true

validate-IsSane : (c : Config) → validate c ≡ ok tt → IsSane c
unfolding validate
validate-IsSane c h = ground arith

IsSane-validate : (c : Config) → IsSane c → validate c ≡ ok tt
unfolding validate
IsSane-validate c s = ground arith

-- Start-up accepts a configuration exactly when every setting is in its range, the corruption
-- threshold is below the confidence threshold and the quorum is more than a half.
pub validate_iff : (c : Config) → (validate c ≡ ok tt) ↔ IsSane c
validate_iff c = (validate-IsSane c, IsSane-validate c)
