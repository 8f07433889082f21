-- ===== src/Samples.antt =====
-- Concrete data for the tests: the default settings, a hash function that keeps its input, and a
-- contract.
use qcg_task.Prelude.{true, [], ◌∷◌}
use qcg_task.Prelude.Int.{pos}
use qcg_task.Prelude.Json.{Hashing, text, obj, field, done}
use qcg_task.Config.{Config}
use qcg_task.Contract.{Contract}

abbrev pub cfg : Config
cfg = record {
  shots = pos 1024;
  max_message_length = pos 256;
  confidence_threshold = pos 7000;
  corruption_threshold = pos 4000;
  rate_limit_per_minute = pos 60;
  execution_contract_version = "2.0.0";
  minimum_contract_version = "2.0.0";
  allowed_producer_types = "CLASSICAL" ∷ "QUANTUM" ∷ "HYBRID" ∷ [];
  governance_strict_mode = true;
  replay_ttl_seconds = pos 300;
  replay_max_sequence_gap = pos 1000;
  consensus_quorum_threshold = pos 6600;
  simulation_node_count = pos 3;
  simulation_producer_count = pos 2;
  transport_type = "tcp";
}

abbrev pub plain : Hashing
plain = record { dumps = λ v. "document"; sha256 = λ s. s; uuid5 = λ s. s }

abbrev pub sample : Contract
sample = record {
  producer_type = "QUANTUM";
  payload = obj (field "data" (text "entangled_pair") done);
  confidence = pos 9800;
  trace_id = "tr-1";
  contract_version = "2.0.0";
  execution_constraints = obj done;
  payload_hash = "document";
  producer_id = "";
  producer_signature = "";
  contract_signature = "";
  timestamp = "now";
}
