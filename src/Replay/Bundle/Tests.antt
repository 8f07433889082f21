-- ===== src/Replay/Bundle/Tests.antt =====
-- A bundle of one execution, signed by a gateway.
use qcg_task.Prelude.{String, ◌≡◌, refl, ◌↔◌, true, [], ◌∷◌, inl}
use qcg_task.Prelude.Dict.{Dict, lookup}
use qcg_task.Prelude.Int.{pos}
use qcg_task.Prelude.Json.{nil, done}
use qcg_task.Samples.{plain}
use qcg_task.Trust.Samples.{keyed, keyed-IsCorrect}
use qcg_task.Trust.Identity.{NodeSigner, new_signer}
use qcg_task.Replay.Bundle.Defs.{
  ReplayBundle, unverified, pass, sign, verify, run_checks, signable_state, bundle_signature_check,
  producer_signature_check, consensus_check, audit_root_check, passed, failed,
}
use qcg_task.Replay.Bundle.Passes.{IsWhole, verify_passes_iff, signed_bundle_passes}

abbrev gateway : NodeSigner
gateway = new_signer keyed "g" "GATEWAY_NODE" "GATEWAY" "1.0.0"

abbrev link : String → String → Dict String
link a b = ("from_node", a) ∷ ("to_node", b) ∷ ("action", "FORWARD") ∷ []

abbrev bundle : ReplayBundle
bundle = record {
  bundle_id = "RB-1";
  producer_lineage = record {
    producer_id = "P";
    producer_type = "QUANTUM";
    payload_hash = "hash";
    producer_signature = ":phash";
  };
  adapter_lineage = record { translation_version = "1.0.0"; contract_version = "2.0.0" };
  governance_lineage = record { strict_mode = true; violations = nil };
  execution_lineage = record {
    trace_id = "tr-1";
    runtime_hash = "r";
    ack = "ACK:OK";
    execution_timestamp = "noon";
  };
  consensus_lineage = record {
    participating_nodes = "A" ∷ "B" ∷ [];
    final_hash = "r";
    agreement_percentage = pos 10000;
    consensus_reached = true;
    disagreements = [];
    consensus_round = 1;
    quorum_size = 2;
    node_attestations = done;
    consensus_timestamp = "noon";
  };
  bundle_signature = "";
  verification_status = unverified;
  audit_trail_root = "";
  trust_chain = link "P" "G" ∷ link "G" "E" ∷ [];
  verification_details = [];
}

-- The first check that fails is the last one that is written.
short_root :
    (verify plain keyed "g" "p"
      (sign plain keyed gateway (record bundle { audit_trail_root = "a" }))).verification_details
    ≡ (bundle_signature_check, passed)
      ∷ (producer_signature_check, passed)
      ∷ (consensus_check, passed)
      ∷ (audit_root_check, failed)
      ∷ []
unfolding verify sign run_checks signable_state
short_root = refl

verify_passes_iff_example :
    ((verify plain keyed "g" "p" (sign plain keyed gateway bundle)).verification_status ≡ pass)
    ↔ IsWhole plain keyed "g" "p" (sign plain keyed gateway bundle)
verify_passes_iff_example = verify_passes_iff plain keyed "g" "p" (sign plain keyed gateway bundle)

signed_bundle_passes_example :
    (verify plain keyed "g" "p" (sign plain keyed gateway bundle)).verification_status ≡ pass
unfolding lookup
signed_bundle_passes_example =
    signed_bundle_passes plain keyed keyed-IsCorrect gateway "p" bundle refl refl refl (inl refl)
      (refl, tt)
