-- ===== src/Consensus/Node.antt =====
-- `NodeAttestation`, `DistributedConsensusNode.process`, and the verification of an attestation.
-- A status is a constructor for each of its forms. The nodes' core has no evidence ledger.
use text.Mathlib.Text.{find?}
use qcg_task.Prelude.{String, Bool, true, false, not, ◌&&◌, ◌==◌, if◌then◌else◌, is_some}
use qcg_task.Prelude.Json.{Hashing}
use qcg_task.Config.{Config}
use qcg_task.Contract.{Contract}
use qcg_task.Runtime.{Texts, ack_text, ExecutionResult, execute}
use qcg_task.Trust.Identity.{Ecdsa, NodeSigner, NodeProof, plain, sign_payload, verify_node_proof}
use qcg_task.Trust.Provenance.Defs.{ProvenanceStatus, verified, verify_contract_provenance}

pub data AttestationStatus : Type 0 where
  status_ok : AttestationStatus
  execution_halt : String → AttestationStatus
  provenance_failure : ProvenanceStatus → AttestationStatus

pub record NodeAttestation : Type 0 where
  pub node_id : String
  pub agreement_hash : String
  pub status : AttestationStatus
  pub signature : String
  pub public_key : String

-- `"PROVENANCE_FAILURE" in att.status`
abbrev pub names_failure : AttestationStatus → Bool
names_failure status_ok = false
names_failure (execution_halt ack) = is_some (find? ack "PROVENANCE_FAILURE")
names_failure (provenance_failure s) = true

-- `if h and "PROVENANCE_FAILURE" not in att.status`
abbrev pub counts : NodeAttestation → Bool
counts a = not (a.agreement_hash == "") && not (names_failure a.status)

module _ (cfg : Config) (h : Hashing) (t : Texts) (e : Ecdsa) where
  -- the attestation of a hash that the node signs
  abbrev pub attest : NodeSigner → String → AttestationStatus → NodeAttestation
  attest s agreement_hash status = record {
    node_id = s.identity.node_id;
    agreement_hash = agreement_hash;
    status = status;
    signature = (sign_payload h e s (plain agreement_hash)).signature;
    public_key = s.identity.public_key;
  }

  abbrev pub status_of : ExecutionResult → AttestationStatus
  status_of r =
      if is_some (find? (ack_text t r.ack) "HALT")
      then execution_halt (ack_text t r.ack)
      else status_ok

  abbrev pub attest_result : NodeSigner → ExecutionResult → NodeAttestation
  attest_result s r = attest s r.runtime_hash (status_of r)

  abbrev pub after_provenance : NodeSigner → Contract → ProvenanceStatus → NodeAttestation
  after_provenance s c verified = attest_result s (execute cfg h t "" c)
  after_provenance s c failure = attest s "" (provenance_failure failure)

  unfoldable pub process : NodeSigner → Contract → String → NodeAttestation
  process s c producer_pub_key =
      after_provenance s c (verify_contract_provenance h e c producer_pub_key)

  -- the proof that is rebuilt from an attestation
  abbrev pub proof_of : String → NodeAttestation → NodeProof
  proof_of node_id a = record {
    node_id = node_id;
    signature = a.signature;
    signed_hash = h.sha256 a.agreement_hash;
  }

  unfoldable pub attestation_valid : String → NodeAttestation → Bool
  attestation_valid node_id a =
      verify_node_proof h e (proof_of node_id a) a.public_key (plain a.agreement_hash)
