-- ===== src/Trust/Provenance/Defs.antt =====
-- `sign_contract` and `verify_contract_provenance`.
use qcg_task.Prelude.{String, Bool, not, ◌||◌, ◌==◌, if◌then◌else◌}
use qcg_task.Prelude.Json.{Json, Hashing, text, fraction, obj, field, done, json_hash}
use qcg_task.Contract.{Contract, post_init}
use qcg_task.Trust.Identity.{
  Ecdsa, NodeSigner, NodeProof, Payload, plain, document, payload_text, sign_payload,
  verify_node_proof,
}

pub data ProvenanceStatus : Type 0 where
  verified : ProvenanceStatus
  unverified : ProvenanceStatus
  tampered : ProvenanceStatus

-- `det_dict`: every field but the time stamp and the contract signature
abbrev pub det_dict : Contract → Json
det_dict c = obj (
    field "producer_type" (text c.producer_type) (
      field "payload" c.payload (
        field "confidence" (fraction c.confidence) (
          field "trace_id" (text c.trace_id) (
            field "contract_version" (text c.contract_version) (
              field "execution_constraints" c.execution_constraints (
                field "payload_hash" (text c.payload_hash) (
                  field "producer_id" (text c.producer_id)
                    (field "producer_signature" (text c.producer_signature) done)))))))))

-- `not producer_signature or not contract_signature or not producer_id`
abbrev pub lacks_signature : Contract → Bool
lacks_signature c = c.producer_signature == "" || c.contract_signature == "" || c.producer_id == ""

module _ (h : Hashing) (e : Ecdsa) where
  abbrev pub with_producer : Contract → NodeSigner → Contract
  with_producer c s = record c {
    producer_id = s.identity.node_id;
    producer_signature = (sign_payload h e s (plain c.payload_hash)).signature;
  }

  -- The result is constructed anew, with `__post_init__`.
  unfoldable pub sign_contract : Contract → NodeSigner → Contract
  sign_contract c s =
      let owned = with_producer c s in
      post_init h (record owned {
        contract_signature = (sign_payload h e s (document (det_dict owned))).signature;
      })

  -- the proof that is rebuilt from a signature and the payload it should sign
  abbrev pub rebuilt : Contract → String → Payload → NodeProof
  rebuilt c signature p = record {
    node_id = c.producer_id;
    signature = signature;
    signed_hash = h.sha256 (payload_text h p);
  }

  abbrev pub producer_fits : Contract → String → Bool
  producer_fits c key =
      verify_node_proof h e (rebuilt c c.producer_signature (plain c.payload_hash)) key
        (plain c.payload_hash)

  abbrev pub contract_fits : Contract → String → Bool
  contract_fits c key =
      verify_node_proof h e (rebuilt c c.contract_signature (document (det_dict c))) key
        (document (det_dict c))

  unfoldable pub verify_contract_provenance : Contract → String → ProvenanceStatus
  verify_contract_provenance c producer_public_key =
      if lacks_signature c
      then unverified
      else if not (c.payload_hash == json_hash h c.payload)
      then tampered
      else if not (producer_fits c producer_public_key)
      then tampered
      else if not (contract_fits c producer_public_key)
      then tampered
      else verified
