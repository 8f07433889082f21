-- ===== src/Replay/Bundle/Defs.antt =====
-- ReplayBundle with `sign` and `verify`. The links of its chain are dictionaries of texts.
use Prim.Native.String.{count as text_length}
use qcg_task.Prelude.{
  ℕ, String, Bool, true, false, Option, none, some, List, [], ◌∷◌, ◌==◌, equal_ℕ, if◌then◌else◌,
}
use qcg_task.Prelude.Dict.{Dict, lookup}
use qcg_task.Prelude.Int.{ℤ}
use qcg_task.Prelude.Json.{
  Json, flag, text, count, fraction, arr, obj, Items, nil, cons, Fields, field, done, Hashing,
  json_hash,
}
use qcg_task.Trust.Identity.{Ecdsa, NodeSigner, plain, document, sign_payload, verify_node_proof}

pub record ProducerLineage : Type 0 where
  pub producer_id : String
  pub producer_type : String
  pub payload_hash : String
  pub producer_signature : String

pub record AdapterLineage : Type 0 where
  pub translation_version : String
  pub contract_version : String

pub record GovernanceLineage : Type 0 where
  pub strict_mode : Bool
  pub violations : Items

pub record ExecutionLineage : Type 0 where
  pub trace_id : String
  pub runtime_hash : String
  pub ack : String
  pub execution_timestamp : String

-- a ConsensusProof as it is written into a bundle, with all its fields
pub record ConsensusLineage : Type 0 where
  pub participating_nodes : List String
  pub final_hash : String
  pub agreement_percentage : ℤ
  pub consensus_reached : Bool
  pub disagreements : Dict String
  pub consensus_round : ℕ
  pub quorum_size : ℕ
  pub node_attestations : Fields
  pub consensus_timestamp : String

pub data BundleStatus : Type 0 where
  unverified pass fail : BundleStatus

pub data Check : Type 0 where
  bundle_signature_check producer_signature_check consensus_check : Check
  audit_root_check continuity_check : Check

pub data Outcome : Type 0 where
  passed failed skipped : Outcome

pub record ReplayBundle : Type 0 where
  pub bundle_id : String
  pub producer_lineage : ProducerLineage
  pub adapter_lineage : AdapterLineage
  pub governance_lineage : GovernanceLineage
  pub execution_lineage : ExecutionLineage
  pub consensus_lineage : ConsensusLineage
  pub bundle_signature : String
  pub verification_status : BundleStatus
  pub audit_trail_root : String
  pub trust_chain : List (Dict String)
  pub verification_details : List (Check × Outcome)

abbrev pub text_items : List String → Items
text_items [] = nil
text_items (s ∷ rest) = cons (text s) (text_items rest)

abbrev pub text_fields : Dict String → Fields
text_fields [] = done
text_fields ((k, s) ∷ rest) = field k (text s) (text_fields rest)

abbrev pub link_items : List (Dict String) → Items
link_items [] = nil
link_items (l ∷ rest) = cons (obj (text_fields l)) (link_items rest)

abbrev pub producer_json : ProducerLineage → Json
producer_json p = obj (
    field "producer_id" (text p.producer_id) (
      field "producer_type" (text p.producer_type) (
        field "payload_hash" (text p.payload_hash)
          (field "producer_signature" (text p.producer_signature) done))))

abbrev pub adapter_json : AdapterLineage → Json
adapter_json a = obj (
    field "translation_version" (text a.translation_version)
      (field "contract_version" (text a.contract_version) done))

abbrev pub governance_json : GovernanceLineage → Json
governance_json g =
    obj (field "strict_mode" (flag g.strict_mode) (field "violations" (arr g.violations) done))

abbrev pub execution_json : ExecutionLineage → Json
execution_json x = obj (
    field "trace_id" (text x.trace_id) (
      field "runtime_hash" (text x.runtime_hash)
        (field "ack" (text x.ack) (field "execution_timestamp" (text x.execution_timestamp) done))))

abbrev pub consensus_json : ConsensusLineage → Json
consensus_json c = obj (
    field "participating_nodes" (arr (text_items c.participating_nodes)) (
      field "final_hash" (text c.final_hash) (
        field "agreement_percentage" (fraction c.agreement_percentage) (
          field "consensus_reached" (flag c.consensus_reached) (
            field "disagreements" (obj (text_fields c.disagreements)) (
              field "consensus_round" (count c.consensus_round) (
                field "quorum_size" (count c.quorum_size) (
                  field "node_attestations" (obj c.node_attestations)
                    (field "consensus_timestamp" (text c.consensus_timestamp) done)))))))))

-- `_signable_state`: all but the signature and what the verification writes
unfoldable pub signable_state : ReplayBundle → Json
signable_state b = obj (
    field "bundle_id" (text b.bundle_id) (
      field "producer_lineage" (producer_json b.producer_lineage) (
        field "adapter_lineage" (adapter_json b.adapter_lineage) (
          field "governance_lineage" (governance_json b.governance_lineage) (
            field "execution_lineage" (execution_json b.execution_lineage) (
              field "consensus_lineage" (consensus_json b.consensus_lineage) (
                field "audit_trail_root" (text b.audit_trail_root)
                  (field "trust_chain" (arr (link_items b.trust_chain)) done))))))))

-- `link.get(name, "")`
abbrev pub or_empty : Option String → String
or_empty none = ""
or_empty (some s) = s

abbrev pub get_text : String → Dict String → String
get_text name l = or_empty (lookup name l)

-- The loop over the neighbours of the chain.
unfoldable pub chain_ok : List (Dict String) → Bool
unfolding lookup
chain_ok [] = true
chain_ok (a ∷ []) = true
chain_ok (a ∷ b ∷ rest) =
    let later = chain_ok (b ∷ rest) in
    if get_text "to_node" a == get_text "from_node" b then later else false

-- `none` is a check that is skipped.
abbrev pub check_root : String → Option Bool
check_root root = if root == "" then none else some (equal_ℕ (text_length root) 64)

abbrev pub check_chain : List (Dict String) → Option Bool
check_chain [] = none
check_chain (l ∷ ls) = some (chain_ok (l ∷ ls))

-- The checks in their order, up to the first that fails.
unfoldable pub run_checks : List (Check × Option Bool) → BundleStatus × List (Check × Outcome)
run_checks [] = (pass, [])
run_checks ((c, some false) ∷ rest) = (fail, (c, failed) ∷ [])
run_checks ((c, some true) ∷ rest) = let later = run_checks rest in (later.0, (c, passed) ∷ later.1)
run_checks ((c, none) ∷ rest) = let later = run_checks rest in (later.0, (c, skipped) ∷ later.1)

module _ (h : Hashing) (e : Ecdsa) where
  unfoldable pub sign : NodeSigner → ReplayBundle → ReplayBundle
  unfolding signable_state
  sign gateway_signer b = record b {
    bundle_signature = (sign_payload h e gateway_signer (document (signable_state b))).signature;
  }

  abbrev pub bundle_signed : String → ReplayBundle → Bool
  bundle_signed gateway_public_key b =
      verify_node_proof h e
        (record {
          node_id = "GATEWAY";
          signature = b.bundle_signature;
          signed_hash = json_hash h (signable_state b);
        })
        gateway_public_key (document (signable_state b))

  abbrev pub payload_signed : String → ProducerLineage → Bool
  payload_signed producer_public_key p =
      verify_node_proof h e
        (record {
          node_id = p.producer_id;
          signature = p.producer_signature;
          signed_hash = h.sha256 p.payload_hash;
        })
        producer_public_key (plain p.payload_hash)

  abbrev pub checks : String → String → ReplayBundle → List (Check × Option Bool)
  checks gateway_public_key producer_public_key b =
      (bundle_signature_check, some (bundle_signed gateway_public_key b))
      ∷ (producer_signature_check, some (payload_signed producer_public_key b.producer_lineage))
      ∷ (consensus_check, some b.consensus_lineage.consensus_reached)
      ∷ (audit_root_check, check_root b.audit_trail_root)
      ∷ (continuity_check, check_chain b.trust_chain)
      ∷ []

  -- The answer of `verify` is the status that it leaves.
  unfoldable pub verify : String → String → ReplayBundle → ReplayBundle
  unfolding run_checks signable_state chain_ok
  verify gateway_public_key producer_public_key b =
      let done_checks = run_checks (checks gateway_public_key producer_public_key b) in
      record b { verification_status = done_checks.0; verification_details = done_checks.1 }
