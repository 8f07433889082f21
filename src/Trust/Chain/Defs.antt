-- ===== src/Trust/Chain/Defs.antt =====
-- `NodeRegistry`, `TrustChainLink` and `TrustChain`. The registry is a dictionary of identities.
use qcg_task.Prelude.{
  ℕ, suc, String, Bool, true, false, not, Option, none, some, List, [], ◌∷◌, ◌++◌, ◌==◌,
  if◌then◌else◌,
}
use qcg_task.Prelude.Dict.{Dict, lookup, insert}
use qcg_task.Prelude.Json.{Json, Hashing, text, obj, field, done}
use qcg_task.Trust.Identity.{
  Ecdsa, NodeIdentity, NodeSigner, NodeProof, Payload, document, payload_text, sign_payload,
  verify_node_proof,
}

abbrev pub NodeRegistry : Type 0
NodeRegistry = Dict NodeIdentity

abbrev pub register_node : NodeIdentity → NodeRegistry → NodeRegistry
register_node identity nodes = insert identity.node_id identity nodes

pub record TrustChainLink : Type 0 where
  pub from_node : String
  pub to_node : String
  pub action : String
  pub signature : String
  pub payload_hash : String

-- an error of `verify_chain`, with the number of the link
pub data ChainError : Type 0 where
  not_registered : ℕ → String → ChainError
  bad_signature : ℕ → String → ChainError
  chain_break : ℕ → String → String → ChainError

-- the dictionary that the sender signs
abbrev pub handoff_data : String → String → String → String → Json
handoff_data from_node to_node action payload_hash = obj (
    field "from_node" (text from_node) (
      field "to_node" (text to_node)
        (field "action" (text action) (field "payload_hash" (text payload_hash) done))))

abbrev pub link_data : TrustChainLink → Payload
link_data l = document (handoff_data l.from_node l.to_node l.action l.payload_hash)

-- the test of two neighbours; the first link has no previous one
abbrev pub continuity : ℕ → Option TrustChainLink → TrustChainLink → List ChainError
continuity i none l = []
continuity i (some prev) l =
    if not (prev.to_node == l.from_node) then chain_break i prev.to_node l.from_node ∷ [] else []

-- `len(errors) == 0`
abbrev pub passed : List ChainError → Bool
passed [] = true
passed (x ∷ xs) = false

module _ (h : Hashing) (e : Ecdsa) where
  abbrev pub handoff : NodeSigner → NodeIdentity → String → String → TrustChainLink
  handoff from_signer to_identity action payload_hash = record {
    from_node = from_signer.identity.node_id;
    to_node = to_identity.node_id;
    action = action;
    signature =
        (sign_payload h e from_signer (
          document (
            handoff_data from_signer.identity.node_id to_identity.node_id action
              payload_hash))).signature;
    payload_hash = payload_hash;
  }

  abbrev pub add_handoff :
      NodeSigner → NodeIdentity → String → String → List TrustChainLink → List TrustChainLink
  add_handoff from_signer to_identity action payload_hash links =
      links ++ handoff from_signer to_identity action payload_hash ∷ []

  -- the proof that `verify_chain` rebuilds from a link
  abbrev pub link_proof : TrustChainLink → NodeProof
  link_proof l = record {
    node_id = l.from_node;
    signature = l.signature;
    signed_hash = h.sha256 (payload_text h (link_data l));
  }

  -- The errors of one link: an unregistered sender ends its checks.
  abbrev pub link_errors :
      ℕ → Option TrustChainLink → TrustChainLink → Option NodeIdentity → List ChainError
  link_errors i prev l none = not_registered i l.from_node ∷ []
  link_errors i prev l (some sender) =
      (if not (verify_node_proof h e (link_proof l) sender.public_key (link_data l))
        then bad_signature i l.from_node ∷ []
        else [])
      ++ continuity i prev l

  unfoldable pub check_links :
      NodeRegistry → ℕ → Option TrustChainLink → List TrustChainLink → List ChainError
  check_links nodes i prev [] = []
  check_links nodes i prev (l ∷ ls) =
      link_errors i prev l (lookup l.from_node nodes) ++ check_links nodes (suc i) (some l) ls

  unfoldable pub verify_chain : NodeRegistry → List TrustChainLink → Bool × List ChainError
  unfolding check_links
  verify_chain nodes links = let errors = check_links nodes 0 none links in (passed errors, errors)
