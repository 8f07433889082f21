-- ===== src/Trust/Chain/Tests.antt =====
-- Chains of custody of three nodes, with a signature that names its key and its text.
use qcg_task.Prelude.{String, ◌≡◌, refl, false, List, [], ◌∷◌}
use qcg_task.Prelude.Dict.{insert, lookup}
use qcg_task.Samples.{plain}
use qcg_task.Trust.Samples.{keyed}
use qcg_task.Trust.Identity.{NodeSigner, new_signer}
use qcg_task.Trust.Chain.Defs.{
  NodeRegistry, TrustChainLink, verify_chain, register_node, not_registered, add_handoff,
}
use qcg_task.Trust.Chain.Custody.{hand_on}

abbrev producer : NodeSigner
producer = new_signer keyed "k1" "PRODUCER" "QUANTUM_PRODUCER" "1.0.0"

abbrev gateway : NodeSigner
gateway = new_signer keyed "k2" "GATEWAY" "GATEWAY" "1.0.0"

abbrev executor : NodeSigner
executor = new_signer keyed "k3" "EXECUTOR" "EXECUTION_NODE" "1.0.0"

abbrev nodes : NodeRegistry
nodes =
    register_node producer.identity
      (register_node gateway.identity (register_node executor.identity []))

abbrev hops : List (NodeSigner × String × String)
hops = (gateway, "PRODUCE", "hash") ∷ (executor, "GATEWAY_FORWARD", "hash") ∷ []

abbrev links : List TrustChainLink
links = hand_on plain keyed producer hops

handed_one_by_one :
    add_handoff plain keyed gateway executor.identity "GATEWAY_FORWARD" "hash"
      (add_handoff plain keyed producer gateway.identity "PRODUCE" "hash" [])
    ≡ links
handed_one_by_one = refl

stranger_refused :
    verify_chain plain keyed (register_node gateway.identity []) links
    ≡ (false, not_registered 0 "PRODUCER" ∷ [])
unfolding verify_chain lookup insert
stranger_refused = refl
