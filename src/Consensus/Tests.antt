-- ===== src/Consensus/Tests.antt =====
-- Three nodes, with the hashing and the signatures of the samples.
use qcg_task.Prelude.{
  ◌<◌, String, ◌≡◌, refl, ◌≢◌, true, false, none, some, List, [], ◌∷◌, length, arith,
}
use qcg_task.Prelude.Dict.{lookup, insert}
use qcg_task.Samples.{cfg, plain, sample}
use qcg_task.Contract.{
  Contract, post_init, validate_contract, is_filled_dict, check_version, parse_semver, earlier,
}
use qcg_task.Runtime.{Texts, execute}
use qcg_task.Trust.Samples.{keyed, keyed-IsCorrect}
use qcg_task.Trust.Identity.{NodeSigner, new_signer}
use qcg_task.Trust.Provenance.Defs.{sign_contract, verify_contract_provenance, verified}
use qcg_task.Consensus.Node.{process}
use qcg_task.Consensus.Engine.{Faults, ConsensusProof, verify_all, run_consensus}
use qcg_task.Consensus.Votes.{votes}
use qcg_task.Consensus.Agreement.{run_consensus_one_winner}
use qcg_task.Consensus.Honest.{no_faults}
use qcg_task.Consensus.Unanimous.{run_consensus_honest}

abbrev texts : Texts
texts = record { fixed4 = λ c. "0.98"; message = λ e. "refused" }

abbrev producer : NodeSigner
producer = new_signer keyed "k1" "PRODUCER_1" "QUANTUM_PRODUCER" "1.0.0"

abbrev node_a : NodeSigner
node_a = new_signer keyed "ka" "NODE_A" "EXECUTION_NODE" "1.0.0"

abbrev node_b : NodeSigner
node_b = new_signer keyed "kb" "NODE_B" "EXECUTION_NODE" "1.0.0"

abbrev node_c : NodeSigner
node_c = new_signer keyed "kc" "NODE_C" "EXECUTION_NODE" "1.0.0"

abbrev nodes : List NodeSigner
nodes = node_a ∷ node_b ∷ node_c ∷ []

abbrev signed : Contract
signed = sign_contract plain keyed sample producer

abbrev one_faulty : Faults
one_faulty = record { faulty = some "NODE_B"; missing = none; round = 1 }

abbrev two_faulty : Faults
two_faulty = record { faulty = some "NODE_B"; missing = some "NODE_C"; round = 1 }

abbrev run : Faults → ConsensusProof
run f = run_consensus cfg plain texts keyed nodes signed "k1" f

one_faulty_reached : ((run one_faulty).consensus_reached ≡ true) × ((run one_faulty).agreeing ≡ 2)
unfolding run_consensus verify_all insert lookup process verify_contract_provenance sign_contract
    post_init execute validate_contract is_filled_dict check_version parse_semver earlier
one_faulty_reached = (refl, refl)

two_faulty_refused :
    ((run two_faulty).consensus_reached ≡ false) × ((run two_faulty).final_hash ≡ "NO_CONSENSUS")
unfolding run_consensus verify_all insert lookup process verify_contract_provenance sign_contract
    post_init execute validate_contract is_filled_dict check_version parse_semver earlier
two_faulty_refused = (refl, refl)

run_consensus_one_winner_example :
    (votes
        (run one_faulty).final_hash
        (verify_all cfg plain texts keyed (run one_faulty).node_attestations)
      ≡ (run one_faulty).agreeing)
    × ((other : String)
        → (run one_faulty).final_hash ≢ other
        → votes other (verify_all cfg plain texts keyed (run one_faulty).node_attestations)
          < (run one_faulty).quorum_size)
run_consensus_one_winner_example =
    run_consensus_one_winner cfg plain texts keyed nodes signed "k1" one_faulty (omega arith)
      one_faulty_reached.0

unsigned_unproven : verify_contract_provenance plain keyed sample "k1" ≢ verified
unfolding verify_contract_provenance
unsigned_unproven e = cc

run_consensus_honest_example :
    ((run no_faults).consensus_reached ≡ true)
    × ((run no_faults).final_hash ≡ (execute cfg plain texts "" signed).runtime_hash)
    × ((run no_faults).agreeing ≡ length nodes)
    × ((run no_faults).disagreements ≡ [])
unfolding execute verify_contract_provenance sign_contract post_init validate_contract
    is_filled_dict check_version parse_semver earlier
run_consensus_honest_example =
    run_consensus_honest cfg plain texts keyed keyed-IsCorrect node_a (node_b ∷ node_c ∷ []) signed
      "k1" (refl, (refl, (refl, tt)), (refl, (refl, tt), (refl, tt, tt))) refl refl refl
      (omega arith)
