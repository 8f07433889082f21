-- ===== src/Consensus/Engine.antt =====
-- `ConsensusEngine.run_consensus`. The threshold is a number of ten-thousandths, and the percentage a
-- count of the engine's nodes. Time stamps are left out.
use qcg_task.Prelude.{
  ℕ, suc, ◌+◌, ◌*◌, ◌/◌, String, Bool, false, not, Option, none, some, List, [], ◌∷◌, ◌++◌, ◌==◌,
  if◌then◌else◌, length, leb, ltb,
}
use qcg_task.Prelude.Dict.{Dict, lookup, insert}
use qcg_task.Prelude.Int.{pos_part}
use qcg_task.Prelude.Json.{Hashing}
use qcg_task.Config.{Config}
use qcg_task.Contract.{Contract}
use qcg_task.Runtime.{Texts}
use qcg_task.Trust.Identity.{Ecdsa, NodeSigner}
use qcg_task.Consensus.Node.{
  AttestationStatus, status_ok, NodeAttestation, counts, attest, process, attestation_valid,
}

pub data Disagreement : Type 0 where
  missing_participant : Disagreement
  signature_invalid : Disagreement
  node_status : AttestationStatus → Disagreement
  divergent_hash : String → Disagreement

pub record ConsensusProof : Type 0 where
  pub participating_nodes : List String
  pub final_hash : String
  pub agreeing : ℕ
  pub consensus_reached : Bool
  pub disagreements : Dict Disagreement
  pub consensus_round : ℕ
  pub quorum_size : ℕ
  pub node_attestations : Dict NodeAttestation

-- `simulate_faulty`, `simulate_missing` and `consensus_round`
pub record Faults : Type 0 where
  pub faulty : Option String
  pub missing : Option String
  pub round : ℕ

-- `nid == simulate_faulty`
abbrev pub is_named : String → Option String → Bool
is_named node_id none = false
is_named node_id (some name) = node_id == name

-- What the first loop builds.
pub record Collected : Type 0 where
  pub attestations : Dict NodeAttestation
  pub missed : Dict Disagreement
  pub participating : List String

abbrev pub nothing_collected : Collected
nothing_collected = record { attestations = []; missed = []; participating = [] }

-- `hash_counts[h] = hash_counts.get(h, 0) + 1`
abbrev pub get_count : String → Dict ℕ → ℕ
get_count k d = elim (lookup k d) [ none ↦ 0 | some n ↦ n ]

unfoldable pub count_hashes : Dict NodeAttestation → Dict ℕ → Dict ℕ
count_hashes [] d = d
count_hashes ((k, a) ∷ rest) d =
    count_hashes rest
      (if counts a then insert a.agreement_hash (suc (get_count a.agreement_hash d)) d else d)

-- `max(hash_counts, key=hash_counts.get)`: the first of the largest, from a first candidate on
unfoldable pub largest : String → ℕ → Dict ℕ → String × ℕ
largest best n [] = (best, n)
largest best n ((k, m) ∷ rest) =
    let rest_from = λ (x : String × ℕ). largest x.0 x.1 rest in
    rest_from (if ltb n m then (k, m) else (best, n))

-- `math.ceil(len(self.nodes) * self.threshold)`
abbrev pub quorum : ℕ → ℕ → ℕ
quorum nodes threshold = (nodes * threshold + 9999) / 10000

-- `agreement_percentage >= self.threshold`
abbrev pub reaches : ℕ → ℕ → ℕ → Bool
reaches nodes threshold count = leb (nodes * threshold) (count * 10000)

-- the reason of a node whose hash is not the majority's
abbrev pub divergence : NodeAttestation → Disagreement
divergence a = elim a.status [ status_ok ↦ divergent_hash a.agreement_hash | s ↦ node_status s ]

unfoldable pub add_statuses : Dict NodeAttestation → Dict Disagreement → Dict Disagreement
add_statuses [] d = d
add_statuses ((k, a) ∷ rest) d = add_statuses rest (insert k (node_status a.status) d)

unfoldable pub add_divergent : String → Dict NodeAttestation → Dict Disagreement → Dict Disagreement
add_divergent majority [] d = d
add_divergent majority ((k, a) ∷ rest) d =
    add_divergent majority rest
      (if not (a.agreement_hash == majority) then insert k (divergence a) d else d)

module _ (cfg : Config) (h : Hashing) (t : Texts) (e : Ecdsa) where
  -- the attestation of a node whose hash is replaced by the fault injection
  abbrev pub injected : NodeSigner → NodeAttestation → NodeAttestation
  injected s a = record (attest cfg h t e s (h.sha256 "faulty_data") a.status) {
    public_key = a.public_key;
  }

  abbrev pub attestation_of : Faults → NodeSigner → Contract → String → NodeAttestation
  attestation_of f s c key =
      if is_named s.identity.node_id f.faulty
      then injected s (process cfg h t e s c key)
      else process cfg h t e s c key

  -- one round of the loop over the nodes
  abbrev pub collect_one : Faults → Contract → String → NodeSigner → Collected → Collected
  collect_one f c key s x =
      if is_named s.identity.node_id f.missing
      then record x { missed = insert s.identity.node_id missing_participant x.missed }
      else record {
        attestations = insert s.identity.node_id (attestation_of f s c key) x.attestations;
        missed = x.missed;
        participating = x.participating ++ s.identity.node_id ∷ [];
      }

  unfoldable pub collect : Faults → Contract → String → List NodeSigner → Collected → Collected
  collect f c key [] x = x
  collect f c key (s ∷ rest) x = collect f c key rest (collect_one f c key s x)

  -- the attestations whose signature is valid
  unfoldable pub verify_all : Dict NodeAttestation → Dict NodeAttestation
  unfolding attestation_valid
  verify_all [] = []
  verify_all ((k, a) ∷ rest) =
      let others = verify_all rest in
      if attestation_valid cfg h t e k a then (k, a) ∷ others else others

  unfoldable pub add_invalid : Dict NodeAttestation → Dict Disagreement → Dict Disagreement
  unfolding attestation_valid
  add_invalid [] d = d
  add_invalid ((k, a) ∷ rest) d =
      add_invalid rest (if attestation_valid cfg h t e k a then d else insert k signature_invalid d)

  abbrev pub no_participants : ℕ → ℕ → Faults → Collected → ConsensusProof
  no_participants nodes threshold f x = record {
    participating_nodes = [];
    final_hash = "";
    agreeing = 0;
    consensus_reached = false;
    disagreements = x.missed;
    consensus_round = f.round;
    quorum_size = quorum nodes threshold;
    node_attestations = [];
  }

  -- the verdict on the counts of the hashes
  abbrev pub judge :
      ℕ
      → ℕ
      → Faults
      → Collected
      → Dict Disagreement
      → Dict NodeAttestation
      → Dict ℕ
      → ConsensusProof
  judge nodes threshold f x missed ok [] = record {
    participating_nodes = x.participating;
    final_hash = "NO_CONSENSUS";
    agreeing = 0;
    consensus_reached = false;
    disagreements = add_statuses ok missed;
    consensus_round = f.round;
    quorum_size = quorum nodes threshold;
    node_attestations = x.attestations;
  }
  judge nodes threshold f x missed ok ((k, n) ∷ rest) =
      let (majority_hash, majority_count) = largest k n rest in
      record {
        participating_nodes = x.participating;
        final_hash =
            if reaches nodes threshold majority_count then majority_hash else "NO_CONSENSUS";
        agreeing = majority_count;
        consensus_reached = reaches nodes threshold majority_count;
        disagreements = add_divergent majority_hash ok missed;
        consensus_round = f.round;
        quorum_size = quorum nodes threshold;
        node_attestations = x.attestations;
      }

  -- the steps after the loop over the nodes, by the participants
  abbrev pub conclude_with : List String → ℕ → ℕ → Faults → Collected → ConsensusProof
  conclude_with [] nodes threshold f x = no_participants nodes threshold f x
  conclude_with (_ ∷ _) nodes threshold f x =
      judge nodes threshold f x (add_invalid x.attestations x.missed) (verify_all x.attestations)
        (count_hashes (verify_all x.attestations) [])

  abbrev pub conclude : ℕ → ℕ → Faults → Collected → ConsensusProof
  conclude nodes threshold f x = conclude_with x.participating nodes threshold f x

  unfoldable pub run_consensus : List NodeSigner → Contract → String → Faults → ConsensusProof
  unfolding collect count_hashes largest
  run_consensus nodes c producer_pub_key f =
      conclude (length nodes) (pos_part cfg.consensus_quorum_threshold) f
        (collect f c producer_pub_key nodes nothing_collected)
