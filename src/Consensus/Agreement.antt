-- ===== src/Consensus/Agreement.antt =====
-- The verdict of `run_consensus`, against the quorum and the votes.
use mathlib.Core.Path.{subst}
use qcg_task.Prelude.{
  ℕ, suc, ◌+◌, ◌*◌, ◌≤◌, ◌<◌, String, ◌≡◌, refl, sym, ◌≢◌, ◌↔◌, inl, inr, true, false, List, [],
  ◌∷◌, ◌==◌, arith, length, Bool-cases,
}
use qcg_task.Prelude.Dict.{Dict, lookup, insert}
use qcg_task.Prelude.Int.{pos_part}
use qcg_task.Prelude.Json.{Hashing}
use qcg_task.Config.{Config}
use qcg_task.Contract.{Contract}
use qcg_task.Runtime.{Texts}
use qcg_task.Trust.Identity.{Ecdsa, NodeSigner}
use qcg_task.Consensus.Node.{NodeAttestation, counts}
use qcg_task.Consensus.Engine.{
  Disagreement, Faults, Collected, ConsensusProof, nothing_collected, get_count, count_hashes,
  largest, verify_all, collect, collect_one, quorum, reaches, no_participants, judge, conclude,
  conclude_with, run_consensus, add_invalid, attestation_of,
}
use qcg_task.Consensus.Votes.{
  votes, get_count-count_hashes, Distinct, count_hashes-Distinct, largest-ge, get_count-largest,
  length-verify_all, votes-add,
}

length-insert :
    (k : String) (a : NodeAttestation) (d : Dict NodeAttestation)
    → length (insert k a d) ≤ length d + 1
unfolding insert
length-insert k a [] = omega arith
length-insert k a ((j, b) ∷ d) = ground (arith, length-insert k a d)

reaches-quorum :
    (nodes threshold n : ℕ) → (reaches nodes threshold n ≡ true) ↔ (quorum nodes threshold ≤ n)
reaches-quorum nodes threshold n = (λ r. ground arith, λ q. ground arith)

-- Two candidates of which one reaches more than half of the nodes.
below_quorum :
    (nodes threshold n m : ℕ)
    → 5000 < threshold
    → n + m ≤ nodes
    → reaches nodes threshold n ≡ true
    → 0 < n
    → m < quorum nodes threshold
below_quorum nodes threshold n m half few r some_votes =
    let enough : nodes * 5001 ≤ nodes * threshold = grind arith in ground arith

-- Every count is positive.
abbrev Positive : Dict ℕ → Type 0
Positive [] = Unit
Positive ((k, n) ∷ d) = (0 < n) × Positive d

insert-Positive : (k : String) (n : ℕ) (d : Dict ℕ) → Positive d → Positive (insert k (suc n) d)
unfolding insert
insert-Positive k n [] p = (omega arith, tt)
insert-Positive k n ((j, m) ∷ d) p = elim (Bool-cases (j == k)) [
  | inl old ↦ rw old (omega arith, p.1)
  | inr new ↦ rw new (p.0, insert-Positive k n d p.1)
]

count_hashes-Positive :
    (xs : Dict NodeAttestation) (d : Dict ℕ) → Positive d → Positive (count_hashes xs d)
unfolding count_hashes
count_hashes-Positive [] d p = p
count_hashes-Positive ((k, a) ∷ rest) d p = elim (Bool-cases (counts a)) [
  | inl counted ↦ rw counted (
      count_hashes-Positive rest _
        (insert-Positive a.agreement_hash (get_count a.agreement_hash d) d p))
  | inr skipped ↦ rw skipped (count_hashes-Positive rest d p)
]

module _ (cfg : Config) (h : Hashing) (t : Texts) (e : Ecdsa) where
  -- The loop over the nodes makes at most one attestation for each of them.
  length-collect :
      (f : Faults) (c : Contract) (key : String) (nodes : List NodeSigner) (x : Collected)
      → length (collect cfg h t e f c key nodes x).attestations
        ≤ length nodes + length x.attestations
  unfolding collect
  length-collect f c key [] x = omega arith
  length-collect f c key (s ∷ rest) x = ground (
    arith,
    length-collect f c key rest (collect_one cfg h t e f c key s x),
    length-insert s.identity.node_id (attestation_of cfg h t e f s c key) x.attestations,
  )

  -- What a verdict says of the attestations that it carries.
  record Sound (x : Collected) (nodes threshold : ℕ) (p : ConsensusProof) : Type 0 where
    size : p.quorum_size ≡ quorum nodes threshold
    reached_iff : (p.consensus_reached ≡ true) ↔ ((0 < p.agreeing) × (p.quorum_size ≤ p.agreeing))
    listed : length p.node_attestations ≤ length x.attestations
    counted :
        p.consensus_reached ≡ true
        → votes p.final_hash (verify_all cfg h t e p.node_attestations) ≡ p.agreeing

  -- a verdict that finds no hash
  none-Sound :
      (x : Collected) (nodes threshold : ℕ) (p : ConsensusProof)
      → p.quorum_size ≡ quorum nodes threshold
      → length p.node_attestations ≤ length x.attestations
      → p.consensus_reached ≡ false
      → p.agreeing ≡ 0
      → Sound x nodes threshold p
  none-Sound x nodes threshold p size listed refused no_votes = record {
    size = size;
    listed = listed;
    reached_iff = (λ r. absurd (cc (r, refused)), λ q. absurd (omega (arith, q.0, no_votes)));
    counted = λ r. absurd (cc (r, refused));
  }

  -- The largest count is that of the votes of its hash.
  votes-largest :
      (xs : Dict NodeAttestation) (k : String) (n : ℕ) (rest : Dict ℕ)
      → (k, n) ∷ rest ≡ count_hashes xs []
      → (votes (largest k n rest).0 xs ≡ (largest k n rest).1) × (0 < (largest k n rest).1)
  unfolding lookup
  votes-largest xs k n rest same =
      let distinct : Distinct ((k, n) ∷ rest) =
        subst Distinct (sym same) (count_hashes-Distinct xs [] tt) in
      let positive : Positive ((k, n) ∷ rest) =
        subst Positive (sym same) (count_hashes-Positive xs [] tt) in
      let found = get_count-largest k n rest distinct in
      let top = (largest k n rest).0 in
      let all : get_count top ((k, n) ∷ rest) ≡ votes top xs + get_count top [] =
        subst (λ d. get_count top d ≡ votes top xs + get_count top []) (sym same)
          (get_count-count_hashes top xs []) in
      (ground (arith, all, found), omega (arith, largest-ge k n rest, positive.0))

  judge-Sound :
      (nodes threshold : ℕ) (f : Faults) (x : Collected) (missed : Dict Disagreement) (d : Dict ℕ)
      → d ≡ count_hashes (verify_all cfg h t e x.attestations) []
      → Sound x nodes threshold
          (judge cfg h t e nodes threshold f x missed (verify_all cfg h t e x.attestations) d)
  judge-Sound nodes threshold f x missed [] same =
      none-Sound x nodes threshold
        (judge cfg h t e nodes threshold f x missed (verify_all cfg h t e x.attestations) []) refl
        (omega arith) refl refl
  judge-Sound nodes threshold f x missed ((k, n) ∷ rest) same =
      let (won, some_votes) = votes-largest (verify_all cfg h t e x.attestations) k n rest same in
      record {
        size = refl;
        listed = omega arith;
        reached_iff = (λ r. (some_votes, ground arith), λ q. ground arith);
        counted = λ r. rw r won;
      }

  conclude-Sound :
      (names : List String) (nodes threshold : ℕ) (f : Faults) (x : Collected)
      → Sound x nodes threshold (conclude_with cfg h t e names nodes threshold f x)
  conclude-Sound [] nodes threshold f x =
      none-Sound x nodes threshold (no_participants cfg h t e nodes threshold f x) refl
        (omega arith) refl refl
  conclude-Sound (name ∷ names) nodes threshold f x =
      judge-Sound nodes threshold f x (add_invalid cfg h t e x.attestations x.missed)
        (count_hashes (verify_all cfg h t e x.attestations) []) refl

  -- Consensus is reached exactly when the agreeing nodes are at least one and not fewer than the
  -- quorum, whose size is the share of all nodes that the threshold asks for, rounded up.
  pub run_consensus_reached_iff :
      (nodes : List NodeSigner) (c : Contract) (key : String) (f : Faults)
      → let p = run_consensus cfg h t e nodes c key f in
        ((p.consensus_reached ≡ true) ↔ ((0 < p.agreeing) × (p.quorum_size ≤ p.agreeing)))
        × (p.quorum_size ≡ quorum (length nodes) (pos_part cfg.consensus_quorum_threshold))
  unfolding run_consensus
  run_consensus_reached_iff nodes c key f =
      let sound =
        conclude-Sound (collect cfg h t e f c key nodes nothing_collected).participating
          (length nodes) (pos_part cfg.consensus_quorum_threshold) f
          (collect cfg h t e f c key nodes nothing_collected) in
      (sound.reached_iff, sound.size)

  -- Under a threshold above one half, when consensus is reached: the attestations that the proof
  -- carries, if their signatures verify, give the final hash as many votes as nodes agree, and any
  -- other hash fewer votes than the quorum.
  pub run_consensus_one_winner :
      (nodes : List NodeSigner) (c : Contract) (key : String) (f : Faults)
      → 5000 < pos_part cfg.consensus_quorum_threshold
      → let p = run_consensus cfg h t e nodes c key f in
        p.consensus_reached ≡ true
        → (votes p.final_hash (verify_all cfg h t e p.node_attestations) ≡ p.agreeing)
          × ((other : String)
              → p.final_hash ≢ other
              → votes other (verify_all cfg h t e p.node_attestations) < p.quorum_size)
  unfolding run_consensus
  run_consensus_one_winner nodes c key f half reached =
      let n = length nodes in
      let threshold = pos_part cfg.consensus_quorum_threshold in
      let x = collect cfg h t e f c key nodes nothing_collected in
      let p = conclude cfg h t e n threshold f x in
      let sound = conclude-Sound x.participating n threshold f x in
      (
        sound.counted reached,
        λ other ne. rw sound.size (
            below_quorum n threshold p.agreeing
              (votes other (verify_all cfg h t e p.node_attestations)) half
              (omega (
                arith,
                sound.counted reached,
                sound.listed,
                votes-add p.final_hash other (verify_all cfg h t e p.node_attestations) ne,
                length-verify_all cfg h t e p.node_attestations,
                length-collect f c key nodes nothing_collected,
              ))
              ((reaches-quorum n threshold p.agreeing).1
                (omega (arith, (sound.reached_iff.0 reached).1, sound.size)))
              (sound.reached_iff.0 reached).0),
      )
