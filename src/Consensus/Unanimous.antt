-- ===== src/Consensus/Unanimous.antt =====
-- The counts of nodes that all work, and the verdict on them.
use qcg_task.Prelude.{
  ℕ, suc, ◌+◌, ◌*◌, ◌≤◌, String, ◌≡◌, refl, ap, if◌then◌else◌, ◌∙◌, true, false, List, [], ◌∷◌,
  arith, not, ◌==◌, eq_refl, length,
}
use qcg_task.Prelude.Dict.{Dict, lookup, insert}
use qcg_task.Prelude.Int.{pos_part}
use qcg_task.Prelude.Json.{Hashing}
use qcg_task.Config.{Config}
use qcg_task.Contract.{Contract}
use qcg_task.Runtime.{Texts, ExecutionResult, execute}
use qcg_task.Trust.Identity.{Ecdsa, IsCorrect, NodeSigner}
use qcg_task.Trust.Provenance.Defs.{verified, verify_contract_provenance}
use qcg_task.Consensus.Node.{names_failure, status_of, counts, attest_result}
use qcg_task.Consensus.Engine.{
  Collected, nothing_collected, count_hashes, add_divergent, judge, conclude, run_consensus,
  largest, reaches, get_count, divergence, Disagreement, ConsensusProof,
}
use qcg_task.Consensus.Honest.{
  no_faults, ids, entries_of, AreNew, AreHonest, joined, verify_all_honest, collect_honest,
}

one_plus : (n : ℕ) → 1 + n ≡ suc n
one_plus n = omega arith

count_self : (k : String) (n : ℕ) → get_count k ((k, n) ∷ []) ≡ n
unfolding lookup
count_self k n = ground (arith, eq_refl k)

reaches_all : (n threshold : ℕ) → threshold ≤ 10000 → reaches n threshold n ≡ true
reaches_all n threshold low = let few : n * threshold ≤ n * 10000 = grind arith in ground arith

module _ (cfg : Config) (h : Hashing) (t : Texts) (e : Ecdsa) where
  one_more :
      (s : NodeSigner) (r : ExecutionResult) (n : ℕ)
      → (r.runtime_hash == "") ≡ false
      → names_failure (status_of cfg h t e r) ≡ false
      → (if counts (attest_result cfg h t e s r)
          then insert r.runtime_hash
              (suc (get_count r.runtime_hash ((r.runtime_hash, n) ∷ [])))
              ((r.runtime_hash, n) ∷ [])
          else (r.runtime_hash, n) ∷ [])
        ≡ (r.runtime_hash, suc n) ∷ []
  unfolding insert lookup
  one_more s r n filled fine =
      rw (filled, fine, count_self r.runtime_hash n, eq_refl r.runtime_hash) refl

  -- All of them count for the one hash.
  count_honest :
      (r : ExecutionResult) (nodes : List NodeSigner) (n : ℕ)
      → (r.runtime_hash == "") ≡ false
      → names_failure (status_of cfg h t e r) ≡ false
      → count_hashes (entries_of cfg h t e r nodes) ((r.runtime_hash, n) ∷ [])
        ≡ (r.runtime_hash, n + length nodes) ∷ []
  unfolding count_hashes lookup insert
  count_honest r [] n filled fine = ap (λ (k : ℕ). (r.runtime_hash, k) ∷ []) (omega arith)
  count_honest r (s ∷ rest) n filled fine =
      ap (count_hashes (entries_of cfg h t e r rest)) (one_more s r n filled fine)
      ∙ count_honest r rest (suc n) filled fine
      ∙ ap (λ (k : ℕ). (r.runtime_hash, k) ∷ []) (omega arith)

  count_first :
      (s : NodeSigner) (r : ExecutionResult) (rest : List NodeSigner)
      → (r.runtime_hash == "") ≡ false
      → names_failure (status_of cfg h t e r) ≡ false
      → count_hashes (entries_of cfg h t e r (s ∷ rest)) []
        ≡ (r.runtime_hash, length (s ∷ rest)) ∷ []
  unfolding count_hashes insert lookup
  count_first s r rest filled fine =
      let here : (if counts (attest_result cfg h t e s r) then (r.runtime_hash, 1) ∷ [] else [])
          ≡ (r.runtime_hash, 1) ∷ [] =
        rw (filled, fine) refl in
      ap (count_hashes (entries_of cfg h t e r rest)) here
      ∙ count_honest r rest 1 filled fine
      ∙ ap (λ (k : ℕ). (r.runtime_hash, k) ∷ []) (one_plus (length rest))

  all_new : (nodes : List NodeSigner) → AreNew cfg h t e nodes []
  unfolding lookup
  all_new [] = tt
  all_new (s ∷ rest) = (refl, all_new rest)

  add_divergent_honest :
      (r : ExecutionResult) (nodes : List NodeSigner) (d : Dict Disagreement)
      → add_divergent r.runtime_hash (entries_of cfg h t e r nodes) d ≡ d
  unfolding add_divergent
  add_divergent_honest r [] d = refl
  add_divergent_honest r (s ∷ rest) d =
      ap
        (λ b. add_divergent r.runtime_hash (entries_of cfg h t e r rest) (
          if not b
          then insert s.identity.node_id (divergence (attest_result cfg h t e s r)) d
          else d))
        (eq_refl r.runtime_hash)
      ∙ add_divergent_honest r rest d

  -- What a proof says when all nodes agree on the result.
  abbrev pub Agrees : List NodeSigner → ExecutionResult → ConsensusProof → Type 0
  Agrees nodes r p =
      (p.consensus_reached ≡ true)
      × (p.final_hash ≡ r.runtime_hash)
      × (p.agreeing ≡ length nodes)
      × (p.disagreements ≡ [])

  judge_honest :
      (r : ExecutionResult) (nodes : List NodeSigner) (x : Collected)
      → pos_part cfg.consensus_quorum_threshold ≤ 10000
      → Agrees nodes r (
          judge cfg h t e
            (length nodes)
            (pos_part cfg.consensus_quorum_threshold)
            no_faults
            x
            []
            (entries_of cfg h t e r nodes)
            ((r.runtime_hash, length nodes) ∷ []))
  unfolding largest
  judge_honest r nodes x low =
      let enough : reaches (length nodes) (pos_part cfg.consensus_quorum_threshold) (length nodes)
          ≡ true =
        reaches_all (length nodes) (pos_part cfg.consensus_quorum_threshold) low in
      (enough, rw enough refl, refl, add_divergent_honest r nodes [])

  conclude_honest :
      IsCorrect e
      → (r : ExecutionResult) (s : NodeSigner) (rest : List NodeSigner)
      → AreHonest cfg h t e (s ∷ rest)
      → (r.runtime_hash == "") ≡ false
      → names_failure (status_of cfg h t e r) ≡ false
      → pos_part cfg.consensus_quorum_threshold ≤ 10000
      → Agrees (s ∷ rest) r (
          conclude cfg h t e
            (length (s ∷ rest))
            (pos_part cfg.consensus_quorum_threshold)
            no_faults
            (joined cfg h t e nothing_collected
              (entries_of cfg h t e r (s ∷ rest))
              (ids (s ∷ rest))))
  conclude_honest ec r s rest hs filled fine low =
      let checked = verify_all_honest cfg h t e ec r (s ∷ rest) hs in
      rw (checked.0, checked.1 [], count_first s r rest filled fine)
        (judge_honest r (s ∷ rest)
          (joined cfg h t e nothing_collected (entries_of cfg h t e r (s ∷ rest)) (ids (s ∷ rest)))
          low)

  -- When no node is left out or made faulty: over a contract of VERIFIED provenance nodes that hold
  -- their keys and have different identifiers all agree. Consensus is reached on the core's runtime
  -- hash for this contract, by every node and without a disagreement, if that hash is not empty, its
  -- status is not mistaken for a failed provenance, and the threshold is at most one.
  pub run_consensus_honest :
      IsCorrect e
      → (s : NodeSigner) (rest : List NodeSigner) (c : Contract) (key : String)
      → AreHonest cfg h t e (s ∷ rest)
      → verify_contract_provenance h e c key ≡ verified
      → let r = execute cfg h t "" c in
        (r.runtime_hash == "") ≡ false
        → names_failure (status_of cfg h t e r) ≡ false
        → pos_part cfg.consensus_quorum_threshold ≤ 10000
        → let p = run_consensus cfg h t e (s ∷ rest) c key no_faults in
          (p.consensus_reached ≡ true)
          × (p.final_hash ≡ r.runtime_hash)
          × (p.agreeing ≡ length (s ∷ rest))
          × (p.disagreements ≡ [])
  unfolding run_consensus
  run_consensus_honest ec s rest c key hs proven filled fine low =
      rw
        (collect_honest cfg h t e c key (s ∷ rest) nothing_collected proven hs (all_new (s ∷ rest)))
        (conclude_honest ec (execute cfg h t "" c) s rest hs filled fine low)
