-- ===== src/Consensus/Nodes.antt =====
-- What the nodes' own work decides: contracts that are not proven, and nodes that all agree.
use qcg_task.Prelude.{
  ℕ, String, ◌≡◌, refl, ◌≢◌, inl, inr, Bool, true, false, List, [], ◌∷◌, arith, length, Bool-cases,
}
use qcg_task.Prelude.Dict.{Dict, every, every-insert}
use qcg_task.Prelude.Int.{pos_part}
use qcg_task.Prelude.Json.{Hashing}
use qcg_task.Config.{Config}
use qcg_task.Contract.{Contract}
use qcg_task.Runtime.{Texts}
use qcg_task.Trust.Identity.{Ecdsa, NodeSigner}
use qcg_task.Trust.Provenance.Defs.{
  ProvenanceStatus, verified, unverified, tampered, verify_contract_provenance,
}
use qcg_task.Consensus.Node.{NodeAttestation, names_failure, counts, after_provenance, process}
use qcg_task.Consensus.Engine.{
  Faults, is_named, Collected, nothing_collected, count_hashes, verify_all, collect, collect_one,
  conclude_with, run_consensus, attestation_of,
}

-- the attestation of a contract whose provenance failed
abbrev failed : NodeAttestation → Bool
failed a = names_failure a.status

count_hashes-failed :
    (xs : Dict NodeAttestation) (d : Dict ℕ) → every failed xs ≡ true → count_hashes xs d ≡ d
unfolding count_hashes every
count_hashes-failed [] d all = refl
count_hashes-failed ((k, a) ∷ rest) d all =
    let uncounted : counts a ≡ false = ground arith in
    rw uncounted (count_hashes-failed rest d (ground arith))

module _ (cfg : Config) (h : Hashing) (t : Texts) (e : Ecdsa) where
  verify_all-failed :
      (xs : Dict NodeAttestation)
      → every failed xs ≡ true
      → every failed (verify_all cfg h t e xs) ≡ true
  unfolding verify_all every
  verify_all-failed [] all = refl
  verify_all-failed ((k, a) ∷ rest) all = ground (arith, verify_all-failed rest)

  after_provenance-failed :
      (s : NodeSigner) (c : Contract) (status : ProvenanceStatus)
      → status ≢ verified
      → failed (after_provenance cfg h t e s c status) ≡ true
  after_provenance-failed s c verified ne = absurd (ne refl)
  after_provenance-failed s c unverified ne = refl
  after_provenance-failed s c tampered ne = refl

  attestation_of-failed :
      (f : Faults) (s : NodeSigner) (c : Contract) (key : String)
      → verify_contract_provenance h e c key ≢ verified
      → failed (attestation_of cfg h t e f s c key) ≡ true
  unfolding process
  attestation_of-failed f s c key ne = elim (Bool-cases (is_named s.identity.node_id f.faulty)) [
    | inl named ↦ rw named (after_provenance-failed s c (verify_contract_provenance h e c key) ne)
    | inr other ↦ rw other (after_provenance-failed s c (verify_contract_provenance h e c key) ne)
  ]

  collect-failed :
      (f : Faults) (c : Contract) (key : String) (nodes : List NodeSigner) (x : Collected)
      → verify_contract_provenance h e c key ≢ verified
      → every failed x.attestations ≡ true
      → every failed (collect cfg h t e f c key nodes x).attestations ≡ true
  unfolding collect
  collect-failed f c key [] x ne all = all
  collect-failed f c key (s ∷ rest) x ne all =
      collect-failed f c key rest (collect_one cfg h t e f c key s x) ne (
        ground (
          arith,
          every-insert failed s.identity.node_id (attestation_of cfg h t e f s c key) x.attestations
              (attestation_of-failed f s c key ne) all,
        ))

  conclude-failed :
      (names : List String) (nodes threshold : ℕ) (f : Faults) (x : Collected)
      → every failed x.attestations ≡ true
      → (conclude_with cfg h t e names nodes threshold f x).consensus_reached ≡ false
  conclude-failed [] nodes threshold f x all = refl
  conclude-failed (name ∷ names) nodes threshold f x all =
      rw
        (count_hashes-failed (verify_all cfg h t e x.attestations) []
          (verify_all-failed x.attestations all))
        refl

  -- Over a contract whose provenance is not VERIFIED no consensus is reached, whatever nodes take
  -- part, and also when a node is made faulty or left out.
  pub run_consensus_unproven :
      (nodes : List NodeSigner) (c : Contract) (key : String) (f : Faults)
      → verify_contract_provenance h e c key ≢ verified
      → (run_consensus cfg h t e nodes c key f).consensus_reached ≡ false
  unfolding run_consensus
  run_consensus_unproven nodes c key f ne =
      conclude-failed (collect cfg h t e f c key nodes nothing_collected).participating
        (length nodes) (pos_part cfg.consensus_quorum_threshold) f
        (collect cfg h t e f c key nodes nothing_collected)
        (collect-failed f c key nodes nothing_collected ne (unfold every in refl))
