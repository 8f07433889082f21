-- ===== src/Consensus/Honest.antt =====
-- Nodes that all work: none is left out or made faulty, and their keys fit.
use mathlib.Core.List.{append-nil, append_assoc}
use mathlib.Core.Path.{subst}
use qcg_task.Prelude.{
  String, ◌≡◌, refl, ap, if◌then◌else◌, ◌∙◌, true, false, none, List, [], ◌∷◌, ◌++◌, ◌==◌, eq_refl,
  All,
}
use qcg_task.Prelude.Dict.{Dict, lookup, insert, insert_new, lookup-insert}
use qcg_task.Prelude.Json.{Hashing}
use qcg_task.Config.{Config}
use qcg_task.Contract.{Contract}
use qcg_task.Runtime.{Texts, ExecutionResult, execute}
use qcg_task.Trust.Identity.{Ecdsa, IsCorrect, NodeSigner}
use qcg_task.Trust.Provenance.Defs.{verified, verify_contract_provenance}
use qcg_task.Consensus.Node.{
  NodeAttestation, after_provenance, process, attest_result, attestation_valid,
}
use qcg_task.Consensus.Engine.{
  Faults, Collected, add_invalid, verify_all, collect, Disagreement, signature_invalid,
}

-- `Faults` that name no node.
abbrev pub no_faults : Faults
no_faults = record { faulty = none; missing = none; round = 1 }

abbrev pub ids : List NodeSigner → List String
ids [] = []
ids (s ∷ rest) = s.identity.node_id ∷ ids rest

module _ (cfg : Config) (h : Hashing) (t : Texts) (e : Ecdsa) where
  -- the attestations of the nodes for one result
  abbrev pub entries_of : ExecutionResult → List NodeSigner → Dict NodeAttestation
  entries_of r [] = []
  entries_of r (s ∷ rest) = (s.identity.node_id, attest_result cfg h t e s r) ∷ entries_of r rest

  -- No identifier is one of the table's or occurs again.
  abbrev pub AreNew : List NodeSigner → Dict NodeAttestation → Type 0
  AreNew [] d = Unit
  AreNew (s ∷ rest) d = (lookup s.identity.node_id d ≡ none) × AreNew rest d

  -- Each node holds the private key of its identity, and no two share an identifier.
  abbrev pub AreHonest : List NodeSigner → Type 0
  AreHonest [] = Unit
  AreHonest (s ∷ rest) =
      (s.identity.public_key ≡ e.public_key s.private_key)
      × All (λ (x : NodeSigner). (s.identity.node_id == x.identity.node_id) ≡ false) rest
      × AreHonest rest

  pub verify_all_honest :
      IsCorrect e
      → (r : ExecutionResult) (nodes : List NodeSigner) → AreHonest nodes
      → (verify_all cfg h t e (entries_of r nodes) ≡ entries_of r nodes)
        × ((d : Dict Disagreement) → add_invalid cfg h t e (entries_of r nodes) d ≡ d)
  unfolding verify_all add_invalid
  verify_all_honest ec r [] hs = (refl, λ d. refl)
  verify_all_honest ec r (s ∷ rest) hs =
      let ih = verify_all_honest ec r rest hs.2 in
      let good : attestation_valid cfg h t e s.identity.node_id (attest_result cfg h t e s r)
          ≡ true =
        unfold attestation_valid in
        rw (eq_refl (h.sha256 r.runtime_hash), hs.0) (ec.verifies s.private_key r.runtime_hash) in
      (
        rw (good, ih.0) refl,
        λ d.
            ap
              (λ b.
                add_invalid cfg h t e (entries_of r rest)
                  (if b then d else insert s.identity.node_id signature_invalid d))
              good
            ∙ ih.1 d,
      )

  insert-AreNew :
      (s : NodeSigner) (a : NodeAttestation) (rest : List NodeSigner) (d : Dict NodeAttestation)
      → All (λ (x : NodeSigner). (s.identity.node_id == x.identity.node_id) ≡ false) rest
      → AreNew rest d
      → AreNew rest (insert s.identity.node_id a d)
  insert-AreNew s a [] d apart new = tt
  insert-AreNew s a (x ∷ rest) d apart new = (
    rw (lookup-insert s.identity.node_id x.identity.node_id a d, apart.0) new.0,
    insert-AreNew s a rest d apart.1 new.1,
  )

  abbrev pub joined : Collected → Dict NodeAttestation → List String → Collected
  joined x attestations names = record {
    attestations = x.attestations ++ attestations;
    missed = x.missed;
    participating = x.participating ++ names;
  }

  process_proven :
      (s : NodeSigner) (c : Contract) (key : String)
      → verify_contract_provenance h e c key ≡ verified
      → process cfg h t e s c key ≡ attest_result cfg h t e s (execute cfg h t "" c)
  unfolding process
  process_proven s c key proven = ap (after_provenance cfg h t e s c) proven

  insert-process :
      (s : NodeSigner) (c : Contract) (key : String) (d : Dict NodeAttestation)
      → verify_contract_provenance h e c key ≡ verified
      → lookup s.identity.node_id d ≡ none
      → insert s.identity.node_id (process cfg h t e s c key) d
        ≡ d ++ (s.identity.node_id, attest_result cfg h t e s (execute cfg h t "" c)) ∷ []
  insert-process s c key d proven new =
      rw (process_proven s c key proven)
        (insert_new s.identity.node_id (attest_result cfg h t e s (execute cfg h t "" c)) d new)

  -- The loop collects the attestations of all nodes, in their order.
  pub collect_honest :
      (c : Contract) (key : String) (nodes : List NodeSigner) (x : Collected)
      → verify_contract_provenance h e c key ≡ verified
      → AreHonest nodes
      → AreNew nodes x.attestations
      → collect cfg h t e no_faults c key nodes x
        ≡ joined x (entries_of (execute cfg h t "" c) nodes) (ids nodes)
  unfolding collect
  collect_honest c key [] x proven hs new =
      cc (append-nil x.attestations, append-nil x.participating)
  collect_honest c key (s ∷ rest) x proven hs new =
      let r = execute cfg h t "" c in
      let id = s.identity.node_id in
      let a = attest_result cfg h t e s r in
      let placed = insert-process s c key x.attestations proven new.0 in
      let still : AreNew rest (x.attestations ++ (id, a) ∷ []) =
        subst (AreNew rest) placed
          (insert-AreNew s (process cfg h t e s c key) rest x.attestations hs.1 new.1) in
      let first = joined x ((id, a) ∷ []) (id ∷ []) in
      ap
        (λ d. collect cfg h t e no_faults c key rest (record {
          attestations = d;
          missed = x.missed;
          participating = x.participating ++ id ∷ [];
        }))
        placed
      ∙ collect_honest c key rest first proven hs.2 still
      ∙ cc (
        append_assoc x.attestations ((id, a) ∷ []) (entries_of r rest),
        append_assoc x.participating (id ∷ []) (ids rest),
      )
