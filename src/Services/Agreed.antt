-- ===== src/Services/Agreed.antt =====
-- From a message to the consensus on it.
use mathlib.Core.Path.{subst}
use qcg_task.Prelude.{
  String, ◌≡◌, refl, sym, ap, ◌∙◌, true, false, some, List, [], ◌∷◌, ◌++◌, ◌≤◌, ◌==◌, length,
  is_some,
}
use text.Mathlib.Text.{find?}
use qcg_task.Prelude.Int.{pos_part}
use qcg_task.Prelude.Json.{Hashing}
use qcg_task.Config.{Config}
use qcg_task.Contract.{Contract, post_init}
use qcg_task.Runtime.{Texts, ExecutionResult, ack_text, execute}
use qcg_task.Ledger.{ExecutionRecord, LedgerSnapshot}
use qcg_task.Trust.Identity.{Ecdsa, IsCorrect, NodeSigner}
use qcg_task.Consensus.Node.{status_of, names_failure}
use qcg_task.Consensus.Engine.{ConsensusProof, run_consensus}
use qcg_task.Consensus.Honest.{AreHonest}
use qcg_task.Consensus.Unanimous.{run_consensus_honest}
use qcg_task.Execution.Defs.{Message}
use qcg_task.Services.Replies.{
  carried_out, proof, ConsensusService, serve_consensus, agreed_on, default_faults,
}
use qcg_task.Services.Turn.{served, Conditions, System, turn}
use qcg_task.Services.Executed.{Served, Sent, turn-Done}

module _ (cfg : Config) (h : Hashing) (e : Ecdsa) (t : Texts) where
  serve_runs :
      (result : ExecutionResult) (raw : Contract) (key : String) (rec : ExecutionRecord)
      (snapshot : LedgerSnapshot) (c : ConsensusService)
      → is_some (find? (ack_text t result.ack) "HALT") ≡ false
      → serve_consensus cfg h e t (carried_out result raw key rec snapshot) c
        ≡ agreed_on cfg h e t
            (run_consensus cfg h t e c.nodes (post_init h raw) key default_faults)
            c
  unfolding serve_consensus
  serve_runs result raw key rec snapshot c runs = rw runs refl

  -- When the execution service sends a result on as executed and the consensus service reads it,
  -- that service, whose nodes hold their keys and have different identifiers, writes a proof in
  -- which all of them agree on the runtime hash of the record, if the hash is not empty, the
  -- acknowledgement is no halt, and the threshold is at most one.
  pub carried_out_agreed :
      IsCorrect e
      → (w : Conditions) (m : Message) (s after : System) (result : ExecutionResult)
        (raw : Contract) (key : String) (rec : ExecutionRecord) (snapshot : LedgerSnapshot)
        (node : NodeSigner) (others : List NodeSigner)
      → turn cfg h e t w m s ≡ (some (carried_out result raw key rec snapshot), after)
      → w.delivery ≡ served
      → s.consensus.nodes ≡ node ∷ others
      → AreHonest cfg h t e (node ∷ others)
      → (rec.runtime_hash == "") ≡ false
      → is_some (find? (ack_text t result.ack) "HALT") ≡ false
      → pos_part cfg.consensus_quorum_threshold ≤ 10000
      → (p : ConsensusProof) × (after.consensus.lines ≡ s.consensus.lines ++ proof p ∷ [])
        × (p.consensus_reached ≡ true)
        × (p.final_hash ≡ rec.runtime_hash)
        × (p.agreeing ≡ length s.consensus.nodes)
  carried_out_agreed ec w m s after result raw key rec snapshot node others done read nodes honest
        filled runs low =
      let sent : Sent cfg h e t w.delivery m.body m.producer_public_key s
          (some (carried_out result raw key rec snapshot), after) =
        subst (Sent cfg h e t w.delivery m.body m.producer_public_key s) done
          (turn-Done cfg h e t w m s).1 in
      let (carried, same_key, proven, computed, recorded, outcome) = sent in
      let taken : Served cfg h e t served (carried_out result raw key rec snapshot) s.consensus
          after.consensus =
        subst
          (λ d.
            Served cfg h e t d (carried_out result raw key rec snapshot) s.consensus
              after.consensus)
          read outcome in
      let c = post_init h raw in
      let r : ExecutionResult = execute cfg h t "" c in
      let same_hash : rec.runtime_hash ≡ r.runtime_hash =
        recorded ∙ ap (λ (x : ExecutionResult). x.runtime_hash) computed in
      let filled_r : (r.runtime_hash == "") ≡ false = ap (λ x. x == "") (sym same_hash) ∙ filled in
      let runs_r : is_some (find? (ack_text t r.ack) "HALT") ≡ false =
        ap (λ (x : ExecutionResult). is_some (find? (ack_text t x.ack) "HALT")) (sym computed)
        ∙ runs in
      let fine : names_failure (status_of cfg h t e r) ≡ false = rw runs_r refl in
      let (reached, final, agreeing, _) =
        run_consensus_honest cfg h t e ec node others c key honest proven filled_r fine low in
      (
        run_consensus cfg h t e (node ∷ others) c key default_faults,
        ap (λ x. x.lines) taken
            ∙ ap (λ x. x.lines) (serve_runs result raw key rec snapshot s.consensus runs)
            ∙ ap
                (λ x.
                  s.consensus.lines ++ proof (run_consensus cfg h t e x c key default_faults) ∷ [])
                nodes,
        reached,
        final ∙ sym same_hash,
        agreeing ∙ ap length (sym nodes),
      )
