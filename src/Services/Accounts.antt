-- ===== src/Services/Accounts.antt =====
-- The counters of the services over any sequence of messages.
use text.Mathlib.Text.{find?}
use qcg_task.Prelude.{
  is_some, ℕ, suc, ◌+◌, String, ◌≡◌, refl, ap, ◌∙◌, Bool, true, false, Option, none, some, List, [],
  ◌∷◌, arith, ok, err, Result, Bool-cases, Option-cases, inl, inr, length, length-append,
}
use qcg_task.Prelude.Json.{Hashing}
use qcg_task.Config.{Config}
use qcg_task.Contract.{Contract, post_init}
use qcg_task.Runtime.{Texts, ack_text, ExecutionResult, execute}
use qcg_task.Ledger.{ExecutionRecord, EvidenceLedger, LedgerSnapshot, LedgerError, append}
use qcg_task.Trust.Identity.{Ecdsa}
use qcg_task.Consensus.Engine.{ConsensusProof, run_consensus}
use qcg_task.Execution.Defs.{Body, fields, malformed, Message}
use qcg_task.Services.Replies.{
  SubmitResponse, ReplayResponse, submitted, found, lineage_of, no_response, TrustResponse, Forward,
  halted_replay, halted_trust, carried_out, ConsensusService, not_run, proof, serve_consensus,
  serve_trust, serve_replay, not_agreed, agreed_on, default_faults,
}
use qcg_task.Services.Executed.{Served}
use qcg_task.Services.Turn.{
  Delivery, unreached, unread, served, Event, idle, keyless, arrives, pass, Exchange, unsent,
  reply_lost, answered, Conditions, System, failed, submit_of, service_record, send_forward,
  after_append, run_body, after_trust_reply, call_trust, after_verdict, after_replay_reply,
  call_replay, turn, turns,
}

abbrev pub forwarded : List (Option Forward) → ℕ
forwarded [] = 0
forwarded (none ∷ fs) = forwarded fs
forwarded (some f ∷ fs) = suc (forwarded fs)

-- the consensus runs and refusals that a service has counted
abbrev pub decided : ConsensusService → ℕ
decided c = c.metrics.consensus_reached_total + c.metrics.consensus_failed_total

-- how the message of a round goes, if there is one
abbrev pub delivery_of : Event → Delivery
delivery_of (arrives w m) = w.delivery
delivery_of _ = unreached

abbrev pub reads : Delivery → ℕ
reads served = 1
reads _ = 0

-- of what is sent on, what the consensus service reads
abbrev pub read_by : List Event → List (Option Forward) → ℕ
read_by (x ∷ xs) (none ∷ fs) = read_by xs fs
read_by (x ∷ xs) (some f ∷ fs) = reads (delivery_of x) + read_by xs fs
read_by _ _ = 0

-- What the counters say after `n` rounds, of which `k` sent a message on, and `j` of them one that
-- the consensus service has read.
abbrev pub Balanced : System → ℕ → ℕ → ℕ → System → Type 0
Balanced s n k j after =
    (after.metrics.failures_total + k ≡ s.metrics.failures_total + n)
    × (length after.consensus.lines ≡ length s.consensus.lines + j)
    × (decided after.consensus ≡ decided s.consensus + j)

module _ (cfg : Config) (h : Hashing) (e : Ecdsa) (t : Texts) where
  -- A turn forwards to the consensus service, which reads the message or not, or counts a failure
  -- and leaves that service alone.
  abbrev Accounts : Delivery → System → Option Forward × System → Type 0
  Accounts d s (none, s') =
      (s'.metrics.failures_total ≡ suc s.metrics.failures_total) × (s'.consensus ≡ s.consensus)
  Accounts d s (some f, s') =
      (s'.metrics.failures_total ≡ s.metrics.failures_total)
      × Served cfg h e t d f s.consensus s'.consensus

  send_forward-Accounts :
      (takes : Delivery) (f : Forward) (s : System)
      → Accounts takes s (send_forward cfg h e t takes f s)
  send_forward-Accounts served f s = (refl, refl)
  send_forward-Accounts unread f s = (refl, refl)
  send_forward-Accounts unreached f s = (refl, refl)

  after_append-Accounts :
      (w : Conditions) (raw : Contract) (key : String) (result : ExecutionResult)
      (rec : ExecutionRecord) (r : Result LedgerError (LedgerSnapshot × EvidenceLedger))
      (s : System)
      → Accounts w.delivery s (after_append cfg h e t w raw key result rec r s)
  after_append-Accounts w raw key result rec (err failure) s = (refl, refl)
  after_append-Accounts w raw key result rec (ok (snapshot, ledger)) s =
      send_forward-Accounts w.delivery (carried_out result raw key rec snapshot)
        (record s { ledger = ledger })

  run_body-Accounts :
      (w : Conditions) (body : Body) (key : String) (r : SubmitResponse) (s : System)
      → Accounts w.delivery s (run_body cfg h e t w body key r s)
  unfolding run_body
  run_body-Accounts w (malformed trace_id) key r s = (refl, refl)
  run_body-Accounts w (fields raw) key r s =
      let c = post_init h raw in
      let result = execute cfg h t "" c in
      let rec : ExecutionRecord = service_record cfg h e t w.exec_id c r result s.ledger in
      after_append-Accounts w raw key result rec (append h rec s.ledger) s

  after_trust_reply-Accounts :
      (w : Conditions) (body : Body) (key : String) (r : SubmitResponse) (reply : TrustResponse)
      (s : System)
      → Accounts w.delivery s (after_trust_reply cfg h e t w body key r reply s)
  after_trust_reply-Accounts w body key r reply s = elim (Option-cases reply.halt) [
    | inl pass ↦ rw pass (run_body-Accounts w body key r s)
    | inr (reason, stop) ↦ rw stop (send_forward-Accounts w.delivery (halted_trust reason) s)
  ]

  call_trust-Accounts :
      (x : Exchange) (w : Conditions) (body : Body) (key : String) (r : SubmitResponse) (s : System)
      → Accounts w.delivery s (call_trust cfg h e t x w body key r s)
  call_trust-Accounts unsent w body key r s = (refl, refl)
  call_trust-Accounts reply_lost w body key r s = (refl, refl)
  call_trust-Accounts answered w body key r s =
      let (reply, trust) = serve_trust h e body key s.trust in
      after_trust_reply-Accounts w body key r reply (record s { trust = trust })

  after_verdict-Accounts :
      (fresh : Bool) (w : Conditions) (body : Body) (key : String) (r : SubmitResponse) (s : System)
      → Accounts w.delivery s (after_verdict cfg h e t fresh w body key r s)
  after_verdict-Accounts true w body key r s = call_trust-Accounts w.trust_call w body key r s
  after_verdict-Accounts false w body key r s =
      send_forward-Accounts w.delivery (halted_replay r.status) s

  after_replay_reply-Accounts :
      (w : Conditions) (body : Body) (key : String) (reply : ReplayResponse) (s : System)
      → Accounts w.delivery s (after_replay_reply cfg h e t w body key reply s)
  after_replay_reply-Accounts w body key (submitted r) s =
      after_verdict-Accounts r.valid w body key r s
  after_replay_reply-Accounts w body key (found status) s = (refl, refl)
  after_replay_reply-Accounts w body key (lineage_of records) s = (refl, refl)
  after_replay_reply-Accounts w body key no_response s = (refl, refl)

  call_replay-Accounts :
      (x : Exchange) (w : Conditions) (m : Message) (s : System)
      → Accounts w.delivery s (call_replay cfg h e t x w m s)
  call_replay-Accounts unsent w m s = (refl, refl)
  call_replay-Accounts reply_lost w m s = (refl, refl)
  call_replay-Accounts answered w m s =
      let (reply, replay) = serve_replay h (submit_of w m) s.replay in
      after_replay_reply-Accounts w m.body m.producer_public_key reply
        (record s { replay = replay })

  turn-Accounts :
      (w : Conditions) (m : Message) (s : System) → Accounts w.delivery s (turn cfg h e t w m s)
  unfolding turn
  turn-Accounts w m s =
      call_replay-Accounts w.replay_call w m
        (record s { metrics = record s.metrics { requests_total = suc s.metrics.requests_total } })

  -- One line and one count for each message that the consensus service takes.
  abbrev Counts : ConsensusService → ConsensusService → Type 0
  Counts c d = (length d.lines ≡ suc (length c.lines)) × (decided d ≡ suc (decided c))

  not_agreed-Counts : (c : ConsensusService) → Counts c (not_agreed c)
  not_agreed-Counts c = (ground (arith, length-append c.lines (not_run ∷ [])), omega arith)

  agreed_on-Counts :
      (p : ConsensusProof) (c : ConsensusService) → Counts c (agreed_on cfg h e t p c)
  agreed_on-Counts p c = (
    ground (arith, length-append c.lines (proof p ∷ [])),
    elim (Bool-cases p.consensus_reached) [
      | inl reached ↦ rw reached (omega arith)
      | inr missed ↦ rw missed (omega arith)
    ],
  )

  serve_consensus-Counts :
      (f : Forward) (c : ConsensusService) → Counts c (serve_consensus cfg h e t f c)
  unfolding serve_consensus
  serve_consensus-Counts (halted_replay status) c = not_agreed-Counts c
  serve_consensus-Counts (halted_trust reason) c = not_agreed-Counts c
  serve_consensus-Counts (carried_out result raw key rec snapshot) c =
      elim (Bool-cases (is_some (find? (ack_text t result.ack) "HALT"))) [
        | inl halts ↦ rw halts (not_agreed-Counts c)
        | inr runs ↦ rw runs (
            agreed_on-Counts (run_consensus cfg h t e c.nodes (post_init h raw) key default_faults)
              c)
      ]

  pass-Accounts : (x : Event) (s : System) → Accounts (delivery_of x) s (pass cfg h e t x s)
  pass-Accounts idle s = (refl, refl)
  pass-Accounts keyless s = (refl, refl)
  pass-Accounts (arrives w m) s = turn-Accounts w m s

  Served-Counts :
      (d : Delivery) (f : Forward) (c c' : ConsensusService)
      → Served cfg h e t d f c c'
      → (length c'.lines ≡ length c.lines + reads d) × (decided c' ≡ decided c + reads d)
  Served-Counts served f c c' done =
      let counts = serve_consensus-Counts f c in
      (
        ap (λ x. length x.lines) done ∙ (counts.0 ∙ omega arith),
        ap (λ x. decided x) done ∙ (counts.1 ∙ omega arith),
      )
  Served-Counts unread f c c' done =
      (ap (λ x. length x.lines) done ∙ omega arith, ap (λ x. decided x) done ∙ omega arith)
  Served-Counts unreached f c c' done =
      (ap (λ x. length x.lines) done ∙ omega arith, ap (λ x. decided x) done ∙ omega arith)

  after_pass-Balanced :
      (x : Event) (xs : List Event) (s s' after : System) (f : Option Forward)
      (fs : List (Option Forward)) (n : ℕ)
      → Accounts (delivery_of x) s (f, s')
      → Balanced s' n (forwarded fs) (read_by xs fs) after
      → Balanced s (suc n) (forwarded (f ∷ fs)) (read_by (x ∷ xs) (f ∷ fs)) after
  after_pass-Balanced x xs s s' after none fs n (failed, same) (a, b, c) = (
    omega arith,
    b ∙ ap (λ y. length y.lines + read_by xs fs) same,
    c ∙ ap (λ y. decided y + read_by xs fs) same,
  )
  after_pass-Balanced x xs s s' after (some f) fs n (kept, outcome) (a, b, c) =
      let counts = Served-Counts (delivery_of x) f s.consensus s'.consensus outcome in
      (omega arith, omega (arith, counts.0, b), omega (arith, counts.1, c))

  -- Over any rounds of the execution service that are idle or meet a CONTRACT message, with or
  -- without its keys, and whatever is lost on the way: each round either sends a message on to the
  -- consensus service or counts a failure, an idle second included, and the consensus service
  -- writes one line and counts one decision for each message that it reads.
  pub turns_accounted :
      (xs : List Event) (s : System)
      → let fs = (turns cfg h e t xs s).0 in
        let after = (turns cfg h e t xs s).1 in
        Balanced s (length xs) (forwarded fs) (read_by xs fs) after
  unfolding turns
  turns_accounted [] s = (refl, omega arith, omega arith)
  turns_accounted (x ∷ rest) s =
      let (f, s') = pass cfg h e t x s in
      let (fs, after) = turns cfg h e t rest s' in
      after_pass-Balanced x rest s s' after f fs (length rest) (pass-Accounts x s)
        (turns_accounted rest s')
