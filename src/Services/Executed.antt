-- ===== src/Services/Executed.antt =====
-- What a turn of the execution service has done: its ledger, and what it sends on as executed.
use mathlib.Core.Path.{subst}
use qcg_task.Prelude.{
  String, ◌≡◌, refl, ◌⊎◌, inl, inr, Bool, true, false, Option, none, some, arith, ok, err, Result,
  Option-cases,
}
use qcg_task.Prelude.Json.{Hashing}
use qcg_task.Config.{Config}
use qcg_task.Contract.{Contract, post_init}
use qcg_task.Runtime.{Texts, ExecutionResult, execute}
use qcg_task.Ledger.{ExecutionRecord, EvidenceLedger, extend_chain, get_snapshot}
use qcg_task.Trust.Identity.{Ecdsa}
use qcg_task.Trust.Provenance.Defs.{verified, verify_contract_provenance}
use qcg_task.Trust.Provenance.Verified.{verify_contract_provenance_iff}
use qcg_task.Trust.Producers.Defs.{
  ProducerRegistry, RegisterError, VerificationFailure, producer_entry, verify_producer,
}
use qcg_task.Trust.Producers.Trusted.{verify_producer_iff}
use qcg_task.Execution.Defs.{Body, fields, malformed, Message, contact}
use qcg_task.Execution.Executed.{IsKnown, contact-IsKnown}
use qcg_task.Replay.Registry.{Status}
use qcg_task.Services.Replies.{
  ConsensusService, TrustHalt, SubmitResponse, ReplayResponse, submitted, found, lineage_of,
  no_response, TrustResponse, Forward, halted_replay, halted_trust, carried_out, verdict_response,
  verify_contacted, serve_consensus, serve_trust, serve_replay, count_request,
}
use qcg_task.Services.Turn.{
  Delivery, unreached, unread, served, Exchange, unsent, reply_lost, answered, Conditions, System,
  submit_of, service_record, send_forward, run_body, after_trust_reply, call_trust, after_verdict,
  after_replay_reply, call_replay, turn,
}
use qcg_task.Services.Follows.{run_body-appends}

module _ (cfg : Config) (h : Hashing) (e : Ecdsa) (t : Texts) where
  -- The key proves the body's contract.
  abbrev pub Proven : Body → String → Type 0
  Proven (malformed trace_id) key = Unit
  Proven (fields raw) key = verify_contract_provenance h e (post_init h raw) key ≡ verified

  verdict-passed : (f : Option VerificationFailure) → (verdict_response f).halt ≡ none → f ≡ none
  verdict-passed none p = refl
  verdict-passed (some failure) p = absurd (ground arith)

  contacted-Proven :
      (raw : Contract) (key : String) (trust : ProducerRegistry)
      (k : Result RegisterError (Bool × ProducerRegistry))
      → contact (post_init h raw) key trust (producer_entry (post_init h raw).producer_id trust) ≡ k
      → (verify_contacted h e (post_init h raw) trust k).0.halt ≡ none
      → Proven (fields raw) key
  unfolding IsKnown
  contacted-Proven raw key trust (err failure) agreed p = absurd (ground arith)
  contacted-Proven raw key trust (ok (false, _)) agreed p = absurd (ground arith)
  contacted-Proven raw key trust (ok (true, trust')) agreed p =
      let c = post_init h raw in
      let (entry, found_it, same_key) =
        contact-IsKnown c key trust trust' (producer_entry c.producer_id trust) refl agreed in
      let trusted =
        (verify_producer_iff h e c trust').0
          (verdict-passed (verify_producer h e c trust').failure_mode p) in
      let same : trusted.entry.identity.public_key ≡ key =
        cc (trusted.listed, found_it, same_key) in
      subst (λ x. verify_contract_provenance h e c x ≡ verified) same
        ((verify_contract_provenance_iff h e c trusted.entry.identity.public_key).1 trusted.proven)

  serve_trust-Proven :
      (body : Body) (key : String) (trust : ProducerRegistry)
      → (serve_trust h e body key trust).0.halt ≡ none
      → Proven body key
  unfolding serve_trust
  serve_trust-Proven (malformed trace_id) key trust p = tt
  serve_trust-Proven (fields raw) key trust p =
      let c = post_init h raw in
      contacted-Proven raw key trust (contact c key trust (producer_entry c.producer_id trust)) refl
        p

  -- The ledger is as before, or has a record of the service more.
  abbrev pub Grows : String → EvidenceLedger → EvidenceLedger → Type 0
  Grows exec_id l l' =
      (l' ≡ l)
      ⊎ ((c : Contract) × (r : SubmitResponse) × (result : ExecutionResult) × (l'
            ≡ extend_chain h (service_record cfg h e t exec_id c r result l) l))

  -- what a message does to the consensus service
  abbrev pub Served : Delivery → Forward → ConsensusService → ConsensusService → Type 0
  Served served f c c' = c' ≡ serve_consensus cfg h e t f c
  Served _ f c c' = c' ≡ c

  -- What is sent on as executed: the message's contract, proven by the message's key, with the core's
  -- result and a record of it, and a consensus service that reads it serves it.
  abbrev pub Sent : Delivery → Body → String → System → Option Forward × System → Type 0
  Sent d body key s (some (carried_out result raw k rec snapshot), s') =
      (body ≡ fields raw)
      × (k ≡ key)
      × (verify_contract_provenance h e (post_init h raw) k ≡ verified)
      × (result ≡ execute cfg h t "" (post_init h raw))
      × (rec.runtime_hash ≡ result.runtime_hash)
      × Served d (carried_out result raw k rec snapshot) s.consensus s'.consensus
  Sent d body key s _ = Unit

  abbrev pub Done : Delivery → String → Body → String → System → Option Forward × System → Type 0
  Done d exec_id body key s r = Grows exec_id s.ledger r.1.ledger × Sent d body key s r

  sent-Done :
      (takes : Delivery) (exec_id : String) (raw : Contract) (key : String) (r : SubmitResponse)
      (s : System)
      → Proven (fields raw) key
      → let c = post_init h raw in
        let result = execute cfg h t "" c in
        let rec : ExecutionRecord = service_record cfg h e t exec_id c r result s.ledger in
        let ledger : EvidenceLedger = extend_chain h rec s.ledger in
        Done takes exec_id (fields raw) key s (
          send_forward cfg h e t takes
            (carried_out result raw key rec (get_snapshot h ledger))
            (record s { ledger = ledger }))
  sent-Done served exec_id raw key r s proven =
      let c = post_init h raw in
      (inr (c, r, execute cfg h t "" c, refl), (refl, refl, proven, refl, refl, refl))
  sent-Done unread exec_id raw key r s proven =
      let c = post_init h raw in
      (inr (c, r, execute cfg h t "" c, refl), (refl, refl, proven, refl, refl, refl))
  sent-Done unreached exec_id raw key r s proven =
      let c = post_init h raw in (inr (c, r, execute cfg h t "" c, refl), tt)

  run_body-Done :
      (w : Conditions) (body : Body) (key : String) (r : SubmitResponse) (s : System)
      → Proven body key
      → Done w.delivery w.exec_id body key s (run_body cfg h e t w body key r s)
  unfolding run_body
  run_body-Done w (malformed trace_id) key r s proven = (inl refl, tt)
  run_body-Done w (fields raw) key r s proven =
      rw (run_body-appends cfg h e t w raw key r s)
        (sent-Done w.delivery w.exec_id raw key r s proven)

  -- A halt that is sent on, or not.
  halt-Done :
      (takes : Delivery) (exec_id : String) (body : Body) (key : String) (s : System)
      (reason : TrustHalt)
      → Done takes exec_id body key s (send_forward cfg h e t takes (halted_trust reason) s)
  halt-Done served exec_id body key s reason = (inl refl, tt)
  halt-Done unread exec_id body key s reason = (inl refl, tt)
  halt-Done unreached exec_id body key s reason = (inl refl, tt)

  halt_replay-Done :
      (takes : Delivery) (exec_id : String) (body : Body) (key : String) (s : System)
      (status : Status)
      → Done takes exec_id body key s (send_forward cfg h e t takes (halted_replay status) s)
  halt_replay-Done served exec_id body key s status = (inl refl, tt)
  halt_replay-Done unread exec_id body key s status = (inl refl, tt)
  halt_replay-Done unreached exec_id body key s status = (inl refl, tt)

  reply-Done :
      (w : Conditions) (body : Body) (key : String) (r : SubmitResponse) (reply : TrustResponse)
      (s : System)
      → (reply.halt ≡ none → Proven body key)
      → Done w.delivery w.exec_id body key s (after_trust_reply cfg h e t w body key r reply s)
  reply-Done w body key r reply s proven = elim (Option-cases reply.halt) [
    | inl pass ↦ rw pass (run_body-Done w body key r s (proven pass))
    | inr (reason, stop) ↦ rw stop (halt-Done w.delivery w.exec_id body key s reason)
  ]

  call_trust-Done :
      (x : Exchange) (w : Conditions) (body : Body) (key : String) (r : SubmitResponse) (s : System)
      → Done w.delivery w.exec_id body key s (call_trust cfg h e t x w body key r s)
  call_trust-Done unsent w body key r s = (inl refl, tt)
  call_trust-Done reply_lost w body key r s = (inl refl, tt)
  call_trust-Done answered w body key r s =
      let (reply, trust) = serve_trust h e body key s.trust in
      reply-Done w body key r reply (record s { trust = trust })
        (serve_trust-Proven body key s.trust)

  after_verdict-Done :
      (fresh : Bool) (w : Conditions) (body : Body) (key : String) (r : SubmitResponse) (s : System)
      → Done w.delivery w.exec_id body key s (after_verdict cfg h e t fresh w body key r s)
  after_verdict-Done true w body key r s = call_trust-Done w.trust_call w body key r s
  after_verdict-Done false w body key r s =
      halt_replay-Done w.delivery w.exec_id body key s r.status

  after_replay_reply-Done :
      (w : Conditions) (body : Body) (key : String) (reply : ReplayResponse) (s : System)
      → Done w.delivery w.exec_id body key s (after_replay_reply cfg h e t w body key reply s)
  after_replay_reply-Done w body key (submitted r) s = after_verdict-Done r.valid w body key r s
  after_replay_reply-Done w body key (found status) s = (inl refl, tt)
  after_replay_reply-Done w body key (lineage_of records) s = (inl refl, tt)
  after_replay_reply-Done w body key no_response s = (inl refl, tt)

  call_replay-Done :
      (x : Exchange) (w : Conditions) (m : Message) (s : System)
      → Done w.delivery w.exec_id m.body m.producer_public_key s (call_replay cfg h e t x w m s)
  call_replay-Done unsent w m s = (inl refl, tt)
  call_replay-Done reply_lost w m s = (inl refl, tt)
  call_replay-Done answered w m s =
      let (reply, replay) = serve_replay h (submit_of w m) s.replay in
      after_replay_reply-Done w m.body m.producer_public_key reply (record s { replay = replay })

  pub turn-Done :
      (w : Conditions) (m : Message) (s : System)
      → Done w.delivery w.exec_id m.body m.producer_public_key s (turn cfg h e t w m s)
  unfolding turn
  turn-Done w m s =
      call_replay-Done w.replay_call w m (record s { metrics = count_request s.metrics })
