-- ===== src/Services/Follows.antt =====
-- A turn of the services beside a turn of the loop of execution_process.py.
use qcg_task.Prelude.{
  String, ◌≡◌, refl, Bool, true, false, Option, none, some, List, [], ◌∷◌, arith, ok, err, Result,
  not, if◌then◌else◌, eq_refl,
}
use qcg_task.Prelude.Int.{ℤ}
use qcg_task.Prelude.Json.{Hashing}
use qcg_task.Config.{Config}
use qcg_task.Contract.{Contract, post_init}
use qcg_task.Runtime.{Texts, execute}
use qcg_task.Replay.Registry.{Call}
use qcg_task.Replay.Authority as AuthorityModule
use qcg_task.Replay.Authority.{Authority, ReplayVerdict, is_valid}
use qcg_task.Ledger.{ExecutionRecord, EvidenceLedger, append, extend_chain, get_snapshot}
use qcg_task.Trust.Identity.{Ecdsa}
use qcg_task.Trust.Producers.Defs.{
  ProducerRegistry, VerificationFailure, RegisterError, producer_entry, verify_producer,
}
use qcg_task.Execution.Defs.{
  Body, fields, malformed, Message, Arrival, complete, raw_trace_id, Answer, halt_replay,
  halt_invalid_contract, halt_key_mismatch, halt_untrusted, executed, Executor, contact,
  run_contract, after_trust, after_contact, trust_and_run, handle,
}
use qcg_task.Execution.Executed.{run_contract-appends}
use qcg_task.Services.Replies.{
  count_request, count_verdict, SubmitResponse, response_of, key_mismatch, invalid_contract,
  untrusted, Forward, halted_replay, halted_trust, carried_out, serve_trust, verify_contacted,
  verdict_response, serve_replay,
}
use qcg_task.Services.Turn.{
  answered, served, Event, arrives, Conditions, System, service_record, send_forward, run_body,
  after_trust_reply, call_trust, after_verdict, turn,
}

-- Every call is answered.
abbrev pub calm : ℤ → ℤ → String → Conditions
calm now replay_now exec_id = record {
  now = now;
  replay_now = replay_now;
  exec_id = exec_id;
  replay_call = answered;
  trust_call = answered;
  delivery = served;
}

-- The two answers say the same.
abbrev pub Matches : Answer → Forward → Type 0
Matches (halt_replay status) (halted_replay status') = status ≡ status'
Matches halt_invalid_contract (halted_trust invalid_contract) = Unit
Matches halt_key_mismatch (halted_trust key_mismatch) = Unit
Matches (halt_untrusted failure) (halted_trust (untrusted failure')) = failure ≡ failure'
Matches (executed result rec snapshot) (carried_out result' raw key rec' snapshot') =
    result ≡ result'
Matches _ _ = ⊥

-- the state of the process that has the services' authority and trust registry
abbrev pub process_of : System → EvidenceLedger → Executor
process_of s l = record { authority = s.replay.authority; trust = s.trust; ledger = l }

-- What a turn of the services does beside a turn of the process: the process ends where the key of a
-- first contact is revoked, and the services answer that.
abbrev pub Follows : Option (Answer × Executor) → Option Forward × System → Type 0
Follows none (f, s) = f ≡ some (halted_trust invalid_contract)
Follows (some (a, p)) (none, s) = ⊥
Follows (some (a, p)) (some f, s) =
    Matches a f × (s.replay.authority ≡ p.authority) × (s.trust ≡ p.trust)

-- Each answer says the same as what is sent on in its place.
abbrev pub AllMatch : List Answer → List (Option Forward) → Type 0
AllMatch [] [] = Unit
AllMatch (a ∷ answers) (some f ∷ fs) = Matches a f × AllMatch answers fs
AllMatch _ _ = ⊥

-- a message with the clock readings and the identifier of its turn, for the process and the services
abbrev pub process_turn : ℤ × ℤ × String × Message → ℤ × String × Arrival
process_turn (now, replay_now, exec_id, m) = (replay_now, exec_id, complete m)

abbrev pub services_turn : ℤ × ℤ × String × Message → Event
services_turn (now, replay_now, exec_id, m) = arrives (calm now replay_now exec_id) m

abbrev pub Carries : ℤ × ℤ × String × Message → Type 0
Carries (now, replay_now, exec_id, m) = (issued : ℤ) × (m.issued_at ≡ some issued)

pub Follows-keeps :
    (a : Answer) (p : Executor) (r : Option Forward × System)
    → Follows (some (a, p)) r
    → (r.1.replay.authority ≡ p.authority) × (r.1.trust ≡ p.trust)
Follows-keeps a p (none, s) follows = absurd follows
Follows-keeps a p (some f, s) follows = (follows.1, follows.2)

pub Follows-matches :
    (a : Answer) (p : Executor) (r : Option Forward × System) (answers : List Answer)
    (fs : List (Option Forward))
    → Follows (some (a, p)) r
    → AllMatch answers fs
    → AllMatch (a ∷ answers) (r.0 ∷ fs)
Follows-matches a p (none, s) answers fs follows matched = absurd follows
Follows-matches a p (some f, s) answers fs follows matched = (follows.0, matched)

pub process_of-same :
    (s : System) (p : Executor)
    → s.replay.authority ≡ p.authority
    → s.trust ≡ p.trust
    → process_of s p.ledger ≡ p
process_of-same s p authority trust = rw (authority, trust) refl

module _ (cfg : Config) (h : Hashing) (e : Ecdsa) (t : Texts) where
  -- The record of an execution carries the head of the service's ledger, which takes it.
  pub run_body-appends :
      (w : Conditions) (raw : Contract) (key : String) (r : SubmitResponse) (s : System)
      → let c = post_init h raw in
        let result = execute cfg h t "" c in
        let rec : ExecutionRecord = service_record cfg h e t w.exec_id c r result s.ledger in
        let ledger : EvidenceLedger = extend_chain h rec s.ledger in
        run_body cfg h e t w (fields raw) key r s
        ≡ send_forward cfg h e t w.delivery
            (carried_out result raw key rec (get_snapshot h ledger))
            (record s { ledger = ledger })
  unfolding run_body append
  run_body-appends w raw key r s = ground (arith, eq_refl s.ledger.current_head)

  module _ (now replay_now : ℤ) (exec_id : String) where
    run_body-Follows :
        (raw : Contract) (key : String) (v : ReplayVerdict) (r : SubmitResponse) (s : System)
        (l : EvidenceLedger)
        → Follows
            (run_contract cfg h e t exec_id (post_init h raw) v (process_of s l))
            (run_body cfg h e t (calm now replay_now exec_id) (fields raw) key r s)
    run_body-Follows raw key v r s l =
        rw
          (
            run_contract-appends cfg h e t exec_id (post_init h raw) v (process_of s l),
            run_body-appends (calm now replay_now exec_id) raw key r s,
          )
          (refl, refl, refl)

    verified-Follows :
        (raw : Contract) (key : String) (v : ReplayVerdict) (r : SubmitResponse) (s : System)
        (l : EvidenceLedger) (f : Option VerificationFailure)
        → Follows (after_trust cfg h e t exec_id (post_init h raw) v (process_of s l) f) (
            after_trust_reply cfg h e t
              (calm now replay_now exec_id)
              (fields raw)
              key
              r
              (verdict_response f)
              s)
    verified-Follows raw key v r s l none = run_body-Follows raw key v r s l
    verified-Follows raw key v r s l (some failure) = (refl, refl, refl)

    contacted-Follows :
        (raw : Contract) (key : String) (v : ReplayVerdict) (r : SubmitResponse) (s : System)
        (l : EvidenceLedger) (k : Result RegisterError (Bool × ProducerRegistry))
        → Follows (after_contact cfg h e t exec_id (post_init h raw) v (process_of s l) k) (
            after_trust_reply cfg h e t
              (calm now replay_now exec_id)
              (fields raw)
              key
              r
              (verify_contacted h e (post_init h raw) s.trust k).0
              (record s { trust = (verify_contacted h e (post_init h raw) s.trust k).1 }))
    contacted-Follows raw key v r s l (err failure) = refl
    contacted-Follows raw key v r s l (ok (false, trust)) = (tt, refl, refl)
    contacted-Follows raw key v r s l (ok (true, trust)) =
        verified-Follows raw key v r (record s { trust = trust }) l
          (verify_producer h e (post_init h raw) trust).failure_mode

    body-Follows :
        (body : Body) (key : String) (v : ReplayVerdict) (r : SubmitResponse) (s : System)
        (l : EvidenceLedger)
        → Follows
            (trust_and_run cfg h e t exec_id body key v (process_of s l))
            (call_trust cfg h e t answered (calm now replay_now exec_id) body key r s)
    unfolding trust_and_run serve_trust
    body-Follows (malformed trace_id) key v r s l = (tt, refl, refl)
    body-Follows (fields raw) key v r s l =
        let c = post_init h raw in
        contacted-Follows raw key v r s l
          (contact c key s.trust (producer_entry c.producer_id s.trust))

    verdict-Follows :
        (fresh : Bool) (body : Body) (key : String) (v : ReplayVerdict) (r : SubmitResponse)
        (s : System) (l : EvidenceLedger)
        → v.status ≡ r.status
        → Follows
            (if not fresh
              then some (halt_replay v.status, process_of s l)
              else trust_and_run cfg h e t exec_id body key v (process_of s l))
            (after_verdict cfg h e t fresh (calm now replay_now exec_id) body key r s)
    verdict-Follows true body key v r s l same = body-Follows body key v r s l
    verdict-Follows false body key v r s l same = (same, refl, refl)

    -- the services after the replay authority has given its verdict
    abbrev asked : Call → System → System
    asked c s =
        let answer = AuthorityModule.submit h c none s.replay.authority in
        record s {
          replay = record {
            authority = answer.1;
            metrics = count_verdict (is_valid answer.0) (count_request s.replay.metrics);
          };
          metrics = count_request s.metrics;
        }

    pub turn-Follows :
        (issued : ℤ) (m : Message) (s : System) (l : EvidenceLedger)
        → m.issued_at ≡ some issued
        → Follows
            (handle cfg h e t replay_now exec_id m (process_of s l))
            (turn cfg h e t (calm now replay_now exec_id) m s)
    unfolding handle turn serve_replay
    turn-Follows issued m s l carried =
        let call : Call = record {
          now = replay_now;
          message_id = raw_trace_id m.body;
          issued_at = some issued;
        } in
        let v = (AuthorityModule.submit h call none s.replay.authority).0 in
        rw carried (
          verdict-Follows (is_valid v) m.body m.producer_public_key v (response_of v) (asked call s)
            l refl)
