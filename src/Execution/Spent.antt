-- ===== src/Execution/Spent.antt =====
-- execution_process.py: messages that repeat a trace identifier.
use qcg_task.Prelude.{
  String, ◌≡◌, ◌≢◌, refl, sym, ap, ◌∙◌, Bool, true, false, Option, none, some, List, [], ◌∷◌, arith,
  Result, ok, err, Bool-cases, Option-cases, inl, inr,
}
use qcg_task.Prelude.Int.{ℤ}
use qcg_task.Prelude.Json.{Hashing}
use qcg_task.Config.{Config}
use qcg_task.Contract.{Contract, post_init}
use qcg_task.Runtime.{Texts}
use qcg_task.Replay.Registry as Registry
use qcg_task.Replay.Registry.{Call, ReplayRegistry, Status, valid, stale, duplicate, run_call}
use qcg_task.Replay.Registry.Decisions.{accepted_once}
use qcg_task.Replay.Authority.{ReplayVerdict, Authority, is_valid, submit}
use qcg_task.Replay.Authority.Verdicts.{is_valid-valid}
use qcg_task.Trust.Identity.{Ecdsa}
use qcg_task.Trust.Producers.Defs.{
  ProducerRegistry, RegisterError, producer_entry, verify_producer, VerificationFailure,
}
use qcg_task.Execution.Defs.{
  Body, fields, malformed, Message, Arrival, complete, incomplete, Answer, halt_replay, Executor,
  contact, after_trust, after_contact, trust_and_run, raw_trace_id, replay_check, handle, run_all,
}
use qcg_task.Execution.Executed.{run_contract-appends}

module _ (cfg : Config) (h : Hashing) (e : Ecdsa) (t : Texts) where
  after_trust-authority :
      (exec_id : String) (c : Contract) (v : ReplayVerdict) (s : Executor)
      (f : Option VerificationFailure) (a : Answer) (s' : Executor)
      → after_trust cfg h e t exec_id c v s f ≡ some (a, s')
      → s'.authority ≡ s.authority
  after_trust-authority exec_id c v s (some failure) a s' p = ground (arith, p)
  after_trust-authority exec_id c v s none a s' p =
      cc (run_contract-appends cfg h e t exec_id c v s, p)

  after_contact-authority :
      (exec_id : String) (c : Contract) (v : ReplayVerdict) (s : Executor)
      (k : Result RegisterError (Bool × ProducerRegistry)) (a : Answer) (s' : Executor)
      → after_contact cfg h e t exec_id c v s k ≡ some (a, s')
      → s'.authority ≡ s.authority
  after_contact-authority exec_id c v s (err failure) a s' p = absurd (ground (arith, p))
  after_contact-authority exec_id c v s (ok (false, trust)) a s' p = ground (arith, p)
  after_contact-authority exec_id c v s (ok (true, trust)) a s' p =
      after_trust-authority exec_id c v (record s { trust = trust })
        (verify_producer h e c trust).failure_mode a s' p

  body-authority :
      (exec_id : String) (body : Body) (key : String) (v : ReplayVerdict) (s : Executor)
      (a : Answer) (s' : Executor)
      → trust_and_run cfg h e t exec_id body key v s ≡ some (a, s')
      → s'.authority ≡ s.authority
  unfolding trust_and_run
  body-authority exec_id (malformed trace_id) key v s a s' p = ground (arith, p)
  body-authority exec_id (fields raw) key v s a s' p =
      after_contact-authority exec_id (post_init h raw) v s
        (contact (post_init h raw) key s.trust
          (producer_entry (post_init h raw).producer_id s.trust))
        a s' p

  handle-authority :
      (now : ℤ) (exec_id : String) (m : Message) (s : Executor) (a : Answer) (s' : Executor)
      → handle cfg h e t now exec_id m s ≡ some (a, s')
      → s'.authority ≡ (replay_check cfg h e t now m s).1
  unfolding handle
  handle-authority now exec_id m s a s' p =
      elim (Bool-cases (is_valid (replay_check cfg h e t now m s).0)) [
        | inl fresh ↦
            body-authority exec_id m.body m.producer_public_key (replay_check cfg h e t now m s).0
              (record s { authority = (replay_check cfg h e t now m s).1 }) a s' (cc (fresh, p))
        | inr repeated ↦ cc (repeated, p)
      ]

  -- the submissions that the messages make
  abbrev calls : List (ℤ × String × Arrival) → List Call
  calls [] = []
  calls ((now, exec_id, incomplete) ∷ rest) = calls rest
  calls ((now, exec_id, complete m) ∷ rest) =
      record { now = now; message_id = raw_trace_id m.body; issued_at = m.issued_at } ∷ calls rest

  run_all-registry :
      (turns : List (ℤ × String × Arrival)) (s : Executor) (answers : List Answer) (s' : Executor)
      → run_all cfg h e t turns s ≡ some (answers, s')
      → s'.authority.registry ≡ Registry.submit_all (calls turns) s.authority.registry
  unfolding run_all Registry.submit_all submit
  run_all-registry [] s answers s' p = cc p
  run_all-registry ((now, exec_id, incomplete) ∷ rest) s answers s' p = absurd (ground (arith, p))
  run_all-registry ((now, exec_id, complete m) ∷ rest) s answers s' p =
      elim (Option-cases (handle cfg h e t now exec_id m s)) [
        | inl ended ↦ absurd (ground (arith, ended, p))
        | inr ((a, s1), given) ↦ elim (Option-cases (run_all cfg h e t rest s1)) [
          | inl ended ↦ absurd (ground (arith, given, ended, p))
          | inr ((others, s2), later) ↦
              let last : s' ≡ s2 = ground (arith, given, later, p) in
              ap (λ (x : Executor). x.authority.registry) last
              ∙ (run_all-registry rest s1 others s2 later
                  ∙ ap (λ (x : Authority). Registry.submit_all (calls rest) x.registry)
                      (handle-authority now exec_id m s a s1 given))
        ]
      ]

  replay_check_repeats :
      (now : ℤ) (exec_id : String) (m : Message) (s : Executor)
      → (replay_check cfg h e t now m s).0.status ≢ valid
      → (s' : Executor) × (handle cfg h e t now exec_id m s
          ≡ some (halt_replay (replay_check cfg h e t now m s).0.status, s'))
  unfolding handle
  replay_check_repeats now exec_id m s repeated =
      elim (Bool-cases (is_valid (replay_check cfg h e t now m s).0)) [
        | inl fresh ↦ absurd (repeated (is_valid-valid (replay_check cfg h e t now m s).0 fresh))
        | inr other ↦ (record s { authority = (replay_check cfg h e t now m s).1 }, rw other refl)
      ]

  -- Once the authority has found a message's trace identifier valid, every later message with that
  -- identifier is answered by a replay halt, whatever comes in between. This holds as well when the
  -- first message was refused for its signature or its form: the identifier is spent all the same.
  pub trace_spent :
      (now : ℤ) (exec_id : String) (m : Message) (s : Executor) (a : Answer) (s1 : Executor)
      (turns : List (ℤ × String × Arrival)) (answers : List Answer) (s2 : Executor) (now' : ℤ)
      (exec_id' : String) (m' : Message)
      → handle cfg h e t now exec_id m s ≡ some (a, s1)
      → (replay_check cfg h e t now m s).0.status ≡ valid
      → run_all cfg h e t turns s1 ≡ some (answers, s2)
      → raw_trace_id m'.body ≡ raw_trace_id m.body
      → (status : Status) × (s3 : Executor) × (handle cfg h e t now' exec_id' m' s2
          ≡ some (halt_replay status, s3))
  unfolding submit
  trace_spent now exec_id m s a s1 turns answers s2 now' exec_id' m' first fresh between same =
      let final =
        Registry.submit_all (calls turns)
          (Registry.submit now (raw_trace_id m.body) m.issued_at s.authority.registry).1 in
      let known : s2.authority.registry ≡ final =
        run_all-registry turns s1 answers s2 between
        ∙ ap (λ (x : Authority). Registry.submit_all (calls turns) x.registry)
            (handle-authority now exec_id m s a s1 first) in
      let once =
        accepted_once now (raw_trace_id m.body) m.issued_at s.authority.registry (calls turns) now'
          m'.issued_at fresh in
      let repeated : (replay_check cfg h e t now' m' s2).0.status ≢ valid = λ v.
        let here : (Registry.submit now' (raw_trace_id m.body) m'.issued_at final).0.status
            ≡ valid =
          ap (λ id. (Registry.submit now' id m'.issued_at final).0.status) (sym same)
          ∙ (sym (
                ap (λ r. (Registry.submit now' (raw_trace_id m'.body) m'.issued_at r).0.status)
                  known)
              ∙ v) in
        ground (arith, here, once) in
      let halted = replay_check_repeats now' exec_id' m' s2 repeated in
      ((replay_check cfg h e t now' m' s2).0.status, halted.0, halted.1)
