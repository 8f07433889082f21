-- ===== src/Execution/Recorded.antt =====
-- execution_process.py with provenance_api.py: the records that the loop writes.
use mathlib.Core.Path.{subst}
use qcg_task.Prelude.{
  String, ◌≡◌, inl, inr, Bool, true, false, Option, none, some, List, [], ◌∷◌, eq_refl, arith, ok,
  err, Result, Bool-cases, Option-cases, All, All-append,
}
use qcg_task.Prelude.Int.{ℤ}
use qcg_task.Prelude.Json.{Hashing}
use qcg_task.Config.{Config}
use qcg_task.Contract.{Contract, post_init}
use qcg_task.Runtime.{Texts, execute}
use qcg_task.Replay.Registry.{ReplayRegistry}
use qcg_task.Replay.Authority.{ReplayVerdict, is_valid}
use qcg_task.Ledger.{ExecutionRecord}
use qcg_task.Ledger.Provenance.{verify_execution}
use qcg_task.Trust.Identity.{Ecdsa}
use qcg_task.Trust.Producers.Defs.{
  ProducerRegistry, producer_entry, verify_producer, VerificationFailure, RegisterError,
}
use qcg_task.Execution.Defs.{
  Body, fields, malformed, Message, Arrival, complete, incomplete, Answer, Executor, contact,
  record_of, run_contract, after_trust, after_contact, trust_and_run, replay_check, handle, run_all,
  start,
}
use qcg_task.Execution.Executed.{run_contract-appends}

module _ (cfg : Config) (h : Hashing) (e : Ecdsa) (t : Texts) where
  abbrev AreVerified : Executor → Type 0
  AreVerified s = All (λ (r : ExecutionRecord). verify_execution h r ≡ true) s.ledger.records

  -- What a turn leaves, if it ends at all.
  abbrev Leaves : Option (Answer × Executor) → Type 0
  Leaves none = Unit
  Leaves (some (answer, s)) = AreVerified s

  run_contract-Leaves :
      (exec_id : String) (c : Contract) (v : ReplayVerdict) (s : Executor)
      → AreVerified s
      → Leaves (run_contract cfg h e t exec_id c v s)
  unfolding verify_execution
  run_contract-Leaves exec_id c v s verified =
      let result = execute cfg h t "" c in
      let rec : ExecutionRecord = record_of cfg h e t exec_id c v result s.ledger in
      rw (run_contract-appends cfg h e t exec_id c v s) (
        All-append (λ (r : ExecutionRecord). verify_execution h r ≡ true) s.ledger.records
          (rec ∷ []) verified (eq_refl rec.execution_hash, tt))

  after_trust-Leaves :
      (exec_id : String) (c : Contract) (v : ReplayVerdict) (s : Executor)
      (f : Option VerificationFailure)
      → AreVerified s
      → Leaves (after_trust cfg h e t exec_id c v s f)
  after_trust-Leaves exec_id c v s (some failure) verified = verified
  after_trust-Leaves exec_id c v s none verified = run_contract-Leaves exec_id c v s verified

  after_contact-Leaves :
      (exec_id : String) (c : Contract) (v : ReplayVerdict) (s : Executor)
      (k : Result RegisterError (Bool × ProducerRegistry))
      → AreVerified s
      → Leaves (after_contact cfg h e t exec_id c v s k)
  after_contact-Leaves exec_id c v s (err failure) verified = tt
  after_contact-Leaves exec_id c v s (ok (false, trust)) verified = verified
  after_contact-Leaves exec_id c v s (ok (true, trust)) verified =
      after_trust-Leaves exec_id c v (record s { trust = trust })
        (verify_producer h e c trust).failure_mode verified

  trust_and_run-Leaves :
      (exec_id : String) (body : Body) (key : String) (v : ReplayVerdict) (s : Executor)
      → AreVerified s
      → Leaves (trust_and_run cfg h e t exec_id body key v s)
  unfolding trust_and_run
  trust_and_run-Leaves exec_id (malformed trace_id) key v s verified = verified
  trust_and_run-Leaves exec_id (fields raw) key v s verified =
      let c = post_init h raw in
      after_contact-Leaves exec_id c v s
        (contact c key s.trust (producer_entry c.producer_id s.trust)) verified

  handle-Leaves :
      (now : ℤ) (exec_id : String) (m : Message) (s : Executor)
      → AreVerified s
      → Leaves (handle cfg h e t now exec_id m s)
  unfolding handle
  handle-Leaves now exec_id m s verified =
      let v = (replay_check cfg h e t now m s).0 in
      let s' : Executor = record s { authority = (replay_check cfg h e t now m s).1 } in
      elim (Bool-cases (is_valid v)) [
        | inl fresh ↦
            rw fresh (trust_and_run-Leaves exec_id m.body m.producer_public_key v s' verified)
        | inr repeated ↦ rw repeated verified
      ]

  run_all-AreVerified :
      (turns : List (ℤ × String × Arrival)) (s after : Executor) (answers : List Answer)
      → AreVerified s
      → run_all cfg h e t turns s ≡ some (answers, after)
      → AreVerified after
  unfolding run_all
  run_all-AreVerified [] s after answers verified done =
      let same : s ≡ after = cc done in subst AreVerified same verified
  run_all-AreVerified ((now, exec_id, incomplete) ∷ rest) s after answers verified done =
      absurd (ground (arith, done))
  run_all-AreVerified ((now, exec_id, complete m) ∷ rest) s after answers verified done =
      elim (Option-cases (handle cfg h e t now exec_id m s)) [
        | inl ended ↦ absurd (ground (arith, ended))
        | inr ((answer, s'), turn) ↦
            let left : AreVerified s' =
              subst Leaves turn (handle-Leaves now exec_id m s verified) in
            elim (Option-cases (run_all cfg h e t rest s')) [
              | inl ended ↦ absurd (ground (arith, turn, ended))
              | inr ((others, s''), more) ↦
                  let whole : AreVerified s'' = run_all-AreVerified rest s' s'' others left more in
                  let same : s'' ≡ after = ground (arith, turn, more) in
                  subst AreVerified same whole
            ]
      ]

  -- Every record that the loop has written when it ends, whatever messages it was given, passes
  -- `verify_execution`.
  pub run_all-verify_execution :
      (registry : ReplayRegistry) (trust : ProducerRegistry) (turns : List (ℤ × String × Arrival))
      (answers : List Answer) (after : Executor)
      → run_all cfg h e t turns (start h registry trust) ≡ some (answers, after)
      → All (λ (r : ExecutionRecord). verify_execution h r ≡ true) after.ledger.records
  run_all-verify_execution registry trust turns answers after done =
      run_all-AreVerified turns (start h registry trust) after answers tt done
