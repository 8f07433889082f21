-- ===== src/Execution/Executed.antt =====
-- execution_process.py: what a message has passed when its contract is executed.
use qcg_task.Prelude.{
  String, ◌≡◌, refl, Bool, true, false, Option, none, some, [], ◌∷◌, eq_iff, eq_refl, arith, Result,
  ok, err, Bool-cases, inl, inr,
}
use qcg_task.Prelude.Int.{ℤ}
use qcg_task.Prelude.Dict.{lookup-insert_self}
use qcg_task.Prelude.Json.{Hashing}
use qcg_task.Config.{Config}
use qcg_task.Contract.{Contract, post_init}
use qcg_task.Runtime.{ExecutionResult, Texts, execute}
use qcg_task.Replay.Registry.{valid}
use qcg_task.Replay.Authority.{ReplayVerdict, is_valid}
use qcg_task.Replay.Authority.Verdicts.{is_valid-valid}
use qcg_task.Ledger.{
  ExecutionRecord, EvidenceLedger, LedgerSnapshot, append, extend_chain, get_snapshot,
}
use qcg_task.Trust.Identity.{Ecdsa}
use qcg_task.Trust.Producers.Defs.{
  ProducerRegistry, ProducerEntry, RegisterError, register_producer, producer_entry,
  verify_producer, VerificationFailure,
}
use qcg_task.Trust.Producers.Trusted.{IsTrusted, verify_producer_iff}
use qcg_task.Execution.Defs.{
  Body, fields, malformed, Message, executed, Executor, first_identity, contact, record_of,
  run_contract, after_trust, after_contact, trust_and_run, replay_check, handle,
}

-- The key that a contact agrees on is the one under which the producer is then registered.
unfoldable pub IsKnown : Contract → String → ProducerRegistry → Type 0
IsKnown c key trust =
    (entry : ProducerEntry) × (producer_entry c.producer_id trust ≡ some entry)
    × (entry.identity.public_key ≡ key)

pub contact-IsKnown :
    (c : Contract) (key : String) (trust trust' : ProducerRegistry) (found : Option ProducerEntry)
    → producer_entry c.producer_id trust ≡ found
    → contact c key trust found ≡ ok (true, trust')
    → IsKnown c key trust'
unfolding IsKnown producer_entry register_producer
contact-IsKnown c key trust trust' (some entry) known p =
    (entry, ground (arith, known), (eq_iff entry.identity.public_key key).0 (ground arith))
contact-IsKnown c key trust trust' none unknown p =
    let entry : ProducerEntry = record {
      identity = first_identity c key;
      allowed_types = c.producer_type ∷ [];
    } in
    (entry, ground (arith, lookup-insert_self c.producer_id entry trust.registry), refl)

module _ (cfg : Config) (h : Hashing) (e : Ecdsa) (t : Texts) where
  -- The record of an execution carries the ledger's head, so that the ledger takes it.
  pub run_contract-appends :
      (exec_id : String) (c : Contract) (v : ReplayVerdict) (s : Executor)
      → let result = execute cfg h t "" c in
        let rec : ExecutionRecord = record_of cfg h e t exec_id c v result s.ledger in
        let ledger : EvidenceLedger = extend_chain h rec s.ledger in
        run_contract cfg h e t exec_id c v s
        ≡ some (executed result rec (get_snapshot h ledger), record s { ledger = ledger })
  unfolding run_contract append
  run_contract-appends exec_id c v s = ground (arith, eq_refl s.ledger.current_head)

  after_trust-executed :
      (exec_id : String) (c : Contract) (v : ReplayVerdict) (s : Executor)
      (f : Option VerificationFailure) (result : ExecutionResult) (rec : ExecutionRecord)
      (snapshot : LedgerSnapshot) (s' : Executor)
      → after_trust cfg h e t exec_id c v s f ≡ some (executed result rec snapshot, s')
      → (f ≡ none) × (result ≡ execute cfg h t "" c) × (s'.trust ≡ s.trust)
  after_trust-executed exec_id c v s (some failure) result rec snapshot s' p = absurd (ground arith)
  after_trust-executed exec_id c v s none result rec snapshot s' p =
      let ran = run_contract-appends exec_id c v s in (refl, cc (ran, p), cc (ran, p))

  after_contact-executed :
      (exec_id : String) (c : Contract) (v : ReplayVerdict) (s : Executor)
      (k : Result RegisterError (Bool × ProducerRegistry)) (result : ExecutionResult)
      (rec : ExecutionRecord) (snapshot : LedgerSnapshot) (s' : Executor)
      → after_contact cfg h e t exec_id c v s k ≡ some (executed result rec snapshot, s')
      → (k ≡ ok (true, s'.trust))
        × ((verify_producer h e c s'.trust).failure_mode ≡ none)
        × (result ≡ execute cfg h t "" c)
  after_contact-executed exec_id c v s (err failure) result rec snapshot s' p =
      absurd (ground arith)
  after_contact-executed exec_id c v s (ok (false, trust)) result rec snapshot s' p =
      absurd (ground arith)
  after_contact-executed exec_id c v s (ok (true, trust)) result rec snapshot s' p =
      let ran =
        after_trust-executed exec_id c v (record s { trust = trust })
          (verify_producer h e c trust).failure_mode result rec snapshot s' p in
      (cc (ran.2), rw ran.2 ran.0, ran.1)

  -- What an executed body has passed: its contract passes the verification of its producer, whose
  -- registered key is the message's, and the result is the core's.
  pub record HasPassed (body : Body) (key : String) (s' : Executor) (result : ExecutionResult)
      : Type 0 where
    pub raw : Contract
    pub carried : body ≡ fields raw
    pub trusted : IsTrusted h e (post_init h raw) s'.trust
    pub same_key : trusted.entry.identity.public_key ≡ key
    pub computed : result ≡ execute cfg h t "" (post_init h raw)

  trust_and_run-executed :
      (exec_id : String) (body : Body) (key : String) (v : ReplayVerdict) (s : Executor)
      (result : ExecutionResult) (rec : ExecutionRecord) (snapshot : LedgerSnapshot) (s' : Executor)
      → trust_and_run cfg h e t exec_id body key v s ≡ some (executed result rec snapshot, s')
      → HasPassed body key s' result
  unfolding trust_and_run IsKnown
  trust_and_run-executed exec_id (malformed trace_id) key v s result rec snapshot s' p =
      absurd (ground arith)
  trust_and_run-executed exec_id (fields raw) key v s result rec snapshot s' p =
      let c = post_init h raw in
      let ran =
        after_contact-executed exec_id c v s
          (contact c key s.trust (producer_entry c.producer_id s.trust)) result rec snapshot s' p in
      let known =
        contact-IsKnown c key s.trust s'.trust (producer_entry c.producer_id s.trust) refl ran.0 in
      let trusted = (verify_producer_iff h e c s'.trust).0 ran.1 in
      record {
        raw = raw;
        carried = refl;
        trusted = trusted;
        same_key = cc (trusted.listed, known.1, known.2);
        computed = ran.2;
      }

  -- When a message is executed, the authority has found it valid, its contract passes the
  -- verification of its producer under the state that is left, the producer's registered key is the
  -- one that the message carries, and the result is the core's for this contract.
  pub handle-executed :
      (now : ℤ) (exec_id : String) (m : Message) (s : Executor) (result : ExecutionResult)
      (rec : ExecutionRecord) (snapshot : LedgerSnapshot) (s' : Executor)
      → handle cfg h e t now exec_id m s ≡ some (executed result rec snapshot, s')
      → ((replay_check cfg h e t now m s).0.status ≡ valid)
        × HasPassed m.body m.producer_public_key s' result
  unfolding handle is_valid
  handle-executed now exec_id m s result rec snapshot s' p =
      elim (Bool-cases (is_valid (replay_check cfg h e t now m s).0)) [
        | inl fresh ↦ (
          is_valid-valid (replay_check cfg h e t now m s).0 fresh,
          trust_and_run-executed exec_id m.body m.producer_public_key
              (replay_check cfg h e t now m s).0
              (record s { authority = (replay_check cfg h e t now m s).1 }) result rec snapshot s'
              (cc (fresh, p)),
        )
        | inr repeated ↦ absurd (ground (arith, repeated, p))
      ]
