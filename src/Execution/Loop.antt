-- ===== src/Execution/Loop.antt =====
-- execution_process.py: the loop of `run` over any sequence of messages, its answers and its ledger.
use qcg_task.Prelude.{
  map, ◌++◌, Option-cases, String, ◌≡◌, refl, sym, Bool, true, false, Option, none, some, List, [],
  ◌∷◌, ◌==◌, eq_refl, arith, ok, Bool-cases, inl, inr, length,
}
use mathlib.Core.Path.{subst}
use qcg_task.Prelude.Dict.{insert}
use qcg_task.Prelude.Int.{ℤ}
use qcg_task.Prelude.Json.{Hashing}
use qcg_task.Config.{Config}
use qcg_task.Contract.{Contract, post_init}
use qcg_task.Runtime.{Texts, execute}
use qcg_task.Replay.Registry.{ReplayRegistry}
use qcg_task.Replay.Authority.{ReplayVerdict, is_valid}
use qcg_task.Ledger.{
  ExecutionRecord, EvidenceLedger, append, extend_chain, get_snapshot, verify_chain, or_keep,
}
use qcg_task.Ledger.Integrity.{IsSound, append-IsSound, empty_ledger-IsSound}
use qcg_task.Trust.Identity.{Ecdsa, NodeIdentity}
use qcg_task.Trust.Producers.Defs.{
  ProducerRegistry, ProducerEntry, register_producer, save, types_or, producer_entry,
  verify_producer, VerificationFailure,
}
use qcg_task.Execution.Defs.{
  Body, fields, malformed, Message, Arrival, complete, incomplete, receive, Answer, executed,
  halt_untrusted, halt_key_mismatch, halt_invalid_contract, halt_replay, Executor, first_identity,
  contact, record_of, run_contract, after_trust, after_contact, trust_and_run, replay_check, handle,
  run_all, start,
}
use qcg_task.Execution.Executed.{run_contract-appends}

register_unrevoked :
    (identity : NodeIdentity) (allowed : Option (List String)) (trust : ProducerRegistry)
    → trust.revoked_keys ≡ []
    → (trust' : ProducerRegistry) × (register_producer identity allowed trust ≡ ok trust')
      × (trust'.revoked_keys ≡ [])
unfolding register_producer
register_unrevoked identity allowed trust p = (
  save (record trust {
    registry =
        insert identity.node_id
          (record { identity = identity; allowed_types = types_or identity allowed })
          trust.registry;
  }),
  rw p refl,
  p,
)

contact_new :
    (c : Contract) (key : String) (trust trust' : ProducerRegistry)
    → register_producer (first_identity c key) (some (c.producer_type ∷ [])) trust ≡ ok trust'
    → contact c key trust none ≡ ok (true, trust')
contact_new c key trust trust' p = ground (arith, p)

-- what arrives for messages that have the keys
abbrev pub arrivals : List (ℤ × String × Message) → List (ℤ × String × Arrival)
arrivals = map (λ (x : ℤ × String × Message). (x.0, x.1, complete x.2))

module _ (cfg : Config) (h : Hashing) (e : Ecdsa) (t : Texts) where
  -- No key is revoked, which the loop never does, and the ledger is sound.
  record IsReady (s : Executor) : Type 0 where
    unrevoked : s.trust.revoked_keys ≡ []
    sound : IsSound h s.ledger

  record Answers (turn : Option (Answer × Executor)) : Type 0 where
    answer : Answer
    after : Executor
    given : turn ≡ some (answer, after)
    ready : IsReady after

  run_contract-Answers :
      (exec_id : String) (c : Contract) (v : ReplayVerdict) (s : Executor)
      → IsReady s
      → Answers (run_contract cfg h e t exec_id c v s)
  unfolding append
  run_contract-Answers exec_id c v s r =
      let result = execute cfg h t "" c in
      let rec : ExecutionRecord = record_of cfg h e t exec_id c v result s.ledger in
      let ledger : EvidenceLedger = extend_chain h rec s.ledger in
      let taken : or_keep s.ledger (append h rec s.ledger) ≡ ledger =
        ground (arith, eq_refl s.ledger.current_head) in
      record {
        answer = executed result rec (get_snapshot h ledger);
        after = record s { ledger = ledger };
        given = run_contract-appends cfg h e t exec_id c v s;
        ready = record {
          unrevoked = r.unrevoked;
          sound = subst (IsSound h) taken (append-IsSound h rec s.ledger r.sound);
        };
      }

  after_trust-Answers :
      (exec_id : String) (c : Contract) (v : ReplayVerdict) (s : Executor)
      (f : Option VerificationFailure)
      → IsReady s
      → Answers (after_trust cfg h e t exec_id c v s f)
  after_trust-Answers exec_id c v s (some failure) r = record {
    answer = halt_untrusted failure;
    after = s;
    given = refl;
    ready = r;
  }
  after_trust-Answers exec_id c v s none r = run_contract-Answers exec_id c v s r

  after_contact-Answers :
      (exec_id : String) (c : Contract) (v : ReplayVerdict) (s : Executor) (same : Bool)
      (trust : ProducerRegistry)
      → IsReady s
      → trust.revoked_keys ≡ []
      → Answers (after_contact cfg h e t exec_id c v s (ok (same, trust)))
  after_contact-Answers exec_id c v s false trust r unrevoked = record {
    answer = halt_key_mismatch;
    after = s;
    given = refl;
    ready = r;
  }
  after_contact-Answers exec_id c v s true trust r unrevoked =
      after_trust-Answers exec_id c v (record s { trust = trust })
        (verify_producer h e c trust).failure_mode
        (record { unrevoked = unrevoked; sound = r.sound })

  contact-Answers :
      (exec_id : String) (c : Contract) (v : ReplayVerdict) (s : Executor) (key : String)
      (found : Option ProducerEntry)
      → IsReady s
      → Answers (after_contact cfg h e t exec_id c v s (contact c key s.trust found))
  contact-Answers exec_id c v s key (some entry) r =
      after_contact-Answers exec_id c v s (entry.identity.public_key == key) s.trust r r.unrevoked
  contact-Answers exec_id c v s key none r =
      let (trust, registered, unrevoked) =
        register_unrevoked (first_identity c key) (some (c.producer_type ∷ [])) s.trust
          r.unrevoked in
      subst (λ k. Answers (after_contact cfg h e t exec_id c v s k))
        (sym (contact_new c key s.trust trust registered))
        (after_contact-Answers exec_id c v s true trust r unrevoked)

  body-Answers :
      (exec_id : String) (body : Body) (key : String) (v : ReplayVerdict) (s : Executor)
      → IsReady s
      → Answers (trust_and_run cfg h e t exec_id body key v s)
  unfolding trust_and_run
  body-Answers exec_id (malformed trace_id) key v s r = record {
    answer = halt_invalid_contract;
    after = s;
    given = refl;
    ready = r;
  }
  body-Answers exec_id (fields raw) key v s r =
      contact-Answers exec_id (post_init h raw) v s key
        (producer_entry (post_init h raw).producer_id s.trust) r

  handle-Answers :
      (now : ℤ) (exec_id : String) (m : Message) (s : Executor)
      → IsReady s
      → Answers (handle cfg h e t now exec_id m s)
  unfolding handle
  handle-Answers now exec_id m s r =
      let v = (replay_check cfg h e t now m s).0 in
      let s' : Executor = record s { authority = (replay_check cfg h e t now m s).1 } in
      let r' : IsReady s' = record { unrevoked = r.unrevoked; sound = r.sound } in
      elim (Bool-cases (is_valid v)) [
        | inl fresh ↦ rw fresh (body-Answers exec_id m.body m.producer_public_key v s' r')
        | inr repeated ↦
            rw repeated
              (record { answer = halt_replay v.status; after = s'; given = refl; ready = r' })
      ]

  run_all_answers :
      (turns : List (ℤ × String × Message)) (s : Executor)
      → IsReady s
      → (answers : List Answer) × (after : Executor) × (run_all cfg h e t (arrivals turns) s
          ≡ some (answers, after))
        × (length answers ≡ length turns)
        × IsReady after
  unfolding run_all
  run_all_answers [] s r = ([], s, refl, refl, r)
  run_all_answers ((now, exec_id, m) ∷ rest) s r =
      let turn = handle-Answers now exec_id m s r in
      let (answers, after, given, counted, ready) = run_all_answers rest turn.after turn.ready in
      (turn.answer ∷ answers, after, ground (arith, turn.given, given), cc counted, ready)

  run_all_ends :
      (before more : List (ℤ × String × Arrival)) (now : ℤ) (exec_id : String) (s : Executor)
      → run_all cfg h e t (before ++ (now, exec_id, incomplete) ∷ more) s ≡ none
  unfolding run_all
  run_all_ends [] more now exec_id s = refl
  run_all_ends ((now', exec_id', m) ∷ before) more now exec_id s =
      elim (Option-cases (receive cfg h e t now' exec_id' m s)) [
        | inl ended ↦ ground (arith, ended)
        | inr ((answer, s'), turn) ↦ ground (arith, turn, run_all_ends before more now exec_id s')
      ]

  -- Messages that have a contract with its trace identifier and the producer's key, the fields of the
  -- contracts being of their declared types: over a trust registry without revoked keys the loop
  -- answers every one of them, and the ledger that it leaves verifies. A message without one of the
  -- three, wherever it stands among messages of both kinds, ends the loop by an exception.
  pub run_all_total :
      (registry : ReplayRegistry) (trust : ProducerRegistry) (turns : List (ℤ × String × Message))
      (before more : List (ℤ × String × Arrival)) (now : ℤ) (exec_id : String)
      → trust.revoked_keys ≡ []
      → ((answers : List Answer) × (after : Executor) × (run_all cfg h e t
              (arrivals turns)
              (start h registry trust)
            ≡ some (answers, after))
          × (length answers ≡ length turns)
          × (verify_chain h after.ledger ≡ some true))
        × (run_all cfg h e t (before ++ (now, exec_id, incomplete) ∷ more) (start h registry trust)
            ≡ none)
  unfolding verify_chain
  run_all_total registry trust turns before more now exec_id unrevoked =
      let (answers, after, given, counted, ready) =
        run_all_answers turns (start h registry trust)
          (record { unrevoked = unrevoked; sound = empty_ledger-IsSound h }) in
      (
        (answers, after, given, counted, ready.sound.chained),
        run_all_ends before more now exec_id (start h registry trust),
      )
