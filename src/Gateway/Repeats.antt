-- ===== src/Gateway/Repeats.antt =====
-- Repeated messages at a receiver without and with a capacity.
use qcg_task.Prelude.{◌≡◌, ◌≢◌, refl, sym, ap, ◌∙◌, true, false, none, some, List, [], ◌∷◌, arith}
use qcg_task.Prelude.Int.{ℤ, pos, ◌<ℤ◌, ◌≤ℤ◌, ltb_ℤ, ◌-ℤ◌, int_laws}
use qcg_task.Prelude.Dict.{lookup, contains}
use qcg_task.Prelude.Json.{Hashing}
use qcg_task.Communication.{TranslationContract, halt_replay_detected, resolve_transport_status}
use qcg_task.Replay.Registry as Registry
use qcg_task.Replay.Registry.{valid, stale, duplicate, Status, Call, ReplayRegistry, run_call}
use qcg_task.Replay.Registry.Decisions.{accepted_once, submit_decides}
use qcg_task.Replay.Authority.{Authority, submit, is_valid, ReplayVerdict}
use qcg_task.Gateway.Defs.{Receiver, receive, make_room, submission, is_full, answer}

answer_fresh :
    (t : TranslationContract) (v : ReplayVerdict)
    → v.status ≡ valid
    → answer t v ≡ resolve_transport_status t.translation_status t.confidence
unfolding answer is_valid
answer_fresh t v s = rw s refl

answer_repeat :
    (t : TranslationContract) (v : ReplayVerdict)
    → v.status ≢ valid
    → answer t v ≡ halt_replay_detected
unfolding answer is_valid
answer_repeat t v s = ground arith

answer_passed :
    (t : TranslationContract) (v : ReplayVerdict)
    → answer t v ≢ halt_replay_detected
    → v.status ≡ valid
unfolding answer is_valid
answer_passed t v s = ground arith

module _ (h : Hashing) where
  -- the receiver after a sequence of messages
  unfoldable pub receive_all : List (ℤ × TranslationContract) → Receiver → Receiver
  receive_all [] r = r
  receive_all ((now, t) ∷ rest) r = receive_all rest (receive h now t r).1

  abbrev calls : List (ℤ × TranslationContract) → List Call
  calls [] = []
  calls ((now, t) ∷ rest) = submission now t ∷ calls rest

  receive-registry :
      (now : ℤ) (t : TranslationContract) (r : Receiver)
      → r.capacity ≡ none
      → ((receive h now t r).1.authority.registry
          ≡ (run_call (submission now t) r.authority.registry).1)
        × ((receive h now t r).1.capacity ≡ none)
  unfolding receive submit
  receive-registry now t r c = (rw c refl, c)

  receive_all-registry :
      (ts : List (ℤ × TranslationContract)) (r : Receiver)
      → r.capacity ≡ none
      → ((receive_all ts r).authority.registry
          ≡ Registry.submit_all (calls ts) r.authority.registry)
        × ((receive_all ts r).capacity ≡ none)
  unfolding receive_all Registry.submit_all
  receive_all-registry [] r c = (refl, c)
  receive_all-registry ((now, t) ∷ ts) r c =
      let step = receive-registry now t r c in
      let rest = receive_all-registry ts (receive h now t r).1 step.1 in
      (rest.0 ∙ ap (Registry.submit_all (calls ts)) step.0, rest.1)

  -- What the receiver asks its authority, and the answer for the decision.
  decision : ℤ → TranslationContract → Receiver → Status
  decision now t r = (run_call (submission now t) (make_room r).registry).0.status

  receive_fresh :
      (now : ℤ) (t : TranslationContract) (r : Receiver)
      → decision now t r ≡ valid
      → (receive h now t r).0.transport_status
        ≡ resolve_transport_status t.translation_status t.confidence
  unfolding receive submit decision
  receive_fresh now t r d =
      answer_fresh t (submit h (submission now t) (some t.trace_reference) (make_room r)).0 d

  receive_repeat :
      (now : ℤ) (t : TranslationContract) (r : Receiver)
      → decision now t r ≢ valid
      → (receive h now t r).0.transport_status ≡ halt_replay_detected
  unfolding receive submit decision
  receive_repeat now t r d =
      answer_repeat t (submit h (submission now t) (some t.trace_reference) (make_room r)).0 d

  receive_passed :
      (now : ℤ) (t : TranslationContract) (r : Receiver)
      → (receive h now t r).0.transport_status ≢ halt_replay_detected
      → decision now t r ≡ valid
  unfolding receive submit decision
  receive_passed now t r p =
      answer_passed t (submit h (submission now t) (some t.trace_reference) (make_room r)).0 p

  decision_uncapped :
      (now : ℤ) (t : TranslationContract) (r : Receiver)
      → r.capacity ≡ none
      → decision now t r ≡ (run_call (submission now t) r.authority.registry).0.status
  unfolding decision
  decision_uncapped now t r c = rw c refl

  -- A receiver without a capacity that has let a message through answers HALT:REPLAY_DETECTED to
  -- every later message with its identifier, whatever it receives in between.
  pub passed_once :
      (now : ℤ) (t : TranslationContract) (r : Receiver) (between : List (ℤ × TranslationContract))
      (now' : ℤ) (t' : TranslationContract)
      → r.capacity ≡ none
      → t'.message_id ≡ t.message_id
      → (receive h now t r).0.transport_status ≢ halt_replay_detected
      → (receive h now' t' (receive_all between (receive h now t r).1)).0.transport_status
        ≡ halt_replay_detected
  passed_once now t r between now' t' c same passed =
      let first = sym (decision_uncapped now t r c) ∙ receive_passed now t r passed in
      let after = receive-registry now t r c in
      let later = receive_all-registry between (receive h now t r).1 after.1 in
      let final = receive_all between (receive h now t r).1 in
      let known = later.0 ∙ ap (Registry.submit_all (calls between)) after.0 in
      let end =
        Registry.submit_all (calls between) (run_call (submission now t) r.authority.registry).1 in
      receive_repeat now' t' final (λ v.
        let here : (Registry.submit now' t.message_id none end).0.status ≡ valid =
          ap (λ id. (Registry.submit now' id none end).0.status) (sym same)
          ∙ (sym (ap (λ registry. (run_call (submission now' t') registry).0.status) known)
              ∙ (sym (decision_uncapped now' t' final later.1) ∙ v)) in
        ground (
          arith,
          here,
          accepted_once now t.message_id none r.authority.registry (calls between) now' none first,
        ))

  make_room_full :
      (r : Receiver)
      → is_full r ≡ true
      → make_room r ≡ record r.authority { registry = Registry.reset r.authority.registry }
  make_room_full r full = ground (arith, full)

  decision_full :
      (now : ℤ) (t : TranslationContract) (r : Receiver)
      → is_full r ≡ true
      → decision now t r
        ≡ (run_call (submission now t) (Registry.reset r.authority.registry)).0.status
  unfolding decision
  decision_full now t r full =
      ap (λ (a : Authority). (run_call (submission now t) (a.registry)).0.status)
        (make_room_full r full)

  -- A full receiver answers any message, one that it has let through before as well, as a new one:
  -- its registry is emptied first. The largest gap is positive and the TTL is not negative.
  pub full_receiver_forgets :
      (now : ℤ) (t : TranslationContract) (r : Receiver)
      → is_full r ≡ true
      → pos 0 <ℤ r.authority.registry.max_gap
      → pos 0 ≤ℤ r.authority.registry.ttl
      → (receive h now t r).0.transport_status
        ≡ resolve_transport_status t.translation_status t.confidence
  unfolding contains lookup Registry.reset
  full_receiver_forgets now t r full gap ttl =
      let fresh = submit_decides now t.message_id none (Registry.reset r.authority.registry) gap in
      let young : ltb_ℤ r.authority.registry.ttl (now -ℤ now) ≡ false = grind int_laws in
      receive_fresh now t r (decision_full now t r full ∙ (fresh ∙ rw young refl))
