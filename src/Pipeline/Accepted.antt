-- ===== src/Pipeline/Accepted.antt =====
-- What an accepted transmission has passed, and its repetition.
use qcg_task.Prelude.{
  ℕ, ◌+◌, String, ◌≡◌, ◌≢◌, refl, sym, ap, ◌∙◌, inl, inr, Bool, true, false, some, [], ◌∷◌, eq_iff,
  equal_ℕ, arith, Result, ok, err, Bool-cases,
}
use qcg_task.Prelude.Dict.{Dict}
use qcg_task.Prelude.Int.{ℤ, pos, leb_ℤ}
use qcg_task.Prelude.Json.{Hashing}
use qcg_task.Config.{Config}
use qcg_task.Replay.Authority.{Authority, submit, is_valid}
use qcg_task.Gateway.Limiter.Defs.{allow}
use qcg_task.Pipeline.Models.{
  Modes, InputError, Simulator, TransmissionRequest, QuantumDistribution, message_to_bits,
  new_request, run_quantum_producer, check_counts, produced_for,
}
use qcg_task.Pipeline.Translation.{
  ClassicalContract, TransmissionStatus, status_ok, status_degraded, status_rejected, status_for,
  is_below, TranslationError, contract_rejected, no_counts, division_by_zero, Rounding, translate,
  translate_counts, contract_for, unless_rejected, trace_of, verify_bits, dominant_from,
  total_count,
}
use qcg_task.Pipeline.Transmit.{
  Acknowledgement, is_accepted, submission, industrial_endpoint, QuantumGateway, Transmission,
  deliver, route, run_request, transmit,
}

pub check_counts-ok :
    (counts : Dict ℕ) (d d' : QuantumDistribution) → check_counts counts d ≡ ok d' → d ≡ d'
check_counts-ok [] d d' e = absurd (cc e)
check_counts-ok (x ∷ counts) d d' e = elim (Bool-cases (leb_ℤ d.shots (pos 0))) [
  | inl few ↦ absurd (ground (arith, few))
  | inr some_shots ↦ ground (arith, some_shots)
]

module _ (cfg : Config) (modes : Modes) (h : Hashing) (r : Rounding) where
  -- the identifier of a message that arrives with its own bits
  abbrev pub own_trace : String → ℤ → String
  own_trace message seed = trace_of cfg modes h r message seed (message_to_bits h message)

  pub unless_rejected-ok :
      (s : TransmissionStatus) (x c : ClassicalContract)
      → unless_rejected cfg modes h r s x ≡ ok c
      → (x ≡ c) × (s ≢ status_rejected)
  unless_rejected-ok status_ok x c e = (cc e, λ z. cc z)
  unless_rejected-ok status_degraded x c e = (cc e, λ z. cc z)
  unless_rejected-ok status_rejected x c e = absurd (cc e)

  pub status_for_matched :
      (count total : ℕ) (is_match : Bool)
      → status_for cfg count total is_match ≢ status_rejected
      → (is_match ≡ true) × (is_below count total cfg.corruption_threshold ≡ false)
  unfolding status_for
  status_for_matched count total is_match fit = ground arith

  -- A contract that is not rejected is the one of the message's own bits.
  contract_for_own :
      (message bits : String) (seed : ℤ) (count total : ℕ) (c : ClassicalContract)
      → let x = contract_for cfg modes h r message seed bits count total in
        unless_rejected cfg modes h r x.transmission_status x ≡ ok c
        → (c.trace_id ≡ own_trace message seed) × (c.decoded_message ≡ message)
  contract_for_own message bits seed count total c translated =
      let x = contract_for cfg modes h r message seed bits count total in
      let (same, fit) = unless_rejected-ok x.transmission_status x c translated in
      let matched =
        (status_for_matched count total (verify_bits cfg modes h r bits message).1 fit).0 in
      let own = (eq_iff bits (message_to_bits h message)).0 matched in
      (
        ap (λ (y : ClassicalContract). y.trace_id) (sym same)
            ∙ ap (λ b. trace_of cfg modes h r message seed b) own,
        ap (λ (y : ClassicalContract). y.decoded_message) (sym same) ∙ rw matched refl,
      )

  translate_counts_own :
      (message : String) (seed : ℤ) (counts : Dict ℕ) (c : ClassicalContract)
      → translate_counts cfg modes h r message seed counts ≡ ok c
      → (c.trace_id ≡ own_trace message seed) × (c.decoded_message ≡ message)
  translate_counts_own message seed [] c e = absurd (cc e)
  translate_counts_own message seed ((k, n) ∷ rest) c e =
      elim (Bool-cases (equal_ℕ (n + total_count rest) 0)) [
        | inl empty ↦ absurd (ground (arith, empty))
        | inr some_counts ↦
            contract_for_own message (dominant_from k n rest).0 seed (dominant_from k n rest).1
              (n + total_count rest) c (ground (arith, some_counts))
      ]

module _ (cfg : Config) (modes : Modes) (h : Hashing) (r : Rounding) (simulate : Simulator) where
  -- Every check on the way of a transmission to its endpoint has passed.
  pub record Passes (x : Transmission) (g : QuantumGateway) : Type 0 where
    pub request : TransmissionRequest
    pub distribution : QuantumDistribution
    pub contract : ClassicalContract
    pub is_allowed : (allow x.tick g.rate_limiter).0 ≡ true
    pub requested : new_request cfg modes x.message x.noise x.mode ≡ ok request
    pub produced : run_quantum_producer cfg h simulate request x.seed ≡ ok distribution
    pub translated : translate cfg modes h r distribution x.message ≡ ok contract
    pub fresh :
        is_valid
          (submit h (submission x.now contract) (some contract.trace_id) g.replay_authority).0
        ≡ true

  deliver-Passes :
      (now : ℤ) (res : Result TranslationError ClassicalContract) (a : Authority)
      → is_accepted (deliver cfg modes h r simulate now res a).0 ≡ true
      → (c : ClassicalContract) × (res ≡ ok c)
        × (is_valid (submit h (submission now c) (some c.trace_id) a).0 ≡ true)
  unfolding industrial_endpoint
  deliver-Passes now (err (contract_rejected c)) a acc = absurd (cc acc)
  deliver-Passes now (err no_counts) a acc = absurd (cc acc)
  deliver-Passes now (err division_by_zero) a acc = absurd (cc acc)
  deliver-Passes now (ok c) a acc = (c, refl, ground arith)

  route-Passes :
      (x : Transmission) (res : Result InputError QuantumDistribution) (a : Authority)
      → is_accepted (route cfg modes h r simulate x res a).0 ≡ true
      → (d : QuantumDistribution) × (res ≡ ok d)
        × (is_accepted
              (deliver cfg modes h r simulate x.now (translate cfg modes h r d x.message) a).0
            ≡ true)
  route-Passes x (err e) a acc = absurd (cc acc)
  route-Passes x (ok d) a acc = (d, refl, acc)

  run_request-Passes :
      (x : Transmission) (res : Result InputError TransmissionRequest) (a : Authority)
      → is_accepted (run_request cfg modes h r simulate x res a).0 ≡ true
      → (q : TransmissionRequest) × (res ≡ ok q)
        × (is_accepted
              (route cfg modes h r simulate x (run_quantum_producer cfg h simulate q x.seed) a).0
            ≡ true)
  run_request-Passes x (err e) a acc = absurd (cc acc)
  run_request-Passes x (ok q) a acc = (q, refl, acc)

  pub transmit_allowed :
      (x : Transmission) (g : QuantumGateway)
      → is_accepted (transmit cfg modes h r simulate x g).0 ≡ true
      → ((allow x.tick g.rate_limiter).0 ≡ true)
        × (transmit cfg modes h r simulate x g ≡ (
            let (ack, authority) =
              run_request cfg modes h r simulate x
                (new_request cfg modes x.message x.noise x.mode)
                g.replay_authority in
            (
              ack,
              record {
                replay_authority = authority;
                rate_limiter = (allow x.tick g.rate_limiter).1;
              },
            )))
  unfolding transmit
  transmit_allowed x g acc = elim (Bool-cases (allow x.tick g.rate_limiter).0) [
    | inl yes_it ↦ (yes_it, rw yes_it refl)
    | inr not_it ↦ absurd (ground (arith, not_it))
  ]

  pub accepted→Passes :
      (x : Transmission) (g : QuantumGateway)
      → is_accepted (transmit cfg modes h r simulate x g).0 ≡ true
      → Passes x g
  accepted→Passes x g acc =
      let (allowed, same) = transmit_allowed x g acc in
      let a = g.replay_authority in
      let (q, requested, routed) =
        run_request-Passes x (new_request cfg modes x.message x.noise x.mode) a
          (ap (λ (y : Acknowledgement × QuantumGateway). is_accepted y.0) (sym same) ∙ acc) in
      let (d, produced, delivered) =
        route-Passes x (run_quantum_producer cfg h simulate q x.seed) a routed in
      let (c, translated, fresh) =
        deliver-Passes x.now (translate cfg modes h r d x.message) a delivered in
      record {
        request = q;
        distribution = d;
        contract = c;
        is_allowed = allowed;
        requested = requested;
        produced = produced;
        translated = translated;
        fresh = fresh;
      }

  -- The trace identifier of the contract that has passed is made from the message, the seed and the
  -- bits of the message, and the contract carries the message.
  pub Passes-own :
      (x : Transmission) (g : QuantumGateway) (p : Passes x g)
      → (p.contract.trace_id ≡ own_trace cfg modes h r x.message x.seed)
        × (p.contract.decoded_message ≡ x.message)
  unfolding translate run_quantum_producer
  Passes-own x g p =
      let d = p.distribution in
      let own =
        translate_counts_own cfg modes h r x.message d.seed d.counts p.contract p.translated in
      let seed : d.seed ≡ x.seed =
        ap (λ (y : QuantumDistribution). y.seed)
          (sym (
            check_counts-ok (produced_for cfg h simulate p.request x.seed).counts
              (produced_for cfg h simulate p.request x.seed) d p.produced)) in
      (own.0 ∙ ap (own_trace cfg modes h r x.message) seed, own.1)
