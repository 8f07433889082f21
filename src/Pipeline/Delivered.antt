-- ===== src/Pipeline/Delivered.antt =====
-- What an acknowledgement carries, and messages with white space at an end.
use qcg_task.Prelude.{
  ℕ, ◌+◌, String, ◌≡◌, ◌≢◌, refl, sym, ap, ◌∙◌, ◌⊎◌, inl, inr, true, false, [], ◌∷◌, eq_iff,
  equal_ℕ, arith, ok, Bool-cases,
}
use qcg_task.Prelude.Int.{ℤ}
use qcg_task.Prelude.Json.{Hashing}
use qcg_task.Config.{Config}
use qcg_task.Pipeline.Models.{
  Modes, Simulator, TransmissionRequest, QuantumDistribution, message_to_bits, strip, new_request,
  produced_for, run_quantum_producer,
}
use qcg_task.Pipeline.Translation.{
  ClassicalContract, TransmissionStatus, status_ok, status_degraded, status_rejected, Rounding,
  translate, translate_counts, contract_for, verify_bits, dominant_from, total_count,
}
use qcg_task.Pipeline.Transmit.{
  Acknowledgement, ack_ok, ack_degraded, is_accepted, status_ack, industrial_endpoint,
  QuantumGateway, Transmission, transmit,
}
use qcg_task.Pipeline.Accepted.{
  Passes, accepted→Passes, Passes-own, transmit_allowed, check_counts-ok, unless_rejected-ok,
  status_for_matched,
}

-- The acknowledgement is positive and carries the message.
abbrev pub Carries : String → Acknowledgement → Type 0
Carries message ack = (ack ≡ ack_ok message) ⊎ ((c : ℤ) × (ack ≡ ack_degraded message c))

status_ack-Carries :
    (s : TransmissionStatus) (c : ClassicalContract) (message : String)
    → c.transmission_status ≡ s
    → c.decoded_message ≡ message
    → is_accepted (status_ack c) ≡ true
    → Carries message (status_ack c)
status_ack-Carries status_ok c message at own acc = inl (rw (at, own) refl)
status_ack-Carries status_degraded c message at own acc = inr (c.confidence, rw (at, own) refl)
status_ack-Carries status_rejected c message at own acc = absurd (ground arith)

module _ (cfg : Config) (modes : Modes) (h : Hashing) (r : Rounding) (simulate : Simulator) where
  -- An accepted transmission was allowed by the limiter, made a valid request and a distribution that
  -- translates, and its trace identifier was new to the replay authority; the acknowledgement carries
  -- the message that was sent.
  pub accepted_delivers :
      (x : Transmission) (g : QuantumGateway)
      → is_accepted (transmit cfg modes h r simulate x g).0 ≡ true
      → Passes cfg modes h r simulate x g
        × Carries x.message (transmit cfg modes h r simulate x g).0
  unfolding industrial_endpoint
  accepted_delivers x g acc =
      let p = accepted→Passes cfg modes h r simulate x g acc in
      let c = p.contract in
      let same = (transmit_allowed cfg modes h r simulate x g acc).1 in
      let ack : (transmit cfg modes h r simulate x g).0 ≡ status_ack c =
        ap (λ (y : Acknowledgement × QuantumGateway). y.0) same
        ∙ (rw (p.requested, p.produced, p.translated, p.fresh) refl) in
      (
        p,
        rw ack (
            status_ack-Carries c.transmission_status c x.message refl
              (Passes-own cfg modes h r simulate x g p).1 (ap is_accepted (sym ack) ∙ acc)),
      )

  new_request-ok :
      (message : String) (noise : ℤ) (mode : String) (q : TransmissionRequest)
      → new_request cfg modes message noise mode ≡ ok q
      → (q.message ≡ strip message) × (q.noise ≡ noise)
  unfolding new_request
  new_request-ok message noise mode q e = (ground arith, ground arith)

  translate_single :
      (message bits : String) (seed : ℤ) (n : ℕ) (c : ClassicalContract)
      → translate_counts cfg modes h r message seed ((bits, n) ∷ []) ≡ ok c
      → bits ≡ message_to_bits h message
  unfolding dominant_from total_count
  translate_single message bits seed n c e =
      let x = contract_for cfg modes h r message seed bits n (n + 0) in
      elim (Bool-cases (equal_ℕ (n + 0) 0)) [
        | inl empty ↦ absurd (ground (arith, empty))
        | inr some_counts ↦
            let fit =
              (unless_rejected-ok cfg modes h r x.transmission_status x c
                (ground (arith, some_counts))).1 in
            let matched =
              (status_for_matched cfg modes h r n (n + 0) (verify_bits cfg modes h r bits message).1
                fit).0 in
            (eq_iff bits (message_to_bits h message)).0 matched
      ]

  -- Where the channel gives back the bits that were sent and nothing else, a message whose bits change
  -- when the white space at its ends is taken off is never accepted.
  pub padded_message_refused :
      (x : Transmission) (g : QuantumGateway) (n : ℕ)
      → let bits = message_to_bits h (strip x.message) in
        simulate bits x.noise cfg.shots x.seed ≡ (bits, n) ∷ []
        → bits ≢ message_to_bits h x.message
        → is_accepted (transmit cfg modes h r simulate x g).0 ≡ false
  unfolding run_quantum_producer translate
  padded_message_refused x g n clean differ =
      elim (Bool-cases (is_accepted (transmit cfg modes h r simulate x g).0)) [
        | inl acc ↦
            let p = accepted→Passes cfg modes h r simulate x g acc in
            let (same_message, same_noise) =
              new_request-ok x.message x.noise x.mode p.request p.requested in
            let made = produced_for cfg h simulate p.request x.seed in
            let counts : p.distribution.counts ≡ (message_to_bits h (strip x.message), n) ∷ [] =
              ap (λ (d : QuantumDistribution). d.counts)
                (sym (check_counts-ok made.counts made p.distribution p.produced))
              ∙ (rw (same_message, same_noise) clean) in
            absurd (
              differ (
                translate_single x.message (message_to_bits h (strip x.message)) p.distribution.seed
                  n p.contract
                  (ap (translate_counts cfg modes h r x.message p.distribution.seed) (sym counts)
                    ∙ p.translated)))
        | inr refused ↦ refused
      ]
