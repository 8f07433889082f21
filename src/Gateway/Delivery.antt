-- ===== src/Gateway/Delivery.antt =====
-- Which messages the gateway accepts.
use qcg_task.Prelude.{ℕ, String, ◌≡◌, ◌↔◌, refl, true, none, some, arith, Bool-cases, inl, inr, ◌⊎◌}
use qcg_task.Prelude.Int.{ℤ, ◌≤ℤ◌}
use qcg_task.Prelude.Json.{Hashing}
use qcg_task.Config.{Config}
use qcg_task.Communication.{
  CommunicationRequest, accepted_status, resolve_translation_status, resolve_transport_status,
}
use qcg_task.Replay.Registry.{valid}
use qcg_task.Replay.Authority.{submit, is_valid, ReplayVerdict}
use qcg_task.Replay.Authority.Verdicts.{is_valid-valid, valid-is_valid}
use qcg_task.Gateway.Limiter.Defs.{allow}
use qcg_task.Gateway.Defs.{Gateway, receive, send, make_room, submission, translate_request}

-- A confidence is answered with an acceptance exactly when it reaches one of the two thresholds.
resolves_iff :
    (cfg : Config) (c : ℤ)
    → (accepted_status (resolve_transport_status (resolve_translation_status cfg c none none) c)
        ≡ true)
      ↔ ((cfg.confidence_threshold ≤ℤ c) ⊎ (cfg.corruption_threshold ≤ℤ c))
unfolding resolve_translation_status
resolves_iff cfg c = (λ p. ground arith, λ b. ground arith)

module _ (h : Hashing) (cfg : Config) (tick : ℕ) (now : ℤ) where
  -- the verdict that the receiver asks for
  abbrev pub judged : CommunicationRequest → Gateway → ReplayVerdict
  judged q g =
      (submit h (submission now (translate_request h cfg q)) (some q.trace_reference)
        (make_room g.receiver)).0

  -- The gateway accepts a request exactly when the limiter allows it, the receiver's authority finds
  -- it valid, and its confidence reaches one of the two thresholds.
  pub send_accepts_iff :
      (q : CommunicationRequest) (g : Gateway)
      → (accepted_status (send h cfg tick now q g).0.acknowledgement.transport_status ≡ true) ↔ (
          ((allow tick g.limiter).0 ≡ true)
          × ((judged q g).status ≡ valid)
          × ((cfg.confidence_threshold ≤ℤ q.confidence)
              ⊎ (cfg.corruption_threshold ≤ℤ q.confidence)))
  unfolding send receive resolve_translation_status is_valid
  send_accepts_iff q g = (
    λ p. (
      ground arith,
      is_valid-valid (judged q g) (ground arith),
      (resolves_iff cfg q.confidence).0 (ground arith),
    ),
    λ (a, v, c). rw (a, valid-is_valid (judged q g) v) ((resolves_iff cfg q.confidence).1 c),
  )

  -- The declared source and destination do not matter: a request that differs in them alone gets the
  -- same acknowledgement and leaves the gateway in the same state.
  pub send_blind :
      (q : CommunicationRequest) (source destination : String) (g : Gateway)
      → let other : CommunicationRequest = record q {
        source_type = source;
        destination_type = destination;
      } in
        ((send h cfg tick now other g).0.acknowledgement
          ≡ (send h cfg tick now q g).0.acknowledgement)
        × ((send h cfg tick now other g).1 ≡ (send h cfg tick now q g).1)
  unfolding send receive
  send_blind q source destination g = elim (Bool-cases (allow tick g.limiter).0) [
    | inl allowed ↦ rw allowed (refl, refl)
    | inr refused ↦ rw refused (refl, refl)
  ]
