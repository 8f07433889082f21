-- ===== src/Pipeline/Once.antt =====
-- The same message under the same seed, transmitted again.
use qcg_task.Prelude.{
  String, ◌≡◌, refl, sym, ap, ◌∙◌, inl, inr, true, false, none, some, List, [], ◌∷◌, arith, Result,
  ok, err, Bool-cases,
}
use qcg_task.Prelude.Dict.{lookup}
use qcg_task.Prelude.Int.{ℤ}
use qcg_task.Prelude.Json.{Hashing}
use qcg_task.Config.{Config}
use qcg_task.Replay.Registry.{RegistryEntry, valid, Call}
use qcg_task.Replay.Registry.Decisions.{lookup-submit, submit-valid}
use qcg_task.Replay.Authority.{Authority, ReplayVerdict, submit, is_valid}
use qcg_task.Gateway.Limiter.Defs.{allow}
use qcg_task.Pipeline.Models.{
  Modes, InputError, Simulator, TransmissionRequest, QuantumDistribution, new_request,
  run_quantum_producer,
}
use qcg_task.Pipeline.Translation.{ClassicalContract, TranslationError, Rounding, translate}
use qcg_task.Pipeline.Transmit.{
  Acknowledgement, is_accepted, submission, industrial_endpoint, QuantumGateway, Transmission,
  deliver, route, run_request, transmit, transmit_all,
}
use qcg_task.Pipeline.Accepted.{own_trace, accepted→Passes, Passes-own, transmit_allowed}

-- The authority's registry has an entry for the identifier.
abbrev pub Knows : String → Authority → Type 0
Knows id a = (e : RegistryEntry) × (lookup id a.registry.entries ≡ some e)

is_valid-status : (v : ReplayVerdict) → is_valid v ≡ true → v.status ≡ valid
unfolding is_valid
is_valid-status v h = ground (arith, h)

module _ (h : Hashing) where
  submit-Knows :
      (c : Call) (t : String) (id : String) (a : Authority)
      → Knows id a
      → Knows id (submit h c (some t) a).1
  unfolding submit
  submit-Knows c t id a (e, known) = (e, lookup-submit c id a.registry e known)

  -- A valid verdict is for an identifier that was not known, and then is.
  submit_valid :
      (c : Call) (t : String) (a : Authority)
      → is_valid (submit h c (some t) a).0 ≡ true
      → (lookup c.message_id a.registry.entries ≡ none)
        × Knows c.message_id (submit h c (some t) a).1
  unfolding submit
  submit_valid c t a v =
      let entered =
        submit-valid c.now c.message_id c.issued_at a.registry
          (is_valid-status (submit h c (some t) a).0 v) in
      (entered.0, (_, entered.3))

module _ (cfg : Config) (modes : Modes) (h : Hashing) (r : Rounding) (simulate : Simulator) where
  deliver-Knows :
      (id : String) (now : ℤ) (res : Result TranslationError ClassicalContract) (a : Authority)
      → Knows id a
      → Knows id (deliver cfg modes h r simulate now res a).1
  unfolding industrial_endpoint
  deliver-Knows id now (err e) a k = k
  deliver-Knows id now (ok c) a k = submit-Knows h (submission now c) c.trace_id id a k

  route-Knows :
      (id : String) (x : Transmission) (res : Result InputError QuantumDistribution) (a : Authority)
      → Knows id a
      → Knows id (route cfg modes h r simulate x res a).1
  route-Knows id x (err e) a k = k
  route-Knows id x (ok d) a k = deliver-Knows id x.now (translate cfg modes h r d x.message) a k

  run_request-Knows :
      (id : String) (x : Transmission) (res : Result InputError TransmissionRequest) (a : Authority)
      → Knows id a
      → Knows id (run_request cfg modes h r simulate x res a).1
  run_request-Knows id x (err e) a k = k
  run_request-Knows id x (ok q) a k =
      route-Knows id x (run_quantum_producer cfg h simulate q x.seed) a k

  transmit-Knows :
      (id : String) (x : Transmission) (g : QuantumGateway)
      → Knows id g.replay_authority
      → Knows id (transmit cfg modes h r simulate x g).1.replay_authority
  unfolding transmit
  transmit-Knows id x g k = elim (Bool-cases (allow x.tick g.rate_limiter).0) [
    | inl yes_it ↦ rw yes_it (
        run_request-Knows id x (new_request cfg modes x.message x.noise x.mode) g.replay_authority
          k)
    | inr not_it ↦ rw not_it k
  ]

  transmit_all-Knows :
      (id : String) (xs : List Transmission) (g : QuantumGateway)
      → Knows id g.replay_authority
      → Knows id (transmit_all cfg modes h r simulate xs g).replay_authority
  unfolding transmit_all
  transmit_all-Knows id [] g k = k
  transmit_all-Knows id (x ∷ xs) g k =
      transmit_all-Knows id xs (transmit cfg modes h r simulate x g).1 (transmit-Knows id x g k)

  -- What was accepted is known.
  accepted-Knows :
      (x : Transmission) (g : QuantumGateway)
      → is_accepted (transmit cfg modes h r simulate x g).0 ≡ true
      → Knows
          (own_trace cfg modes h r x.message x.seed)
          (transmit cfg modes h r simulate x g).1.replay_authority
  unfolding industrial_endpoint
  accepted-Knows x g acc =
      let p = accepted→Passes cfg modes h r simulate x g acc in
      let same = (transmit_allowed cfg modes h r simulate x g acc).1 in
      let c = p.contract in
      let after : (transmit cfg modes h r simulate x g).1.replay_authority
          ≡ (submit h (submission x.now c) (some c.trace_id) g.replay_authority).1 =
        ap (λ (y : Acknowledgement × QuantumGateway). y.1.replay_authority) same
        ∙ (rw (p.requested, p.produced, p.translated) refl) in
      rw (after, sym (Passes-own cfg modes h r simulate x g p).0)
        (submit_valid h (submission x.now c) c.trace_id g.replay_authority p.fresh).1

  -- Once a message has been accepted under a seed, then after any transmissions the same message
  -- under that seed is not accepted again, whatever its noise and its mode.
  pub accepted_message_once :
      (x : Transmission) (g : QuantumGateway) (xs : List Transmission) (again : Transmission)
      → is_accepted (transmit cfg modes h r simulate x g).0 ≡ true
      → again.message ≡ x.message
      → again.seed ≡ x.seed
      → let later =
          transmit_all cfg modes h r simulate xs (transmit cfg modes h r simulate x g).1 in
        is_accepted (transmit cfg modes h r simulate again later).0 ≡ false
  accepted_message_once x g xs again acc message seed =
      let later = transmit_all cfg modes h r simulate xs (transmit cfg modes h r simulate x g).1 in
      let id = own_trace cfg modes h r x.message x.seed in
      let (e, known) =
        transmit_all-Knows id xs (transmit cfg modes h r simulate x g).1 (accepted-Knows x g acc) in
      elim (Bool-cases (is_accepted (transmit cfg modes h r simulate again later).0)) [
        | inl twice ↦
            let p = accepted→Passes cfg modes h r simulate again later twice in
            let own = (Passes-own cfg modes h r simulate again later p).0 in
            let new =
              (submit_valid h (submission again.now p.contract) p.contract.trace_id
                later.replay_authority p.fresh).0 in
            absurd (cc (own, message, seed, known, new))
        | inr refused ↦ refused
      ]
