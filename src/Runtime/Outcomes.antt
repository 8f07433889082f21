-- ===== src/Runtime/Outcomes.antt =====
-- runtime_core.py: the acknowledgement and the runtime hash, by the contract.
use qcg_task.Prelude.{
  String, ◌≡◌, refl, ap, ◌↔◌, ◌⊎◌, true, [], member, Result, ok, err, arith, inl, inr,
}
use qcg_task.Prelude.Int.{◌≤ℤ◌}
use qcg_task.Prelude.Json.{Json, Hashing, json_hash}
use qcg_task.Config.{Config, IsSane}
use qcg_task.Contract.{Contract, ContractError, validate_contract}
use qcg_task.Contract.Validity.{IsAcceptable, validate_contract_iff}
use qcg_task.Runtime.Defs.{ack_ok, Texts, is_accepted, ack_of, execute, path_seed, ack_text}

Result-cases :
    (r : Result ContractError (Unit {0})) → (r ≡ ok tt) ⊎ ((e : ContractError) × (r ≡ err e))
Result-cases (ok tt) = inl refl
Result-cases (err e) = inr (e, refl)

module _ (cfg : Config) (h : Hashing) (t : Texts) (head : String) (c : Contract) where
  accepted→fit :
      is_accepted (execute cfg h t head c).ack ≡ true
      → IsAcceptable h cfg.allowed_producer_types cfg.minimum_contract_version c
        × (cfg.corruption_threshold ≤ℤ c.confidence)
  unfolding execute
  accepted→fit a = elim (Result-cases (validate_contract cfg h [] "" c)) [
    | inl valid ↦ ((validate_contract_iff cfg h [] "" c).0 valid, ground arith)
    | inr (e, bad) ↦ absurd (ground arith)
  ]

  -- The core accepts a contract exactly when it is valid under the configured producer types and
  -- minimum version, and its confidence reaches the corruption threshold.
  pub execute_accepts_iff : (is_accepted (execute cfg h t head c).ack ≡ true) ↔ (
      IsAcceptable h cfg.allowed_producer_types cfg.minimum_contract_version c
      × (cfg.corruption_threshold ≤ℤ c.confidence))
  unfolding execute
  execute_accepts_iff =
      (accepted→fit, λ f. rw ((validate_contract_iff cfg h [] "" c).1 f.0) (ground arith))

  -- With the thresholds in order, the answer is ACK:OK exactly for a valid contract whose confidence
  -- reaches the confidence threshold.
  pub execute_ok_iff :
      IsSane cfg
      → (execute cfg h t head c).ack ≡ ack_ok ↔ (
          IsAcceptable h cfg.allowed_producer_types cfg.minimum_contract_version c
          × (cfg.confidence_threshold ≤ℤ c.confidence))
  unfolding execute
  execute_ok_iff s = (
    λ a. (
      (accepted→fit (unfold execute in rw a)).0,
      elim (Result-cases (validate_contract cfg h [] "" c)) [
        | inl valid ↦ ground arith
        | inr (e, bad) ↦ ground arith
      ],
    ),
    λ f. rw ((validate_contract_iff cfg h [] "" c).1 f.0) (ground arith),
  )

  -- Between two allowed producer types the core does not distinguish: the same contract under
  -- another type gets the same acknowledgement and the same runtime hash.
  pub execute_blind :
      (other : String)
      → member c.producer_type cfg.allowed_producer_types ≡ true
      → member other cfg.allowed_producer_types ≡ true
      → let c' = record c { producer_type = other } in
        ((execute cfg h t head c').ack ≡ (execute cfg h t head c).ack)
        × ((execute cfg h t head c').runtime_hash ≡ (execute cfg h t head c).runtime_hash)
  unfolding execute validate_contract
  execute_blind other allowed other_allowed =
      (rw (allowed, other_allowed), rw (allowed, other_allowed))

module _ (cfg : Config) (h : Hashing) (t : Texts) where
  -- the document that is hashed for a contract, with the head of the ledger
  abbrev pub seed_of : String → Contract → Json
  seed_of head c = path_seed t head c (ack_of cfg c (validate_contract cfg h [] "" c))

  -- Where the two hashed documents do not collide, runtime hashes are equal exactly if the payload
  -- hashes, the confidences, the acknowledgement texts and the ledger heads are.
  pub runtime_hash_binds :
      (head head' : String) (c c' : Contract)
      → (json_hash h (seed_of head c) ≡ json_hash h (seed_of head' c')
          → seed_of head c ≡ seed_of head' c')
      → ((execute cfg h t head c).runtime_hash ≡ (execute cfg h t head' c').runtime_hash) ↔ (
          (c.payload_hash ≡ c'.payload_hash)
          × (c.confidence ≡ c'.confidence)
          × (ack_text t (execute cfg h t head c).ack ≡ ack_text t (execute cfg h t head' c').ack)
          × (head ≡ head'))
  unfolding execute
  runtime_hash_binds head head' c c' no_collision = (
    λ e. let same = no_collision e in (cc same, cc same, cc same, cc same),
    λ same. ap (json_hash h) (cc (same.0, same.1, same.2, same.3)),
  )
