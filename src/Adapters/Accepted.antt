-- ===== src/Adapters/Accepted.antt =====
-- What the core does with adapted contracts.
use Prim.Native.String.{◌++◌ as join}
use qcg_task.Prelude.{
  String, ◌≡◌, ◌≢◌, refl, ap, ◌↔◌, ◌⊎◌, inl, inr, true, some, List, [], ◌∷◌, member, arith, ok,
  Bool-cases,
}
use qcg_task.Prelude.Int.{ℤ, pos, leb_ℤ, ◌≤ℤ◌}
use qcg_task.Prelude.Json.{
  get_field, Json, text, fraction, arr, obj, field, done, Items, Fields, Hashing, json_hash,
}
use qcg_task.Config.{Config, one}
use qcg_task.Contract.{Contract, post_init, is_filled_dict}
use qcg_task.Contract.Validity.{IsAcceptable, IsCurrent}
use qcg_task.Runtime.{Texts, is_accepted, execute}
use qcg_task.Runtime.Outcomes.{execute_accepts_iff}
use qcg_task.Pipeline.Models.{Modes, QuantumDistribution}
use qcg_task.Pipeline.Translation.{ClassicalContract, Rounding, translate}
use qcg_task.Adapters.Values.{
  AdapterTrace, given, number_of, in_range, or_empty, metadata_keys, quantum_payload,
  quantum_constraints, join_parts, hybrid_payload,
}
use qcg_task.Adapters.Defs.{
  adapted, quantum_contract, quantum_result, deterministic_trace_id, adapt_quantum, adapt_classical,
  classical_contract, hybrid_contract, adapt_hybrid,
}
use qcg_task.Adapters.Rounding.{IsFaithful, translate-InRange}

-- The version that the adapters write is current, and an identifier is not empty.
pub record IsReady (cfg : Config) (h : Hashing) : Type 0 where
  pub current : IsCurrent cfg.execution_contract_version cfg.minimum_contract_version
  pub named : (s : String) → h.uuid5 s ≢ ""
  pub positive : pos 0 ≤ℤ cfg.corruption_threshold

module _ (cfg : Config) (modes : Modes) (h : Hashing) (r : Rounding) (write : Json → String) where
  abbrev pub Fit : Contract → Type 0
  Fit c = IsAcceptable h cfg.allowed_producer_types cfg.minimum_contract_version c

  adapted-Fit :
      IsReady cfg h
      → (type : String) (payload : Json) (confidence : ℤ) (label : String) (parts : List String)
        (constraints : Json) (timestamp : String)
      → member type cfg.allowed_producer_types ≡ true
      → is_filled_dict payload ≡ true
      → (pos 0 ≤ℤ confidence) × (confidence ≤ℤ one)
      → timestamp ≢ ""
      → Fit (
          adapted cfg modes h r write type payload confidence
            (deterministic_trace_id cfg modes h r write label parts)
            constraints
            timestamp)
  unfolding post_init
  adapted-Fit ready type payload confidence label parts constraints timestamp allowed filled range
        stamped =
      record {
        authorized = allowed;
        filled = filled;
        confidence_low = range.0;
        confidence_high = range.1;
        traced = ready.named (join label (join ":" (join_parts parts)));
        current = ready.current;
        intact = refl;
        stamped = stamped;
      }

  -- A distribution that translates is adapted to a contract that the core accepts, and the record of
  -- the adaptation has the hash of its payload; this asks that the type QUANTUM is allowed, that the
  -- settings are in order, that rounding keeps to the thresholds and that there is a time stamp.
  pub adapt_quantum_accepted :
      IsReady cfg h
      → IsFaithful r
      → member "QUANTUM" cfg.allowed_producer_types ≡ true
      → (t : Texts) (head : String) (d : QuantumDistribution) (message timestamp : String)
      → timestamp ≢ ""
      → (c : ClassicalContract) → translate cfg modes h r d message ≡ ok c
      → (out : Contract × AdapterTrace) × (adapt_quantum cfg modes h r write d message timestamp
          ≡ ok out)
        × (is_accepted (execute cfg h t head out.0).ack ≡ true)
        × (out.1.output_hash ≡ json_hash h out.0.payload)
  unfolding adapt_quantum post_init is_filled_dict
  adapt_quantum_accepted ready faithful allowed t head d message timestamp stamped c translated =
      let out = quantum_contract cfg modes h r write d message timestamp c in
      let (range, above) =
        translate-InRange cfg modes h r faithful ready.positive d message c translated in
      (
        out,
        ap (quantum_result cfg modes h r write d message timestamp) translated,
        (execute_accepts_iff cfg h t head out.0).1 (
          adapted-Fit ready "QUANTUM" (quantum_payload c) c.confidence "quantum"
              (message
                ∷ r.write_seed d.seed
                ∷ d.encoded_bits
                ∷ write (fraction d.noise_factor)
                ∷ [])
              (quantum_constraints d) timestamp allowed refl range stamped,
          above,
        ),
        refl,
      )

  -- An input with a result, a confidence in [0, 1] and metadata that is a dictionary or counts as
  -- false is adapted to a contract that the core accepts exactly if the confidence reaches the
  -- corruption threshold; this asks that the type CLASSICAL is allowed, that the settings are in
  -- order and that there is a time stamp.
  pub adapt_classical_accepts_iff :
      IsReady cfg h
      → member "CLASSICAL" cfg.allowed_producer_types ≡ true
      → (t : Texts) (head : String) (fs : Fields) (timestamp : String) → timestamp ≢ ""
      → (result value : Json) (confidence : ℤ) (keys : Items)
      → given (get_field "result" fs) ≡ some result
      → given (get_field "confidence" fs) ≡ some value
      → number_of value ≡ some confidence
      → in_range confidence ≡ true
      → metadata_keys (or_empty (get_field "metadata" fs)) ≡ ok keys
      → (out : Contract × AdapterTrace) × (adapt_classical cfg modes h r write (obj fs) timestamp
          ≡ ok out)
        × ((is_accepted (execute cfg h t head out.0).ack ≡ true)
            ↔ (cfg.corruption_threshold ≤ℤ confidence))
  unfolding adapt_classical post_init is_filled_dict
  adapt_classical_accepts_iff ready allowed t head fs timestamp stamped result value confidence keys
        has_result has_value read range has_keys =
      let out =
        classical_contract cfg modes h r write fs timestamp result (value, confidence)
          (or_empty (get_field "metadata" fs)) keys in
      let accepts = execute_accepts_iff cfg h t head out.0 in
      let fit : Fit out.0 =
        adapted-Fit ready "CLASSICAL"
          (obj (field "result" result (field "metadata" (or_empty (get_field "metadata" fs)) done)))
          confidence "classical" (h.dumps result ∷ write value ∷ [])
          (obj (
            field "source" (text "classical_optimisation") (field "metadata_keys" (arr keys) done)))
          timestamp allowed refl (ground arith) stamped in
      (
        out,
        rw (has_result, has_value, read, range, has_keys) refl,
        (λ accepted. (accepts.0 accepted).1, λ above. accepts.1 (fit, above)),
      )

  hybrid_contract-Fit :
      IsReady cfg h
      → member "HYBRID" cfg.allowed_producer_types ≡ true
      → (p s : Contract) (timestamp : String) → timestamp ≢ ""
      → Fit p
      → Fit (hybrid_contract cfg modes h r write p s timestamp)
  unfolding post_init is_filled_dict
  hybrid_contract-Fit ready allowed p s timestamp stamped fit =
      adapted-Fit ready "HYBRID" (hybrid_payload p s) p.confidence "hybrid"
        (p.trace_id ∷ s.trace_id ∷ [])
        (obj (
          field "primary_constraints" p.execution_constraints (
            field "secondary_constraints" s.execution_constraints
              (field "merge_strategy" (text "confidence_weighted") done))))
        timestamp allowed refl (fit.confidence_low, fit.confidence_high) stamped

  hybrid_accepts :
      IsReady cfg h
      → member "HYBRID" cfg.allowed_producer_types ≡ true
      → (t : Texts) (head : String) (p s : Contract) (timestamp : String) → timestamp ≢ ""
      → Fit p
      → (is_accepted (execute cfg h t head (hybrid_contract cfg modes h r write p s timestamp)).ack
          ≡ true)
        ↔ (cfg.corruption_threshold ≤ℤ p.confidence)
  unfolding post_init
  hybrid_accepts ready allowed t head p s timestamp stamped fit =
      let x = hybrid_contract cfg modes h r write p s timestamp in
      let accepts = execute_accepts_iff cfg h t head x in
      (
        λ accepted. (accepts.0 accepted).1,
        λ above. accepts.1 (hybrid_contract-Fit ready allowed p s timestamp stamped fit, above),
      )

  -- The merge of two contracts that pass validation is accepted by the core exactly if one of the
  -- two is, for any head of the ledger, and its confidence is that of one of the two and below
  -- neither; this asks that the type HYBRID is allowed, that the settings are in order and that
  -- there is a time stamp.
  pub adapt_hybrid_accepts_iff :
      IsReady cfg h
      → member "HYBRID" cfg.allowed_producer_types ≡ true
      → (t : Texts) (head : String) (q c : Contract) (timestamp : String) → timestamp ≢ ""
      → Fit q
      → Fit c
      → let x = (adapt_hybrid cfg modes h r write q c timestamp).0 in
        ((is_accepted (execute cfg h t head x).ack ≡ true) ↔ (
          (is_accepted (execute cfg h t head q).ack ≡ true)
          ⊎ (is_accepted (execute cfg h t head c).ack ≡ true)))
        × (q.confidence ≤ℤ x.confidence)
        × (c.confidence ≤ℤ x.confidence)
        × ((x.confidence ≡ q.confidence) ⊎ (x.confidence ≡ c.confidence))
  unfolding adapt_hybrid post_init
  adapt_hybrid_accepts_iff ready allowed t head q c timestamp stamped fit_q fit_c =
      let of_q = execute_accepts_iff cfg h t head q in
      let of_c = execute_accepts_iff cfg h t head c in
      elim (Bool-cases (leb_ℤ c.confidence q.confidence)) [
        | inl quantum ↦
            let own = hybrid_accepts ready allowed t head q c timestamp stamped fit_q in
            rw quantum (
              (
                λ accepted. inl (of_q.1 (fit_q, own.0 accepted)),
                λ either. elim either [
                  | inl a ↦ own.1 (of_q.0 a).1
                  | inr a ↦ own.1 (ground (arith, quantum, (of_c.0 a).1))
                ],
              ),
              ground arith,
              ground (arith, quantum),
              inl refl,
            )
        | inr classical ↦
            let own = hybrid_accepts ready allowed t head c q timestamp stamped fit_c in
            rw classical (
              (
                λ accepted. inr (of_c.1 (fit_c, own.0 accepted)),
                λ either. elim either [
                  | inl a ↦ own.1 (ground (arith, classical, (of_q.0 a).1))
                  | inr a ↦ own.1 (of_c.0 a).1
                ],
              ),
              ground (arith, classical),
              ground arith,
              inr refl,
            )
      ]
