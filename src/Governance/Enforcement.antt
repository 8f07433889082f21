-- ===== src/Governance/Enforcement.antt =====
-- What a contract has passed when the layer's answer is an acceptance, in either mode.
use qcg_task.Prelude.{
  String, ◌≡◌, refl, Bool, true, false, Option, none, some, List, [], ◌∷◌, ◌++◌, arith, member,
  Result, ok, err, if◌then◌else◌,
}
use qcg_task.Prelude.Int.{◌≤ℤ◌}
use qcg_task.Prelude.Json.{Hashing}
use qcg_task.Config.{Config}
use qcg_task.Contract.{
  Contract, ContractError, Version, earlier, parse_semver, validate_contract, allowed_or,
  minimum_or,
}
use qcg_task.Contract.Validity.{IsAcceptable, IsCurrent, validate_contract_iff}
use qcg_task.Runtime.{Ack, Texts, is_accepted, ack_text, execute}
use qcg_task.Runtime.Outcomes.{execute_accepts_iff}
use qcg_task.Governance.Defs.{
  Violation, GovernanceLayer, Finding, apply_policies, policies, version_finding, finding_of,
  conclude, enforce, version_policy, observed,
}

-- No finding's acknowledgement is an acceptance.
HaltsOnly : Finding → Type 0
HaltsOnly none = Unit
HaltsOnly (some (v, ack)) = is_accepted ack ≡ false

AllHalt : List Finding → Type 0
unfolding HaltsOnly
AllHalt [] = Unit
AllHalt (f ∷ fs) = HaltsOnly f × AllHalt fs

HaltsOnly-if :
    (b : Bool) (v : Violation) (ack : Ack)
    → is_accepted ack ≡ false
    → HaltsOnly (if b then some (v, ack) else none) × HaltsOnly (if b then none else some (v, ack))
unfolding HaltsOnly
HaltsOnly-if true v ack e = (e, tt)
HaltsOnly-if false v ack e = (tt, e)

version_finding-HaltsOnly :
    (g : GovernanceLayer) (c : Contract) (v w : Option Version)
    → HaltsOnly (version_finding g c v w)
unfolding HaltsOnly
version_finding-HaltsOnly g c none w = refl
version_finding-HaltsOnly g c (some v) none = refl
version_finding-HaltsOnly g c (some v) (some w) = (HaltsOnly-if (earlier v w) _ _ refl).0

finding_of-HaltsOnly :
    (c : Contract) (r : Result ContractError (Unit {0})) → HaltsOnly (finding_of c r)
unfolding HaltsOnly
finding_of-HaltsOnly c (ok u) = tt
finding_of-HaltsOnly c (err e) = refl

policies-AllHalt :
    (cfg : Config) (h : Hashing) (g : GovernanceLayer) (c : Contract) → AllHalt (policies cfg h g c)
unfolding AllHalt
policies-AllHalt cfg h g c = (
  (HaltsOnly-if (member c.producer_type g.allowed_producers) _ _ refl).1,
  (
    version_finding-HaltsOnly g c (parse_semver c.contract_version)
        (parse_semver g.minimum_version),
    (finding_of-HaltsOnly c (validate_contract cfg h g.allowed_producers g.minimum_version c), tt),
  ),
)

apply_policies-halts :
    (strict : Bool) (fs : List Finding) (vs : List Violation) (ack : Ack)
    → AllHalt fs
    → (apply_policies strict fs vs).0 ≡ some ack
    → is_accepted ack ≡ false
unfolding apply_policies AllHalt
apply_policies-halts strict [] vs ack h e = cc
apply_policies-halts strict (none ∷ fs) vs ack h e = apply_policies-halts strict fs vs ack h.1 e
apply_policies-halts true (some (v, a) ∷ fs) vs ack h e = ground arith
apply_policies-halts false (some (v, a) ∷ fs) vs ack h e =
    apply_policies-halts false fs (vs ++ v ∷ []) ack h.1 e

-- In strict mode the policies let a contract through exactly when none of them finds anything.
strict_through :
    (p q r : Finding)
    → (apply_policies true (p ∷ q ∷ r ∷ []) []).0 ≡ none
    → (p ≡ none) × (q ≡ none) × (r ≡ none)
unfolding apply_policies
strict_through none none none e = (refl, refl, refl)
strict_through (some (v, a)) q r e = cc
strict_through none (some (v, a)) r e = cc
strict_through none none (some (v, a)) e = cc

conclude-accepted :
    (cfg : Config) (h : Hashing) (t : Texts) (head : String) (g : GovernanceLayer) (c : Contract)
    (found : Option Ack × List Violation)
    → ((ack : Ack) → found.0 ≡ some ack → is_accepted ack ≡ false)
    → is_accepted (conclude cfg h t head g c found).0.ack ≡ true
    → (found.0 ≡ none) × (is_accepted (execute cfg h t head c).ack ≡ true)
conclude-accepted cfg h t head g c (some ack, vs) halts e = cc (halts ack refl)
conclude-accepted cfg h t head g c (none, vs) halts e = (refl, e)

conclude-runs :
    (cfg : Config) (h : Hashing) (t : Texts) (head : String) (g : GovernanceLayer) (c : Contract)
    (found : Option Ack × List Violation)
    → found.0 ≡ none
    → (conclude cfg h t head g c found).0 ≡ execute cfg h t head c
conclude-runs cfg h t head g c (some ack, vs) e = cc
conclude-runs cfg h t head g c (none, vs) e = refl

finding_of-none :
    (c : Contract) (r : Result ContractError (Unit {0})) → finding_of c r ≡ none → r ≡ ok tt
finding_of-none c (ok tt) e = refl
finding_of-none c (err x) e = cc

module _ (cfg : Config) (h : Hashing) (t : Texts) (head : String) (g : GovernanceLayer)
    (c : Contract) where
  let_through :
      is_accepted (enforce cfg h t head g c).0.ack ≡ true
      → ((apply_policies g.strict (policies cfg h g c) []).0 ≡ none)
        × (is_accepted (execute cfg h t head c).ack ≡ true)
  unfolding enforce
  let_through e =
      conclude-accepted cfg h t head g c (apply_policies g.strict (policies cfg h g c) [])
        (λ ack p.
          apply_policies-halts g.strict (policies cfg h g c) [] ack (policies-AllHalt cfg h g c) p)
        e

  -- In either mode an accepted contract is valid under the configured producer types and minimum
  -- version, and its confidence reaches the corruption threshold: permissive mode and a wider list
  -- of the layer's own do not widen what is accepted.
  pub accepted_under_config :
      is_accepted (enforce cfg h t head g c).0.ack ≡ true
      → IsAcceptable h cfg.allowed_producer_types cfg.minimum_contract_version c
        × (cfg.corruption_threshold ≤ℤ c.confidence)
  accepted_under_config e = (execute_accepts_iff cfg h t head c).0 (let_through e).1

  -- In strict mode an accepted contract is valid under the layer's own producer types and minimum
  -- version, too.
  pub accepted_under_layer :
      g.strict ≡ true
      → is_accepted (enforce cfg h t head g c).0.ack ≡ true
      → IsAcceptable h (allowed_or cfg g.allowed_producers) (minimum_or cfg g.minimum_version) c
  accepted_under_layer strict e =
      let through = strict_through _ _ _ (rw strict at (let_through e).0) in
      let valid =
        finding_of-none c (validate_contract cfg h g.allowed_producers g.minimum_version c)
          through.2 in
      (validate_contract_iff cfg h g.allowed_producers g.minimum_version c).0 valid

  version_policy-none : IsCurrent c.contract_version g.minimum_version → version_policy g c ≡ none
  version_policy-none v = ground arith

  -- A contract that is valid under the layer's own settings raises no policy violation in either
  -- mode: the result is the core's, and only what is observed in its acknowledgement is reported.
  pub clean_contract_runs :
      allowed_or cfg g.allowed_producers ≡ g.allowed_producers
      → minimum_or cfg g.minimum_version ≡ g.minimum_version
      → IsAcceptable h g.allowed_producers g.minimum_version c
      → let (result, vs, _) = enforce cfg h t head g c in
        (result ≡ execute cfg h t head c) × (vs ≡ observed c (ack_text t result.ack))
  unfolding enforce apply_policies
  clean_contract_runs own_types own_minimum a =
      let valid : validate_contract cfg h g.allowed_producers g.minimum_version c ≡ ok tt =
        (validate_contract_iff cfg h g.allowed_producers g.minimum_version c).1
          (rw (own_types, own_minimum) a) in
      (
        rw (a.authorized, version_policy-none a.current, valid) refl,
        rw (a.authorized, version_policy-none a.current, valid) refl,
      )
