-- ===== src/Governance/Defs.antt =====
-- `GovernanceLayer.enforce`. A violation keeps its type, severity and trace identifier; its details
-- are a text made from the other values, and it has a time stamp: both are left out, and so are the
-- log lines.
use text.Mathlib.Text.{find?}
use qcg_task.Prelude.{
  ℕ, ◌-◌, String, Bool, Option, none, some, List, [], ◌∷◌, ◌++◌, if◌then◌else◌, is_some, member,
  drop, length, Result, ok, err,
}
use qcg_task.Prelude.Json.{Hashing}
use qcg_task.Config.{Config}
use qcg_task.Contract.{
  Contract, ContractError, Version, parse_semver, earlier, bad_version, validate_contract,
  allowed_or, minimum_or,
}
use qcg_task.Runtime.{
  Ack, halt_unauthorized_producer, halt_contract_downgrade, halt_invalid_contract, Texts, ack_text,
  ExecutionResult, execute,
}

abbrev pub max_violations : ℕ
max_violations = 10_000

pub data ViolationType : Type 0 where
  unauthorized_producer contract_downgrade invalid_contract : ViolationType
  replay_mismatch low_confidence : ViolationType

pub data Severity : Type 0 where
  critical high medium : Severity

pub record Violation : Type 0 where
  pub violation_type : ViolationType
  pub severity : Severity
  pub trace_id : String

pub record GovernanceLayer : Type 0 where
  pub strict : Bool
  pub allowed_producers : List String
  pub minimum_version : String
  pub violations : List Violation

-- `GovernanceLayer(runtime, strict=..., allowed_producers=..., minimum_version=...)`
unfoldable pub new_layer : Config → Bool → List String → String → GovernanceLayer
new_layer cfg strict allowed minimum = record {
  strict = strict;
  allowed_producers = allowed_or cfg allowed;
  minimum_version = minimum_or cfg minimum;
  violations = [];
}

-- `deque.extend` under `maxlen`: the oldest entries make room
unfoldable pub extend : List Violation → List Violation → List Violation
extend log vs = let all = log ++ vs in drop (length all - max_violations) all

abbrev pub violation : ViolationType → Severity → Contract → Violation
violation kind severity c = record {
  violation_type = kind;
  severity = severity;
  trace_id = c.trace_id;
}

-- What a policy finds: a violation, and the acknowledgement with which strict mode halts on it.
abbrev pub Finding : Type 0
Finding = Option (Violation × Ack)

abbrev pub invalid : Contract → ContractError → Finding
invalid c e = some (violation invalid_contract critical c, halt_invalid_contract e)

-- policy 1
abbrev pub producer_policy : GovernanceLayer → Contract → Finding
producer_policy g c =
    if member c.producer_type g.allowed_producers
    then none
    else some (violation unauthorized_producer critical c, halt_unauthorized_producer)

-- policy 2, on the two versions: one that does not parse makes an invalid contract
abbrev pub version_finding : GovernanceLayer → Contract → Option Version → Option Version → Finding
version_finding g c none _ = invalid c (bad_version c.contract_version)
version_finding g c (some ver) none = invalid c (bad_version g.minimum_version)
version_finding g c (some ver) (some min_ver) =
    if earlier ver min_ver
    then some (violation contract_downgrade high c, halt_contract_downgrade)
    else none

abbrev pub version_policy : GovernanceLayer → Contract → Finding
version_policy g c =
    version_finding g c (parse_semver c.contract_version) (parse_semver g.minimum_version)

abbrev pub finding_of : Contract → Result ContractError (Unit {0}) → Finding
finding_of c (ok _) = none
finding_of c (err e) = invalid c e

-- policy 3
abbrev pub schema_policy : Config → Hashing → GovernanceLayer → Contract → Finding
schema_policy cfg h g c =
    finding_of c (validate_contract cfg h g.allowed_producers g.minimum_version c)

-- The policies in order: strict mode stops at the first finding with its acknowledgement, and
-- permissive mode collects them all.
unfoldable pub apply_policies : Bool → List Finding → List Violation → Option Ack × List Violation
apply_policies strict [] vs = (none, vs)
apply_policies strict (none ∷ fs) vs = apply_policies strict fs vs
apply_policies strict (some (v, ack) ∷ fs) vs =
    let rest = apply_policies strict fs (vs ++ v ∷ []) in
    if strict then (some ack, vs ++ v ∷ []) else rest

abbrev pub policies : Config → Hashing → GovernanceLayer → Contract → List Finding
policies cfg h g c = producer_policy g c ∷ version_policy g c ∷ schema_policy cfg h g c ∷ []

abbrev pub halt : Contract → Ack → ExecutionResult
halt c ack = record {
  contract_trace_id = c.trace_id;
  producer_type = c.producer_type;
  ack = ack;
  confidence = c.confidence;
  runtime_hash = "GOVERNANCE_HALT";
}

-- `part in text`
abbrev pub mentions : String → String → Bool
mentions part text = is_some (find? text part)

-- the violations that are observed in the core's acknowledgement
unfoldable pub observed : Contract → String → List Violation
observed c ack =
    (if mentions "REPLAY_DETECTED" ack then violation replay_mismatch medium c ∷ [] else [])
    ++ (if mentions "LOW_CONFIDENCE" ack then violation low_confidence high c ∷ [] else [])

abbrev pub Enforced : Type 0
Enforced = ExecutionResult × List Violation × GovernanceLayer

abbrev pub conclude :
    Config
    → Hashing
    → Texts
    → String
    → GovernanceLayer
    → Contract
    → Option Ack × List Violation
    → Enforced
conclude cfg h t head g c (some ack, vs) =
    (halt c ack, vs, record g { violations = extend g.violations vs })
conclude cfg h t head g c (none, vs) =
    let result = execute cfg h t head c in
    let seen = observed c (ack_text t result.ack) in
    (result, vs ++ seen, record g { violations = extend (extend g.violations vs) seen })

unfoldable pub enforce : Config → Hashing → Texts → String → GovernanceLayer → Contract → Enforced
unfolding apply_policies extend observed
enforce cfg h t head g c =
    conclude cfg h t head g c (apply_policies g.strict (policies cfg h g c) [])

unfoldable pub clear_violations : GovernanceLayer → GovernanceLayer
clear_violations g = record g { violations = [] }
