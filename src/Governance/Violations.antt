-- ===== src/Governance/Violations.antt =====
-- The bounded log of violations.
use qcg_task.Prelude.{
  ◌+◌, ◌-◌, ◌≤◌, String, ◌≡◌, Option, none, some, List, [], ◌++◌, arith, length, length-append,
  length-drop,
}
use qcg_task.Prelude.Json.{Hashing}
use qcg_task.Config.{Config}
use qcg_task.Contract.{Contract}
use qcg_task.Runtime.{Texts, Ack}
use qcg_task.Governance.Defs.{
  Violation, GovernanceLayer, max_violations, extend, apply_policies, policies, conclude, enforce,
}

length-extend-le : (log vs : List Violation) → length (extend log vs) ≤ max_violations
unfolding extend
length-extend-le log vs =
    omega (arith, length-drop (length (log ++ vs) - max_violations) (log ++ vs))

-- While the log has room nothing is dropped.
pub extend_room :
    (log vs : List Violation) → length log + length vs ≤ max_violations → extend log vs ≡ log ++ vs
unfolding extend
extend_room log vs room =
    let none_over : length (log ++ vs) - max_violations ≡ 0 = omega (arith, length-append log vs) in
    rw none_over

conclude_bounded :
    (cfg : Config) (h : Hashing) (t : Texts) (head : String) (g : GovernanceLayer) (c : Contract)
    (found : Option Ack × List Violation)
    → length (conclude cfg h t head g c found).2.violations ≤ max_violations
conclude_bounded cfg h t head g c (some ack, vs) = length-extend-le g.violations vs
conclude_bounded cfg h t head g c (none, vs) = length-extend-le (extend g.violations vs) _

-- Whatever the log was, after a call of `enforce` it holds at most 10000 violations.
pub enforce_log_bounded :
    (cfg : Config) (h : Hashing) (t : Texts) (head : String) (g : GovernanceLayer) (c : Contract)
    → length (enforce cfg h t head g c).2.violations ≤ max_violations
unfolding enforce
enforce_log_bounded cfg h t head g c =
    conclude_bounded cfg h t head g c (apply_policies g.strict (policies cfg h g c) [])
