-- ===== src/Contract/Validity.antt =====
-- What a contract that passes validation satisfies.
use qcg_task.Prelude.{
  String, ◌≡◌, ◌≢◌, ◌↔◌, true, false, some, List, member, ok, arith, eq_iff, Option-cases, inl, inr,
}
use qcg_task.Prelude.Int.{pos, ◌≤ℤ◌}
use qcg_task.Prelude.Json.{Hashing, json_hash}
use qcg_task.Config.{Config, one}
use qcg_task.Contract.Semver.{Version, parse_semver, earlier}
use qcg_task.Contract.Defs.{
  Contract, is_filled_dict, allowed_or, minimum_or, check_version, validate_contract,
}

-- Both versions parse, and the contract's is not the earlier one.
pub record IsCurrent (version minimum : String) : Type 0 where
  pub ver : Version
  pub min_ver : Version
  pub ver_read : parse_semver version ≡ some ver
  pub min_read : parse_semver minimum ≡ some min_ver
  pub in_order : earlier ver min_ver ≡ false

pub record IsAcceptable (h : Hashing) (allowed : List String) (minimum : String) (c : Contract)
    : Type 0 where
  pub authorized : member c.producer_type allowed ≡ true
  pub filled : is_filled_dict c.payload ≡ true
  pub confidence_low : pos 0 ≤ℤ c.confidence
  pub confidence_high : c.confidence ≤ℤ one
  pub traced : c.trace_id ≢ ""
  pub current : IsCurrent c.contract_version minimum
  pub intact : c.payload_hash ≡ json_hash h c.payload
  pub stamped : c.timestamp ≢ ""

check_version-IsCurrent :
    (version minimum : String) → check_version version minimum ≡ ok tt → IsCurrent version minimum
unfolding check_version
check_version-IsCurrent version minimum e = elim (Option-cases (parse_semver version)) [
  | inl bad ↦ ground arith
  | inr (v, read) ↦ elim (Option-cases (parse_semver minimum)) [
    | inl bad ↦ ground arith
    | inr (w, min_read) ↦ record {
      ver = v;
      min_ver = w;
      ver_read = read;
      min_read = min_read;
      in_order = ground arith;
    }
  ]
]

IsCurrent-check_version :
    (version minimum : String) → IsCurrent version minimum → check_version version minimum ≡ ok tt
unfolding check_version
IsCurrent-check_version version minimum v = ground arith

module _ (cfg : Config) (h : Hashing) (allowed : List String) (minimum : String)
    (c : Contract) where
  validate_contract-IsAcceptable :
      validate_contract cfg h allowed minimum c ≡ ok tt
      → IsAcceptable h (allowed_or cfg allowed) (minimum_or cfg minimum) c
  unfolding validate_contract
  validate_contract-IsAcceptable e =
      let version_ok : check_version c.contract_version (minimum_or cfg minimum) ≡ ok tt =
        ground arith in
      record {
        authorized = ground arith;
        filled = ground arith;
        confidence_low = ground arith;
        confidence_high = ground arith;
        traced = ground (arith, eq_iff c.trace_id "");
        current = check_version-IsCurrent c.contract_version (minimum_or cfg minimum) version_ok;
        intact = ground (arith, eq_iff c.payload_hash (json_hash h c.payload));
        stamped = ground (arith, eq_iff c.timestamp "");
      }

  IsAcceptable-validate_contract :
      IsAcceptable h (allowed_or cfg allowed) (minimum_or cfg minimum) c
      → validate_contract cfg h allowed minimum c ≡ ok tt
  unfolding validate_contract
  IsAcceptable-validate_contract a =
      rw (IsCurrent-check_version c.contract_version (minimum_or cfg minimum) a.current) (
        ground (
          arith,
          eq_iff c.trace_id "",
          eq_iff c.payload_hash (json_hash h c.payload),
          eq_iff c.timestamp "",
        ))

  -- Validation passes exactly when the producer's type is allowed, the payload is a dictionary that
  -- is not empty, the confidence lies in [0, 1], there are a trace identifier and a time stamp, the
  -- version parses and is not below the minimum, and the payload hash is that of the payload.
  pub validate_contract_iff :
      (validate_contract cfg h allowed minimum c ≡ ok tt)
      ↔ IsAcceptable h (allowed_or cfg allowed) (minimum_or cfg minimum) c
  validate_contract_iff = (validate_contract-IsAcceptable, IsAcceptable-validate_contract)
