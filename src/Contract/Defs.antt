-- ===== src/Contract/Defs.antt =====
-- The contract, and `validate_contract`. A confidence is an integer of ten-thousandths.
use qcg_task.Prelude.{
  String, Bool, true, false, not, ◌||◌, none, some, List, [], ◌∷◌, ◌==◌, if◌then◌else◌, member,
  Result, ok, err, ◌>>=◌, ◌>>◌, raise_if,
}
use qcg_task.Prelude.Int.{ℤ, pos, leb_ℤ}
use qcg_task.Prelude.Json.{Json, obj, field, Hashing, json_hash}
use qcg_task.Config.{Config, one}
use qcg_task.Contract.Semver.{Version, parse_semver, earlier}

pub record Contract : Type 0 where
  pub producer_type : String
  pub payload : Json
  pub confidence : ℤ
  pub trace_id : String
  pub contract_version : String
  pub execution_constraints : Json
  pub payload_hash : String
  pub producer_id : String
  pub producer_signature : String
  pub contract_signature : String
  pub timestamp : String

-- One constructor for each message of a `ContractValidationError`.
pub data ContractError : Type 0 where
  unauthorized_type : String → ContractError
  empty_payload : ContractError
  confidence_outside : ℤ → ContractError
  missing_trace_id : ContractError
  bad_version : String → ContractError
  downgraded : String → String → ContractError
  hash_mismatch : String → String → ContractError
  missing_timestamp : ContractError

-- `isinstance(payload, dict) and payload`
unfoldable pub is_filled_dict : Json → Bool
is_filled_dict (obj (field k v fs)) = true
is_filled_dict _ = false

-- `__post_init__`: an empty hash is computed
unfoldable pub post_init : Hashing → Contract → Contract
post_init h c =
    if c.payload_hash == "" then record c { payload_hash = json_hash h c.payload } else c

abbrev pub require_version : String → Result ContractError Version
require_version text = elim (parse_semver text) [ none ↦ err (bad_version text) | some v ↦ ok v ]

-- `allowed_producers or config.ALLOWED_PRODUCER_TYPES`
abbrev pub allowed_or : Config → List String → List String
allowed_or cfg [] = cfg.allowed_producer_types
allowed_or cfg (x ∷ xs) = x ∷ xs

-- `minimum_version or config.MINIMUM_CONTRACT_VERSION`
abbrev pub minimum_or : Config → String → String
minimum_or cfg minimum = if minimum == "" then cfg.minimum_contract_version else minimum

unfoldable pub check_version : String → String → Result ContractError (Unit {0})
check_version version minimum = do
  ver ← require_version version
  min_ver ← require_version minimum
  raise_if (earlier ver min_ver) (downgraded version minimum)

-- `validate_contract(contract, allowed_producers=..., minimum_version=...)`; an empty list and an
-- empty text stand for an argument that is not given, too
unfoldable pub validate_contract :
    Config → Hashing → List String → String → Contract → Result ContractError (Unit {0})
validate_contract cfg h allowed_producers minimum_version c = do
  raise_if (not (member c.producer_type (allowed_or cfg allowed_producers)))
      (unauthorized_type c.producer_type)
  raise_if (not (is_filled_dict c.payload)) empty_payload
  raise_if (not (leb_ℤ (pos 0) c.confidence) || not (leb_ℤ c.confidence one))
      (confidence_outside c.confidence)
  raise_if (c.trace_id == "") missing_trace_id
  check_version c.contract_version (minimum_or cfg minimum_version)
  raise_if (not (c.payload_hash == json_hash h c.payload))
      (hash_mismatch (json_hash h c.payload) c.payload_hash)
  raise_if (c.timestamp == "") missing_timestamp
