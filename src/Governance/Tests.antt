-- ===== src/Governance/Tests.antt =====
-- The layer on the sample contract, and on one of a type that is not allowed.
use qcg_task.Prelude.{◌≡◌, refl, true, [], ◌∷◌, ok}
use qcg_task.Prelude.Int.{pos, ◌≤ℤ◌}
use qcg_task.Samples.{cfg, plain, sample}
use qcg_task.Contract.{
  Contract, validate_contract, check_version, parse_semver, earlier, is_filled_dict,
}
use qcg_task.Contract.Validity.{IsAcceptable}
use qcg_task.Runtime.{Texts, halt_unauthorized_producer, is_accepted, execute}
use qcg_task.Governance.Defs.{GovernanceLayer, low_confidence, violation, high, new_layer, enforce}
use qcg_task.Governance.Enforcement.{accepted_under_config}

abbrev short : Texts
short = record { fixed4 = λ c. "0.0000"; message = λ e. "invalid" }

abbrev strict_layer : GovernanceLayer
strict_layer = record {
  strict = true;
  allowed_producers = cfg.allowed_producer_types;
  minimum_version = "2.0.0";
  violations = [];
}

abbrev stranger : Contract
stranger = record sample { producer_type = "ALIEN" }

strict_layer_built : new_layer cfg true [] "" ≡ strict_layer
unfolding new_layer
strict_layer_built = refl

stranger_halted :
    (enforce cfg plain short "" strict_layer stranger).0.ack ≡ halt_unauthorized_producer
unfolding enforce
stranger_halted = refl

-- A low confidence is the core's decision, and is recorded after it.
weak_recorded :
    (enforce cfg plain short "" strict_layer (record sample { confidence = pos 100 })).1
    ≡ violation low_confidence high sample ∷ []
unfolding enforce execute validate_contract check_version parse_semver earlier is_filled_dict
weak_recorded = refl

sample_accepted : is_accepted (enforce cfg plain short "" strict_layer sample).0.ack ≡ true
unfolding enforce execute validate_contract check_version parse_semver earlier is_filled_dict
sample_accepted = refl

sample_valid : validate_contract cfg plain cfg.allowed_producer_types "2.0.0" sample ≡ ok tt
unfolding validate_contract check_version parse_semver earlier is_filled_dict
sample_valid = refl

accepted_under_config_example :
    IsAcceptable plain cfg.allowed_producer_types cfg.minimum_contract_version sample
    × (cfg.corruption_threshold ≤ℤ sample.confidence)
accepted_under_config_example =
    accepted_under_config cfg plain short "" strict_layer sample sample_accepted
