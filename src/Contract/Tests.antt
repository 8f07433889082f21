-- ===== src/Contract/Tests.antt =====
-- Versions and contracts on concrete input.
use qcg_task.Prelude.{◌≡◌, refl, none, some, ok, err, []}
use qcg_task.Prelude.Int.{pos, negsuc}
use qcg_task.Samples.{cfg, plain, sample}
use qcg_task.Contract.Semver.{parse_semver, earlier}
use qcg_task.Contract.Defs.{validate_contract, downgraded, is_filled_dict, check_version}

versions :
    (parse_semver "2.10.3" ≡ some (record { major = pos 2; minor = pos 10; patch = pos 3 }))
    × (parse_semver "-1. 0 .1_0"
        ≡ some (record { major = negsuc 0; minor = pos 0; patch = pos 10 }))
    × (parse_semver "2.0" ≡ none)
    × (parse_semver "2.0.x" ≡ none)
unfolding parse_semver
versions = (refl, refl, refl, refl)

sample_accepted : validate_contract cfg plain [] "" sample ≡ ok tt
unfolding validate_contract check_version parse_semver earlier is_filled_dict
sample_accepted = refl

old_version_refused :
    validate_contract cfg plain [] "" (record sample { contract_version = "1.9.9" })
    ≡ err (downgraded "1.9.9" "2.0.0")
unfolding validate_contract check_version parse_semver earlier is_filled_dict
old_version_refused = refl
