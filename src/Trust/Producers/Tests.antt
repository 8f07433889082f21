-- ===== src/Trust/Producers/Tests.antt =====
-- A registry of two producers, one of whose keys is revoked.
use qcg_task.Prelude.{◌≡◌, refl, ◌↔◌, true, none, List, [], ◌∷◌, err}
use qcg_task.Samples.{plain, sample}
use qcg_task.Trust.Samples.{keyed}
use qcg_task.Trust.Identity.{NodeSigner, new_signer}
use qcg_task.Trust.Provenance.Defs.{sign_contract}
use qcg_task.Trust.Producers.Defs.{
  ProducerRegistry, absent, open_producers, register_producer, revoke_key, verify_producer,
  producer_entry, is_revoked, key_revoked, default_types, role_has,
}
use qcg_task.Trust.Producers.Registry.{Change, LacksKey, enroll, change_all, revoked_for_good}
use qcg_task.Trust.Producers.Trusted.{IsTrusted, verify_producer_iff}

abbrev first : NodeSigner
first = new_signer keyed "k1" "PRODUCER_1" "Quantum_Producer" "1.0.0"

abbrev second : NodeSigner
second = new_signer keyed "k2" "PRODUCER_2" "QUANTUM_PRODUCER" "1.0.0"

abbrev enrollment : List Change
enrollment = enroll first.identity none ∷ enroll second.identity none ∷ []

abbrev opened : ProducerRegistry
opened = open_producers absent

abbrev both : ProducerRegistry
both = change_all enrollment opened

role_in_any_case : default_types "Quantum_Producer" ≡ "QUANTUM" ∷ []
unfolding default_types role_has
role_in_any_case = refl

revoked_refused :
    register_producer first.identity none (revoke_key "k1" both) ≡ err (key_revoked "k1")
unfolding register_producer revoke_key change_all open_producers
revoked_refused = refl

revoked_for_good_example :
    (is_revoked "k1" (change_all enrollment (revoke_key "k1" opened)) ≡ true)
    × LacksKey "k1" (producer_entry "PRODUCER_2" (change_all enrollment (revoke_key "k1" opened)))
revoked_for_good_example = revoked_for_good "k1" "PRODUCER_2" enrollment opened

verify_producer_iff_example :
    ((verify_producer plain keyed (sign_contract plain keyed sample first) both).failure_mode
      ≡ none)
    ↔ IsTrusted plain keyed (sign_contract plain keyed sample first) both
verify_producer_iff_example =
    verify_producer_iff plain keyed (sign_contract plain keyed sample first) both
