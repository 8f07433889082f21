-- ===== src/Trust/Provenance/Tests.antt =====
-- A contract that is signed, and signed contracts that were changed.
use qcg_task.Prelude.{◌≡◌, refl}
use qcg_task.Samples.{plain, sample}
use qcg_task.Contract.{Contract, post_init}
use qcg_task.Trust.Samples.{keyed, keyed-IsCorrect}
use qcg_task.Trust.Identity.{NodeSigner, new_signer}
use qcg_task.Trust.Provenance.Defs.{
  sign_contract, verify_contract_provenance, verified, unverified, tampered,
}
use qcg_task.Trust.Provenance.Verified.{sign-verify}

abbrev producer : NodeSigner
producer = new_signer keyed "k1" "PRODUCER" "QUANTUM_PRODUCER" "1.0.0"

abbrev signed : Contract
signed = sign_contract plain keyed sample producer

unsigned_unverified : verify_contract_provenance plain keyed sample "k1" ≡ unverified
unfolding verify_contract_provenance
unsigned_unverified = refl

forged_tampered :
    verify_contract_provenance plain keyed (record signed { contract_signature = "forged" }) "k1"
    ≡ tampered
unfolding verify_contract_provenance sign_contract post_init
forged_tampered = refl

sign-verify_example : verify_contract_provenance plain keyed signed "k1" ≡ verified
sign-verify_example = sign-verify plain keyed keyed-IsCorrect sample producer refl refl refl refl
