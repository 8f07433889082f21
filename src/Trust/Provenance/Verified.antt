-- ===== src/Trust/Provenance/Verified.antt =====
-- When a contract's provenance is verified.
use qcg_task.Prelude.{String, ◌≡◌, refl, ◌↔◌, true, false, ◌==◌, eq_iff, eq_refl, arith}
use qcg_task.Prelude.Json.{Hashing, json_hash}
use qcg_task.Contract.{Contract, post_init}
use qcg_task.Trust.Identity.{Ecdsa, IsCorrect, NodeSigner}
use qcg_task.Trust.Provenance.Defs.{
  verified, det_dict, lacks_signature, sign_contract, verify_contract_provenance, with_producer,
}

module _ (h : Hashing) (e : Ecdsa) where
  -- All three texts are there, the payload's hash is the one stored, and the key verifies both
  -- signatures: of the stored hash, and of all fields that are signed.
  pub record IsProven (c : Contract) (key : String) : Type 0 where
    pub filled : lacks_signature c ≡ false
    pub intact : c.payload_hash ≡ json_hash h c.payload
    pub hash_signed : e.verify key c.producer_signature c.payload_hash ≡ true
    pub state_signed : e.verify key c.contract_signature (h.dumps (det_dict c)) ≡ true

  -- Provenance is VERIFIED exactly for a proven contract.
  pub verify_contract_provenance_iff :
      (c : Contract) (key : String)
      → (verify_contract_provenance h e c key ≡ verified) ↔ IsProven c key
  unfolding verify_contract_provenance
  verify_contract_provenance_iff c key = (
    λ p. record {
      filled = ground arith;
      intact = (eq_iff c.payload_hash (json_hash h c.payload)).0 (ground arith);
      hash_signed = ground arith;
      state_signed = ground arith;
    },
    λ proven.
        rw
          (
            proven.filled,
            (eq_iff c.payload_hash (json_hash h c.payload)).1 proven.intact,
            eq_refl (h.sha256 c.payload_hash),
            proven.hash_signed,
            eq_refl (h.sha256 (h.dumps (det_dict c))),
            proven.state_signed,
          )
          refl,
  )

  -- A contract with the hash of its payload that a named producer signs is VERIFIED under the
  -- producer's key, when the signature scheme is correct.
  pub sign-verify :
      IsCorrect e
      → (c : Contract) (s : NodeSigner) → c.payload_hash ≡ json_hash h c.payload
      → (c.payload_hash == "") ≡ false
      → (s.identity.node_id == "") ≡ false
      → s.identity.public_key ≡ e.public_key s.private_key
      → verify_contract_provenance h e (sign_contract h e c s) s.identity.public_key ≡ verified
  unfolding sign_contract post_init
  sign-verify ec c s intact filled named own =
      rw (filled, own)
        ((verify_contract_provenance_iff
            (record (with_producer h e c s) {
              contract_signature =
                  e.sign s.private_key (h.dumps (det_dict (with_producer h e c s)));
            })
            (e.public_key s.private_key)).1
          (record {
            filled =
                rw
                  (
                    ec.signs s.private_key c.payload_hash,
                    ec.signs s.private_key (h.dumps (det_dict (with_producer h e c s))),
                    named,
                  )
                  refl;
            intact = intact;
            hash_signed = ec.verifies s.private_key c.payload_hash;
            state_signed = ec.verifies s.private_key (h.dumps (det_dict (with_producer h e c s)));
          }))
