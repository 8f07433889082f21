-- ===== src/Trust/Producers/Trusted.antt =====
-- Which contracts pass the verification of their producer.
use mathlib.Core.Path.{subst}
use qcg_task.Prelude.{
  String, ◌≡◌, ◌≢◌, refl, ◌↔◌, true, false, not, ◌&&◌, none, some, List, ◌==◌, arith, member,
  Option-cases, inl, inr, ◌||◌,
}
use qcg_task.Prelude.Json.{Hashing, json_hash}
use qcg_task.Contract.{Contract, post_init}
use qcg_task.Trust.Identity.{Ecdsa, IsCorrect, NodeSigner}
use qcg_task.Trust.Provenance.Defs.{
  ProvenanceStatus, verified, unverified, tampered, verify_contract_provenance, sign_contract,
  lacks_signature,
}
use qcg_task.Trust.Provenance.Verified.{IsProven, verify_contract_provenance_iff, sign-verify}
use qcg_task.Trust.Producers.Defs.{
  ProducerRegistry, ProducerEntry, producer_entry, is_revoked, verify_producer, verify_entry,
  after_provenance, revoke_key,
}
use qcg_task.Trust.Producers.Registry.{Change, change_all, LacksKey, revoked_for_good}

module _ (h : Hashing) (e : Ecdsa) where
  -- The producer is registered under a key that is not revoked, the key proves the contract, and the
  -- contract's type is one of the producer's.
  pub record IsTrusted (c : Contract) (r : ProducerRegistry) : Type 0 where
    pub entry : ProducerEntry
    pub listed : producer_entry c.producer_id r ≡ some entry
    pub unrevoked :
        (not (entry.identity.public_key == "") && is_revoked entry.identity.public_key r) ≡ false
    pub proven : IsProven h e c entry.identity.public_key
    pub permitted : member c.producer_type entry.allowed_types ≡ true

  after_provenance-pass :
      (c : Contract) (allowed : List String) (s : ProvenanceStatus)
      → (after_provenance c allowed s).failure_mode ≡ none
      → (s ≡ verified) × (member c.producer_type allowed ≡ true)
  after_provenance-pass c allowed verified p = (refl, ground arith)
  after_provenance-pass c allowed unverified p = absurd (ground arith)
  after_provenance-pass c allowed tampered p = absurd (ground arith)

  verify_entry-pass :
      (c : Contract) (r : ProducerRegistry) (entry : ProducerEntry)
      → (verify_entry h e c r (some entry)).failure_mode ≡ none
      → ((not (entry.identity.public_key == "") && is_revoked entry.identity.public_key r) ≡ false)
        × ((after_provenance c entry.allowed_types
              (verify_contract_provenance h e c entry.identity.public_key)).failure_mode
            ≡ none)
  unfolding verify_entry
  verify_entry-pass c r entry p = (ground arith, ground arith)

  verify_producer-IsTrusted :
      (c : Contract) (r : ProducerRegistry)
      → (verify_producer h e c r).failure_mode ≡ none
      → IsTrusted c r
  unfolding verify_producer
  verify_producer-IsTrusted c r p = elim (Option-cases (producer_entry c.producer_id r)) [
    | inl missing ↦ absurd (ground (arith, missing))
    | inr (entry, found) ↦
        let clean = verify_entry-pass c r entry (ground (arith, found)) in
        let last =
          after_provenance-pass c entry.allowed_types
            (verify_contract_provenance h e c entry.identity.public_key) clean.1 in
        record {
          entry = entry;
          listed = found;
          unrevoked = clean.0;
          proven = (verify_contract_provenance_iff h e c entry.identity.public_key).0 last.0;
          permitted = last.1;
        }
  ]

  IsTrusted-passes :
      (c : Contract) (r : ProducerRegistry)
      → IsTrusted c r
      → (verify_producer h e c r).failure_mode ≡ none
  unfolding verify_producer verify_entry
  IsTrusted-passes c r t =
      let filled : lacks_signature c ≡ false = t.proven.filled in
      let named : (c.producer_id == "") ≡ false = ground (arith, filled) in
      let hash_there : (c.producer_signature == "" || c.contract_signature == "") ≡ false =
        ground (arith, filled) in
      rw
        (
          named,
          t.listed,
          t.unrevoked,
          hash_there,
          (verify_contract_provenance_iff h e c t.entry.identity.public_key).1 t.proven,
          t.permitted,
        )
        refl

  -- A contract passes exactly when it is trusted.
  pub verify_producer_iff :
      (c : Contract) (r : ProducerRegistry)
      → ((verify_producer h e c r).failure_mode ≡ none) ↔ IsTrusted c r
  verify_producer_iff c r = (verify_producer-IsTrusted c r, IsTrusted-passes c r)

  -- After a key is revoked, and whatever changes follow, a contract that passes is proven by another
  -- key than the revoked one.
  pub passes_under_other_key :
      (key : String) (cs : List Change) (r : ProducerRegistry) (c : Contract)
      → (verify_producer h e c (change_all cs (revoke_key key r))).failure_mode ≡ none
      → (k : String) × (k ≢ key) × IsProven h e c k
  passes_under_other_key key cs r c p =
      let t = verify_producer-IsTrusted c (change_all cs (revoke_key key r)) p in
      (
        t.entry.identity.public_key,
        subst (LacksKey key) t.listed (revoked_for_good key c.producer_id cs r).1,
        t.proven,
      )

  -- What a registered producer signs passes: the contract holds its payload's hash and is of a type
  -- that the producer may send, the registered key is the signer's and is not revoked, and the
  -- signature scheme is correct.
  pub signed_contract_passes :
      IsCorrect e
      → (c : Contract) (s : NodeSigner) (r : ProducerRegistry) (allowed : List String)
      → c.payload_hash ≡ json_hash h c.payload
      → (c.payload_hash == "") ≡ false
      → (s.identity.node_id == "") ≡ false
      → s.identity.public_key ≡ e.public_key s.private_key
      → producer_entry s.identity.node_id r
        ≡ some (record { identity = s.identity; allowed_types = allowed })
      → is_revoked s.identity.public_key r ≡ false
      → member c.producer_type allowed ≡ true
      → (verify_producer h e (sign_contract h e c s) r).failure_mode ≡ none
  unfolding sign_contract post_init
  signed_contract_passes ec c s r allowed intact filled named own listed unrevoked permitted =
      let proof = sign-verify h e ec c s intact filled named own in
      IsTrusted-passes (sign_contract h e c s) r (record {
        entry = record { identity = s.identity; allowed_types = allowed };
        listed = rw filled listed;
        unrevoked = ground (arith, unrevoked);
        proven =
            (verify_contract_provenance_iff h e (sign_contract h e c s) s.identity.public_key).0
              proof;
        permitted = rw filled permitted;
      })
