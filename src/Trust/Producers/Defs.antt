-- ===== src/Trust/Producers/Defs.antt =====
-- `ProducerRegistry` and `ProducerVerificationLayer`. A write to the file is taken to succeed. A role
-- is upper-cased as ASCII text.
use qcg_task.Prelude.{
  ℕ, ◌-◌, String, Bool, true, false, not, ◌&&◌, ◌||◌, Option, none, some, List, [], ◌∷◌, ◌==◌, map,
  if◌then◌else◌, leb, equal_ℕ, member, Result, ok, err,
}
use qcg_task.Prelude.Dict.{Dict, lookup, insert, remove_if}
use qcg_task.Prelude.Json.{Hashing}
use qcg_task.Contract.{Contract, codes}
use qcg_task.Trust.Identity.{Ecdsa, NodeIdentity}
use qcg_task.Trust.Provenance.Defs.{
  ProvenanceStatus, verified, unverified, tampered, verify_contract_provenance,
}

pub record ProducerEntry : Type 0 where
  pub identity : NodeIdentity
  pub allowed_types : List String

pub record RegistryData : Type 0 where
  pub nodes : Dict ProducerEntry
  pub revoked_keys : List String

-- What the path holds. From a broken document the nodes before the break have been read.
pub data RegistryFile : Type 0 where
  absent : RegistryFile
  blank : RegistryFile
  broken : Dict ProducerEntry → RegistryFile
  saved : RegistryData → RegistryFile

pub record ProducerRegistry : Type 0 where
  pub registry : Dict ProducerEntry
  pub revoked_keys : List String
  pub disk : RegistryFile

-- the ValueError of `register`
pub data RegisterError : Type 0 where
  key_revoked : String → RegisterError

-- `ProducerRegistry(path)`, where the path holds `file`
unfoldable pub open_producers : RegistryFile → ProducerRegistry
open_producers absent = record { registry = []; revoked_keys = []; disk = absent }
open_producers blank = record { registry = []; revoked_keys = []; disk = blank }
open_producers (broken nodes) = record { registry = nodes; revoked_keys = []; disk = broken nodes }
open_producers (saved d) = record {
  registry = d.nodes;
  revoked_keys = d.revoked_keys;
  disk = saved d;
}

abbrev pub save : ProducerRegistry → ProducerRegistry
save r = record r { disk = saved (record { nodes = r.registry; revoked_keys = r.revoked_keys }) }

upper_code : ℕ → ℕ
upper_code c = if leb 97 c && leb c 122 then c - 32 else c

starts : List ℕ → List ℕ → Bool
starts [] s = true
starts (p ∷ ps) [] = false
starts (p ∷ ps) (c ∷ s) = equal_ℕ p c && starts ps s

occurs : List ℕ → List ℕ → Bool
unfolding starts
occurs p [] = starts p []
occurs p (c ∷ s) = starts p (c ∷ s) || occurs p s

-- `word in node_role.upper()`
unfoldable pub role_has : String → String → Bool
unfolding occurs upper_code
role_has word role = occurs (codes word) (map upper_code (codes role))

unfoldable pub default_types : String → List String
default_types role =
    if role_has "QUANTUM" role && not (role_has "HYBRID" role)
    then "QUANTUM" ∷ []
    else if role_has "CLASSICAL" role && not (role_has "HYBRID" role)
    then "CLASSICAL" ∷ []
    else if role_has "HYBRID" role
    then "HYBRID" ∷ "QUANTUM" ∷ "CLASSICAL" ∷ []
    else "CLASSICAL" ∷ "QUANTUM" ∷ "HYBRID" ∷ []

abbrev pub types_or : NodeIdentity → Option (List String) → List String
types_or identity none = default_types identity.node_role
types_or identity (some types) = types

unfoldable pub register_producer :
    NodeIdentity → Option (List String) → ProducerRegistry → Result RegisterError ProducerRegistry
register_producer identity allowed r =
    if member identity.public_key r.revoked_keys
    then err (key_revoked identity.public_key)
    else ok (
        save (record r {
          registry =
              insert identity.node_id
                (record { identity = identity; allowed_types = types_or identity allowed })
                r.registry;
        }))

-- `uses k` of the dictionary's entries, for the ones that `revoke_key` evicts
abbrev pub uses_key : String → String → ProducerEntry → Bool
uses_key key node_id entry = entry.identity.public_key == key

abbrev pub add_key : String → List String → List String
add_key key keys = if member key keys then keys else key ∷ keys

unfoldable pub revoke_key : String → ProducerRegistry → ProducerRegistry
revoke_key key r = save (record r {
  registry = remove_if (uses_key key) r.registry;
  revoked_keys = add_key key r.revoked_keys;
})

unfoldable pub is_revoked : String → ProducerRegistry → Bool
is_revoked key r = member key r.revoked_keys

unfoldable pub producer_entry : String → ProducerRegistry → Option ProducerEntry
producer_entry producer_id r = lookup producer_id r.registry

pub data VerificationFailure : Type 0 where
  unverified_producer : VerificationFailure
  invalid_signature : VerificationFailure
  trust_failure : VerificationFailure

-- The outcome, without its wording: `none` is a pass.
pub record VerificationResult : Type 0 where
  pub failure_mode : Option VerificationFailure
  pub producer_id : String
  pub producer_type : String

abbrev pub outcome : Contract → Option VerificationFailure → VerificationResult
outcome c failure = record {
  failure_mode = failure;
  producer_id = c.producer_id;
  producer_type = c.producer_type;
}

-- steps 2 and 3 on the provenance status
abbrev pub after_provenance : Contract → List String → ProvenanceStatus → VerificationResult
after_provenance c allowed tampered = outcome c (some invalid_signature)
after_provenance c allowed unverified = outcome c (some invalid_signature)
after_provenance c allowed verified =
    if not (member c.producer_type allowed) then outcome c (some trust_failure) else outcome c none

module _ (h : Hashing) (e : Ecdsa) where
  -- `verify` from the registry's entry of the producer on
  unfoldable pub verify_entry :
      Contract → ProducerRegistry → Option ProducerEntry → VerificationResult
  verify_entry c r none = outcome c (some unverified_producer)
  verify_entry c r (some entry) =
      if not (entry.identity.public_key == "") && is_revoked entry.identity.public_key r
      then outcome c (some invalid_signature)
      else if c.producer_signature == "" || c.contract_signature == ""
      then outcome c (some invalid_signature)
      else after_provenance c entry.allowed_types
          (verify_contract_provenance h e c entry.identity.public_key)

  unfoldable pub verify_producer : Contract → ProducerRegistry → VerificationResult
  unfolding verify_entry producer_entry
  verify_producer c r =
      if c.producer_id == ""
      then outcome c (some unverified_producer)
      else verify_entry c r (producer_entry c.producer_id r)
