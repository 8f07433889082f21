-- ===== src/Trust/Producers/Registry.antt =====
-- What holds of the producer registry through any sequence of registrations and revocations.
use mathlib.Core.Path.{subst}
use qcg_task.Prelude.{
  Option-cases, none, sym, String, ◌≡◌, ◌≢◌, refl, Bool, not, true, Option, some, List, [], ◌∷◌,
  ◌==◌, eq_iff, eq_refl, arith, member, Result, ok, err, Bool-cases, inl, inr,
}
use qcg_task.Prelude.Dict.{Dict, remove_if, every, every-insert, every-remove_if_old, every-lookup}
use qcg_task.Trust.Identity.{NodeIdentity}
use qcg_task.Trust.Producers.Defs.{
  ProducerRegistry, ProducerEntry, RegistryFile, RegisterError, register_producer, revoke_key,
  open_producers, producer_entry, add_key, uses_key, is_revoked, types_or, absent, blank, broken,
  saved,
}

-- A call that changes the registry.
pub data Change : Type 0 where
  enroll : NodeIdentity → Option (List String) → Change
  revoke : String → Change

abbrev or_same : ProducerRegistry → Result RegisterError ProducerRegistry → ProducerRegistry
or_same r (ok r') = r'
or_same r (err e) = r

-- A refused registration raises and leaves the registry as it is.
abbrev pub change : Change → ProducerRegistry → ProducerRegistry
change (enroll identity allowed) r = or_same r (register_producer identity allowed r)
change (revoke key) r = revoke_key key r

unfoldable pub change_all : List Change → ProducerRegistry → ProducerRegistry
change_all [] r = r
change_all (c ∷ cs) r = change_all cs (change c r)

member-add_key_self : (key : String) (keys : List String) → member key (add_key key keys) ≡ true
member-add_key_self key keys = ground (arith, eq_refl key)

member-add_key :
    (key other : String) (keys : List String)
    → member other keys ≡ true
    → member other (add_key key keys) ≡ true
member-add_key key other keys m = ground arith

abbrev other_key : String → ProducerEntry → Bool
other_key key entry = not (entry.identity.public_key == key)

-- The key is revoked, and no entry has it.
pub record IsOut (key : String) (r : ProducerRegistry) : Type 0 where
  pub revoked : member key r.revoked_keys ≡ true
  pub unused : every (other_key key) r.registry ≡ true

-- the eviction, as a test on the entries that it keeps
every-uses_key :
    (key : String) (d : Dict ProducerEntry)
    → every (other_key key) (remove_if (uses_key key) d) ≡ true
unfolding every remove_if
every-uses_key key [] = refl
every-uses_key key ((id, entry) ∷ d) = ground (arith, every-uses_key key d)

revoke_key-IsOut : (key : String) (r : ProducerRegistry) → IsOut key (revoke_key key r)
unfolding revoke_key
revoke_key-IsOut key r = record {
  revoked = member-add_key_self key r.revoked_keys;
  unused = every-uses_key key r.registry;
}

register-IsOut :
    (key : String) (identity : NodeIdentity) (allowed : Option (List String)) (r : ProducerRegistry)
    → IsOut key r
    → IsOut key (or_same r (register_producer identity allowed r))
unfolding register_producer
register-IsOut key identity allowed r out =
    elim (Bool-cases (member identity.public_key r.revoked_keys)) [
      | inl refused ↦ rw refused out
      | inr accepted ↦ rw accepted (record {
        revoked = out.revoked;
        unused =
            every-insert (other_key key) identity.node_id
              (record { identity = identity; allowed_types = types_or identity allowed }) r.registry
              (ground (arith, out.revoked, eq_iff identity.public_key key)) out.unused;
      })
    ]

change-IsOut :
    (key : String) (c : Change) (r : ProducerRegistry) → IsOut key r → IsOut key (change c r)
unfolding revoke_key
change-IsOut key (enroll identity allowed) r out = register-IsOut key identity allowed r out
change-IsOut key (revoke other) r out = record {
  revoked = member-add_key other key r.revoked_keys out.revoked;
  unused = every-remove_if_old (other_key key) (uses_key other) r.registry out.unused;
}

change_all-IsOut :
    (key : String) (cs : List Change) (r : ProducerRegistry)
    → IsOut key r
    → IsOut key (change_all cs r)
unfolding change_all
change_all-IsOut key [] r out = out
change_all-IsOut key (c ∷ cs) r out =
    change_all-IsOut key cs (change c r) (change-IsOut key c r out)

-- What is found is not registered with the key.
abbrev pub LacksKey : String → Option ProducerEntry → Type 0
LacksKey key none = Unit
LacksKey key (some entry) = entry.identity.public_key ≢ key

-- Once a key is revoked it stays revoked, whatever registrations and revocations follow, and no
-- producer that is looked up then is registered with it.
pub revoked_for_good :
    (key id : String) (cs : List Change) (r : ProducerRegistry)
    → let after = change_all cs (revoke_key key r) in
      (is_revoked key after ≡ true) × LacksKey key (producer_entry id after)
unfolding producer_entry is_revoked
revoked_for_good key id cs r =
    let after = change_all cs (revoke_key key r) in
    let out = change_all-IsOut key cs (revoke_key key r) (revoke_key-IsOut key r) in
    (
      out.revoked,
      elim (Option-cases (producer_entry id after)) [
        | inl missing ↦ subst (LacksKey key) (sym missing) tt
        | inr (entry, found) ↦
            let other = every-lookup (other_key key) id entry after.registry out.unused found in
            subst (LacksKey key) (sym found)
              (λ same. ground (arith, other, (eq_iff entry.identity.public_key key).1 same))
      ],
    )

-- The file holds what the object holds.
abbrev IsSaved : ProducerRegistry → Type 0
IsSaved r = open_producers r.disk ≡ r

change-IsSaved : (c : Change) (r : ProducerRegistry) → IsSaved r → IsSaved (change c r)
unfolding open_producers register_producer revoke_key
change-IsSaved (enroll identity allowed) r s =
    elim (Bool-cases (member identity.public_key r.revoked_keys)) [
      | inl refused ↦ rw refused s
      | inr accepted ↦ rw accepted refl
    ]
change-IsSaved (revoke key) r s = refl

change_all-IsSaved :
    (cs : List Change) (r : ProducerRegistry) → IsSaved r → IsSaved (change_all cs r)
unfolding change_all
change_all-IsSaved [] r s = s
change_all-IsSaved (c ∷ cs) r s = change_all-IsSaved cs (change c r) (change-IsSaved c r s)

open-IsSaved : (file : RegistryFile) → IsSaved (open_producers file)
unfolding open_producers
open-IsSaved absent = refl
open-IsSaved blank = refl
open-IsSaved (broken nodes) = refl
open-IsSaved (saved d) = refl

-- A registry that is opened from any file and changed in any way is opened again from its file with
-- the same producers and the same revoked keys.
pub reopen_id :
    (file : RegistryFile) (cs : List Change)
    → open_producers (change_all cs (open_producers file)).disk
      ≡ change_all cs (open_producers file)
reopen_id file cs = change_all-IsSaved cs (open_producers file) (open-IsSaved file)
