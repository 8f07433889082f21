-- ===== src/Replay/Registry/Invariant.antt =====
-- replay_registry.py: the numbering of the entries.
use qcg_task.Prelude.{
  ℕ, suc, ◌+◌, String, ◌≡◌, Option, none, List, [], ◌∷◌, arith, length, length-append, eq_iff,
  Option-cases, inl, inr,
}
use qcg_task.Prelude.Int.{ℤ}
use qcg_task.Prelude.Dict.{Dict, lookup, insert, insert_new, lookup-insert}
use qcg_task.Replay.Registry.File.{RegistryEntry}
use qcg_task.Replay.Registry.Defs.{
  ReplayRegistry, Call, issue_time, accept, register, submit, submit_all,
}

-- Entry by entry, after `n` earlier ones: its number, its own key, and no second entry with it.
abbrev pub IsNumbered : ℕ → Dict RegistryEntry → Type 0
IsNumbered n [] = Unit
IsNumbered n ((k, e) ∷ d) =
    (e.sequence_number ≡ suc n) × (e.message_id ≡ k) × (lookup k d ≡ none) × IsNumbered (suc n) d

pub record IsValid (r : ReplayRegistry) : Type 0 where
  pub numbered : IsNumbered 0 r.entries
  pub counted : r.sequence_counter ≡ length r.entries

-- Accepting a new identifier with the next number keeps the numbering.
IsNumbered-insert :
    (n : ℕ) (k : String) (e : RegistryEntry) (d : Dict RegistryEntry)
    → lookup k d ≡ none
    → e.sequence_number ≡ suc (n + length d)
    → e.message_id ≡ k
    → IsNumbered n d
    → IsNumbered n (insert k e d)
unfolding lookup insert
IsNumbered-insert n k e [] fresh num own h = ground arith
IsNumbered-insert n k e ((j, w) ∷ d) fresh num own h =
    ground (arith, eq_iff j k, eq_iff k j, lookup-insert k j e d, IsNumbered-insert (suc n) k e d)

length-insert_new :
    (k : String) (e : RegistryEntry) (d : Dict RegistryEntry)
    → lookup k d ≡ none
    → length (insert k e d) ≡ suc (length d)
length-insert_new k e d fresh = rw (insert_new k e d fresh, length-append d _) (omega arith)

accept-IsValid :
    (id : String) (t : ℤ) (r : ReplayRegistry)
    → lookup id r.entries ≡ none
    → IsValid r
    → IsValid (accept id t r).1
unfolding accept
accept-IsValid id t r fresh h =
    let e : RegistryEntry = record {
      message_id = id;
      sequence_number = r.sequence_counter + 1;
      issued_at = t;
    } in
    ground (arith, IsNumbered-insert 0 id e r.entries fresh, length-insert_new id e r.entries fresh)

register-IsValid :
    (id : String) (t : ℤ) (r : ReplayRegistry)
    → IsValid r
    → IsValid (register id t (lookup id r.entries) r).1
unfolding register
register-IsValid id t r h = elim (Option-cases (lookup id r.entries)) [
  | inl fresh ↦ rw fresh (accept-IsValid id t r fresh h)
  | inr (e, known) ↦ rw known h
]

-- Every call of `submit` keeps the invariant, whichever decision it takes.
pub submit-IsValid :
    (now : ℤ) (id : String) (issued : Option ℤ) (r : ReplayRegistry)
    → IsValid r
    → IsValid (submit now id issued r).1
unfolding submit
submit-IsValid now id issued r h = ground (arith, register-IsValid id (issue_time now issued) r h)

-- Any sequence of submissions keeps a valid registry valid: the entries are numbered 1, 2, ... in
-- the order of their acceptance, each under its own identifier, no identifier occurs twice, and the
-- counter is the number of entries.
pub submit_all-IsValid :
    (cs : List Call) (r : ReplayRegistry) → IsValid r → IsValid (submit_all cs r)
unfolding submit_all
submit_all-IsValid [] r h = h
submit_all-IsValid (c ∷ cs) r h =
    submit_all-IsValid cs _ (submit-IsValid c.now c.message_id c.issued_at r h)
