-- ===== src/Audit/Trail/Checks.antt =====
-- `verify_integrity` and `verify_inclusion` on the trails that `append` built, and what they leave out.
use qcg_task.Prelude.{
  ℕ, zero, suc, ◌+◌, ◌<◌, String, ◌≡◌, refl, true, some, List, [], ◌∷◌, map, arith, ap, length,
  eq_refl,
}
use qcg_task.Prelude.Json.{Json, Hashing}
use qcg_task.Audit.Merkle.{Side, item, merkle_proof, verify_merkle_proof, root_hash}
use qcg_task.Audit.Inclusion.{proof-verifies, ltb-true}
use qcg_task.Audit.Trail.Numbers.{Numbered, Numbered-gaps_from, Numbered-has_duplicates}
use qcg_task.Audit.Trail.Built.{HasTree, IsBuilt, HasTree-build_merkle_tree, append_all-logged}
use qcg_task.Audit.Trail.Defs.{
  AuditEntry, AuditTrail, Event, empty_trail, gaps_from, numbered, has_duplicates, root_errors,
  entry_at, merkle_parent, leaf_hash, append_all, check_stored, verify_inclusion, errors_of,
  verify_integrity,
}

root_errors_none : (tree : List (List String)) → root_errors tree (root_hash tree) ≡ []
root_errors_none [] = refl
root_errors_none (level ∷ rest) = rw (eq_refl (root_hash (level ∷ rest))) refl

entry_at-length :
    (i : ℕ) (es : List AuditEntry) (e : AuditEntry) → entry_at i es ≡ some e → i < length es
unfolding entry_at
entry_at-length i [] e found = cc
entry_at-length zero (x ∷ es) e found = omega arith
entry_at-length (suc i) (x ∷ es) e found = omega (arith, entry_at-length i es e found)

entry_at-sequence :
    (i k : ℕ) (es : List AuditEntry) (e : AuditEntry)
    → Numbered k es
    → entry_at i es ≡ some e
    → e.sequence ≡ k + i
unfolding entry_at
entry_at-sequence i k [] e n found = cc
entry_at-sequence zero k (x ∷ es) e n found = ground (arith, n.0)
entry_at-sequence (suc i) k (x ∷ es) e n found =
    omega (arith, entry_at-sequence i (suc k) es e n.1 found)

entry_at-item :
    (f : AuditEntry → String) (i : ℕ) (es : List AuditEntry) (e : AuditEntry)
    → entry_at i es ≡ some e
    → item i (map f es) ≡ some (f e)
unfolding entry_at item
entry_at-item f i [] e found = cc
entry_at-item f zero (x ∷ es) e found = cc
entry_at-item f (suc i) (x ∷ es) e found = entry_at-item f i es e found

-- Puts other data into the entries.
abbrev pub with_data : (AuditEntry → Json) → List AuditEntry → List AuditEntry
with_data f [] = []
with_data f (e ∷ es) = record e { event_data = f e } ∷ with_data f es

module _ (h : Hashing) where
  errors_of_built :
      (es : List AuditEntry) (tree : List (List String))
      → Numbered 0 es
      → HasTree h es tree
      → errors_of h es tree ≡ some []
  unfolding errors_of
  errors_of_built es tree n b =
      rw
        (
          HasTree-build_merkle_tree h es tree b,
          Numbered-gaps_from 0 es n,
          Numbered-has_duplicates 0 es n,
          root_errors_none tree,
        )
        refl

  passes_without :
      (es : List AuditEntry) (tree : List (List String))
      → errors_of h es tree ≡ some []
      → verify_integrity h (record { entries = es; tree = tree }) ≡ some (true, [])
  unfolding verify_integrity
  passes_without [] tree none_found = refl
  passes_without (e ∷ es) tree none_found = rw none_found refl

  stored_verifies :
      (t : AuditTrail) (e : AuditEntry) (steps : List (String × Side))
      → merkle_proof t.tree e.sequence ≡ some steps
      → verify_merkle_proof (merkle_parent h) (leaf_hash h e) steps (root_hash t.tree) ≡ true
      → check_stored h t e e ≡ some true
  stored_verifies t e steps proved verified = rw (eq_refl (leaf_hash h e), proved, verified) refl

  built_includes :
      (t : AuditTrail) (i : ℕ) (e : AuditEntry)
      → IsBuilt h t
      → entry_at i t.entries ≡ some e
      → verify_inclusion h t e ≡ some true
  unfolding verify_inclusion
  built_includes t i e built found =
      let at : e.sequence ≡ i = omega (arith, entry_at-sequence i 0 t.entries e built.0 found) in
      let (tree, steps, builds, proved, verified) =
        proof-verifies (merkle_parent h) (map (leaf_hash h) t.entries) i (leaf_hash h e)
          (entry_at-item (leaf_hash h) i t.entries e found) in
      let same : merkle_proof t.tree e.sequence ≡ some steps =
        cc (at, builds, proved, HasTree-build_merkle_tree h t.entries t.tree built.1) in
      let root : verify_merkle_proof (merkle_parent h) (leaf_hash h e) steps (root_hash t.tree)
          ≡ true =
        cc (builds, verified, HasTree-build_merkle_tree h t.entries t.tree built.1) in
      let here : entry_at e.sequence t.entries ≡ some e = cc (at, found) in
      rw
        (ltb-true e.sequence (length t.entries) (entry_at-length e.sequence t.entries e here), here)
        (stored_verifies t e steps same root)

  -- After any calls of `append` on an empty trail `verify_integrity` passes without an error, and
  -- `verify_inclusion` is true for every entry.
  pub appended_verifies :
      (events : List Event)
      → (t : AuditTrail) × (append_all h empty_trail events ≡ some t)
        × (verify_integrity h t ≡ some (true, []))
        × ((i : ℕ) (e : AuditEntry)
            → entry_at i t.entries ≡ some e
            → verify_inclusion h t e ≡ some true)
  appended_verifies events =
      let (t, gives, _, built) = append_all-logged h empty_trail events (tt, refl) in
      (
        t,
        gives,
        passes_without t.entries t.tree (errors_of_built t.entries t.tree built.0 built.1),
        λ i e found. built_includes t i e built found,
      )

  numbered-with_data :
      (f : AuditEntry → Json) (s : ℕ) (es : List AuditEntry)
      → numbered s (with_data f es) ≡ numbered s es
  unfolding numbered
  numbered-with_data f s [] = refl
  numbered-with_data f s (e ∷ es) = cc (numbered-with_data f s es)

  has_duplicates-with_data :
      (f : AuditEntry → Json) (es : List AuditEntry)
      → has_duplicates (with_data f es) ≡ has_duplicates es
  unfolding has_duplicates
  has_duplicates-with_data f [] = refl
  has_duplicates-with_data f (e ∷ es) =
      cc (numbered-with_data f e.sequence es, has_duplicates-with_data f es)

  gaps_from-with_data :
      (f : AuditEntry → Json) (i : ℕ) (es : List AuditEntry)
      → gaps_from i (with_data f es) ≡ gaps_from i es
  unfolding gaps_from
  gaps_from-with_data f i [] = refl
  gaps_from-with_data f i (e ∷ es) = cc (gaps_from-with_data f (suc i) es)

  leaves-with_data :
      (f : AuditEntry → Json) (es : List AuditEntry)
      → map (leaf_hash h) (with_data f es) ≡ map (leaf_hash h) es
  unfolding leaf_hash
  leaves-with_data f [] = refl
  leaves-with_data f (e ∷ es) = ap (◌∷◌ (leaf_hash h e)) (leaves-with_data f es)

  errors_of-with_data :
      (f : AuditEntry → Json) (es : List AuditEntry) (tree : List (List String))
      → errors_of h (with_data f es) tree ≡ errors_of h es tree
  unfolding errors_of
  errors_of-with_data f es tree =
      rw (leaves-with_data f es, gaps_from-with_data f 0 es, has_duplicates-with_data f es) refl

  passes-with_data :
      (f : AuditEntry → Json) (es : List AuditEntry) (tree : List (List String))
      → verify_integrity h (record { entries = with_data f es; tree = tree })
        ≡ verify_integrity h (record { entries = es; tree = tree })
  unfolding verify_integrity
  passes-with_data f [] tree = refl
  passes-with_data f (e ∷ es) tree = rw (errors_of-with_data f (e ∷ es) tree) refl

  -- `verify_integrity` does not see the data of the events: over any trail, entries whose data was
  -- replaced get the same answer.
  pub verify_integrity_data :
      (t : AuditTrail) (f : AuditEntry → Json)
      → verify_integrity h (record t { entries = with_data f t.entries }) ≡ verify_integrity h t
  verify_integrity_data t f = passes-with_data f t.entries t.tree
