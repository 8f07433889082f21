-- ===== src/Audit/Trail/Tests.antt =====
-- A trail of five events, under hashing that keeps its input.
use qcg_task.Prelude.{ℕ, ◌≡◌, refl, true, some, List, [], ◌∷◌, map}
use qcg_task.Prelude.Json.{obj, done}
use qcg_task.Samples.{plain}
use qcg_task.Audit.Merkle.{build_merkle_tree, root_hash}
use qcg_task.Audit.Trail.Update.{rebuild_tree}
use qcg_task.Audit.Trail.Built.{logged, append_all-build_merkle_tree}
use qcg_task.Audit.Trail.Checks.{appended_verifies}
use qcg_task.Audit.Trail.Defs.{
  AuditTrail, AuditEntry, Event, gap, empty_trail, entry_at, gaps_from, has_duplicates,
  merkle_parent, leaf_hash, append_all, verify_inclusion, verify_integrity,
}

abbrev event : Event
event = record { event_type = "EVENT"; event_data = obj done; node_id = "NODE_A" }

abbrev events : List Event
events = event ∷ event ∷ event ∷ []

append_all-build_merkle_tree_example :
    (t : AuditTrail) × (append_all plain empty_trail events ≡ some t)
    × (t.entries ≡ logged plain 0 events)
    × (build_merkle_tree (merkle_parent plain) (map (leaf_hash plain) t.entries) ≡ some t.tree)
append_all-build_merkle_tree_example = append_all-build_merkle_tree plain events

appended_verifies_example :
    (t : AuditTrail) × (append_all plain empty_trail events ≡ some t)
    × (verify_integrity plain t ≡ some (true, []))
    × ((i : ℕ) (e : AuditEntry)
        → entry_at i t.entries ≡ some e
        → verify_inclusion plain t e ≡ some true)
appended_verifies_example = appended_verifies plain events

abbrev trail : AuditTrail
trail = record { entries = logged plain 0 (event ∷ []); tree = ("document" ∷ []) ∷ [] }

trail_passes : verify_integrity plain trail ≡ some (true, [])
unfolding verify_integrity build_merkle_tree gaps_from has_duplicates root_hash leaf_hash
trail_passes = refl

-- the update in place, from three leaves to five
levels_of_five :
    rebuild_tree
      (λ a b. a)
      3
      "d"
      (("a" ∷ "b" ∷ "c" ∷ "c" ∷ []) ∷ ("a" ∷ "c" ∷ []) ∷ ("a" ∷ []) ∷ [])
    ≡ some (("a" ∷ "b" ∷ "c" ∷ "d" ∷ []) ∷ ("a" ∷ "c" ∷ []) ∷ ("a" ∷ []) ∷ [])
unfolding rebuild_tree
levels_of_five = refl

gap_found : gaps_from 1 trail.entries ≡ gap 1 0 ∷ []
unfolding gaps_from
gap_found = refl
