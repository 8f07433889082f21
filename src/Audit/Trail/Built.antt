-- ===== src/Audit/Trail/Built.antt =====
-- The trail that calls of `append` build: its tree against `_build_merkle_tree`, and its checks.
use mathlib.Core.List.{append-nil, append_assoc}
use qcg_task.Prelude.{
  ℕ, suc, ◌+◌, String, ◌≡◌, refl, ◌∙◌, some, List, [], ◌∷◌, ◌++◌, map, arith, sym, ap, length,
  length-append,
}
use qcg_task.Prelude.Json.{Hashing, json_hash}
use qcg_task.Audit.Merkle.{build_merkle_tree}
use qcg_task.Audit.Trail.Update.{rebuild_tree}
use qcg_task.Audit.Trail.Levels.{Builds, Builds-build_merkle_tree}
use qcg_task.Audit.Trail.Grown.{rebuild_tree-Builds}
use qcg_task.Audit.Trail.Numbers.{Numbered, Numbered-append}
use qcg_task.Audit.Trail.Defs.{
  AuditEntry, AuditTrail, Event, empty_trail, merkle_parent, leaf_hash, new_entry, append,
  append_all,
}

map-append_one :
    (f : AuditEntry → String) (es : List AuditEntry) (e : AuditEntry)
    → map f (es ++ e ∷ []) ≡ map f es ++ f e ∷ []
map-append_one f [] e = refl
map-append_one f (x ∷ es) e = cc (map-append_one f es e)

length-leaves : (f : AuditEntry → String) (es : List AuditEntry) → length (map f es) ≡ length es
length-leaves f [] = refl
length-leaves f (x ∷ es) = cc (length-leaves f es)

module _ (h : Hashing) where
  abbrev leaves : List AuditEntry → List String
  leaves es = map (leaf_hash h) es

  -- The levels are those over the entries' leaves; a trail without entries has none.
  abbrev pub HasTree : List AuditEntry → List (List String) → Type 0
  HasTree [] tree = tree ≡ []
  HasTree (e ∷ es) tree = Builds (merkle_parent h) (leaves (e ∷ es)) tree

  -- What every trail satisfies that `append` built.
  abbrev pub IsBuilt : AuditTrail → Type 0
  IsBuilt t = Numbered 0 t.entries × HasTree t.entries t.tree

  HasTree-append :
      (es : List AuditEntry) (e : AuditEntry) (tree : List (List String))
      → HasTree es tree
      → (grown : List (List String)) × (rebuild_tree
            (merkle_parent h)
            (length es)
            (leaf_hash h e)
            tree
          ≡ some grown)
        × HasTree (es ++ e ∷ []) grown
  unfolding rebuild_tree
  HasTree-append [] e tree none_yet = ((leaf_hash h e ∷ []) ∷ [], rw none_yet refl, (refl, refl))
  HasTree-append (x ∷ es) e tree b =
      let (grown, gives, levels) =
        rebuild_tree-Builds (merkle_parent h) (leaves (x ∷ es)) (leaf_hash h e) tree b in
      (
        grown,
        rw (sym (length-leaves (leaf_hash h) (x ∷ es))) gives,
        rw (map-append_one (leaf_hash h) (x ∷ es) e) levels,
      )

  -- An event is always appended, under the next number.
  append-IsBuilt :
      (t : AuditTrail) (v : Event)
      → IsBuilt t
      → (next : AuditTrail) × (append h t v ≡ some (next, new_entry h t v))
        × (next.entries ≡ t.entries ++ new_entry h t v ∷ [])
        × IsBuilt next
  unfolding append
  append-IsBuilt t v built =
      let (grown, gives, levels) = HasTree-append t.entries (new_entry h t v) t.tree built.1 in
      (
        record { entries = t.entries ++ new_entry h t v ∷ []; tree = grown },
        rw gives refl,
        refl,
        (Numbered-append 0 t.entries (new_entry h t v) built.0 (omega arith), levels),
      )

  -- The entries that the events lead to, numbered from `i` on.
  abbrev pub logged : ℕ → List Event → List AuditEntry
  logged i [] = []
  logged i (v ∷ vs) =
      record {
        sequence = i;
        event_type = v.event_type;
        event_hash = json_hash h v.event_data;
        node_id = v.node_id;
        event_data = v.event_data;
      }
      ∷ logged (suc i) vs

  one_more : (n : ℕ) → n + 1 ≡ suc n
  one_more n = omega arith

  pub HasTree-build_merkle_tree :
      (es : List AuditEntry) (tree : List (List String))
      → HasTree es tree
      → build_merkle_tree (merkle_parent h) (map (leaf_hash h) es) ≡ some tree
  unfolding build_merkle_tree
  HasTree-build_merkle_tree [] tree b = ap some (sym b)
  HasTree-build_merkle_tree (e ∷ es) tree b =
      Builds-build_merkle_tree (merkle_parent h) (leaves (e ∷ es)) tree b

  pub append_all-logged :
      (t : AuditTrail) (events : List Event)
      → IsBuilt t
      → (next : AuditTrail) × (append_all h t events ≡ some next)
        × (next.entries ≡ t.entries ++ logged (length t.entries) events)
        × IsBuilt next
  unfolding append_all
  append_all-logged t [] built = (t, refl, sym (append-nil t.entries), built)
  append_all-logged t (v ∷ vs) built =
      let (first, gives, entries, still) = append-IsBuilt t v built in
      let (last, more, all, whole) = append_all-logged first vs still in
      (
        last,
        rw gives more,
        all
            ∙ (rw entries (
                rw (length-append t.entries (new_entry h t v ∷ []), one_more (length t.entries))
                  (append_assoc t.entries (new_entry h t v ∷ [])
                    (logged (suc (length t.entries)) vs)))),
        whole,
      )

  -- Appending events to an empty trail never fails. The trail then has one entry for each event, in
  -- their order and numbered from 0, and its tree, which each call updated in place, is the one that
  -- `_build_merkle_tree` gives for the leaves of these entries.
  pub append_all-build_merkle_tree :
      (events : List Event)
      → (t : AuditTrail) × (append_all h empty_trail events ≡ some t)
        × (t.entries ≡ logged 0 events)
        × (build_merkle_tree (merkle_parent h) (map (leaf_hash h) t.entries) ≡ some t.tree)
  append_all-build_merkle_tree events =
      let (t, gives, entries, built) = append_all-logged empty_trail events (tt, refl) in
      (t, gives, entries, HasTree-build_merkle_tree t.entries t.tree built.1)
