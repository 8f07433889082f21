-- ===== src/Replay/Registry/Restart.antt =====
-- replay_registry.py: the file, and the registry that is opened from it again.
use qcg_task.Prelude.{
  String, ◌≡◌, ap, ◌∙◌, Option, some, List, [], ◌∷◌, arith, Option-cases, Bool-cases, ◌+◌, inl, inr,
}
use qcg_task.Prelude.Int.{ℤ, pos, ltb_ℤ, ◌-ℤ◌}
use qcg_task.Prelude.Dict.{lookup, insert}
use qcg_task.Replay.Registry.File.{
  Loaded, crashed, started_fresh, left_out, loaded, load_document, load_document-snapshot_json,
}
use qcg_task.Replay.Registry.Defs.{
  ReplayRegistry, FileContent, missing, blank, corrupt, document, persist, fill, load, new_registry,
  new_entry, Call, issue_time, accept, register, submit, submit_all, open_registry, reset,
}

-- The process ends, and a new one opens the same path with the same settings.
abbrev pub restart : ReplayRegistry → Option ReplayRegistry
restart r = open_registry r.disk r.ttl r.max_gap

abbrev pub IsDurable : ReplayRegistry → Type 0
IsDurable r = restart r ≡ some r

-- Loading leaves the settings and the file.
fill_base :
    (l : Loaded) (r r' : ReplayRegistry)
    → fill l r ≡ some r'
    → new_registry r'.disk r'.ttl r'.max_gap ≡ new_registry r.disk r.ttl r.max_gap
fill_base crashed r r' e = absurd (cc e)
fill_base left_out r r' e = absurd (cc e)
fill_base started_fresh r r' e = ground (arith, e)
fill_base (loaded n es) r r' e = ground (arith, e)

load_base :
    (file : FileContent) (r r' : ReplayRegistry)
    → load file r ≡ some r'
    → new_registry r'.disk r'.ttl r'.max_gap ≡ new_registry r.disk r.ttl r.max_gap
unfolding load
load_base missing r r' e = ground (arith, e)
load_base blank r r' e = ground (arith, e)
load_base corrupt r r' e = ground (arith, e)
load_base (document d) r r' e = fill_base (load_document d) r r' e

open_registry-IsDurable :
    (file : FileContent) (ttl gap : ℤ) (r : ReplayRegistry)
    → open_registry file ttl gap ≡ some r
    → IsDurable r
unfolding open_registry
open_registry-IsDurable file ttl gap r e =
    ap (λ (x : ReplayRegistry). open_registry x.disk x.ttl x.max_gap)
      (load_base file (new_registry file ttl gap) r e)
    ∙ e

persist-IsDurable : (r : ReplayRegistry) → IsDurable (persist r)
unfolding open_registry load
persist-IsDurable r =
    ap (λ l. fill l (new_registry (persist r).disk r.ttl r.max_gap))
      (load_document-snapshot_json r.sequence_counter r.entries)

accept-IsDurable :
    (id : String) (t : ℤ) (r : ReplayRegistry) → IsDurable r → IsDurable (accept id t r).1
unfolding accept
accept-IsDurable id t r h =
    elim (Bool-cases (ltb_ℤ r.max_gap (pos (r.sequence_counter + 1) -ℤ pos r.sequence_counter))) [
      | inl far ↦ rw far h
      | inr near ↦ rw near (
          persist-IsDurable (record r {
            sequence_counter = r.sequence_counter + 1;
            entries = insert id (new_entry id t r) r.entries;
          }))
    ]

register-IsDurable :
    (id : String) (t : ℤ) (r : ReplayRegistry)
    → IsDurable r
    → IsDurable (register id t (lookup id r.entries) r).1
unfolding register
register-IsDurable id t r h = elim (Option-cases (lookup id r.entries)) [
  | inl fresh ↦ rw fresh (accept-IsDurable id t r h)
  | inr (e, known) ↦ rw known h
]

submit-IsDurable :
    (now : ℤ) (id : String) (issued : Option ℤ) (r : ReplayRegistry)
    → IsDurable r
    → IsDurable (submit now id issued r).1
unfolding submit
submit-IsDurable now id issued r h =
    ground (arith, register-IsDurable id (issue_time now issued) r h)

submit_all-IsDurable :
    (cs : List Call) (r : ReplayRegistry) → IsDurable r → IsDurable (submit_all cs r)
unfolding submit_all
submit_all-IsDurable [] r h = h
submit_all-IsDurable (c ∷ cs) r h =
    submit_all-IsDurable cs (submit c.now c.message_id c.issued_at r).1
      (submit-IsDurable c.now c.message_id c.issued_at r h)

-- Where a registry can be opened on a file, which excludes a document that ends the program and one
-- with values of other types than those that are written, and whatever calls of `submit` follow: a
-- restart reads back the same registry, entries, counter, settings and file.
pub restart_id :
    (file : FileContent) (ttl gap : ℤ) (cs : List Call) (r : ReplayRegistry)
    → open_registry file ttl gap ≡ some r
    → restart (submit_all cs r) ≡ some (submit_all cs r)
restart_id file ttl gap cs r opened =
    submit_all-IsDurable cs r (open_registry-IsDurable file ttl gap r opened)

-- `reset` writes the empty registry to the file, so it survives a restart too.
pub reset-IsDurable : (r : ReplayRegistry) → IsDurable (reset r)
unfolding reset
reset-IsDurable r = persist-IsDurable (record r { entries = []; sequence_counter = 0 })
