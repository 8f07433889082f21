-- ===== src/Services/Records.antt =====
-- The ledger of the execution service over any sequence of messages.
use mathlib.Core.Path.{subst}
use qcg_task.Prelude.{
  String, ◌≡◌, ◌↔◌, ◌∙◌, eq_iff, refl, sym, eq_refl, inl, inr, true, some, List, [], ◌∷◌, arith,
  All, All-append,
}
use qcg_task.Prelude.Json.{Hashing, json_hash}
use qcg_task.Config.{Config}
use qcg_task.Runtime.{Texts}
use qcg_task.Ledger.{
  ExecutionRecord, EvidenceLedger, append, extend_chain, or_keep, empty_ledger, verify_chain,
}
use qcg_task.Ledger.Integrity.{IsSound, append-IsSound, empty_ledger-IsSound}
use qcg_task.Ledger.Provenance.{verify_execution, base_dict}
use qcg_task.Trust.Identity.{Ecdsa}
use qcg_task.Services.Turn.{
  Event, idle, keyless, arrives, pass, System, service_record, turn, turns,
}
use qcg_task.Services.Executed.{Grows, turn-Done}

module _ (cfg : Config) (h : Hashing) (e : Ecdsa) (t : Texts) where
  -- The execution hash is the digest of the identifier.
  abbrev HashesId : ExecutionRecord → Type 0
  HashesId r = r.execution_hash ≡ h.sha256 r.execution_id

  -- A record passes exactly if the text of its identifier and that of its document have one digest.
  abbrev pub PassesByCollision : ExecutionRecord → Type 0
  PassesByCollision r =
      (verify_execution h r ≡ true) ↔ (h.sha256 r.execution_id ≡ h.sha256 (h.dumps (base_dict r)))

  abbrev IsNamed : EvidenceLedger → Type 0
  IsNamed l = IsSound h l × All PassesByCollision l.records

  HashesId-PassesByCollision : (r : ExecutionRecord) → HashesId r → PassesByCollision r
  unfolding verify_execution
  HashesId-PassesByCollision r own =
      let test = eq_iff r.execution_hash (json_hash h (base_dict r)) in
      (λ p. sym own ∙ test.0 p, λ q. test.1 (own ∙ q))

  extend_chain-IsSound :
      (r : ExecutionRecord) (l : EvidenceLedger)
      → r.previous_execution_hash ≡ l.current_head
      → IsSound h l
      → IsSound h (extend_chain h r l)
  unfolding append
  extend_chain-IsSound r l follows sound =
      let taken : or_keep l (append h r l) ≡ extend_chain h r l =
        ground (arith, follows, eq_refl l.current_head) in
      subst (IsSound h) taken (append-IsSound h r l sound)

  grown-IsNamed :
      (exec_id : String) (l l' : EvidenceLedger)
      → Grows cfg h e t exec_id l l'
      → IsNamed l
      → IsNamed l'
  grown-IsNamed exec_id l l' (inl same) u = subst IsNamed (sym same) u
  grown-IsNamed exec_id l l' (inr (c, r, result, grown)) (sound, all) =
      let rec : ExecutionRecord = service_record cfg h e t exec_id c r result l in
      subst IsNamed (sym grown) (
        extend_chain-IsSound rec l refl sound,
        All-append PassesByCollision l.records (rec ∷ []) all
            (HashesId-PassesByCollision rec refl, tt),
      )

  pass-IsNamed : (x : Event) (s : System) → IsNamed s.ledger → IsNamed (pass cfg h e t x s).1.ledger
  pass-IsNamed idle s u = u
  pass-IsNamed keyless s u = u
  pass-IsNamed (arrives w m) s u =
      grown-IsNamed w.exec_id s.ledger (turn cfg h e t w m s).1.ledger (turn-Done cfg h e t w m s).0
        u

  turns-IsNamed :
      (xs : List Event) (s : System) → IsNamed s.ledger → IsNamed (turns cfg h e t xs s).1.ledger
  unfolding turns
  turns-IsNamed [] s u = u
  turns-IsNamed (x ∷ xs) s u = turns-IsNamed xs (pass cfg h e t x s).1 (pass-IsNamed x s u)

  -- The ledger that the execution service builds from an empty one verifies, whatever it meets, and
  -- a record in it passes `verify_execution` exactly if the digest of its identifier is that of the
  -- text of its fields.
  pub turns_verified_iff :
      (xs : List Event) (s : System)
      → s.ledger ≡ empty_ledger h
      → let l = (turns cfg h e t xs s).1.ledger in
        (verify_chain h l ≡ some true)
        × All
            (λ (r : ExecutionRecord).
              (verify_execution h r ≡ true)
              ↔ (h.sha256 r.execution_id ≡ h.sha256 (h.dumps (base_dict r))))
            l.records
  unfolding verify_chain
  turns_verified_iff xs s start =
      let (sound, all) =
        turns-IsNamed xs s (subst IsNamed (sym start) (empty_ledger-IsSound h, tt)) in
      (sound.chained, all)
