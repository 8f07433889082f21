-- ===== src/Replay/Bundle/Passes.antt =====
-- When the verification of a bundle passes.
use Prim.Native.String.{count as text_length}
use qcg_task.Prelude.{
  String, ◌≡◌, refl, sym, ◌∙◌, ◌↔◌, ◌⊎◌, inl, inr, Bool, true, false, Option, none, some, List, [],
  ◌∷◌, ◌==◌, eq_iff, eq_refl, All, arith, Bool-cases,
}
use qcg_task.Prelude.Dict.{Dict}
use qcg_task.Prelude.Json.{Hashing}
use qcg_task.Trust.Identity.{Ecdsa, IsCorrect, NodeSigner}
use qcg_task.Replay.Bundle.Defs.{
  ReplayBundle, ProducerLineage, bundle_signed, payload_signed, pass, Check, signable_state,
  get_text, chain_ok, check_root, check_chain, run_checks, sign, checks, verify,
}

-- Each link starts where the one before it ends.
abbrev pub IsConnected : List (Dict String) → Type 0
IsConnected [] = Unit
IsConnected (a ∷ []) = Unit
IsConnected (a ∷ b ∷ rest) =
    (get_text "to_node" a ≡ get_text "from_node" b) × IsConnected (b ∷ rest)

chain_ok→IsConnected : (ls : List (Dict String)) → chain_ok ls ≡ true → IsConnected ls
unfolding chain_ok
chain_ok→IsConnected [] e = tt
chain_ok→IsConnected (a ∷ []) e = tt
chain_ok→IsConnected (a ∷ b ∷ rest) e = (
  (eq_iff (get_text "to_node" a) (get_text "from_node" b)).0 (ground arith),
  chain_ok→IsConnected (b ∷ rest) (ground arith),
)

IsConnected→chain_ok : (ls : List (Dict String)) → IsConnected ls → chain_ok ls ≡ true
unfolding chain_ok
IsConnected→chain_ok [] c = refl
IsConnected→chain_ok (a ∷ []) c = refl
IsConnected→chain_ok (a ∷ b ∷ rest) c =
    rw ((eq_iff (get_text "to_node" a) (get_text "from_node" b)).1 c.0)
      (IsConnected→chain_ok (b ∷ rest) c.1)

-- A check that is not skipped has succeeded.
abbrev pub Holds : Option Bool → Type 0
Holds none = Unit
Holds (some b) = b ≡ true

run_checks→Holds :
    (cs : List (Check × Option Bool)) → (run_checks cs).0 ≡ pass → All (λ c. Holds c.1) cs
unfolding run_checks
run_checks→Holds [] e = tt
run_checks→Holds ((c, some false) ∷ rest) e = absurd (cc e)
run_checks→Holds ((c, some true) ∷ rest) e = (refl, run_checks→Holds rest e)
run_checks→Holds ((c, none) ∷ rest) e = (tt, run_checks→Holds rest e)

Holds→run_checks :
    (cs : List (Check × Option Bool)) → All (λ c. Holds c.1) cs → (run_checks cs).0 ≡ pass
unfolding run_checks
Holds→run_checks [] all = refl
Holds→run_checks ((c, some false) ∷ rest) all = absurd (cc all.0)
Holds→run_checks ((c, some true) ∷ rest) all = Holds→run_checks rest all.1
Holds→run_checks ((c, none) ∷ rest) all = Holds→run_checks rest all.1

check_root_iff : (root : String) → Holds (check_root root) ↔ ((root ≡ "") ⊎ (text_length root ≡ 64))
check_root_iff root = elim (Bool-cases (root == "")) [
  | inl empty ↦ (λ x. inl ((eq_iff root "").0 empty), λ x. rw empty tt)
  | inr filled ↦ (
    λ x. inr (ground (arith, filled, x)),
    λ x. elim x [
      | inl empty ↦ absurd (ground (arith, filled, (eq_iff root "").1 empty))
      | inr size ↦ rw filled (ground (arith, size))
    ],
  )
]

check_chain_iff : (ls : List (Dict String)) → Holds (check_chain ls) ↔ IsConnected ls
check_chain_iff [] = (λ x. tt, λ x. tt)
check_chain_iff (l ∷ ls) = (chain_ok→IsConnected (l ∷ ls), IsConnected→chain_ok (l ∷ ls))

module _ (h : Hashing) (e : Ecdsa) where
  pub record IsWhole (gateway_key producer_key : String) (b : ReplayBundle) : Type 0 where
    pub signed : e.verify gateway_key b.bundle_signature (h.dumps (signable_state b)) ≡ true
    pub produced :
        e.verify producer_key b.producer_lineage.producer_signature b.producer_lineage.payload_hash
        ≡ true
    pub agreed : b.consensus_lineage.consensus_reached ≡ true
    pub rooted : (b.audit_trail_root ≡ "") ⊎ (text_length b.audit_trail_root ≡ 64)
    pub connected : IsConnected b.trust_chain

  bundle_signed_lem :
      (key : String) (b : ReplayBundle)
      → bundle_signed h e key b ≡ e.verify key b.bundle_signature (h.dumps (signable_state b))
  bundle_signed_lem key b = rw (eq_refl (h.sha256 (h.dumps (signable_state b)))) refl

  payload_signed_lem :
      (key : String) (p : ProducerLineage)
      → payload_signed h e key p ≡ e.verify key p.producer_signature p.payload_hash
  payload_signed_lem key p = rw (eq_refl (h.sha256 p.payload_hash)) refl

  -- The verification of a bundle passes exactly if the gateway's key verifies the signature of the
  -- whole bundle, the producer's key that of the payload hash, consensus was reached, each link of the
  -- trust chain starts where the one before ends, and the audit root is empty or has 64 characters,
  -- whichever they are.
  pub verify_passes_iff :
      (gateway_key producer_key : String) (b : ReplayBundle)
      → ((verify h e gateway_key producer_key b).verification_status ≡ pass)
        ↔ IsWhole gateway_key producer_key b
  unfolding verify
  verify_passes_iff gateway_key producer_key b = (
    λ passed.
        let all = run_checks→Holds (checks h e gateway_key producer_key b) passed in
        record {
          signed = sym (bundle_signed_lem gateway_key b) ∙ all.0;
          produced = sym (payload_signed_lem producer_key b.producer_lineage) ∙ all.1.0;
          agreed = all.1.1.0;
          rooted = (check_root_iff b.audit_trail_root).0 all.1.1.1.0;
          connected = (check_chain_iff b.trust_chain).0 all.1.1.1.1.0;
        },
    λ whole. Holds→run_checks (checks h e gateway_key producer_key b) (
      bundle_signed_lem gateway_key b ∙ whole.signed,
      (
        payload_signed_lem producer_key b.producer_lineage ∙ whole.produced,
        (
          whole.agreed,
          (
            (check_root_iff b.audit_trail_root).1 whole.rooted,
            ((check_chain_iff b.trust_chain).1 whole.connected, tt),
          ),
        ),
      ),
    ),
  )

  -- A bundle that the gateway signs passes under the gateway's key, whatever the signature and the
  -- status before, when the signature scheme is correct and the other conditions hold: the producer
  -- has signed the payload hash, consensus was reached, the audit root is empty or has 64 characters
  -- and the links of the trust chain are connected.
  pub signed_bundle_passes :
      IsCorrect e
      → (s : NodeSigner) (producer_key : String) (b : ReplayBundle)
      → s.identity.public_key ≡ e.public_key s.private_key
      → e.verify producer_key b.producer_lineage.producer_signature b.producer_lineage.payload_hash
        ≡ true
      → b.consensus_lineage.consensus_reached ≡ true
      → (b.audit_trail_root ≡ "") ⊎ (text_length b.audit_trail_root ≡ 64)
      → IsConnected b.trust_chain
      → (verify h e s.identity.public_key producer_key (sign h e s b)).verification_status ≡ pass
  unfolding sign signable_state
  signed_bundle_passes ec s producer_key b own produced agreed rooted connected =
      (verify_passes_iff s.identity.public_key producer_key (sign h e s b)).1 (record {
        signed = rw own (ec.verifies s.private_key (h.dumps (signable_state b)));
        produced = produced;
        agreed = agreed;
        rooted = rooted;
        connected = connected;
      })
