-- ===== src/Trust/Chain/Custody.antt =====
-- trust_chain.py: what `verify_chain` checks, and the chains that signers hand on.
use qcg_task.Prelude.{
  ℕ, suc, String, ◌≡◌, refl, ◌↔◌, true, Option, none, some, List, [], ◌∷◌, ◌++◌, All, eq_iff,
  eq_refl, arith, Option-cases, inl, inr,
}
use mathlib.Core.Path.{subst}
use qcg_task.Prelude.Dict.{lookup}
use qcg_task.Prelude.Json.{Hashing}
use qcg_task.Trust.Identity.{Ecdsa, IsCorrect, NodeIdentity, NodeSigner, payload_text}
use qcg_task.Trust.Chain.Defs.{
  NodeRegistry, TrustChainLink, ChainError, link_data, link_errors, check_links, verify_chain,
  handoff, passed,
}

abbrev pub Meets : Option TrustChainLink → TrustChainLink → Type 0
Meets none l = Unit
Meets (some prev) l = prev.to_node ≡ l.from_node

-- Each link starts where the link before it ended.
abbrev pub IsContiguous : Option TrustChainLink → List TrustChainLink → Type 0
IsContiguous prev [] = Unit
IsContiguous prev (l ∷ ls) = Meets prev l × IsContiguous (some l) ls

module _ (h : Hashing) (e : Ecdsa) where
  -- The artifact that is handed from signer to signer, each time for an action.
  abbrev pub hand_on : NodeSigner → List (NodeSigner × String × String) → List TrustChainLink
  hand_on holder [] = []
  hand_on holder ((next, action, payload_hash) ∷ hops) =
      handoff h e holder next.identity action payload_hash ∷ hand_on next hops

module _ (h : Hashing) (e : Ecdsa) (nodes : NodeRegistry) where
  -- The sender is registered and its registered key verifies the signature of the link's data.
  abbrev pub IsAuthentic : TrustChainLink → Type 0
  IsAuthentic l =
      (sender : NodeIdentity) × (lookup l.from_node nodes ≡ some sender)
      × (e.verify sender.public_key l.signature (payload_text h (link_data l)) ≡ true)

  -- A registered sender's link without errors is signed and starts where the previous one ended.
  link_errors_sound :
      (i : ℕ) (prev : Option TrustChainLink) (l : TrustChainLink) (sender : NodeIdentity)
      (rest : List ChainError)
      → passed (link_errors h e i prev l (some sender) ++ rest) ≡ true
      → (e.verify sender.public_key l.signature (payload_text h (link_data l)) ≡ true)
        × Meets prev l
        × (passed rest ≡ true)
  link_errors_sound i none l sender rest p = (ground arith, tt, ground arith)
  link_errors_sound i (some prev) l sender rest p =
      (ground arith, (eq_iff prev.to_node l.from_node).0 (ground arith), ground arith)

  link_errors_complete :
      (i : ℕ) (prev : Option TrustChainLink) (l : TrustChainLink) (sender : NodeIdentity)
      → e.verify sender.public_key l.signature (payload_text h (link_data l)) ≡ true
      → Meets prev l
      → link_errors h e i prev l (some sender) ≡ []
  link_errors_complete i none l sender verified m =
      rw (eq_refl (h.sha256 (payload_text h (link_data l))), verified) refl
  link_errors_complete i (some prev) l sender verified m =
      rw
        (
          eq_refl (h.sha256 (payload_text h (link_data l))),
          verified,
          (eq_iff prev.to_node l.from_node).1 m,
        )
        refl

  check_links_sound :
      (i : ℕ) (prev : Option TrustChainLink) (ls : List TrustChainLink)
      → passed (check_links h e nodes i prev ls) ≡ true
      → All IsAuthentic ls × IsContiguous prev ls
  unfolding check_links
  check_links_sound i prev [] p = (tt, tt)
  check_links_sound i prev (l ∷ ls) p = elim (Option-cases (lookup l.from_node nodes)) [
    | inl missing ↦ absurd (ground (arith, missing))
    | inr (sender, found) ↦
        let later = check_links h e nodes (suc i) (some l) ls in
        let clean =
          link_errors_sound i prev l sender later
            (subst (λ o. passed (link_errors h e i prev l o ++ later) ≡ true) found p) in
        let rest = check_links_sound (suc i) (some l) ls clean.2 in
        (((sender, found, clean.0), rest.0), (clean.1, rest.1))
  ]

  check_links_complete :
      (i : ℕ) (prev : Option TrustChainLink) (ls : List TrustChainLink)
      → All IsAuthentic ls
      → IsContiguous prev ls
      → check_links h e nodes i prev ls ≡ []
  unfolding check_links
  check_links_complete i prev [] a c = refl
  check_links_complete i prev (l ∷ ls) ((sender, found, verified), a) (meets, c) =
      rw (found, link_errors_complete i prev l sender verified meets)
        (check_links_complete (suc i) (some l) ls a c)

  -- A chain passes exactly when every sender is registered, every registered key verifies the
  -- signature of its link, and each link starts where the one before it ended.
  pub verify_chain_iff :
      (ls : List TrustChainLink)
      → ((verify_chain h e nodes ls).0 ≡ true) ↔ (All IsAuthentic ls × IsContiguous none ls)
  unfolding verify_chain
  verify_chain_iff ls = (
    λ p. check_links_sound 0 none ls p,
    λ both. rw (check_links_complete 0 none ls both.0 both.1) refl,
  )

  -- The node is registered with the public half of the key that it signs with.
  pub record IsEnrolled (s : NodeSigner) : Type 0 where
    pub listed : lookup s.identity.node_id nodes ≡ some s.identity
    pub own_key : s.identity.public_key ≡ e.public_key s.private_key

  hand_on-IsAuthentic :
      IsCorrect e
      → (holder : NodeSigner) (hops : List (NodeSigner × String × String)) → IsEnrolled holder
      → All (λ hop. IsEnrolled hop.0) hops
      → All IsAuthentic (hand_on h e holder hops)
  hand_on-IsAuthentic ec holder [] en all = tt
  hand_on-IsAuthentic ec holder ((next, action, payload_hash) ∷ hops) en all = (
    (holder.identity, en.listed, rw en.own_key (ec.verifies holder.private_key _)),
    hand_on-IsAuthentic ec next hops all.0 all.1,
  )

  hand_on-IsContiguous :
      (holder : NodeSigner) (hops : List (NodeSigner × String × String)) (l : TrustChainLink)
      → l.to_node ≡ holder.identity.node_id
      → IsContiguous (some l) (hand_on h e holder hops)
  hand_on-IsContiguous holder [] l m = tt
  hand_on-IsContiguous holder ((next, action, payload_hash) ∷ hops) l m = (
    m,
    hand_on-IsContiguous next hops (handoff h e holder next.identity action payload_hash) refl,
  )

  -- With a correct signature scheme, what enrolled nodes hand from one to the next is a chain that
  -- passes, and no error is reported.
  pub honest_chain_passes :
      IsCorrect e
      → (holder : NodeSigner) (hops : List (NodeSigner × String × String)) → IsEnrolled holder
      → All (λ hop. IsEnrolled hop.0) hops
      → verify_chain h e nodes (hand_on h e holder hops) ≡ (true, [])
  unfolding verify_chain
  honest_chain_passes ec holder [] en all = refl
  honest_chain_passes ec holder ((next, action, payload_hash) ∷ hops) en all =
      rw
        (check_links_complete 0 none (hand_on h e holder ((next, action, payload_hash) ∷ hops))
          (hand_on-IsAuthentic ec holder ((next, action, payload_hash) ∷ hops) en all)
          (
            tt,
            hand_on-IsContiguous next hops (handoff h e holder next.identity action payload_hash)
                refl,
          ))
        refl
