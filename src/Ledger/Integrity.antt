-- ===== src/Ledger/Integrity.antt =====
-- evidence_ledger.py: `verify_chain` on the chains that `append` builds, and on two chains with one head.
use Prim.Native.String.{◌++◌ as join, count}
use text.Mathlib.TextLemmas.{append_inj}
use qcg_task.Prelude.{
  String, ◌≡◌, refl, sym, ◌∙◌, inl, inr, true, false, some, List, [], ◌∷◌, ◌++◌, eq_iff, eq_refl,
  arith, length, length-append, Bool-cases, All,
}
use qcg_task.Prelude.Json.{Hashing}
use qcg_task.Ledger.Defs.{
  ExecutionRecord, EvidenceLedger, hash_pair, genesis, empty_ledger, breaks_from, append, walk,
  verify_chain, append_all, or_keep,
}

abbrev pub hashes_of : List ExecutionRecord → List String
hashes_of [] = []
hashes_of (r ∷ rs) = r.execution_hash ∷ hashes_of rs

module _ (h : Hashing) where
  -- One more record that fits the head keeps a walk good, up to the new head.
  walk-append :
      (last head : String) (rs : List ExecutionRecord) (es : List String) (r : ExecutionRecord)
      → walk h last head rs es ≡ some true
      → length rs ≡ length es
      → breaks_from last r ≡ false
      → walk h
          (hash_pair h last r.execution_hash)
          head
          (rs ++ r ∷ [])
          (es ++ hash_pair h last r.execution_hash ∷ [])
        ≡ some true
  unfolding walk
  walk-append last head [] [] r w n fits =
      let same = (eq_iff head last).0 (cc w) in rw (same, fits) (simp eq_refl)
  walk-append last head [] (e ∷ es) r w n fits = absurd (omega arith)
  walk-append last head (x ∷ rs) [] r w n fits = absurd (omega arith)
  walk-append last head (x ∷ rs) (e ∷ es) r w n fits =
      ground (arith, walk-append last (hash_pair h head x.execution_hash) rs es r)

  pub record IsSound (l : EvidenceLedger) : Type 0 where
    pub chained : walk h l.current_head (genesis h) l.records l.evidence_hashes ≡ some true
    pub paired : length l.records ≡ length l.evidence_hashes

  pub empty_ledger-IsSound : IsSound (empty_ledger h)
  unfolding walk
  empty_ledger-IsSound = record { chained = simp eq_refl; paired = refl }

  pub append-IsSound :
      (r : ExecutionRecord) (l : EvidenceLedger) → IsSound l → IsSound (or_keep l (append h r l))
  unfolding append
  append-IsSound r l s = elim (Bool-cases (breaks_from l.current_head r)) [
    | inl bad ↦ rw bad s
    | inr fits ↦ rw fits (record {
      chained =
          walk-append l.current_head (genesis h) l.records l.evidence_hashes r s.chained s.paired
            fits;
      paired = omega (
        arith,
        length-append l.records (r ∷ []),
        length-append l.evidence_hashes (hash_pair h l.current_head r.execution_hash ∷ []),
        s.paired,
      );
    })
  ]

  append_all-IsSound :
      (rs : List ExecutionRecord) (l : EvidenceLedger) → IsSound l → IsSound (append_all h rs l)
  unfolding append_all
  append_all-IsSound [] l s = s
  append_all-IsSound (r ∷ rs) l s =
      append_all-IsSound rs (or_keep l (append h r l)) (append-IsSound r l s)

  -- A ledger that was built by appending records, in any order and with refusals in between,
  -- verifies.
  pub built_chain_verifies :
      (rs : List ExecutionRecord) → verify_chain h (append_all h rs (empty_ledger h)) ≡ some true
  unfolding verify_chain
  built_chain_verifies rs = (append_all-IsSound rs (empty_ledger h) empty_ledger-IsSound).chained

  -- the head that the records' hashes make, from `head` on
  abbrev pub chain : String → List ExecutionRecord → String
  chain head [] = head
  chain head (r ∷ rs) = chain (hash_pair h head r.execution_hash) rs

  -- the texts that are hashed on the way
  abbrev pub hashed : String → List ExecutionRecord → List String
  hashed head [] = []
  hashed head (r ∷ rs) = join head r.execution_hash ∷ hashed (hash_pair h head r.execution_hash) rs

  -- No text of the one list has the digest of another text of the other list.
  abbrev pub IsApart : List String → List String → Type 0
  IsApart xs ys = All (λ x. All (λ y. h.sha256 x ≡ h.sha256 y → x ≡ y) ys) xs

  walk-chain :
      (last head : String) (rs : List ExecutionRecord) (es : List String)
      → walk h last head rs es ≡ some true
      → chain head rs ≡ last
  unfolding walk
  walk-chain last head [] es w = (eq_iff head last).0 (cc w)
  walk-chain last head (r ∷ rs) [] w = absurd (ground arith)
  walk-chain last head (r ∷ rs) (e ∷ es) w =
      ground (arith, walk-chain last (hash_pair h head r.execution_hash) rs es)

  IsApart-tail : (x y : String) (xs ys : List String) → IsApart (x ∷ xs) (y ∷ ys) → IsApart xs ys
  IsApart-tail x y [] ys a = tt
  IsApart-tail x y (z ∷ xs) ys a = (a.1.0.1, IsApart-tail x y xs ys (a.0, a.1.1))

  module _ (sized : (s : String) → count (h.sha256 s) ≡ 64) where
    chain-injective :
        (a b : String) (rs ss : List ExecutionRecord)
        → count a ≡ 64
        → count b ≡ 64
        → length rs ≡ length ss
        → IsApart (hashed a rs) (hashed b ss)
        → chain a rs ≡ chain b ss
        → (a ≡ b) × (hashes_of rs ≡ hashes_of ss)
    chain-injective a b [] [] ca cb n apart e = (e, refl)
    chain-injective a b [] (s ∷ ss) ca cb n apart e = absurd (omega arith)
    chain-injective a b (r ∷ rs) [] ca cb n apart e = absurd (omega arith)
    chain-injective a b (r ∷ rs) (s ∷ ss) ca cb n apart e =
        let rest =
          chain-injective (hash_pair h a r.execution_hash) (hash_pair h b s.execution_hash) rs ss
            (sized (join a r.execution_hash)) (sized (join b s.execution_hash)) (omega arith)
            (IsApart-tail (join a r.execution_hash) (join b s.execution_hash)
              (hashed (hash_pair h a r.execution_hash) rs)
              (hashed (hash_pair h b s.execution_hash) ss) apart)
            e in
        let firsts = append_inj (apart.0.0 rest.0) (ca ∙ sym cb) in
        (firsts.0, cc (firsts.1, rest.1))

    -- Digests being texts of 64 characters: two ledgers that verify with the same head and as many
    -- records hold the same execution hashes in the same order, when no two of the texts that were
    -- hashed to build them collide.
    pub tamper_evident :
        (l m : EvidenceLedger)
        → verify_chain h l ≡ some true
        → verify_chain h m ≡ some true
        → l.current_head ≡ m.current_head
        → length l.records ≡ length m.records
        → IsApart (hashed (genesis h) l.records) (hashed (genesis h) m.records)
        → hashes_of l.records ≡ hashes_of m.records
    unfolding verify_chain
    tamper_evident l m vl vm heads n apart =
        let left = walk-chain l.current_head (genesis h) l.records l.evidence_hashes vl in
        let right = walk-chain m.current_head (genesis h) m.records m.evidence_hashes vm in
        (chain-injective (genesis h) (genesis h) l.records m.records (sized "GENESIS")
          (sized "GENESIS") n apart (left ∙ (heads ∙ sym right))).1
