-- ===== src/Ledger/Root.antt =====
-- evidence_ledger.py: the loop of `get_merkle_root`, which has as much fuel as there are nodes.
use qcg_task.Prelude.{ℕ, zero, suc, ◌≤◌, String, ◌≡◌, refl, some, List, [], ◌∷◌, arith, length}
use qcg_task.Prelude.Json.{Hashing}
use qcg_task.Ledger.Defs.{
  EvidenceLedger, next_level, root_of, hash_pair, get_merkle_root, get_snapshot,
}

length-next_level-le :
    (pair : String → String → String) (xs : List String) → length (next_level pair xs) ≤ length xs
unfolding next_level
length-next_level-le pair [] = omega arith
length-next_level-le pair (x ∷ []) = omega arith
length-next_level-le pair (x ∷ y ∷ rest) = omega (arith, length-next_level-le pair rest)

root_of_total :
    (pair : String → String → String) (fuel : ℕ) (x : String) (xs : List String)
    → length xs ≤ fuel
    → (r : String) × (root_of pair fuel (x ∷ xs) ≡ some r)
unfolding root_of
root_of_total pair fuel x [] le = (x, refl)
root_of_total pair zero x (y ∷ rest) le = absurd (omega arith)
root_of_total pair (suc fuel) x (y ∷ rest) le =
    root_of_total pair fuel (pair x y) (next_level pair rest)
      (omega (arith, length-next_level-le pair rest))

root_cases :
    (h : Hashing) (l : EvidenceLedger) (hashes : List String)
    → l.evidence_hashes ≡ hashes
    → (r : String) × (get_merkle_root h l ≡ some r)
unfolding get_merkle_root
root_cases h l [] e = (h.sha256 "EMPTY_LEDGER", rw e)
root_cases h l (x ∷ xs) e =
    let found = root_of_total (hash_pair h) (length (x ∷ xs)) x xs (omega arith) in
    (found.0, rw e found.1)

-- Every ledger has a Merkle root, which its snapshot carries.
pub get_merkle_root_total :
    (h : Hashing) (l : EvidenceLedger)
    → (r : String) × (get_merkle_root h l ≡ some r) × ((get_snapshot h l).merkle_root ≡ some r)
unfolding get_snapshot
get_merkle_root_total h l =
    let found = root_cases h l l.evidence_hashes refl in (found.0, found.1, found.1)
