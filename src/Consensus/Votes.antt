-- ===== src/Consensus/Votes.antt =====
-- The votes that attestations give to a hash, against the counts of `run_consensus`.
use qcg_task.Prelude.{
  ℕ, suc, ◌+◌, ◌≤◌, String, ◌≡◌, refl, ◌≢◌, inl, inr, true, false, ◌&&◌, none, [], ◌∷◌, ◌==◌,
  eq_iff, eq_refl, arith, if◌then◌else◌, length, ltb, Bool-cases,
}
use qcg_task.Prelude.Dict.{Dict, lookup, insert, lookup-insert}
use qcg_task.Prelude.Json.{Hashing}
use qcg_task.Config.{Config}
use qcg_task.Runtime.{Texts}
use qcg_task.Trust.Identity.{Ecdsa}
use qcg_task.Consensus.Node.{NodeAttestation, counts}
use qcg_task.Consensus.Engine.{get_count, count_hashes, largest, verify_all}

-- the attestations that count for the hash `x`
unfoldable pub votes : String → Dict NodeAttestation → ℕ
votes x [] = 0
votes x ((k, a) ∷ rest) =
    let others = votes x rest in if counts a && a.agreement_hash == x then suc others else others

get_count-insert :
    (k j : String) (n : ℕ) (d : Dict ℕ)
    → get_count j (insert k n d) ≡ (if k == j then n else get_count j d)
get_count-insert k j n d = ground (arith, lookup-insert k j n d)

pub get_count-count_hashes :
    (x : String) (xs : Dict NodeAttestation) (d : Dict ℕ)
    → get_count x (count_hashes xs d) ≡ votes x xs + get_count x d
unfolding count_hashes votes
get_count-count_hashes x [] d = omega arith
get_count-count_hashes x ((k, a) ∷ rest) d = ground (
  arith,
  eq_iff a.agreement_hash x,
  get_count-count_hashes x rest d,
  get_count-count_hashes x rest (insert a.agreement_hash (suc (get_count a.agreement_hash d)) d),
  get_count-insert a.agreement_hash x (suc (get_count a.agreement_hash d)) d,
)

-- No key occurs twice.
abbrev pub Distinct : Dict ℕ → Type 0
Distinct [] = Unit
Distinct ((k, n) ∷ d) = (lookup k d ≡ none) × Distinct d

insert-Distinct : (k : String) (n : ℕ) (d : Dict ℕ) → Distinct d → Distinct (insert k n d)
unfolding insert lookup
insert-Distinct k n [] u = (refl, tt)
insert-Distinct k n ((j, m) ∷ d) u = elim (Bool-cases (j == k)) [
  | inl old ↦ rw old u
  | inr new ↦ rw new (
    ground (arith, eq_iff j k, eq_iff k j, lookup-insert k j n d, u.0),
    insert-Distinct k n d u.1,
  )
]

pub count_hashes-Distinct :
    (xs : Dict NodeAttestation) (d : Dict ℕ) → Distinct d → Distinct (count_hashes xs d)
unfolding count_hashes
count_hashes-Distinct [] d u = u
count_hashes-Distinct ((k, a) ∷ rest) d u = elim (Bool-cases (counts a)) [
  | inl yes_it ↦ rw yes_it (
      count_hashes-Distinct rest (insert a.agreement_hash (suc (get_count a.agreement_hash d)) d)
        (insert-Distinct a.agreement_hash (suc (get_count a.agreement_hash d)) d u))
  | inr not_it ↦ rw not_it (count_hashes-Distinct rest d u)
]

pub largest-ge : (best : String) (n : ℕ) (d : Dict ℕ) → n ≤ (largest best n d).1
unfolding largest
largest-ge best n [] = omega arith
largest-ge best n ((k, m) ∷ d) = ground (arith, largest-ge k m d, largest-ge best n d)

largest-ge_count : (x best : String) (n : ℕ) (d : Dict ℕ) → get_count x d ≤ (largest best n d).1
unfolding largest lookup
largest-ge_count x best n [] = omega arith
largest-ge_count x best n ((k, m) ∷ d) = ground (
  arith,
  largest-ge k m d,
  largest-ge best n d,
  largest-ge_count x k m d,
  largest-ge_count x best n d,
)

largest_more :
    (best k : String) (n m : ℕ) (d : Dict ℕ)
    → ltb n m ≡ true
    → largest best n ((k, m) ∷ d) ≡ largest k m d
unfolding largest
largest_more best k n m d h = ground (arith, h)

largest_kept :
    (best k : String) (n m : ℕ) (d : Dict ℕ)
    → ltb n m ≡ false
    → largest best n ((k, m) ∷ d) ≡ largest best n d
unfolding largest
largest_kept best k n m d h = ground (arith, h)

-- The largest is the count of its key.
pub get_count-largest :
    (best : String) (n : ℕ) (d : Dict ℕ)
    → Distinct ((best, n) ∷ d)
    → get_count (largest best n d).0 ((best, n) ∷ d) ≡ (largest best n d).1
unfolding lookup
get_count-largest best n [] u = unfold largest in ground (arith, eq_refl best)
get_count-largest best n ((k, m) ∷ d) u = elim (Bool-cases (ltb n m)) [
  | inl more ↦
      rw (largest_more best k n m d more) (
        ground
          (arith, eq_iff best (largest k m d).0, largest-ge k m d, get_count-largest k m d u.1))
  | inr not_more ↦ rw (largest_kept best k n m d not_more) (
      ground (
        arith,
        eq_iff best k,
        eq_iff best (largest best n d).0,
        eq_iff k (largest best n d).0,
        largest-ge best n d,
        get_count-largest best n d (ground (arith, u.0), u.1.1),
      ))
]

module _ (cfg : Config) (h : Hashing) (t : Texts) (e : Ecdsa) where
  pub length-verify_all : (xs : Dict NodeAttestation) → length (verify_all cfg h t e xs) ≤ length xs
  unfolding verify_all
  length-verify_all [] = omega arith
  length-verify_all ((k, a) ∷ rest) = ground (arith, length-verify_all rest)

-- Two hashes share no vote.
pub votes-add :
    (x y : String) (xs : Dict NodeAttestation) → x ≢ y → votes x xs + votes y xs ≤ length xs
unfolding votes
votes-add x y [] ne = omega arith
votes-add x y ((k, a) ∷ rest) ne =
    ground (arith, eq_iff a.agreement_hash x, eq_iff a.agreement_hash y, votes-add x y rest ne)
