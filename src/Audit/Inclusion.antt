-- ===== src/Audit/Inclusion.antt =====
-- Inclusion proofs of audit_trail.py against the root of the tree they are made from.
use qcg_task.Prelude.{
  ℕ, zero, suc, ◌/◌, ◌<◌, ◌≤◌, String, ◌≡◌, refl, true, some, List, [], ◌∷◌, arith, length, ltb,
  eq_refl,
}
use qcg_task.Audit.Merkle.{
  item, padded, Side, climb, parents, levels_from, fold_proof, build_merkle_tree,
  verify_merkle_proof, sibling_of, path_from, merkle_proof, root_hash,
}

half_step : (idx : ℕ) → suc (suc idx) / 2 ≡ suc (idx / 2)
half_step idx = omega arith

sibling_step :
    (idx : ℕ)
    → ((sibling_of (suc (suc idx))).0 ≡ suc (suc (sibling_of idx).0))
      × ((sibling_of (suc (suc idx))).1 ≡ (sibling_of idx).1)
sibling_step idx = (ground arith, ground arith)

padded_twice : (xs : List String) → padded (padded xs) ≡ padded xs
unfolding padded
padded_twice [] = refl
padded_twice (x ∷ []) = refl
padded_twice (x ∷ y ∷ rest) = cc (padded_twice rest)

length-padded : (xs : List String) → length xs ≤ length (padded xs)
unfolding padded
length-padded [] = omega arith
length-padded (x ∷ []) = omega arith
length-padded (x ∷ y ∷ rest) = omega (arith, length-padded rest)

item-length : (i : ℕ) (xs : List String) (x : String) → item i xs ≡ some x → i < length xs
unfolding item
item-length zero [] x h = absurd (ground (arith, h))
item-length (suc i) [] x h = absurd (ground (arith, h))
item-length zero (y ∷ xs) x h = omega arith
item-length (suc i) (y ∷ xs) x h = omega (arith, item-length i xs x h)

pub ltb-true : (i n : ℕ) → i < n → ltb i n ≡ true
ltb-true i n p = ground arith

module _ (parent : String → String → String) where
  -- What a level gives for the node at an index: its sibling, and its parent one level up.
  record HasParent (level : List String) (idx : ℕ) (x : String) : Type 0 where
    sibling : String
    there : item (sibling_of idx).0 (padded level) ≡ some sibling
    above :
        item (idx / 2) (parents parent (padded level))
        ≡ some (climb parent x (sibling, (sibling_of idx).1))

  has_parent :
      (level : List String) (idx : ℕ) (x : String) → item idx level ≡ some x → HasParent level idx x
  unfolding item padded parents
  has_parent [] idx x h = absurd (ground (arith, h))
  has_parent (a ∷ []) zero x h = record { sibling = a; there = refl; above = ground arith }
  has_parent (a ∷ []) (suc idx) x h = absurd (ground (arith, h))
  has_parent (a ∷ b ∷ rest) zero x h = record { sibling = b; there = refl; above = ground arith }
  has_parent (a ∷ b ∷ rest) (suc zero) x h = record {
    sibling = a;
    there = refl;
    above = ground arith;
  }
  has_parent (a ∷ b ∷ rest) (suc (suc idx)) x h =
      let up = has_parent rest idx x h in
      record {
        sibling = up.sibling;
        there = rw (sibling_step idx).0 up.there;
        above = rw (half_step idx, (sibling_step idx).1) up.above;
      }

  length-parents : (xs : List String) → length (parents parent (padded xs)) ≤ length xs
  unfolding parents padded
  length-parents [] = omega arith
  length-parents (x ∷ []) = omega arith
  length-parents (x ∷ y ∷ rest) = omega (arith, length-parents rest)

  -- A tree over the level, and a path in it from the node `x` at the index to the root.
  pub record Climbs (fuel : ℕ) (level : List String) (idx : ℕ) (x : String) : Type 0 where
    pub bottom : List String
    pub higher : List (List String)
    pub steps : List (String × Side)
    pub built : levels_from parent fuel level ≡ some (bottom ∷ higher)
    pub covered : length level ≤ length bottom
    pub path : path_from (bottom ∷ higher) idx ≡ some steps
    pub reaches : fold_proof parent x steps ≡ root_hash (bottom ∷ higher)

  climbs :
      (fuel : ℕ) (a : String) (xs : List String) (idx : ℕ) (x : String)
      → length xs ≤ fuel
      → item idx (a ∷ xs) ≡ some x
      → Climbs fuel (a ∷ xs) idx x
  unfolding levels_from item path_from fold_proof root_hash
  climbs fuel a [] zero x le found = record {
    bottom = a ∷ [];
    higher = [];
    steps = [];
    built = refl;
    covered = omega arith;
    path = refl;
    reaches = ground (arith, found);
  }
  climbs fuel a [] (suc idx) x le found = absurd (ground (arith, found))
  climbs zero a (b ∷ rest) idx x le found = absurd (omega arith)
  climbs (suc fuel) a (b ∷ rest) idx x le found =
      let here = has_parent (a ∷ b ∷ rest) idx x found in
      let up =
        climbs fuel (parent a b) (parents parent (padded rest)) (idx / 2)
          (climb parent x (here.sibling, (sibling_of idx).1)) (omega (arith, length-parents rest))
          here.above in
      record {
        bottom = padded (a ∷ b ∷ rest);
        higher = up.bottom ∷ up.higher;
        steps = (here.sibling, (sibling_of idx).1) ∷ up.steps;
        built = rw up.built refl;
        covered = length-padded (a ∷ b ∷ rest);
        path = rw (padded_twice (a ∷ b ∷ rest), here.there, up.path) refl;
        reaches = up.reaches;
      }

  -- The tree over any leaves is built, and for the leaf at any index the proof is found and verifies
  -- against the root.
  pub proof-verifies :
      (leaves : List String) (idx : ℕ) (leaf : String)
      → item idx leaves ≡ some leaf
      → (tree : List (List String)) × (steps : List (String × Side)) × (build_merkle_tree parent
            leaves
          ≡ some tree)
        × (merkle_proof tree idx ≡ some steps)
        × (verify_merkle_proof parent leaf steps (root_hash tree) ≡ true)
  unfolding build_merkle_tree merkle_proof verify_merkle_proof
  proof-verifies [] idx leaf found = absurd (omega (arith, item-length idx [] leaf found))
  proof-verifies (a ∷ xs) idx leaf found =
      let up = climbs (length (a ∷ xs)) a xs idx leaf (omega arith) found in
      let inside : ltb idx (length up.bottom) ≡ true =
        ltb-true idx (length up.bottom)
          (omega (arith, item-length idx (a ∷ xs) leaf found, up.covered)) in
      (
        up.bottom ∷ up.higher,
        up.steps,
        up.built,
        rw inside up.path,
        rw up.reaches (eq_refl (root_hash (up.bottom ∷ up.higher))),
      )
