-- ===== src/Audit/Trail/Levels.antt =====
-- The levels of a tree over a list of leaves: as `_build_merkle_tree` leaves them, and without padding.
use mathlib.Core.Path.{subst}
use qcg_task.Prelude.{
  ℕ, zero, suc, ◌+◌, ◌/◌, ◌%◌, ◌≤◌, ◌<◌, String, ◌≡◌, refl, ◌⊎◌, inl, inr, ◌&&◌, some, List, [],
  ◌∷◌, ◌++◌, arith, length-append, if◌then◌else◌, length, equal_ℕ, ltb,
}
use qcg_task.Audit.Merkle.{padded, parents, levels_from, build_merkle_tree}
use qcg_task.Audit.Trail.Update.{pop_last, unpad}

pop_last-append : (xs : List String) (y : String) → pop_last (xs ++ y ∷ []) ≡ xs
unfolding pop_last
pop_last-append [] y = refl
pop_last-append (x ∷ []) y = refl
pop_last-append (x ∷ z ∷ rest) y = cc (pop_last-append (z ∷ rest) y)

padded_even : (xs : List String) → length xs % 2 ≡ 0 → padded xs ≡ xs
unfolding padded
padded_even [] h = refl
padded_even (x ∷ []) h = absurd (omega arith)
padded_even (x ∷ y ∷ rest) h = cc (padded_even rest (omega arith))

padded_odd : (xs : List String) → length xs % 2 ≡ 1 → (y : String) × (padded xs ≡ xs ++ y ∷ [])
unfolding padded
padded_odd [] h = absurd (omega arith)
padded_odd (x ∷ []) h = (x, refl)
padded_odd (x ∷ y ∷ rest) h = let (z, e) = padded_odd rest (omega arith) in (z, cc e)

parity : (n : ℕ) → (n % 2 ≡ 0) ⊎ (n % 2 ≡ 1)
parity n = ground arith

-- Taking the padding off gives the level back.
unpad_padded :
    (xs : List String)
    → (if equal_ℕ (length xs % 2) 1 && ltb (length xs) (length (padded xs))
        then pop_last (padded xs)
        else padded xs)
      ≡ xs
unpad_padded xs = elim (parity (length xs)) [
  | inl even ↦ rw (padded_even xs even) (ground (arith, even))
  | inr odd ↦
      let (y, e) = padded_odd xs odd in
      rw e (ground (arith, odd, pop_last-append xs y, length-append xs (y ∷ [])))
]

module _ (parent : String → String → String) where
  -- the next level
  abbrev pub up : List String → List String
  up xs = parents parent (padded xs)

  pub length-up : (xs : List String) → length (up xs) ≡ (length xs + 1) / 2
  unfolding parents padded
  length-up [] = refl
  length-up (x ∷ []) = refl
  length-up (x ∷ y ∷ rest) = omega (arith, length-up rest)

  -- The padded levels over `xs`, up to a root of one node.
  abbrev pub Builds : List String → List (List String) → Type 0
  Builds xs [] = ⊥
  Builds xs (level ∷ []) = (length xs ≡ 1) × (level ≡ xs)
  Builds xs (level ∷ next ∷ rest) =
      (1 < length xs) × (level ≡ padded xs) × Builds (up xs) (next ∷ rest)

  -- The same levels without their padding.
  abbrev pub Unpadded : List String → List (List String) → Type 0
  Unpadded xs [] = ⊥
  Unpadded xs (level ∷ []) = (length xs ≡ 1) × (level ≡ xs)
  Unpadded xs (level ∷ next ∷ rest) =
      (1 < length xs) × (level ≡ xs) × Unpadded (up xs) (next ∷ rest)

  -- The padded levels, where the last one may have two nodes and then lacks its root.
  abbrev pub Rootless : List String → List (List String) → Type 0
  Rootless xs [] = ⊥
  Rootless xs (level ∷ []) = (1 ≤ length xs) × (length xs ≤ 2) × (level ≡ xs)
  Rootless xs (level ∷ next ∷ rest) =
      (1 < length xs) × (level ≡ padded xs) × Rootless (up xs) (next ∷ rest)

  pub Unpadded-bottom :
      (xs level : List String) (rest : List (List String)) → Unpadded xs (level ∷ rest) → level ≡ xs
  Unpadded-bottom xs level [] u = u.1
  Unpadded-bottom xs level (next ∷ rest) u = u.1

  pub unpad-Unpadded :
      (xs : List String) (tree : List (List String))
      → Builds xs tree
      → Unpadded xs (unpad (length xs) tree)
  unfolding unpad
  unpad-Unpadded xs [] b = b
  unpad-Unpadded xs (level ∷ []) b = (b.0, rw b.1 (ground (arith, b.0)))
  unpad-Unpadded xs (level ∷ next ∷ rest) b = (
    b.0,
    rw b.1 (unpad_padded xs),
    subst (λ n. Unpadded (up xs) (unpad n (next ∷ rest))) (length-up xs)
        (unpad-Unpadded (up xs) (next ∷ rest) b.2),
  )

  Builds-levels_from :
      (fuel : ℕ) (xs : List String) (tree : List (List String))
      → Builds xs tree
      → length xs ≤ fuel + 1
      → levels_from parent fuel xs ≡ some tree
  unfolding levels_from
  Builds-levels_from fuel xs [] b le = absurd b
  Builds-levels_from fuel [] (level ∷ []) b le = absurd (omega arith)
  Builds-levels_from fuel (x ∷ []) (level ∷ []) b le = ground arith
  Builds-levels_from fuel (x ∷ y ∷ ys) (level ∷ []) b le = absurd (omega arith)
  Builds-levels_from fuel [] (level ∷ next ∷ rest) b le = absurd (omega arith)
  Builds-levels_from fuel (x ∷ []) (level ∷ next ∷ rest) b le = absurd (omega arith)
  Builds-levels_from zero (x ∷ y ∷ ys) (level ∷ next ∷ rest) b le = absurd (omega arith)
  Builds-levels_from (suc fuel) (x ∷ y ∷ ys) (level ∷ next ∷ rest) b le =
      rw
        (Builds-levels_from fuel (up (x ∷ y ∷ ys)) (next ∷ rest) b.2
          (omega (arith, length-up (x ∷ y ∷ ys))))
        (cc b.1)

  -- Levels of that form are what the build gives.
  pub Builds-build_merkle_tree :
      (xs : List String) (tree : List (List String))
      → Builds xs tree
      → build_merkle_tree parent xs ≡ some tree
  unfolding build_merkle_tree
  Builds-build_merkle_tree [] [] b = absurd b
  Builds-build_merkle_tree [] (level ∷ []) b = absurd (omega arith)
  Builds-build_merkle_tree [] (level ∷ next ∷ rest) b = absurd (omega arith)
  Builds-build_merkle_tree (x ∷ xs) tree b =
      Builds-levels_from (length (x ∷ xs)) (x ∷ xs) tree b (omega arith)
