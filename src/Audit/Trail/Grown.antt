-- ===== src/Audit/Trail/Grown.antt =====
-- What `_rebuild_tree` does to the levels, compared with the levels over one leaf more.
use qcg_task.Prelude.{
  ℕ, suc, ◌+◌, ◌-◌, ◌/◌, ◌≤◌, ◌<◌, String, ◌≡◌, refl, ◌∙◌, Option, some, List, [], ◌∷◌, ◌++◌, arith,
  length,
}
use qcg_task.Audit.Merkle.{padded, parents}
use qcg_task.Audit.Trail.Update.{
  unpad, put_node, last_parent, update_path, add_root, grow, rebuild_tree,
}
use qcg_task.Audit.Trail.Levels.{up, Builds, Unpadded, Rootless, Unpadded-bottom, unpad-Unpadded}

-- A level before and after: its last node is new, or another one.
data Grows : List String → List String → Type 0 where
  added : (x : String) → Grows [] (x ∷ [])
  replaced : (x y : String) → Grows (x ∷ []) (y ∷ [])
  same : (x : String) {xs ys : List String} → Grows xs ys → Grows (x ∷ xs) (x ∷ ys)

Grows-append : (xs : List String) (x : String) → Grows xs (xs ++ x ∷ [])
Grows-append [] x = added x
Grows-append (y ∷ xs) x = same y (Grows-append xs x)

Grows-length :
    {old new : List String}
    → Grows old new
    → (length old ≤ length new) × (length new ≤ length old + 1) × (1 ≤ length new)
Grows-length (added x) = ground arith
Grows-length (replaced x y) = ground arith
Grows-length (same x g) = let ih = Grows-length g in ground arith

half_next : (n : ℕ) → 2 ≤ n → suc (suc n) / 2 - 1 ≡ suc (n / 2 - 1)
half_next n h = omega arith

module _ (parent : String → String → String) where
  -- The parent that is made at a level is the one that the level above has to show.
  record Lifts (old new : List String) : Type 0 where
    node : String
    last : last_parent parent (padded new) ≡ some node
    put : put_node (length (padded new) / 2 - 1) node (up parent old) ≡ up parent new
    above : Grows (up parent old) (up parent new)

  last_parent_skip :
      (x y : String) (zs : List String)
      → 1 ≤ length zs
      → last_parent parent (x ∷ y ∷ padded zs) ≡ last_parent parent (padded zs)
  unfolding last_parent padded
  last_parent_skip x y [] h = absurd (omega arith)
  last_parent_skip x y (z ∷ []) h = refl
  last_parent_skip x y (z ∷ w ∷ rest) h = refl

  length-padded_pair : (xs : List String) → 1 ≤ length xs → 2 ≤ length (padded xs)
  unfolding padded
  length-padded_pair [] h = absurd (omega arith)
  length-padded_pair (x ∷ []) h = omega arith
  length-padded_pair (x ∷ y ∷ rest) h = omega arith

  lifts : {old new : List String} → Grows old new → 1 < length new → Lifts old new
  unfolding padded parents last_parent put_node
  lifts (added x) h = absurd (omega arith)
  lifts (replaced x y) h = absurd (omega arith)
  lifts (same x (added z)) h = record {
    node = parent x z;
    last = refl;
    put = refl;
    above = replaced (parent x x) (parent x z);
  }
  lifts (same x (replaced y z)) h = record {
    node = parent x z;
    last = refl;
    put = refl;
    above = replaced (parent x y) (parent x z);
  }
  lifts (same x (same y (added z))) h = record {
    node = parent z z;
    last = refl;
    put = refl;
    above = same (parent x y) (added (parent z z));
  }
  lifts (same x (same y (replaced w z))) h = record {
    node = parent z z;
    last = refl;
    put = refl;
    above = same (parent x y) (replaced (parent w w) (parent z z));
  }
  lifts (same x (same y (same z {xs} {ys} g))) h =
      let size = Grows-length g in
      let next = lifts (same z g) (omega arith) in
      record {
        node = next.node;
        last = last_parent_skip x y (z ∷ ys) (omega arith) ∙ next.last;
        put =
            rw (half_next (length (padded (z ∷ ys))) (length-padded_pair (z ∷ ys) (omega arith)))
              (cc next.put);
        above = same (parent x y) next.above;
      }

  record Updated (new : List String) (result : Option (List (List String))) : Type 0 where
    bottom : List String
    rest : List (List String)
    gives : result ≡ some (bottom ∷ rest)
    levels : Rootless parent new (bottom ∷ rest)

  update_path-Rootless :
      (old new level : List String) (rest : List (List String))
      → Unpadded parent old (level ∷ rest)
      → Grows old new
      → Updated new (update_path parent new rest)
  unfolding update_path
  update_path-Rootless old new level [] u g =
      let size = Grows-length g in
      record {
        bottom = new;
        rest = [];
        gives = refl;
        levels = (omega arith, omega (arith, u.0), refl);
      }
  update_path-Rootless old new level (next ∷ rest) u g =
      let size = Grows-length g in
      let step = lifts g (omega (arith, u.0)) in
      let more = update_path-Rootless (up parent old) (up parent new) next rest u.2 step.above in
      record {
        bottom = padded new;
        rest = more.bottom ∷ more.rest;
        gives =
            rw
              (
                step.last,
                Unpadded-bottom parent (up parent old) next rest u.2,
                step.put,
                more.gives,
              )
              refl;
        levels = (omega (arith, u.0), refl, more.levels);
      }

  record Rooted (xs : List String) (result : Option (List (List String))) : Type 0 where
    bottom : List String
    rest : List (List String)
    gives : result ≡ some (bottom ∷ rest)
    levels : Builds parent xs (bottom ∷ rest)

  add_root-Builds :
      (xs level : List String) (rest : List (List String))
      → Rootless parent xs (level ∷ rest)
      → Rooted xs (add_root parent (level ∷ rest))
  unfolding add_root padded parents last_parent
  add_root-Builds [] level [] r = absurd (omega (arith, r.0))
  add_root-Builds (x ∷ []) level [] r = record {
    bottom = level;
    rest = [];
    gives = rw r.2 refl;
    levels = (refl, r.2);
  }
  add_root-Builds (x ∷ y ∷ []) level [] r = record {
    bottom = x ∷ y ∷ [];
    rest = (parent x y ∷ []) ∷ [];
    gives = rw r.2 refl;
    levels = (omega arith, refl, (refl, refl));
  }
  add_root-Builds (x ∷ y ∷ z ∷ xs) level [] r = absurd (omega (arith, r.1))
  add_root-Builds xs level (next ∷ rest) r =
      let more = add_root-Builds (up parent xs) next rest r.2 in
      record {
        bottom = level;
        rest = more.bottom ∷ more.rest;
        gives = rw more.gives refl;
        levels = (r.0, r.1, more.levels);
      }

  grow-Builds :
      (leaves : List String) (leaf : String) (levels : List (List String))
      → Unpadded parent leaves levels
      → (grown : List (List String)) × (grow parent leaf levels ≡ some grown)
        × Builds parent (leaves ++ leaf ∷ []) grown
  unfolding grow
  grow-Builds leaves leaf [] u = absurd u
  grow-Builds leaves leaf (level ∷ rest) u =
      let more = leaves ++ leaf ∷ [] in
      let path = update_path-Rootless leaves more level rest u (Grows-append leaves leaf) in
      let whole = add_root-Builds more path.bottom path.rest path.levels in
      (
        whole.bottom ∷ whole.rest,
        rw (Unpadded-bottom parent leaves level rest u, path.gives) whole.gives,
        whole.levels,
      )

  -- A new leaf leads from the levels over the old leaves to the levels over all of them.
  pub rebuild_tree-Builds :
      (leaves : List String) (leaf : String) (tree : List (List String))
      → Builds parent leaves tree
      → (grown : List (List String)) × (rebuild_tree parent (length leaves) leaf tree ≡ some grown)
        × Builds parent (leaves ++ leaf ∷ []) grown
  unfolding rebuild_tree
  rebuild_tree-Builds leaves leaf [] b = absurd b
  rebuild_tree-Builds leaves leaf (level ∷ rest) b =
      grow-Builds leaves leaf (unpad (length leaves) (level ∷ rest))
        (unpad-Unpadded parent leaves (level ∷ rest) b)
