-- ===== src/Prelude/Dict.antt =====
-- Python's `dict` with text keys, in insertion order.
use Prim.Native.String.{String}
use mathlib.Core.Path.{◌≡◌, refl, ap}
use mathlib.Core.Bool.{Bool, true, false, ◌&&◌}
use mathlib.Core.Option.{Option, none, some}
use mathlib.Core.List.{List, [], ◌∷◌, ◌++◌}
use native.Mathlib.Omega.{arith}
use text.Mathlib.Text.{◌==◌}
use text.Mathlib.TextEquality.{eq_iff}
use text.Mathlib.TextPositions.{eq_refl}
use qcg_task.Prelude.Tests.{if◌then◌else◌, is_some}

abbrev pub Dict {ℓ} : Type ℓ → Type ℓ
Dict V = List (String × V)

module _ {ℓ} {V : Type ℓ} where
  -- `d.get(k)`
  unfoldable pub lookup : String → Dict V → Option V
  lookup k [] = none
  lookup k ((j, v) ∷ d) = if j == k then some v else lookup k d

  -- `k in d`
  unfoldable pub contains : String → Dict V → Bool
  contains k d = is_some (lookup k d)

  -- `d[k] = v`: an old key keeps its place, a new one goes to the end
  unfoldable pub insert : String → V → Dict V → Dict V
  insert k v [] = (k, v) ∷ []
  insert k v ((j, w) ∷ d) = if j == k then (j, v) ∷ d else (j, w) ∷ insert k v d

  -- `d.values()`
  unfoldable pub values : Dict V → List V
  values [] = []
  values ((k, v) ∷ d) = v ∷ values d

  -- Drops every entry that `p` picks: the loop of `del d[k]` over the keys of those entries.
  unfoldable pub remove_if : (String → V → Bool) → Dict V → Dict V
  remove_if p [] = []
  remove_if p ((k, v) ∷ d) = let rest = remove_if p d in if p k v then rest else (k, v) ∷ rest

  pub lookup-insert :
      (k j : String) (v : V) (d : Dict V)
      → lookup j (insert k v d) ≡ (if k == j then some v else lookup j d)
  unfolding lookup insert
  lookup-insert k j v [] = refl
  lookup-insert k j v ((i, w) ∷ d) =
      ground (arith, eq_iff k j, eq_iff i k, eq_iff i j, lookup-insert k j v d)

  pub lookup-insert_self : (k : String) (v : V) (d : Dict V) → lookup k (insert k v d) ≡ some v
  lookup-insert_self k v d = simp (lookup-insert, eq_refl)

  -- A new key is added at the end.
  pub insert_new :
      (k : String) (v : V) (d : Dict V) → lookup k d ≡ none → insert k v d ≡ d ++ (k, v) ∷ []
  unfolding lookup insert
  insert_new k v [] h = refl
  insert_new k v ((j, w) ∷ d) h = ground (arith, insert_new k v d)

  pub values-append : (d e : Dict V) → values (d ++ e) ≡ values d ++ values e
  unfolding values
  values-append [] e = refl
  values-append ((k, v) ∷ d) e = ap (◌∷◌ v) (values-append d e)

  -- What is left after `remove_if` is what the test did not pick.
  pub lookup-remove_if :
      (p : String → V → Bool) (k : String) (v : V) (d : Dict V)
      → lookup k (remove_if p d) ≡ some v
      → p k v ≡ false
  unfolding lookup remove_if
  lookup-remove_if p k v [] h = cc
  lookup-remove_if p k v ((j, w) ∷ d) h = ground (arith, eq_iff j k, lookup-remove_if p k v d)

  -- `test` holds of every value.
  unfoldable pub every : (V → Bool) → Dict V → Bool
  every test [] = true
  every test ((k, v) ∷ d) = test v && every test d

  pub every-insert :
      (test : V → Bool) (k : String) (v : V) (d : Dict V)
      → test v ≡ true
      → every test d ≡ true
      → every test (insert k v d) ≡ true
  unfolding every insert
  every-insert test k v [] h a = ground arith
  every-insert test k v ((j, w) ∷ d) h a = ground (arith, every-insert test k v d)

  pub every-remove_if_old :
      (test : V → Bool) (p : String → V → Bool) (d : Dict V)
      → every test d ≡ true
      → every test (remove_if p d) ≡ true
  unfolding every remove_if
  every-remove_if_old test p [] a = refl
  every-remove_if_old test p ((j, w) ∷ d) a = ground (arith, every-remove_if_old test p d)

  pub every-lookup :
      (test : V → Bool) (k : String) (v : V) (d : Dict V)
      → every test d ≡ true
      → lookup k d ≡ some v
      → test v ≡ true
  unfolding every lookup
  every-lookup test k v [] a found = cc
  every-lookup test k v ((j, w) ∷ d) a found = ground (arith, every-lookup test k v d)
