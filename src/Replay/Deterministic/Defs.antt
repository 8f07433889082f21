-- ===== src/Replay/Deterministic/Defs.antt =====
-- ReplayContract and ReplayComparator. A set of names is a list without repetitions. `from_response`,
-- which reads attributes by name from any object, is left out.
use Prim.Native.String.{compare as compare_text}
use Prim.Native.Nat.{Ordering}
use qcg_task.Prelude.{
  String, Bool, true, false, not, Option, none, some, List, [], ◌∷◌, ◌==◌, if◌then◌else◌, length,
  member, equal_ℕ,
}
use qcg_task.Prelude.Dict.{Dict, lookup, insert}
use qcg_task.Prelude.Int.{ℤ, pos, negsuc}
use qcg_task.Prelude.Json.{Json, Fields, Hashing, text, fraction, obj, field, done, json_hash}

pub record ReplayContract : Type 0 where
  pub message_id : String
  pub payload_hash : String
  pub confidence : ℤ
  pub translation_status : String
  pub transport_status : String
  pub created_at : String
  pub issued_at : String
  pub trace_timestamp : String

-- a value of the projection
pub data Value : Type 0 where
  word : String → Value
  number : ℤ → Value

abbrev pub equal_ℤ : ℤ → ℤ → Bool
equal_ℤ (pos m) (pos n) = equal_ℕ m n
equal_ℤ (negsuc m) (negsuc n) = equal_ℕ m n
equal_ℤ _ _ = false

-- `v == w`
unfoldable pub same_value : Value → Value → Bool
same_value (word s) (word t) = s == t
same_value (number m) (number n) = equal_ℤ m n
same_value _ _ = false

abbrev pub deterministic_projection : ReplayContract → Dict Value
deterministic_projection c =
    ("message_id", word c.message_id)
    ∷ ("payload_hash", word c.payload_hash)
    ∷ ("confidence", number c.confidence)
    ∷ ("translation_status", word c.translation_status)
    ∷ ("transport_status", word c.transport_status)
    ∷ []

abbrev pub value_json : Value → Json
value_json (word s) = text s
value_json (number n) = fraction n

abbrev pub projection_fields : Dict Value → Fields
projection_fields [] = done
projection_fields ((k, v) ∷ d) = field k (value_json v) (projection_fields d)

unfoldable pub deterministic_hash : Hashing → ReplayContract → String
deterministic_hash h c = json_hash h (obj (projection_fields (deterministic_projection c)))

-- `v != proj_b.get(k)`
abbrev pub differs : Value → Option Value → Bool
differs v none = true
differs v (some w) = not (same_value v w)

unfoldable pub mismatches : Dict Value → Dict Value → List String
unfolding lookup
mismatches [] proj_b = []
mismatches ((k, v) ∷ d) proj_b =
    let rest = mismatches d proj_b in if differs v (lookup k proj_b) then k ∷ rest else rest

abbrev pub observed : ReplayContract → Dict String
observed c =
    ("created_at", c.created_at)
    ∷ ("issued_at", c.issued_at)
    ∷ ("trace_timestamp", c.trace_timestamp)
    ∷ []

-- The two dictionaries have the same keys in the same order.
unfoldable pub observability_changes : Dict String → Dict String → Dict (String × String)
observability_changes ((k, a) ∷ obs_a) ((_, b) ∷ obs_b) =
    let rest = observability_changes obs_a obs_b in if a == b then rest else (k, (a, b)) ∷ rest
observability_changes _ _ = []

pub record DeterministicComparisonResult : Type 0 where
  pub passed : Bool
  pub deterministic_match : Bool
  pub mismatched_fields : List String
  pub observability_diffs : Dict (String × String)
  pub projection_a : Dict Value
  pub projection_b : Dict Value

abbrev pub is_empty : List String → Bool
is_empty names = equal_ℕ (length names) 0

unfoldable pub compare : ReplayContract → ReplayContract → DeterministicComparisonResult
compare a b =
    let mismatched = mismatches (deterministic_projection a) (deterministic_projection b) in
    record {
      passed = is_empty mismatched;
      deterministic_match = is_empty mismatched;
      mismatched_fields = mismatched;
      observability_diffs = observability_changes (observed a) (observed b);
      projection_a = deterministic_projection a;
      projection_b = deterministic_projection b;
    }

-- `all_mismatches.update(names)`
unfoldable pub add_names : List String → List String → List String
add_names [] names = names
add_names (n ∷ ns) names = if member n names then add_names ns names else add_names ns (n ∷ names)

-- `all_obs_diffs.update(diffs)`
unfoldable pub add_diffs : Dict (String × String) → Dict (String × String) → Dict (String × String)
add_diffs [] diffs = diffs
add_diffs ((k, d) ∷ more) diffs = add_diffs more (insert k d diffs)

-- `sorted`
abbrev pub insert_name : String → List String → List String
insert_name n [] = n ∷ []
insert_name n (m ∷ ms) = elim (compare_text m n) [
  | Ordering.gt ↦ n ∷ m ∷ ms
  | _ ↦ m ∷ insert_name n ms
]

abbrev pub sort_names : List String → List String
sort_names [] = []
sort_names (n ∷ ns) = insert_name n (sort_names ns)

-- the loop over the contracts, from what it has collected so far
unfoldable pub compare_rest :
    ReplayContract
    → List ReplayContract
    → List String × Dict (String × String)
    → List String × Dict (String × String)
compare_rest reference [] found = found
compare_rest reference (c ∷ cs) (names, diffs) =
    let result = compare reference c in
    compare_rest reference cs
      (add_names result.mismatched_fields names, add_diffs result.observability_diffs diffs)

abbrev pub last_of : ReplayContract → List ReplayContract → ReplayContract
last_of c [] = c
last_of c (d ∷ ds) = last_of d ds

-- `none` is the ValueError of fewer than two contracts.
unfoldable pub compare_many : List ReplayContract → Option DeterministicComparisonResult
compare_many (reference ∷ second ∷ rest) =
    let found = compare_rest reference (second ∷ rest) ([], []) in
    some (record {
      passed = is_empty found.0;
      deterministic_match = is_empty found.0;
      mismatched_fields = sort_names found.0;
      observability_diffs = found.1;
      projection_a = deterministic_projection reference;
      projection_b = deterministic_projection (last_of second rest);
    })
compare_many _ = none
