-- ===== src/Replay/Deterministic/Agreement.antt =====
-- What it takes for a comparison to pass.
use qcg_task.Prelude.{
  ◌≡◌, ◌≢◌, ◌↔◌, refl, true, some, List, [], ◌∷◌, All, member, eq_iff, arith, inl, inr, Bool-cases,
  String,
}
use qcg_task.Prelude.Dict.{Dict, lookup}
use qcg_task.Prelude.Int.{ℤ, pos, negsuc}
use qcg_task.Replay.Deterministic.Defs.{
  ReplayContract, equal_ℤ, same_value, deterministic_projection, mismatches, compare, is_empty,
  add_names, add_diffs, compare_rest, compare_many, DeterministicComparisonResult,
}

-- The five deterministic fields are the same.
abbrev pub Agrees : ReplayContract → ReplayContract → Type 0
Agrees a b =
    (a.message_id ≡ b.message_id)
    × (a.payload_hash ≡ b.payload_hash)
    × (a.confidence ≡ b.confidence)
    × (a.translation_status ≡ b.translation_status)
    × (a.transport_status ≡ b.transport_status)

equal_ℤ_iff : (m n : ℤ) → (equal_ℤ m n ≡ true) ↔ (m ≡ n)
equal_ℤ_iff (pos m) (pos n) = ground arith
equal_ℤ_iff (pos m) (negsuc n) = ground arith
equal_ℤ_iff (negsuc m) (pos n) = ground arith
equal_ℤ_iff (negsuc m) (negsuc n) = ground arith

mismatches_iff :
    (a b : ReplayContract)
    → (mismatches (deterministic_projection a) (deterministic_projection b) ≡ []) ↔ Agrees a b
unfolding mismatches lookup same_value
mismatches_iff a b = ground (
  arith,
  eq_iff a.message_id b.message_id,
  eq_iff a.payload_hash b.payload_hash,
  equal_ℤ_iff a.confidence b.confidence,
  eq_iff a.translation_status b.translation_status,
  eq_iff a.transport_status b.transport_status,
)

-- A name that was collected is kept.
add_names-keeps : (xs : List String) (n : String) (ns : List String) → add_names xs (n ∷ ns) ≢ []
unfolding add_names
add_names-keeps [] n ns e = absurd (ground arith)
add_names-keeps (x ∷ xs) n ns e = elim (Bool-cases (member x (n ∷ ns))) [
  | inl old ↦ ground (arith, add_names-keeps xs n ns)
  | inr new ↦ ground (arith, add_names-keeps xs x (n ∷ ns))
]

add_names_iff : (xs names : List String) → (add_names xs names ≡ []) ↔ ((xs ≡ []) × (names ≡ []))
unfolding add_names
add_names_iff [] names = ground arith
add_names_iff (x ∷ xs) [] = ground (arith, add_names-keeps xs x [])
add_names_iff (x ∷ xs) (n ∷ ns) =
    ground (arith, add_names-keeps xs n ns, add_names-keeps xs x (n ∷ ns))

compare_rest_iff :
    (reference : ReplayContract) (cs : List ReplayContract) (names : List String)
    (diffs : Dict (String × String))
    → ((compare_rest reference cs (names, diffs)).0 ≡ [])
      ↔ ((names ≡ []) × All (Agrees reference) cs)
unfolding compare_rest compare
compare_rest_iff reference [] names diffs = (λ e. (e, tt), λ e. e.0)
compare_rest_iff reference (c ∷ cs) names diffs =
    let result = compare reference c in
    let added = add_names result.mismatched_fields names in
    let later = compare_rest_iff reference cs added (add_diffs result.observability_diffs diffs) in
    let here = add_names_iff result.mismatched_fields names in
    let fields = mismatches_iff reference c in
    (
      λ e.
          let (none_added, rest) = later.0 e in
          let (same, before) = here.0 none_added in (before, (fields.0 same, rest)),
      λ e. later.1 (here.1 (fields.1 e.1.0, e.0), e.1.1),
    )

is_empty_iff : (names : List String) → (is_empty names ≡ true) ↔ (names ≡ [])
is_empty_iff [] = ground arith
is_empty_iff (n ∷ ns) = ground arith

-- A comparison of two or more contracts is answered, and it passes exactly if each of them has the
-- message identifier, payload hash, confidence, translation status and transport status of the first,
-- whatever their time stamps.
pub compare_many_passes_iff :
    (reference second : ReplayContract) (rest : List ReplayContract)
    → (r : DeterministicComparisonResult) × (compare_many (reference ∷ second ∷ rest) ≡ some r)
      × ((r.passed ≡ true) ↔ All (Agrees reference) (second ∷ rest))
unfolding compare_many
compare_many_passes_iff reference second rest =
    let found = compare_rest reference (second ∷ rest) ([], []) in
    let all = compare_rest_iff reference (second ∷ rest) [] [] in
    let passes = is_empty_iff found.0 in
    (_, refl, (λ e. (all.0 (passes.0 e)).1, λ e. passes.1 (all.1 (refl, e))))
