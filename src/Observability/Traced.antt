-- ===== src/Observability/Traced.antt =====
-- The entries of a trace and the order of their kinds, said without the store.
use qcg_task.Prelude.{
  ℕ, suc, ◌≤◌, ◌<◌, String, ◌≡◌, refl, ◌⊎◌, inl, inr, false, some, none, List, [], ◌∷◌, All, ◌==◌,
  if◌then◌else◌, arith, Bool-cases,
}
use qcg_task.Observability.Defs.{TraceEntry, filter_entries, type_order, pair_before, comes_before}
use qcg_task.Observability.Order.{InOrder, IsSorted}

-- the entries with a trace identifier
abbrev pub entries_of : String → List TraceEntry → List TraceEntry
entries_of id [] = []
entries_of id (e ∷ es) = let rest = entries_of id es in if e.trace_id == id then e ∷ rest else rest

-- the way of a contract, stage by stage
abbrev pub stages : List String
stages = "producer_lineage" ∷ "adapter" ∷ "governance" ∷ "execution" ∷ "contract_lineage" ∷ []

-- the place of a name in a list, or the length of the list
abbrev pub place : String → List String → ℕ
place name [] = 0
place name (x ∷ xs) = let later = suc (place name xs) in if name == x then 0 else later

-- An entry of an earlier stage, or one of the same stage with a number that is not larger.
abbrev pub Precedes : TraceEntry → TraceEntry → Type 0
Precedes a b =
    (place a.trace_type stages < place b.trace_type stages)
    ⊎ ((place a.trace_type stages ≡ place b.trace_type stages) × (a.sequence ≤ b.sequence))

abbrev pub AllPrecede : List TraceEntry → Type 0
AllPrecede [] = Unit
AllPrecede (e ∷ es) = All (Precedes e) es × AllPrecede es

pub filter_entries-entries_of :
    (id : String) (es : List TraceEntry)
    → (id == "") ≡ false
    → filter_entries (some id) none es ≡ entries_of id es
unfolding filter_entries
filter_entries-entries_of id [] named = refl
filter_entries-entries_of id (e ∷ es) named =
    let rest = filter_entries-entries_of id es named in
    elim (Bool-cases (e.trace_id == id)) [
      | inl own ↦ rw (named, own, rest) refl
      | inr other ↦ rw (named, other, rest) refl
    ]

-- A rank follows its stage.
place_less : (a b : String) → type_order a < type_order b → place a stages < place b stages
place_less a b less = ground arith

place_same : (a b : String) → type_order a ≡ type_order b → place a stages ≡ place b stages
place_same a b same = ground arith

pair_before_cases : (a m b n : ℕ) → pair_before b n a m ≡ false → (a < b) ⊎ ((a ≡ b) × (m ≤ n))
pair_before_cases a m b n e = ground arith

InOrder-Precedes : (a b : TraceEntry) → InOrder a b → Precedes a b
unfolding comes_before
InOrder-Precedes a b e =
    elim (pair_before_cases (type_order a.trace_type) a.sequence (type_order b.trace_type)
      b.sequence e) [
        | inl less ↦ inl (place_less a.trace_type b.trace_type less)
        | inr (same, least) ↦ inr (place_same a.trace_type b.trace_type same, least)
      ]

InOrder-Precedes-All :
    (a : TraceEntry) (es : List TraceEntry) → All (InOrder a) es → All (Precedes a) es
InOrder-Precedes-All a [] all = tt
InOrder-Precedes-All a (e ∷ es) all = (InOrder-Precedes a e all.0, InOrder-Precedes-All a es all.1)

pub IsSorted-AllPrecede : (es : List TraceEntry) → IsSorted es → AllPrecede es
IsSorted-AllPrecede [] sorted = tt
IsSorted-AllPrecede (e ∷ es) sorted =
    (InOrder-Precedes-All e es sorted.0, IsSorted-AllPrecede es sorted.1)
