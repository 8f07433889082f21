-- ===== src/Observability/Order.antt =====
-- The order of the entries of a reconstruction.
use mathlib.Core.List.{Perm}
use mathlib.Core.List.Perm
use qcg_task.Prelude.{ℕ, ◌≡◌, true, false, List, [], ◌∷◌, All, arith, Bool-cases, inl, inr}
use qcg_task.Observability.Defs.{
  TraceEntry, pair_before, type_order, comes_before, insert_entry, sort_entries,
}

-- The second does not come before the first.
abbrev pub InOrder : TraceEntry → TraceEntry → Type 0
InOrder a b = comes_before b a ≡ false

-- No entry comes before one that stands in front of it.
abbrev pub IsSorted : List TraceEntry → Type 0
IsSorted [] = Unit
IsSorted (e ∷ es) = All (InOrder e) es × IsSorted es

pair_before_asym : (a m b n : ℕ) → pair_before a m b n ≡ true → pair_before b n a m ≡ false
pair_before_asym a m b n e = ground arith

pair_before_trans :
    (a m b n c k : ℕ)
    → pair_before b n a m ≡ false
    → pair_before c k b n ≡ false
    → pair_before c k a m ≡ false
pair_before_trans a m b n c k e f = ground arith

InOrder-asym : (a b : TraceEntry) → comes_before a b ≡ true → InOrder a b
unfolding comes_before
InOrder-asym a b e =
    pair_before_asym (type_order a.trace_type) a.sequence (type_order b.trace_type) b.sequence e

InOrder-trans : (a b c : TraceEntry) → InOrder a b → InOrder b c → InOrder a c
unfolding comes_before
InOrder-trans a b c e f =
    pair_before_trans (type_order a.trace_type) a.sequence (type_order b.trace_type) b.sequence
      (type_order c.trace_type) c.sequence e f

InOrder-All :
    (a b : TraceEntry) (es : List TraceEntry)
    → InOrder a b
    → All (InOrder b) es
    → All (InOrder a) es
InOrder-All a b [] e all = tt
InOrder-All a b (c ∷ es) e all = (InOrder-trans a b c e all.0, InOrder-All a b es e all.1)

insert_entry-All :
    (P : TraceEntry → Type 0) (e : TraceEntry) (es : List TraceEntry)
    → P e
    → All P es
    → All P (insert_entry e es)
unfolding insert_entry
insert_entry-All P e [] p all = (p, tt)
insert_entry-All P e (x ∷ es) p all = elim (Bool-cases (comes_before x e)) [
  | inl first ↦ rw first (all.0, insert_entry-All P e es p all.1)
  | inr later ↦ rw later (p, all)
]

insert_entry-IsSorted :
    (e : TraceEntry) (es : List TraceEntry) → IsSorted es → IsSorted (insert_entry e es)
unfolding insert_entry
insert_entry-IsSorted e [] sorted = (tt, tt)
insert_entry-IsSorted e (x ∷ es) sorted = elim (Bool-cases (comes_before x e)) [
  | inl first ↦ rw first (
    insert_entry-All (InOrder x) e es (InOrder-asym x e first) sorted.0,
    insert_entry-IsSorted e es sorted.1,
  )
  | inr later ↦ rw later ((later, InOrder-All e x es later sorted.0), sorted)
]

pub sort_entries-IsSorted : (es : List TraceEntry) → IsSorted (sort_entries es)
unfolding sort_entries
sort_entries-IsSorted [] = tt
sort_entries-IsSorted (e ∷ es) =
    insert_entry-IsSorted e (sort_entries es) (sort_entries-IsSorted es)

insert_entry-Perm : (e : TraceEntry) (es : List TraceEntry) → Perm (insert_entry e es) (e ∷ es)
unfolding insert_entry
insert_entry-Perm e [] = Perm.refl (e ∷ [])
insert_entry-Perm e (x ∷ es) = elim (Bool-cases (comes_before x e)) [
  | inl first ↦ rw first (Perm.trans (Perm.cons x (insert_entry-Perm e es)) (Perm.swap e x es))
  | inr later ↦ rw later (Perm.refl (e ∷ x ∷ es))
]

pub sort_entries-Perm : (es : List TraceEntry) → Perm (sort_entries es) es
unfolding sort_entries
sort_entries-Perm [] = Perm.refl []
sort_entries-Perm (e ∷ es) =
    Perm.trans (insert_entry-Perm e (sort_entries es)) (Perm.cons e (sort_entries-Perm es))

-- What holds of all entries holds of all in their order, and back.
pub sort_entries-All :
    (P : TraceEntry → Type 0) (es : List TraceEntry) → All P es → All P (sort_entries es)
unfolding sort_entries
sort_entries-All P [] all = tt
sort_entries-All P (e ∷ es) all =
    insert_entry-All P e (sort_entries es) all.0 (sort_entries-All P es all.1)
