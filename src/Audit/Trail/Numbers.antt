-- ===== src/Audit/Trail/Numbers.antt =====
-- The numbers of the entries, against the checks of `verify_integrity`.
use qcg_task.Prelude.{ℕ, suc, ◌+◌, ◌<◌, ◌≡◌, refl, false, List, [], ◌∷◌, ◌++◌, arith, length}
use qcg_task.Audit.Trail.Defs.{AuditEntry, gaps_from, numbered, has_duplicates}

-- The entries carry the numbers from `i` on.
abbrev pub Numbered : ℕ → List AuditEntry → Type 0
Numbered i [] = Unit
Numbered i (e ∷ es) = (e.sequence ≡ i) × Numbered (suc i) es

pub Numbered-append :
    (i : ℕ) (es : List AuditEntry) (e : AuditEntry)
    → Numbered i es
    → e.sequence ≡ i + length es
    → Numbered i (es ++ e ∷ [])
Numbered-append i [] e n last = (omega arith, tt)
Numbered-append i (x ∷ es) e n last = (n.0, Numbered-append (suc i) es e n.1 (omega arith))

pub Numbered-gaps_from : (i : ℕ) (es : List AuditEntry) → Numbered i es → gaps_from i es ≡ []
unfolding gaps_from
Numbered-gaps_from i [] n = refl
Numbered-gaps_from i (e ∷ es) n = ground (arith, Numbered-gaps_from (suc i) es n.1)

Numbered-numbered : (s i : ℕ) (es : List AuditEntry) → s < i → Numbered i es → numbered s es ≡ false
unfolding numbered
Numbered-numbered s i [] lt n = refl
Numbered-numbered s i (e ∷ es) lt n =
    ground (arith, Numbered-numbered s (suc i) es (omega arith) n.1)

pub Numbered-has_duplicates :
    (i : ℕ) (es : List AuditEntry) → Numbered i es → has_duplicates es ≡ false
unfolding has_duplicates
Numbered-has_duplicates i [] n = refl
Numbered-has_duplicates i (e ∷ es) n = ground (
  arith,
  Numbered-numbered e.sequence (suc i) es (omega (arith, n.0)) n.1,
  Numbered-has_duplicates (suc i) es n.1,
)
