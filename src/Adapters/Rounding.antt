-- ===== src/Adapters/Rounding.antt =====
-- The confidence of a contract that was translated.
use mathlib.Core.Path.{subst}
use qcg_task.Prelude.{
  ℕ, ◌+◌, ◌*◌, ◌≤◌, ◌<◌, String, ◌≡◌, sym, ap, inl, inr, Bool, [], ◌∷◌, arith, ok, Bool-cases,
  if◌then◌else◌, ltb, equal_ℕ,
}
use qcg_task.Prelude.Dict.{Dict}
use qcg_task.Prelude.Int.{ℤ, pos, pos_part, ◌≤ℤ◌}
use qcg_task.Prelude.Json.{Hashing}
use qcg_task.Config.{Config, one}
use qcg_task.Pipeline.Models.{Modes, QuantumDistribution}
use qcg_task.Pipeline.Translation.{
  ClassicalContract, Rounding, translate, translate_counts, total_count, dominant_from,
  contract_for, verify_bits,
}
use qcg_task.Pipeline.Accepted.{unless_rejected-ok, status_for_matched}

-- Rounding a share to four digits stays in [0, 1] and keeps the order to a multiple of the last digit.
pub record IsFaithful (r : Rounding) : Type 0 where
  pub share_low : (n m : ℕ) → pos 0 ≤ℤ r.share n m
  pub share_high : (n m : ℕ) → 0 < m → n ≤ m → r.share n m ≤ℤ one
  pub share_keeps : (t n m : ℕ) → 0 < m → t * m ≤ n * 10000 → pos t ≤ℤ r.share n m

dominant_from-bound :
    (best : String) (n : ℕ) (d : Dict ℕ) → (dominant_from best n d).1 ≤ n + total_count d
unfolding dominant_from total_count
dominant_from-bound best n [] = omega arith
dominant_from-bound best n ((k, m) ∷ d) =
    let Bound : Bool → Type 0 = λ b.
      let x : String × ℕ = if b then (k, m) else (best, n) in
      (dominant_from x.0 x.1 d).1 ≤ n + (m + total_count d) in
    elim (Bool-cases (ltb n m)) [
      | inl more ↦ subst Bound (sym more) (omega (arith, dominant_from-bound k m d))
      | inr fewer ↦ subst Bound (sym fewer) (omega (arith, dominant_from-bound best n d))
    ]

module _ (cfg : Config) (modes : Modes) (h : Hashing) (r : Rounding) where
  abbrev pub InRange : ℤ → Type 0
  InRange c = (pos 0 ≤ℤ c) × (c ≤ℤ one)

  -- the confidence of a translated contract
  translate_counts-InRange :
      IsFaithful r
      → pos 0 ≤ℤ cfg.corruption_threshold
      → (message : String) (seed : ℤ) (counts : Dict ℕ) (c : ClassicalContract)
      → translate_counts cfg modes h r message seed counts ≡ ok c
      → InRange c.confidence × (cfg.corruption_threshold ≤ℤ c.confidence)
  translate_counts-InRange f low message seed [] c e = absurd (cc e)
  translate_counts-InRange f low message seed ((k, n) ∷ d) c e =
      let (bits, count) = dominant_from k n d in
      let total = n + total_count d in
      let x = contract_for cfg modes h r message seed bits count total in
      elim (Bool-cases (equal_ℕ total 0)) [
        | inl empty ↦ absurd (ground (arith, empty))
        | inr filled ↦
            let (same, fit) =
              unless_rejected-ok cfg modes h r x.transmission_status x c (ground (arith, filled)) in
            let above =
              (status_for_matched cfg modes h r count total
                (verify_bits cfg modes h r bits message).1 fit).1 in
            let some_counts : 0 < total = ground (arith, filled) in
            let own : r.share count total ≡ c.confidence =
              ap (λ (y : ClassicalContract). y.confidence) same in
            let high : r.share count total ≤ℤ one =
              f.share_high count total some_counts (dominant_from-bound k n d) in
            let kept : pos (pos_part cfg.corruption_threshold) ≤ℤ r.share count total =
              f.share_keeps (pos_part cfg.corruption_threshold) count total some_counts
                (ground (arith, above)) in
            rw (sym own) ((f.share_low count total, high), omega (arith, kept, low))
      ]

  pub translate-InRange :
      IsFaithful r
      → pos 0 ≤ℤ cfg.corruption_threshold
      → (d : QuantumDistribution) (message : String) (c : ClassicalContract)
      → translate cfg modes h r d message ≡ ok c
      → InRange c.confidence × (cfg.corruption_threshold ≤ℤ c.confidence)
  unfolding translate
  translate-InRange f low d message c e = translate_counts-InRange f low message d.seed d.counts c e
