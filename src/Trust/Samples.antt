-- ===== src/Trust/Samples.antt =====
-- A signature scheme for the tests: a signature is its key and its text, behind a colon.
use Prim.Native.String.{◌++◌ as join, count}
use text.Mathlib.TextLemmas.{length-append as count-append}
use qcg_task.Prelude.{◌==◌, eq_refl, eq_iff, ap, arith, Bool-cases, inl, inr}
use qcg_task.Trust.Identity.{Ecdsa, IsCorrect}

abbrev pub keyed : Ecdsa
keyed = record {
  public_key = λ key. key;
  sign = λ key content. join ":" (join key content);
  verify = λ key signature content. signature == join ":" (join key content);
}

pub keyed-IsCorrect : IsCorrect keyed
keyed-IsCorrect = record {
  verifies = λ key content. eq_refl (join ":" (join key content));
  signs = λ key content. elim (Bool-cases (join ":" (join key content) == "")) [
    | inl empty ↦ absurd (
        ground (
          arith,
          count-append ":" (join key content),
          ap count ((eq_iff (join ":" (join key content)) "").0 empty),
        ))
    | inr other ↦ other
  ];
}
