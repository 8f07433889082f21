-- ===== src/Transport/Delivery.antt =====
-- The loops of `get` on the bytes of `put`.
use mathlib.Core.Path.{subst}
use mathlib.Core.List.{append_assoc, append-nil}
use qcg_task.Prelude.{
  ℕ, zero, suc, ◌+◌, ◌-◌, ◌/◌, ◌%◌, ◌≤◌, ◌<◌, ◌≡◌, refl, sym, ap, ◌∙◌, none, some, List, [], ◌∷◌,
  ◌++◌, length, ltb, arith, length-append, ◌⊎◌, inl, inr, Bool-cases, true, false,
}
use qcg_task.Transport.Framing.{
  Socket, IsStream, to_bytes, from_bytes, Read, received, closed, read_loop,
}

-- The first of two parts covers a start that is no longer.
pub split_start {ℓ} :
    {A : Type ℓ} (c xs ys ps : List A)
    → length c ≤ length xs
    → xs ++ ys ≡ c ++ ps
    → (rest : List A) × (xs ≡ c ++ rest) × (ps ≡ rest ++ ys)
split_start [] xs ys ps short e = (xs, refl, sym e)
split_start (a ∷ c) [] ys ps short e = absurd (omega arith)
split_start (a ∷ c) (x ∷ xs) ys ps short e =
    let (rest, front, back) = split_start c xs ys ps (omega arith) (ground (arith, e)) in
    (rest, ground (arith, e, front), back)

-- what `to_bytes` makes of a number that fits
abbrev prefix : ℕ → List ℕ
prefix n = n / 16777216 ∷ n / 65536 % 256 ∷ n / 256 % 256 ∷ n % 256 ∷ []

to_bytes-fits : (n : ℕ) → ltb n 4294967296 ≡ true → to_bytes n ≡ some (prefix n)
unfolding to_bytes
to_bytes-fits n small = rw small refl

to_bytes-exceeds : (n : ℕ) → ltb n 4294967296 ≡ false → to_bytes n ≡ none
unfolding to_bytes
to_bytes-exceeds n large = rw large refl

from_bytes-prefix : (n : ℕ) → from_bytes 0 (prefix n) ≡ n
from_bytes-prefix n = omega arith

pub from_bytes-to_bytes :
    (n : ℕ) (bytes : List ℕ)
    → to_bytes n ≡ some bytes
    → (length bytes ≡ 4) × (from_bytes 0 bytes ≡ n)
from_bytes-to_bytes n bytes e = elim (Bool-cases (ltb n 4294967296)) [
  | inl small ↦
      let same : prefix n ≡ bytes = ground (arith, to_bytes-fits n small, e) in
      subst (λ w. (length w ≡ 4) × (from_bytes 0 w ≡ n)) same (refl, from_bytes-prefix n)
  | inr large ↦ absurd (ground (arith, to_bytes-exceeds n large, e))
]

List-cases {ℓ} : {A : Type ℓ} (c : List A) → (c ≡ []) ⊎ ((a : A) × (rest : List A) × (c ≡ a ∷ rest))
List-cases [] = inl refl
List-cases (a ∷ rest) = inr (a, rest, refl)

module _ (k : Socket) where
  read_loop-passes :
      (fuel target : ℕ) (bytes : List ℕ) (s : k.Conn) (b : ℕ) (bs : List ℕ)
      → ltb (length bytes) target ≡ true
      → (k.recv (target - length bytes) s).0 ≡ b ∷ bs
      → read_loop k (suc fuel) target bytes s
        ≡ read_loop k fuel target (bytes ++ b ∷ bs) (k.recv (target - length bytes) s).1
  unfolding read_loop
  read_loop-passes fuel target bytes s b bs more chunk = rw (more, chunk) refl

  -- With fuel for each missing byte the loop ends.
  pub read_loop-ends :
      (fuel target : ℕ) (bytes : List ℕ) (s : k.Conn)
      → target ≤ length bytes + fuel
      → (r : Read × k.Conn) × (read_loop k fuel target bytes s ≡ some r)
  unfolding read_loop
  read_loop-ends zero target bytes s enough =
      let full : ltb (length bytes) target ≡ false = ground arith in
      ((received bytes, s), rw full refl)
  read_loop-ends (suc fuel) target bytes s enough =
      let n = target - length bytes in
      elim (Bool-cases (ltb (length bytes) target)) [
        | inr full ↦ ((received bytes, s), rw full refl)
        | inl more ↦ elim (List-cases (k.recv n s).0) [
          | inl empty ↦ ((closed, (k.recv n s).1), rw (more, empty) refl)
          | inr (b, bs, chunk) ↦
              let (r, run) =
                read_loop-ends fuel target (bytes ++ b ∷ bs) (k.recv n s).1
                  (ground (arith, length-append bytes (b ∷ bs))) in
              (r, read_loop-passes fuel target bytes s b bs more chunk ∙ run)
        ]
      ]

module _ (k : Socket) (stream : IsStream k) where
  -- `read_loop` takes the bytes that are missing, and leaves those behind them.
  pub read_loop-takes :
      (fuel target : ℕ) (bytes xs ys : List ℕ) (s : k.Conn)
      → length xs ≤ fuel
      → length bytes + length xs ≡ target
      → k.pending s ≡ xs ++ ys
      → (s' : k.Conn) × (read_loop k fuel target bytes s ≡ some (received (bytes ++ xs), s'))
        × (k.pending s' ≡ ys)
  unfolding read_loop
  read_loop-takes zero target bytes [] ys s enough size p =
      let full : ltb (length bytes) target ≡ false = ground arith in
      (s, rw (full, append-nil bytes) refl, p)
  read_loop-takes (suc fuel) target bytes [] ys s enough size p =
      let full : ltb (length bytes) target ≡ false = ground arith in
      (s, rw (full, append-nil bytes) refl, p)
  read_loop-takes zero target bytes (x ∷ xs) ys s enough size p = absurd (omega arith)
  read_loop-takes (suc fuel) target bytes (x ∷ xs) ys s enough size p =
      let n = target - length bytes in
      let t = (k.recv n s).1 in
      let more : ltb (length bytes) target ≡ true = ground arith in
      elim (List-cases (k.recv n s).0) [
        | inl empty ↦
            let nothing : k.pending s ≡ [] = stream.closes n s (omega arith) empty in
            absurd (ground (arith, nothing, p))
        | inr (b, bs, chunk) ↦
            let bound : length (k.recv n s).0 ≤ n = stream.bounded n s in
            let size_c : length (k.recv n s).0 ≡ length (b ∷ bs) = ap length chunk in
            let fits : length (b ∷ bs) ≤ length (x ∷ xs) = omega arith in
            let taken : (x ∷ xs) ++ ys ≡ (b ∷ bs) ++ k.pending t =
              sym p ∙ stream.takes n s ∙ ap (λ w. w ++ k.pending t) chunk in
            let (rest, front, back) = split_start (b ∷ bs) (x ∷ xs) ys (k.pending t) fits taken in
            let size' : length (b ∷ bs) + length rest ≡ length (x ∷ xs) =
              sym (length-append (b ∷ bs) rest) ∙ ap length (sym front) in
            let joined : length (bytes ++ b ∷ bs) ≡ length bytes + length (b ∷ bs) =
              length-append bytes (b ∷ bs) in
            let now : length (bytes ++ b ∷ bs) + length rest ≡ target = omega arith in
            let (s', run, left) =
              read_loop-takes fuel target (bytes ++ b ∷ bs) rest ys t (omega arith) now back in
            (
              s',
              read_loop-passes k fuel target bytes s b bs more chunk
                  ∙ run
                  ∙ ap (λ w. some (received w, s'))
                      (append_assoc bytes (b ∷ bs) rest ∙ ap (λ w. bytes ++ w) (sym front)),
              left,
            )
      ]

  -- The loop is closed when the peer closes before enough bytes have arrived.
  pub read_loop-closes :
      (fuel target : ℕ) (bytes : List ℕ) (s : k.Conn)
      → target ≤ length bytes + fuel
      → length bytes + length (k.pending s) < target
      → (s' : k.Conn) × (read_loop k fuel target bytes s ≡ some (closed, s'))
  unfolding read_loop
  read_loop-closes zero target bytes s enough cut = absurd (omega arith)
  read_loop-closes (suc fuel) target bytes s enough cut =
      let n = target - length bytes in
      let t = (k.recv n s).1 in
      let more : ltb (length bytes) target ≡ true = ground arith in
      elim (List-cases (k.recv n s).0) [
        | inl empty ↦ (t, rw (more, empty) refl)
        | inr (b, bs, chunk) ↦
            let rest : length (k.pending s) ≡ length (b ∷ bs) + length (k.pending t) =
              ap length (stream.takes n s ∙ ap (λ w. w ++ k.pending t) chunk)
              ∙ length-append (b ∷ bs) (k.pending t) in
            let joined : length (bytes ++ b ∷ bs) ≡ length bytes + length (b ∷ bs) =
              length-append bytes (b ∷ bs) in
            let (s', run) =
              read_loop-closes fuel target (bytes ++ b ∷ bs) t (omega arith) (omega arith) in
            (s', read_loop-passes k fuel target bytes s b bs more chunk ∙ run)
      ]
