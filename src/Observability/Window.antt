-- ===== src/Observability/Window.antt =====
-- What the bounded deque keeps.
use mathlib.Core.List.{append_assoc, append-nil}
use qcg_task.Prelude.{
  ℕ, zero, suc, ◌+◌, ◌-◌, ◌≤◌, ◌<◌, ◌≡◌, refl, sym, ap, ◌∙◌, ◌⊎◌, inl, inr, true, false, List, [],
  ◌∷◌, ◌++◌, length, drop, ltb, arith, Bool-cases, length-append, length-drop,
}
use qcg_task.Observability.Defs.{
  TraceEntry, TraceStore, new_store, max_trace_entries, push, numbered, record_entry, record_all,
}

module _ {ℓ} {A : Type ℓ} where
  drop-append : (n : ℕ) (xs ys : List A) → n ≤ length xs → drop n (xs ++ ys) ≡ drop n xs ++ ys
  drop-append zero xs ys short = refl
  drop-append (suc n) [] ys short = absurd (omega arith)
  drop-append (suc n) (x ∷ xs) ys short = drop-append n xs ys (omega arith)

  -- One more is dropped.
  drop_tail :
      (n : ℕ) (xs : List A) (y : A) (ys : List A) → drop n xs ≡ y ∷ ys → drop (suc n) xs ≡ ys
  drop_tail zero (x ∷ xs) y ys e = ground (arith, e)
  drop_tail zero [] y ys e = absurd (ground (arith, e))
  drop_tail (suc n) [] y ys e = absurd (ground (arith, e))
  drop_tail (suc n) (x ∷ xs) y ys e = drop_tail n xs y ys e

-- the last `limit` entries
abbrev pub window : ℕ → List TraceEntry → List TraceEntry
window limit history = drop (length history - limit) history

-- the entries of a history with their numbers
abbrev pub numbered_from : ℕ → List TraceEntry → List TraceEntry
numbered_from n [] = []
numbered_from n (e ∷ es) = numbered (suc n) e ∷ numbered_from (suc n) es

push-room :
    (limit : ℕ) (kept : List TraceEntry) (e : TraceEntry)
    → length kept < limit
    → push limit kept e ≡ kept ++ e ∷ []
push-room limit [] e room = refl
push-room limit (x ∷ xs) e room =
    let fits : ltb (length (x ∷ xs)) limit ≡ true = ground arith in rw fits refl

push-full :
    (limit : ℕ) (x : TraceEntry) (xs : List TraceEntry) (e : TraceEntry)
    → limit ≤ length (x ∷ xs)
    → push limit (x ∷ xs) e ≡ xs ++ e ∷ []
push-full limit x xs e full =
    let over : ltb (length (x ∷ xs)) limit ≡ false = ground arith in rw over refl

List-cases :
    (xs : List TraceEntry) → (xs ≡ []) ⊎ ((y : TraceEntry) × (ys : List TraceEntry) × (xs ≡ y ∷ ys))
List-cases [] = inl refl
List-cases (y ∷ ys) = inr (y, ys, refl)

push-window :
    (limit : ℕ) (history : List TraceEntry) (e : TraceEntry)
    → 0 < limit
    → push limit (window limit history) e ≡ window limit (history ++ e ∷ [])
push-window limit history e room =
    let k = length history - limit in
    let longer : length (history ++ e ∷ []) ≡ suc (length history) =
      ground (arith, length-append history (e ∷ [])) in
    let left : length (drop k history) ≡ length history - k = length-drop k history in
    elim (Bool-cases (ltb (length history) limit)) [
      | inl few ↦
          let z : k ≡ 0 = ground (arith, few) in
          let z' : length (history ++ e ∷ []) - limit ≡ 0 = ground (arith, few, longer) in
          rw (z, z') (push-room limit history e (ground (arith, few)))
      | inr many ↦ elim (List-cases (drop k history)) [
        | inl none_left ↦
            let empty : length (drop k history) ≡ 0 = ap length none_left in
            absurd (ground (arith, empty, left, many))
        | inr (x, xs, kept) ↦
            let size : length (drop k history) ≡ length (x ∷ xs) = ap length kept in
            let next : length (history ++ e ∷ []) - limit ≡ suc k = ground (arith, many, longer) in
            let full : limit ≤ length (x ∷ xs) = ground (arith, many, size, left) in
            let within : suc k ≤ length history = ground (arith, many) in
            ap (λ w. push limit w e) kept
            ∙ push-full limit x xs e full
            ∙ ap (λ w. w ++ e ∷ []) (sym (drop_tail k history x xs kept))
            ∙ sym (drop-append (suc k) history (e ∷ []) within)
            ∙ ap (λ n. drop n (history ++ e ∷ [])) (sym next)
      ]
    ]

record_all-window :
    (es before : List TraceEntry) (s : TraceStore)
    → s.entries ≡ window max_trace_entries before
    → s.sequence_counter ≡ length before
    → ((record_all es s).entries
        ≡ window max_trace_entries (before ++ numbered_from (length before) es))
      × ((record_all es s).sequence_counter ≡ length before + length es)
unfolding record_all record_entry
record_all-window [] before s kept counted = (rw (append-nil before) kept, omega arith)
record_all-window (e ∷ es) before s kept counted =
    let n : TraceEntry = numbered (suc s.sequence_counter) e in
    let same : n ≡ numbered (suc (length before)) e = ap (λ k. numbered (suc k) e) counted in
    let before' : List TraceEntry = before ++ n ∷ [] in
    let size : length before' ≡ suc (length before) =
      ground (arith, length-append before (n ∷ [])) in
    let (entries, counter) =
      record_all-window es before' (record_entry e s)
        (ap (λ w. push max_trace_entries w n) kept
          ∙ push-window max_trace_entries before n (omega arith))
        (ap suc counted ∙ sym size) in
    (
      entries
          ∙ ap (λ k. window max_trace_entries (before' ++ numbered_from k es)) size
          ∙ ap (window max_trace_entries) (
              append_assoc before (n ∷ []) (numbered_from (suc (length before)) es)
              ∙ ap (λ x. before ++ x ∷ numbered_from (suc (length before)) es) same),
      ground (arith, counter, size),
    )

-- A new store that has recorded entries holds the last ten thousand of them in their order, each with
-- the number of its place in the history unless it came with a number of its own.
pub recorded_window :
    (es : List TraceEntry)
    → ((record_all es new_store).entries ≡ window max_trace_entries (numbered_from 0 es))
      × ((record_all es new_store).sequence_counter ≡ length es)
recorded_window es =
    let kept = record_all-window es [] new_store refl refl in (kept.0, kept.1 ∙ omega arith)
