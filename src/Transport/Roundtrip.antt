-- ===== src/Transport/Roundtrip.antt =====
-- `put` and `get` over one connection.
use mathlib.Core.List.{append_assoc}
use qcg_task.Prelude.{
  ℕ, suc, ◌+◌, ◌≡◌, refl, sym, ap, ◌∙◌, some, List, [], ◌∷◌, ◌++◌, length, leb, arith,
  length-append, All, Option-cases, inl, inr, Bool-cases,
}
use qcg_task.Prelude.Json.{Json}
use qcg_task.Transport.Framing.{
  Read, Codec, ReadsBack, Socket, IsStream, to_bytes, from_bytes, frame, received, closed,
  done_message, loaded, read_body, after_body, after_prefix, get, get_many, put_all, read_loop,
}
use qcg_task.Transport.Delivery.{
  split_start, from_bytes-to_bytes, read_loop-takes, read_loop-ends, read_loop-closes,
}

-- The two parts of a frame.
frame-parts :
    (c : Codec) (v : Json) (bytes : List ℕ)
    → frame c v ≡ some bytes
    → (prefix : List ℕ) × (length prefix ≡ 4)
      × (from_bytes 0 prefix ≡ length (c.encode v))
      × (prefix ++ c.encode v ≡ bytes)
unfolding frame
frame-parts c v bytes e = elim (Option-cases (to_bytes (length (c.encode v)))) [
  | inl large ↦ absurd (ground (arith, large, e))
  | inr (prefix, small) ↦
      let (four, number) = from_bytes-to_bytes (length (c.encode v)) prefix small in
      let same : prefix ++ c.encode v ≡ bytes = ground (arith, small, e) in
      (prefix, four, number, same)
]

module _ (k : Socket) (stream : IsStream k) (c : Codec) where
  get-frame :
      (v : Json) (bytes ys : List ℕ) (s : k.Conn)
      → frame c v ≡ some bytes
      → ReadsBack c v
      → k.pending s ≡ bytes ++ ys
      → (s' : k.Conn) × (get k c s ≡ some (v, s')) × (k.pending s' ≡ ys)
  unfolding get read_body
  get-frame v bytes ys s framed reads p =
      let body = c.encode v in
      let (prefix, four, number, whole) = frame-parts c v bytes framed in
      let arriving : k.pending s ≡ prefix ++ (body ++ ys) =
        p ∙ ap (λ w. w ++ ys) (sym whole) ∙ append_assoc prefix body ys in
      let (s1, run1, left1) =
        read_loop-takes k stream 4 4 [] prefix (body ++ ys) s (omega arith) (omega arith)
          arriving in
      let (s2, run2, left2) =
        read_loop-takes k stream (length body) (length body) [] body ys s1 (omega arith)
          (omega arith) left1 in
      let document : loaded k c body ≡ v = rw (loaded, reads) refl in
      (
        s2,
        ap (after_prefix k c) run1
            ∙ ap (λ n. read_body k c n s1) number
            ∙ ap (after_body k c) run2
            ∙ ap (λ w. some (w, s2)) document,
        left2,
      )

  get_many-step :
      (v : Json) (vs : List Json) (n : ℕ) (s s1 s2 : k.Conn)
      → get k c s ≡ some (v, s1)
      → get_many k c n s1 ≡ some (vs, s2)
      → get_many k c (suc n) s ≡ some (v ∷ vs, s2)
  unfolding get_many get read_loop
  get_many-step v vs n s s1 s2 first others = rw (first, others) refl

  -- `get_many` reads from the bytes of `put_all` the documents in their order and nothing of what
  -- follows, however the bytes arrive in pieces, if each document reads back from its own encoding.
  pub get_many-put_all :
      (vs : List Json) (sent rest : List ℕ) (s : k.Conn)
      → put_all c vs ≡ some sent
      → All (ReadsBack c) vs
      → k.pending s ≡ sent ++ rest
      → (s' : k.Conn) × (get_many k c (length vs) s ≡ some (vs, s')) × (k.pending s' ≡ rest)
  unfolding get_many put_all
  get_many-put_all [] sent rest s e reads p =
      let none_sent : [] ≡ sent = ground (arith, e) in
      (s, refl, p ∙ ap (λ w. w ++ rest) (sym none_sent))
  get_many-put_all (v ∷ vs) sent rest s e reads p = elim (Option-cases (frame c v)) [
    | inl large ↦ absurd (ground (arith, large, e))
    | inr (bytes, framed) ↦ elim (Option-cases (put_all c vs)) [
      | inl failed ↦ absurd (ground (arith, framed, failed, e))
      | inr (others, later) ↦
          let whole : bytes ++ others ≡ sent = ground (arith, framed, later, e) in
          let arriving : k.pending s ≡ bytes ++ (others ++ rest) =
            p ∙ ap (λ w. w ++ rest) (sym whole) ∙ append_assoc bytes others rest in
          let (s1, run1, left1) = get-frame v bytes (others ++ rest) s framed reads.0 arriving in
          let (s2, run2, left2) = get_many-put_all vs others rest s1 later reads.1 left1 in
          (s2, get_many-step v vs (length vs) s s1 s2 run1 run2, left2)
    ]
  ]

  -- When the peer closes with only a part of a frame sent, `get` answers the DONE message.
  pub get_cut :
      (v : Json) (part missing : List ℕ) (b : ℕ) (s : k.Conn)
      → frame c v ≡ some (part ++ b ∷ missing)
      → k.pending s ≡ part
      → (s' : k.Conn) × (get k c s ≡ some (done_message, s'))
  unfolding get read_body
  get_cut v part missing b s framed p =
      let body = c.encode v in
      let (prefix, four, number, whole) = frame-parts c v (part ++ b ∷ missing) framed in
      let arrived : length (k.pending s) ≡ length part = ap length p in
      elim (Bool-cases (leb 4 (length part))) [
        | inr few ↦
            let (s1, run1) =
              read_loop-closes k stream 4 4 [] s (omega arith) (ground (arith, few, arrived)) in
            (s1, ap (after_prefix k c) run1)
        | inl many ↦
            let (rest, front, back) =
              split_start prefix part (b ∷ missing) body (ground (arith, many, four)) (sym whole) in
            let (s1, run1, left1) =
              read_loop-takes k stream 4 4 [] prefix rest s (omega arith) (omega arith)
                (p ∙ front) in
            let size : length body ≡ length rest + length (b ∷ missing) =
              ap length back ∙ length-append rest (b ∷ missing) in
            let left : length (k.pending s1) ≡ length rest = ap length left1 in
            let (s2, run2) =
              read_loop-closes k stream (length body) (length body) [] s1 (omega arith)
                (omega arith) in
            (
              s2,
              ap (after_prefix k c) run1
                  ∙ ap (λ n. read_body k c n s1) number
                  ∙ ap (after_body k c) run2,
            )
      ]

module _ (k : Socket) (c : Codec) where
  after_body-ends :
      (r : Read) (s : k.Conn) → (x : Json × k.Conn) × (after_body k c (some (r, s)) ≡ some x)
  after_body-ends closed s = ((done_message, s), refl)
  after_body-ends (received bytes) s = ((loaded k c bytes, s), refl)

  read_body-ends : (n : ℕ) (s : k.Conn) → (x : Json × k.Conn) × (read_body k c n s ≡ some x)
  unfolding read_body
  read_body-ends n s =
      let ((r, s'), run) = read_loop-ends k n n [] s (omega arith) in
      let (x, body) = after_body-ends r s' in (x, ap (after_body k c) run ∙ body)

  after_prefix-ends :
      (r : Read) (s : k.Conn) → (x : Json × k.Conn) × (after_prefix k c (some (r, s)) ≡ some x)
  after_prefix-ends closed s = ((done_message, s), refl)
  after_prefix-ends (received bytes) s = read_body-ends (from_bytes 0 bytes) s

  -- `get` ends on every connection, whatever `recv` gives: the lengths are fuel enough for both loops.
  pub get-ends : (s : k.Conn) → (x : Json × k.Conn) × (get k c s ≡ some x)
  unfolding get
  get-ends s =
      let ((r, s'), run) = read_loop-ends k 4 4 [] s (omega arith) in
      let (x, rest) = after_prefix-ends r s' in (x, ap (after_prefix k c) run ∙ rest)
