-- ===== src/Transport/Tests.antt =====
-- A socket that gives at most two bytes at a time, and a breaker that opens at two failures.
use qcg_task.Prelude.{
  ℕ, zero, suc, ◌≤◌, ◌<◌, ◌≡◌, refl, Option, none, some, List, [], ◌∷◌, ◌++◌, length, false, true,
  err, arith,
}
use qcg_task.Prelude.Int.{pos, ◌-ℤ◌}
use qcg_task.Prelude.Json.{Json, count}
use qcg_task.Transport.Framing.{Codec, Socket, IsStream, frame, put_all, get, get_many, to_bytes}
use qcg_task.Transport.Roundtrip.{get_many-put_all, get-ends}
use qcg_task.Transport.Breaker.{
  new_breaker, record_failure, check, after_calls, failure_at, success, check_at,
}
use qcg_task.Transport.Sender.{
  refusing, accepting, Conditions, TcpSender, absent, unconnected, failed_to_send, put, connect,
}
use qcg_task.Transport.Stale.{stale_socket_fails}
use qcg_task.Transport.Outage.{check_after_failure}

-- A number is three bytes of its value.
abbrev encode : Json → List ℕ
encode (count n) = n ∷ n ∷ n ∷ []
encode _ = []

abbrev decode : List ℕ → Option Json
decode [] = none
decode (n ∷ _) = some (count n)

abbrev codec : Codec
codec = record { encode = encode; decode = decode }

abbrev recv_two : ℕ → List ℕ → List ℕ × List ℕ
recv_two n [] = ([], [])
recv_two zero (b ∷ s) = ([], b ∷ s)
recv_two (suc zero) (b ∷ s) = (b ∷ [], s)
recv_two (suc (suc n)) (b ∷ []) = (b ∷ [], [])
recv_two (suc (suc n)) (b ∷ d ∷ s) = (b ∷ d ∷ [], s)

abbrev socket : Socket
socket = record { Conn = List ℕ; recv = recv_two; pending = λ s. s }

recv_two-takes : (n : ℕ) (s : List ℕ) → s ≡ (recv_two n s).0 ++ (recv_two n s).1
recv_two-takes n [] = refl
recv_two-takes zero (b ∷ s) = refl
recv_two-takes (suc zero) (b ∷ s) = refl
recv_two-takes (suc (suc n)) (b ∷ []) = refl
recv_two-takes (suc (suc n)) (b ∷ d ∷ s) = refl

recv_two-bounded : (n : ℕ) (s : List ℕ) → length (recv_two n s).0 ≤ n
recv_two-bounded n [] = omega arith
recv_two-bounded zero (b ∷ s) = omega arith
recv_two-bounded (suc zero) (b ∷ s) = omega arith
recv_two-bounded (suc (suc n)) (b ∷ []) = omega arith
recv_two-bounded (suc (suc n)) (b ∷ d ∷ s) = omega arith

recv_two-closes : (n : ℕ) (s : List ℕ) → 0 < n → (recv_two n s).0 ≡ [] → s ≡ []
recv_two-closes n [] some_asked e = refl
recv_two-closes zero (b ∷ s) some_asked e = absurd (omega arith)
recv_two-closes (suc zero) (b ∷ s) some_asked e = absurd (ground arith)
recv_two-closes (suc (suc n)) (b ∷ []) some_asked e = absurd (ground arith)
recv_two-closes (suc (suc n)) (b ∷ d ∷ s) some_asked e = absurd (ground arith)

abbrev stream : IsStream socket
stream = record { takes = recv_two-takes; bounded = recv_two-bounded; closes = recv_two-closes }

abbrev two : List Json
two = count 5 ∷ count 9 ∷ []

abbrev wire : List ℕ
wire = 0 ∷ 0 ∷ 0 ∷ 3 ∷ 5 ∷ 5 ∷ 5 ∷ 0 ∷ 0 ∷ 0 ∷ 3 ∷ 9 ∷ 9 ∷ 9 ∷ []

sent_two : put_all codec two ≡ some wire
unfolding put_all frame to_bytes
sent_two = refl

get_many-put_all_example :
    (s' : List ℕ) × (get_many socket codec 2 (wire ++ 0 ∷ []) ≡ some (two, s')) × (s' ≡ 0 ∷ [])
get_many-put_all_example =
    get_many-put_all socket stream codec two wire (0 ∷ []) (wire ++ 0 ∷ []) sent_two
      (refl, (refl, tt)) refl

get-ends_example : (x : Json × List ℕ) × (get socket codec wire ≡ some x)
get-ends_example = get-ends socket codec wire

check_after_failure_example :
    (check (pos 9) (
      record_failure (pos 5) (
        after_calls
          (failure_at (pos 1) ∷ success ∷ failure_at (pos 4) ∷ check_at (pos 4) ∷ [])
          (new_breaker 2 (pos 10))))).0
    ≡ false
unfolding ◌-ℤ◌
check_after_failure_example =
    check_after_failure 2 (pos 10)
      (failure_at (pos 1) ∷ success ∷ failure_at (pos 4) ∷ check_at (pos 4) ∷ []) (pos 5) (pos 9)

abbrev refused : Conditions
refused = record { now = pos 1; later = pos 2; accepts = λ i. refusing; delivers = false }

abbrev welcome : Conditions
welcome = record { now = pos 3; later = pos 4; accepts = λ i. accepting; delivers = true }

abbrev fresh : TcpSender
fresh = record { sock = absent; circuit_breaker = new_breaker 5 (pos 10) }

abbrev left_over : TcpSender
left_over = record {
  sock = unconnected;
  circuit_breaker = record_failure (pos 2) (new_breaker 5 (pos 10));
}

stale_socket_fails_example : (put codec welcome (count 9) left_over).0 ≡ err failed_to_send
unfolding put connect check record_failure
stale_socket_fails_example =
    stale_socket_fails codec refused welcome (count 5) (count 9) fresh left_over refl refl
