-- ===== src/Transport/Sender.antt =====
-- TCPTransportSender: `connect` and `put` with the circuit breaker. What the clock, the peer and the
-- socket do during a call is an argument.
use qcg_task.Prelude.{ℕ, zero, suc, Bool, true, false, Option, some, List, Result, ok, err}
use qcg_task.Prelude.Int.{ℤ}
use qcg_task.Prelude.Json.{Json}
use qcg_task.Transport.Framing.{Codec, frame}
use qcg_task.Transport.Breaker.{CircuitBreaker, check, record_failure, record_success}

-- `self.sock`: None, a socket whose connection failed, or a connected one
pub data SenderSocket : Type 0 where
  absent : SenderSocket
  unconnected : SenderSocket
  connected : SenderSocket

pub record TcpSender : Type 0 where
  pub sock : SenderSocket
  pub circuit_breaker : CircuitBreaker

pub data SendError : Type 0 where
  breaker_open : SendError
  could_not_connect : SendError
  -- any other error of `socket.connect`, which no clause of `connect` or `put` takes up
  connect_error : SendError
  failed_to_send : SendError

-- How an attempt to connect ends.
pub data Attempt : Type 0 where
  accepting : Attempt
  refusing : Attempt
  failing : Attempt

-- `accepts i` says how the attempt ends when `i` further ones are left, and `delivers` whether
-- `sendall` succeeds on a connected socket.
pub record Conditions : Type 0 where
  pub now : ℤ
  pub later : ℤ
  pub accepts : ℕ → Attempt
  pub delivers : Bool

-- one round of the loop, before the rest of it
abbrev pub or_next : Attempt → Attempt → Attempt
or_next refusing rest = rest
or_next outcome rest = outcome

-- `for _ in range(n)`: how the loop ends, which goes on only after a refusal
abbrev pub attempts : ℕ → (ℕ → Attempt) → Attempt
attempts zero accepts = refusing
attempts (suc n) accepts = or_next (accepts n) (attempts n accepts)

abbrev pub connect_checked :
    Attempt → Conditions → TcpSender → Result SendError (Unit {0}) × TcpSender
connect_checked accepting w s =
    (ok tt, record { sock = connected; circuit_breaker = record_success s.circuit_breaker })
connect_checked failing w s = (err connect_error, record s { sock = unconnected })
connect_checked refusing w s = (
  err could_not_connect,
  record { sock = unconnected; circuit_breaker = record_failure w.later s.circuit_breaker },
)

-- the breaker's answer, and then the attempts
abbrev pub connect_after :
    Bool × CircuitBreaker → Conditions → TcpSender → Result SendError (Unit {0}) × TcpSender
connect_after (false, b) w s = (err breaker_open, record s { circuit_breaker = b })
connect_after (true, b) w s =
    connect_checked (attempts 10 w.accepts) w (record s { circuit_breaker = b })

unfoldable pub connect : Conditions → TcpSender → Result SendError (Unit {0}) × TcpSender
connect w s = connect_after (check w.now s.circuit_breaker) w s

-- whether the `try` block of `put` runs to its end: `sendall` raises on a socket without a connection
abbrev pub sends : SenderSocket → Option (List ℕ) → Bool → Bool
sends connected (some bytes) delivers = delivers
sends _ _ _ = false

module _ (c : Codec) where
  abbrev pub finish : Bool → Conditions → TcpSender → Result SendError (Unit {0}) × TcpSender
  finish true w s = (ok tt, record s { circuit_breaker = record_success s.circuit_breaker })
  finish false w s = (
    err failed_to_send,
    record { sock = absent; circuit_breaker = record_failure w.later s.circuit_breaker },
  )

  unfoldable pub transmit : Conditions → Json → TcpSender → Result SendError (Unit {0}) × TcpSender
  transmit w v s = finish (sends s.sock (frame c v) w.delivers) w s

  abbrev pub if_connected :
      Conditions
      → Json
      → Result SendError (Unit {0}) × TcpSender
      → Result SendError (Unit {0}) × TcpSender
  if_connected w v (err e, s) = (err e, s)
  if_connected w v (ok u, s) = transmit w v s

  -- `if not self.sock: self.connect()`, and the rest
  abbrev pub put_with :
      SenderSocket → Conditions → Json → TcpSender → Result SendError (Unit {0}) × TcpSender
  put_with absent w v s = if_connected w v (connect w s)
  put_with _ w v s = transmit w v s

  abbrev pub put_after :
      Bool × CircuitBreaker
      → Conditions
      → Json
      → TcpSender
      → Result SendError (Unit {0}) × TcpSender
  put_after (false, b) w v s = (err breaker_open, record s { circuit_breaker = b })
  put_after (true, b) w v s = put_with s.sock w v (record s { circuit_breaker = b })

  unfoldable pub put : Conditions → Json → TcpSender → Result SendError (Unit {0}) × TcpSender
  put w v s = put_after (check w.now s.circuit_breaker) w v s
