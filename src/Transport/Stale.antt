-- ===== src/Transport/Stale.antt =====
-- TCPTransportSender after a connection that failed.
use mathlib.Core.Path.{subst}
use qcg_task.Prelude.{◌≡◌, refl, Bool, true, false, arith, Result, ok, err}
use qcg_task.Prelude.Json.{Json}
use qcg_task.Transport.Framing.{Codec, frame}
use qcg_task.Transport.Breaker.{CircuitBreaker, check}
use qcg_task.Transport.Sender.{
  SenderSocket, absent, unconnected, connected, TcpSender, SendError, could_not_connect,
  connect_error, Attempt, accepting, refusing, failing, failed_to_send, Conditions, attempts,
  connect_checked, connect_after, connect, sends, finish, transmit, if_connected, put_with,
  put_after, put,
}

-- What an error of connecting leaves.
abbrev Leaves : Result SendError (Unit {0}) × TcpSender → Type 0
Leaves (err could_not_connect, s) = s.sock ≡ unconnected
Leaves (err connect_error, s) = s.sock ≡ unconnected
Leaves _ = Unit {0}

module _ (c : Codec) where
  connect_checked-Leaves :
      (b : Attempt) (w : Conditions) (s : TcpSender) → Leaves (connect_checked b w s)
  connect_checked-Leaves accepting w s = tt
  connect_checked-Leaves refusing w s = refl
  connect_checked-Leaves failing w s = refl

  connect_after-Leaves :
      (r : Bool × CircuitBreaker) (w : Conditions) (s : TcpSender) → Leaves (connect_after r w s)
  connect_after-Leaves (false, b) w s = tt
  connect_after-Leaves (true, b) w s =
      connect_checked-Leaves (attempts 10 w.accepts) w (record s { circuit_breaker = b })

  finish-Leaves : (b : Bool) (w : Conditions) (s : TcpSender) → Leaves (finish c b w s)
  finish-Leaves true w s = tt
  finish-Leaves false w s = tt

  transmit-Leaves : (w : Conditions) (v : Json) (s : TcpSender) → Leaves (transmit c w v s)
  unfolding transmit
  transmit-Leaves w v s = finish-Leaves (sends s.sock (frame c v) w.delivers) w s

  if_connected-Leaves :
      (w : Conditions) (v : Json) (r : Result SendError (Unit {0}) × TcpSender)
      → Leaves r
      → Leaves (if_connected c w v r)
  if_connected-Leaves w v (err e, s) left = left
  if_connected-Leaves w v (ok u, s) left = transmit-Leaves w v s

  put_with-Leaves :
      (k : SenderSocket) (w : Conditions) (v : Json) (s : TcpSender) → Leaves (put_with c k w v s)
  unfolding connect
  put_with-Leaves absent w v s =
      if_connected-Leaves w v (connect w s)
        (connect_after-Leaves (check w.now s.circuit_breaker) w s)
  put_with-Leaves unconnected w v s = transmit-Leaves w v s
  put_with-Leaves connected w v s = transmit-Leaves w v s

  put_after-Leaves :
      (r : Bool × CircuitBreaker) (w : Conditions) (v : Json) (s : TcpSender)
      → Leaves (put_after c r w v s)
  put_after-Leaves (false, b) w v s = tt
  put_after-Leaves (true, b) w v s = put_with-Leaves s.sock w v (record s { circuit_breaker = b })

  put-Leaves : (w : Conditions) (v : Json) (s : TcpSender) → Leaves (put c w v s)
  unfolding put
  put-Leaves w v s = put_after-Leaves (check w.now s.circuit_breaker) w v s

  put_after-fails :
      (r : Bool × CircuitBreaker) (w : Conditions) (v : Json) (s : TcpSender)
      → s.sock ≡ unconnected
      → r.0 ≡ true
      → (put_after c r w v s).0 ≡ err failed_to_send
  unfolding transmit
  put_after-fails (false, b) w v s stale passed = absurd (ground (arith, passed))
  put_after-fails (true, b) w v s stale passed = rw stale refl

  -- After a `put` that could not connect, the next `put` fails to send if the breaker lets it pass,
  -- even if the peer would accept a connection by then.
  pub stale_socket_fails :
      (first next : Conditions) (v other : Json) (s after : TcpSender)
      → put c first v s ≡ (err could_not_connect, after)
      → (check next.now after.circuit_breaker).0 ≡ true
      → (put c next other after).0 ≡ err failed_to_send
  unfolding put
  stale_socket_fails first next v other s after failed passed =
      let stale : after.sock ≡ unconnected = subst Leaves failed (put-Leaves first v s) in
      put_after-fails (check next.now after.circuit_breaker) next other after stale passed
