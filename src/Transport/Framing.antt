-- ===== src/Transport/Framing.antt =====
-- The frames that TCPTransportSender.put and UDSTransportSender.put write, and the loops of `get` that
-- read them. The socket and the encoding of a document as bytes are parameters; timeouts are left out.
use qcg_task.Prelude.{
  ℕ, zero, suc, ◌+◌, ◌-◌, ◌*◌, ◌/◌, ◌%◌, ◌≤◌, ◌<◌, ◌≡◌, Option, none, some, List, [], ◌∷◌, ◌++◌,
  if◌then◌else◌, length, ltb,
}
use qcg_task.Prelude.Json.{Json, text, obj, field, done}

-- `json.dumps(obj).encode("utf-8")` and `json.loads(data.decode("utf-8"))`, `none` being an exception.
pub record Codec : Type 0 where
  pub encode : Json → List ℕ
  pub decode : List ℕ → Option Json

-- A document that was written is read again.
abbrev pub ReadsBack : Codec → Json → Type 0
ReadsBack c v = c.decode (c.encode v) ≡ some v

-- `sock.recv` on a connected socket, with the bytes that have still to arrive before the peer closes.
pub record Socket : Type 1 where
  pub Conn : Type 0
  pub recv : ℕ → Conn → List ℕ × Conn
  pub pending : Conn → List ℕ

-- recv takes the next bytes, at most as many as asked for, and none only when the peer has closed.
pub record IsStream (k : Socket) : Type 0 where
  pub takes : (n : ℕ) (s : k.Conn) → k.pending s ≡ (k.recv n s).0 ++ k.pending (k.recv n s).1
  pub bounded : (n : ℕ) (s : k.Conn) → length (k.recv n s).0 ≤ n
  pub closes : (n : ℕ) (s : k.Conn) → 0 < n → (k.recv n s).0 ≡ [] → k.pending s ≡ []

-- `len(data).to_bytes(4, byteorder='big')`, `none` being an OverflowError
unfoldable pub to_bytes : ℕ → Option (List ℕ)
to_bytes n =
    if ltb n 4294967296
    then some (n / 16777216 ∷ n / 65536 % 256 ∷ n / 256 % 256 ∷ n % 256 ∷ [])
    else none

-- `int.from_bytes(bytes, byteorder='big')`, with the number before them
abbrev pub from_bytes : ℕ → List ℕ → ℕ
from_bytes acc [] = acc
from_bytes acc (b ∷ bs) = from_bytes (acc * 256 + b) bs

abbrev pub prefixed : List ℕ → Option (List ℕ) → Option (List ℕ)
prefixed body none = none
prefixed body (some length_prefix) = some (length_prefix ++ body)

-- What `put` hands to `sendall`.
unfoldable pub frame : Codec → Json → Option (List ℕ)
frame c v = prefixed (c.encode v) (to_bytes (length (c.encode v)))

abbrev pub done_message : Json
done_message = obj (field "type" (text "DONE") done)

-- How a loop of `get` ends.
pub data Read : Type 0 where
  received : List ℕ → Read
  closed : Read

-- The bytes that `put` sends for the documents, in this order.
unfoldable pub put_all : Codec → List Json → Option (List ℕ)
put_all c [] = some []
put_all c (v ∷ vs) = elim (frame c v) [
  | none ↦ none
  | some sent ↦ elim (put_all c vs) [ none ↦ none | some rest ↦ some (sent ++ rest) ]
]

module _ (k : Socket) where
  -- `while len(data) < target: ...`, with fuel; `none` is no fuel left.
  unfoldable pub read_loop : ℕ → ℕ → List ℕ → k.Conn → Option (Read × k.Conn)
  read_loop zero target bytes s =
      if ltb (length bytes) target then none else some (received bytes, s)
  read_loop (suc fuel) target bytes s =
      if ltb (length bytes) target
      then (let (chunk, s') = k.recv (target - length bytes) s in
          elim chunk [
            | [] ↦ some (closed, s')
            | b ∷ bs ↦ read_loop fuel target (bytes ++ b ∷ bs) s'
          ])
      else some (received bytes, s)

  module _ (c : Codec) where
    -- `json.loads`, an exception being answered by DONE
    abbrev pub loaded : List ℕ → Json
    loaded bytes = elim (c.decode bytes) [ none ↦ done_message | some v ↦ v ]

    abbrev pub after_body : Option (Read × k.Conn) → Option (Json × k.Conn)
    after_body none = none
    after_body (some (closed, s)) = some (done_message, s)
    after_body (some (received bytes, s)) = some (loaded bytes, s)

    unfoldable pub read_body : ℕ → k.Conn → Option (Json × k.Conn)
    read_body length s = after_body (read_loop length length [] s)

    abbrev pub after_prefix : Option (Read × k.Conn) → Option (Json × k.Conn)
    after_prefix none = none
    after_prefix (some (closed, s)) = some (done_message, s)
    after_prefix (some (received bytes, s)) = read_body (from_bytes 0 bytes) s

    unfoldable pub get : k.Conn → Option (Json × k.Conn)
    get s = after_prefix (read_loop 4 4 [] s)

    -- so many calls of `get`
    unfoldable pub get_many : ℕ → k.Conn → Option (List Json × k.Conn)
    get_many zero s = some ([], s)
    get_many (suc n) s = elim (get s) [
      | none ↦ none
      | some (v, s') ↦ elim (get_many n s') [ none ↦ none | some (vs, s'') ↦ some (v ∷ vs, s'') ]
    ]
