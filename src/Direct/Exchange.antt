-- ===== src/Direct/Exchange.antt =====
-- pkg/direct/server.go and client.go: one round of the server's loop on a connection, and a call.
-- What is written to the connection is the bytes given to writeAll. A handler answers with the text
-- of its error, on the left, or with its reply.
pub mod Answer
use nmid.Prelude.{ℕ, ◌+◌, ◌*◌, [], ◌∷◌, ◌==◌, ltb, if◌then◌else◌, not, Option, none, some, ◌⊎◌}
use nmid.Prelude.{inl, inr}
use nmid.Wire.{Bytes, Outcome, ok, err, panics, ◌>>=◌, uint32_at, invalid_conn_type}
use nmid.Wire.{invalid_data_type, invalid_reply_size}
use nmid.Wire.Frame.{read_full}
use nmid.Direct.Proto.{Call, Reply, pack_frame, pack_call, unpack_call, pack_reply, unpack_reply}

abbrev pub conn_type_direct_client : ℕ
conn_type_direct_client = 101

abbrev pub conn_type_direct_server : ℕ
conn_type_direct_server = 102

abbrev pub dt_call : ℕ
dt_call = 1

abbrev pub dt_reply : ℕ
dt_reply = 2

abbrev pub dt_health : ℕ
dt_health = 4

abbrev pub max_content : ℕ
max_content = 32 * 1024 * 1024

abbrev pub Handler : Type 0
Handler = Bytes → Bytes ⊎ Bytes

-- The handlers map.
abbrev pub Handlers : Type 0
Handlers = Bytes → Option Handler

abbrev pub bad_request : Bytes
bad_request = b'b' ∷ b'a' ∷ b'd' ∷ 32 ∷ b'r' ∷ b'e' ∷ b'q' ∷ b'u' ∷ b'e' ∷ b's' ∷ b't' ∷ []

abbrev pub no_such_service : Bytes
no_such_service =
    b'n' ∷ b'o' ∷ 32 ∷ b's' ∷ b'u' ∷ b'c' ∷ b'h' ∷ 32 ∷ b's' ∷ b'e' ∷ b'r' ∷ b'v' ∷ b'i' ∷ b'c'
    ∷ b'e' ∷ []

abbrev health_ok : Bytes
health_ok = b'O' ∷ b'K' ∷ []

abbrev unsupported : Bytes
unsupported = b'u' ∷ b'n' ∷ b's' ∷ b'u' ∷ b'p' ∷ b'p' ∷ b'o' ∷ b'r' ∷ b't' ∷ b'e' ∷ b'd' ∷ []

unfoldable pub reply_frame : ℕ → Bytes → Outcome Bytes
reply_frame status text = pack_reply status text >>= pack_frame conn_type_direct_server dt_reply

-- What the server writes when a handler has run.
unfoldable pub handler_frame : Bytes ⊎ Bytes → Outcome Bytes
handler_frame (inl message) = reply_frame 3 message
handler_frame (inr r) = reply_frame 0 r

-- The case DTCall of handleConn, behind UnpackCall.
unfoldable pub handle_call : Handlers → Call → Outcome Bytes
handle_call handlers call = elim (handlers call.service) [
  | none ↦ reply_frame 2 no_such_service
  | some h ↦ handler_frame (h call.payload)
]

unfoldable pub handle_content : Handlers → ℕ → Bytes → Outcome Bytes
handle_content handlers dt content =
    if dt == dt_call
    then elim (unpack_call content) [
      | panics ↦ panics
      | err e ↦ reply_frame 1 bad_request
      | ok call ↦ handle_call handlers call
    ]
    else if dt == dt_health
    then reply_frame 0 health_ok
    else reply_frame 1 unsupported

-- The content of a frame, which is not read at all if its length is zero.
unfoldable pub read_content : ℕ → Bytes → Outcome (Bytes × Bytes)
read_content clen stream = if ltb 0 clen then read_full clen stream else ok ([], stream)

-- A reading that fails ends the loop and closes the connection, with no answer.
abbrev or_closed :
    {A : Type 0}
    → Outcome A
    → (A → Outcome (Option (Bytes × Bytes)))
    → Outcome (Option (Bytes × Bytes))
or_closed panics next = panics
or_closed (err e) next = ok none
or_closed (ok a) next = next a

-- The rest of a round of handleConn, behind the header.
unfoldable pub serve_content : Handlers → ℕ → ℕ → ℕ → Bytes → Outcome (Option (Bytes × Bytes))
serve_content handlers conn_type dt clen stream =
    if not (conn_type == conn_type_direct_client)
    then ok none
    else if ltb max_content clen
    then ok none
    else or_closed (read_content clen stream)
        λ p. handle_content handlers dt p.0 >>= λ answer. ok (some (answer, p.1))

-- One round of handleConn: the bytes written and the rest of the stream, or none, and the
-- connection is closed.
unfoldable pub serve : Handlers → Bytes → Outcome (Option (Bytes × Bytes))
serve handlers stream = or_closed (read_full 12 stream) λ p. (do
  conn_type ← uint32_at p.0 0 4
  dt ← uint32_at p.0 4 8
  clen ← uint32_at p.0 8 12
  serve_content handlers conn_type dt clen p.1)

-- What Call writes.
unfoldable pub send_call : Bytes → Bytes → Outcome Bytes
send_call service payload = pack_call service payload >>= pack_frame conn_type_direct_client dt_call

-- What Call returns of the reply's content: the service's error text on the left.
unfoldable pub open_reply : Reply → Bytes ⊎ Bytes
open_reply reply = if not (reply.status == 0) then inl reply.reply_data else inr reply.reply_data

-- The rest of Call, behind the header of the answer. Each error also closes the connection.
unfoldable pub receive_content : ℕ → ℕ → ℕ → Bytes → Outcome ((Bytes ⊎ Bytes) × Bytes)
receive_content conn_type dt clen stream =
    if not (conn_type == conn_type_direct_server)
    then err invalid_conn_type
    else if not (dt == dt_reply)
    then err invalid_data_type
    else if ltb max_content clen
    then err invalid_reply_size
    else (do p ← read_content clen stream; reply ← unpack_reply p.0; ok (open_reply reply, p.1))

unfoldable pub receive : Bytes → Outcome ((Bytes ⊎ Bytes) × Bytes)
receive stream = do
  p ← read_full 12 stream
  conn_type ← uint32_at p.0 0 4
  dt ← uint32_at p.0 4 8
  clen ← uint32_at p.0 8 12
  receive_content conn_type dt clen p.1
