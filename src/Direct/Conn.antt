-- ===== src/Direct/Conn.antt =====
-- pkg/direct/server.go and client.go: the server's loop on one connection, and the client's side of
-- it with the connection that Connect dials and Close drops.
pub mod Pipeline
pub mod Ends
pub mod Closes
pub mod Samples
use nmid.Prelude.{ℕ, zero, suc, List, [], ◌∷◌, Option, none, some, ◌⊎◌}
use nmid.Wire.{Bytes, Error, Outcome, ok, err, panics, ◌>>=◌, conn_nil, dial_failed}
use nmid.Direct.Exchange.{Handlers, serve, send_call, receive}

-- An answer written before what the loop goes on to write.
abbrev after_frame : Bytes → Option (Outcome (List Bytes)) → Option (Outcome (List Bytes))
after_frame frame none = none
after_frame frame (some panics) = some panics
after_frame frame (some (err e)) = some (err e)
after_frame frame (some (ok frames)) = some (ok (frame ∷ frames))

-- handleConn, one round for each unit of fuel: the frames given to writeAll, in order; none when the
-- fuel is out before the loop returns.
unfoldable pub handle_conn : ℕ → Handlers → Bytes → Option (Outcome (List Bytes))
handle_conn zero handlers stream = none
handle_conn (suc fuel) handlers stream = elim (serve handlers stream) [
  | panics ↦ some panics
  | err e ↦ some (err e)
  | ok none ↦ some (ok [])
  | ok (some (answer, rest)) ↦ after_frame answer (handle_conn fuel handlers rest)
]

-- A client. Its connection is what the server has still to send on it, up to its end or the deadline;
-- none where the field is nil.
pub record Client : Type 0 where
  pub conn : Option Bytes
  pub written : List Bytes

-- Connect, with what net.DialTimeout gives: none if it fails.
unfoldable pub connect : Option Bytes → Client → Outcome Client
connect dialed c = elim c.conn [
  | some stream ↦ ok c
  | none ↦ elim dialed [
    | none ↦ err dial_failed
    | some stream ↦ ok (record c { conn = some stream })
  ]
]

unfoldable pub close : Client → Client
close c = record c { conn = none }

-- The answer of a call and the client behind it.
pub record Called : Type 0 where
  pub answer : Outcome (Bytes ⊎ Bytes)
  pub client : Client

abbrev pub called : Outcome (Bytes ⊎ Bytes) → Client → Called
called answer c = record { answer = answer; client = c }

-- The part of Call that reads, which closes the connection on every error of its own.
unfoldable pub await_reply : Bytes → Client → Called
await_reply stream c = elim (receive stream) [
  | panics ↦ called panics c
  | err e ↦ called (err e) (close c)
  | ok (answer, rest) ↦ called (ok answer) (record c { conn = some rest })
]

-- The rest of Call behind Connect, with the error of writeAll, if it has one.
unfoldable pub exchange : Option Error → Bytes → Client → Called
exchange fault req c = elim c.conn [
  | none ↦ called (err conn_nil) c
  | some stream ↦ elim fault [
    | none ↦ await_reply stream (record c { written = req ∷ c.written })
    | some e ↦ called (err e) (close c)
  ]
]

-- Call
unfoldable pub call : Option Bytes → Option Error → Bytes → Bytes → Client → Called
call dialed fault service payload c = elim (connect dialed c) [
  | panics ↦ called panics c
  | err e ↦ called (err e) c
  | ok connected ↦ elim (send_call service payload) [
    | panics ↦ called panics connected
    | err e ↦ called (err e) connected
    | ok req ↦ exchange fault req connected
  ]
]
