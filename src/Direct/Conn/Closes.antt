-- ===== src/Direct/Conn/Closes.antt =====
-- The connection that Call leaves behind (pkg/direct/client.go).
use nmid.Prelude.{ℕ, ◌+◌, ◌<◌, ◌^◌, ◌≡◌, ◌≢◌, refl, ◌∷◌, Option, none, some, ◌⊎◌, inl, inr}
use nmid.Prelude.{
  Option-cases, arith, Bool-cases, not, ◌==◌, ltb, length, take, drop, length-take_le,
}
use nmid.Wire.{Bytes, Error, Outcome, ok, err, panics, ◌>>=◌}
use nmid.Wire.Frame.{frame_bytes}
use nmid.Wire.Uint32.{sizes}
use nmid.Direct.Proto.RoundTrip.{pack_frame_lem, pack_call_lem, call_bytes}
use nmid.Direct.Proto.{Reply, unpack_reply}
use nmid.Direct.Proto.Total.{unpack_reply_total, uint32_at_total}
use nmid.Direct.Exchange.{send_call, receive, receive_content, open_reply, max_content}
use nmid.Direct.Exchange.{conn_type_direct_server, conn_type_direct_client, dt_reply, dt_call}
use nmid.Direct.Conn.{Client, connect, Called, await_reply, exchange, call, close, called}
use nmid.Direct.Conn.Ends.{read_full_cases, read_content_cases}

read_reply_total :
    (content rest : Bytes)
    → ◌≢◌ {A = Outcome ((Bytes ⊎ Bytes) × Bytes)}
        (unpack_reply content >>= λ reply. ok (open_reply reply, rest))
        panics
read_reply_total content rest e = go (unpack_reply content) refl
  where
    go : (o : Outcome Reply) → unpack_reply content ≡ o → ⊥
    go panics p = unpack_reply_total content p
    go (err x) p = ground (arith, e, p)
    go (ok reply) p = ground (arith, e, p)

receive_content_total :
    (conn_type dt clen : ℕ) (stream : Bytes) → receive_content conn_type dt clen stream ≢ panics
unfolding receive_content
receive_content_total conn_type dt clen stream e =
    elim (Bool-cases (not (conn_type == conn_type_direct_server))) [
      | inl other ↦ ground (arith, e, other)
      | inr server ↦ elim (Bool-cases (not (dt == dt_reply))) [
        | inl odd ↦ ground (arith, e, server, odd)
        | inr reply ↦ elim (Bool-cases (ltb max_content clen)) [
          | inl long ↦ ground (arith, e, server, reply, long)
          | inr small ↦ elim (read_content_cases clen stream) [
            | inl (x, p) ↦ ground (arith, e, server, reply, small, p)
            | inr (content, rest, p, h) ↦
                read_reply_total content rest (ground (arith, e, server, reply, small, p))
          ]
        ]
      ]
    ]

receive_total : (stream : Bytes) → receive stream ≢ panics
unfolding receive
receive_total stream e = elim (read_full_cases 12 stream) [
  | inl (x, p) ↦ ground (arith, e, p)
  | inr (p, h) ↦
      let size : length (take 12 stream) ≡ 12 = length-take_le 12 stream h in
      let (conn_type, e₁) = uint32_at_total (take 12 stream) 0 (omega arith) in
      let (dt, e₂) = uint32_at_total (take 12 stream) 4 (omega arith) in
      let (clen, e₃) = uint32_at_total (take 12 stream) 8 (omega arith) in
      receive_content_total conn_type dt clen (drop 12 stream) (ground (arith, e, p, e₁, e₂, e₃))
]

-- What the server sends on the connection that a call uses: the client's, or else the dialed one.
abbrev pub stream_of : Option Bytes → Option Bytes → Option Bytes
stream_of dialed (some stream) = some stream
stream_of dialed none = dialed

-- After an error there is no connection. After an answer, which is read at the start of the stream of
-- the connection, there is what follows its frame, and the request is what was written last.
abbrev pub IsSettled : Bytes → Bytes → Option Bytes → Client → Called → Type 0
IsSettled service payload used c r = elim r.answer [
  | panics ↦ ⊥
  | err e ↦ r.client.conn ≡ none
  | ok answer ↦
      (stream rest req : Bytes) × (used ≡ some stream)
      × (receive stream ≡ ok (answer, rest))
      × (r.client ≡ record { conn = some rest; written = req ∷ c.written })
      × (send_call service payload ≡ ok req)
]

module _ (service payload req : Bytes) (sends : send_call service payload ≡ ok req) where
  await_reply-IsSettled :
      (stream : Bytes) (c : Client)
      → IsSettled service payload
          (some stream)
          c
          (await_reply stream (record c { written = req ∷ c.written }))
  unfolding await_reply close
  await_reply-IsSettled stream c = go (receive stream) refl
    where
      go :
          (o : Outcome ((Bytes ⊎ Bytes) × Bytes))
          → receive stream ≡ o
          → IsSettled service payload
              (some stream)
              c
              (await_reply stream (record c { written = req ∷ c.written }))
      go panics p = absurd (receive_total stream p)
      go (err e) p = rw (p, await_reply) refl
      go (ok (answer, rest)) p = rw (p, await_reply) (stream, rest, req, refl, p, refl, sends)

  exchange-IsSettled :
      (fault : Option Error) (c : Client)
      → IsSettled service payload c.conn c (exchange fault req c)
  unfolding exchange close
  exchange-IsSettled fault c = elim (Option-cases c.conn) [
    | inl e ↦ rw (e, exchange) e
    | inr (stream, e) ↦ rw (e, exchange) (go fault stream)
  ]
    where
      go :
          (fault : Option Error) (stream : Bytes)
          → IsSettled service payload (some stream) c (elim fault [
            | none ↦ await_reply stream (record c { written = req ∷ c.written })
            | some x ↦ called (err x) (close c)
          ])
      go none stream = await_reply-IsSettled stream c
      go (some x) stream = refl

connect-connected :
    (dialed : Option Bytes) (c : Client) (stream : Bytes)
    → c.conn ≡ some stream
    → connect dialed c ≡ ok c
unfolding connect
connect-connected dialed c stream e = ground (arith, e)

call-connect :
    (dialed : Option Bytes) (fault : Option Error) (service payload : Bytes) (c : Client)
    {connected : Client} {req : Bytes}
    → connect dialed c ≡ ok connected
    → send_call service payload ≡ ok req
    → call dialed fault service payload c ≡ exchange fault req connected
unfolding call
call-connect dialed fault service payload c e sends = rw (e, call) (rw (sends, call) refl)

-- Whatever the server sends, and whether dialing and writing work or not, Call returns and does not
-- panic. If it returns an error, no connection is left; if it returns an answer, the service's error
-- included, it has written the call's frame, has taken the answer from the start of what the server sends on
-- the connection, and keeps the connection with what follows; if the call fits into a frame.
pub call-IsSettled :
    (service payload : Bytes) (dialed : Option Bytes) (fault : Option Error) (c : Client)
    → 8 + length service + length payload < 2 ^ 32
    → IsSettled service payload (stream_of dialed c.conn) c (call dialed fault service payload c)
unfolding call connect send_call
call-IsSettled service payload dialed fault c fit = elim (Option-cases c.conn) [
  | inr (stream, e) ↦ rw (runs stream e, used stream e) settled
  | inl e ↦ elim (Option-cases dialed) [
    | inl fails ↦ rw (e, call) (rw (fails, call) e)
    | inr (stream, works) ↦
        rw (e, call)
          (rw (works, call)
            (rw (sends, call)
              (exchange-IsSettled service payload req sends fault
                (record c { conn = some stream }))))
  ]
]
  where
    req : Bytes
    req = frame_bytes conn_type_direct_client dt_call (call_bytes service payload)

    sends : send_call service payload ≡ ok req
    sends =
        rw (pack_call_lem service payload (omega arith) (omega arith)) (
          pack_frame_lem conn_type_direct_client dt_call (call_bytes service payload) (omega sizes))

    settled : IsSettled service payload c.conn c (exchange fault req c)
    settled = exchange-IsSettled service payload req sends fault c

    runs :
        (stream : Bytes)
        → c.conn ≡ some stream
        → call dialed fault service payload c ≡ exchange fault req c
    runs stream e =
        call-connect dialed fault service payload c (connect-connected dialed c stream e) sends

    used : (stream : Bytes) → c.conn ≡ some stream → stream_of dialed c.conn ≡ c.conn
    used stream e = rw e refl
