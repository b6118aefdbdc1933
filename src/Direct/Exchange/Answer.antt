-- ===== src/Direct/Exchange/Answer.antt =====
-- A direct call on its way to its handler and back (pkg/direct/client.go and server.go).
use nmid.Prelude.{ℕ, ◌+◌, ◌^◌, ◌≤◌, ◌<◌, ◌≡◌, refl, [], ◌∷◌, ◌++◌, length, ltb, false}
use nmid.Prelude.{none, some, Option-cases, ◌⊎◌, inl, inr, arith}
use nmid.Wire.{Bytes, IsUint32, ok, ◌>>=◌}
use nmid.Wire.Uint32.{sizes}
use nmid.Wire.Frame.{read_full-append, frame_bytes, read_header, parse_header}
use nmid.Direct.Proto.RoundTrip.{pack_frame_lem, pack_call_lem, unpack_call_lem, pack_reply_lem}
use nmid.Direct.Proto.RoundTrip.{unpack_reply_lem, call_bytes, reply_bytes}
use nmid.Direct.Exchange.{
  handler_frame, Handlers, reply_frame, handle_call, handle_content, read_content, serve,
}
use nmid.Direct.Exchange.{serve_content, send_call, open_reply, receive_content, receive}
use nmid.Direct.Exchange.{no_such_service, conn_type_direct_client, conn_type_direct_server}
use nmid.Direct.Exchange.{dt_call, dt_reply, max_content}

-- What a call is meant to return: its handler's answer.
abbrev pub answer : Handlers → Bytes → Bytes → Bytes ⊎ Bytes
answer handlers service payload = elim (handlers service) [
  | none ↦ inl no_such_service
  | some h ↦ h payload
]

abbrev pub text : Bytes ⊎ Bytes → Bytes
text (inl message) = message
text (inr reply) = reply

read_content-append : (xs rest : Bytes) → read_content (length xs) (xs ++ rest) ≡ ok (xs, rest)
unfolding read_content
read_content-append [] rest = refl
read_content-append (x ∷ xs) rest =
    ground (arith, read_full-append (x ∷ xs) rest (length (x ∷ xs)) refl)

pub reply_frame_lem :
    (status : ℕ) (xs : Bytes)
    → 8 + length xs < 2 ^ 32
    → reply_frame status xs
      ≡ ok (frame_bytes conn_type_direct_server dt_reply (reply_bytes status xs))
unfolding reply_frame
reply_frame_lem status xs h =
    rw (pack_reply_lem status xs (omega arith))
      (pack_frame_lem _ _ (reply_bytes status xs) (omega sizes))

-- A reply with its status.
abbrev pub replied : ℕ → Bytes → Bytes
replied status xs = frame_bytes conn_type_direct_server dt_reply (reply_bytes status xs)

-- A frame of the server that the client takes for this answer.
abbrev pub Carries : Bytes → Bytes ⊎ Bytes → Type 0
Carries frame o = (rest : Bytes) → receive (frame ++ rest) ≡ ok (o, rest)

pub receive-replied :
    (status : ℕ) (xs rest : Bytes)
    → IsUint32 status
    → 8 + length xs ≤ max_content
    → receive (replied status xs ++ rest)
      ≡ ok (open_reply (record { status = status; reply_data = xs }), rest)
unfolding receive receive_content
receive-replied status xs rest t h =
    let content = reply_bytes status xs in
    let size : length content ≡ 8 + length xs = omega sizes in
    let small : ltb max_content (length content) ≡ false = ground arith in
    rw (read_header conn_type_direct_server dt_reply content rest) (
      rw
        (parse_header conn_type_direct_server dt_reply (length content)
          (omega arith, omega arith, omega arith)
          (λ a b c. receive_content a b c (content ++ rest)))
        (rw (small, receive_content)
          (rw (read_content-append content rest)
            (rw (unpack_reply_lem status xs t (omega arith)) refl))))

handler_frame_lem :
    (o : Bytes ⊎ Bytes)
    → 8 + length (text o) ≤ max_content
    → (frame : Bytes) × (handler_frame o ≡ ok frame) × Carries frame o
unfolding handler_frame open_reply
handler_frame_lem (inl message) h = (
  replied 3 message,
  reply_frame_lem 3 message (omega arith),
  λ rest. receive-replied 3 message rest (omega arith) h,
)
handler_frame_lem (inr r) h = (
  replied 0 r,
  reply_frame_lem 0 r (omega arith),
  λ rest. receive-replied 0 r rest (omega arith) h,
)

pub handle_call_lem :
    (handlers : Handlers) (service payload : Bytes)
    → 8 + length (text (answer handlers service payload)) ≤ max_content
    → (frame : Bytes) × (handle_call handlers (record { service = service; payload = payload })
        ≡ ok frame)
      × Carries frame (answer handlers service payload)
unfolding handle_call open_reply
handle_call_lem handlers service payload h = elim (Option-cases (handlers service)) [
  | inl e ↦
      let carries : (o : Bytes ⊎ Bytes)
          → o ≡ inl no_such_service
          → Carries (replied 2 no_such_service) o =
        λ o p rest. rw p (receive-replied 2 no_such_service rest (omega arith) (omega arith)) in
      (
        replied 2 no_such_service,
        rw (e, handle_call) (reply_frame_lem 2 no_such_service (omega arith)),
        carries _ (ground (arith, e)),
      )
  | inr (handle, e) ↦
      let same : answer handlers service payload ≡ handle payload = ground (arith, e) in
      let (frame, p, carries) = handler_frame_lem (handle payload) (rw same at h) in
      (frame, rw (e, handle_call) p, λ rest. rw same (carries rest))
]

module _ (handlers : Handlers) (service payload : Bytes)
    (fits : 8 + length service + length payload ≤ max_content) where
  serve-call :
      (frame requests : Bytes)
      → handle_call handlers (record { service = service; payload = payload }) ≡ ok frame
      → serve handlers
          (frame_bytes conn_type_direct_client dt_call (call_bytes service payload) ++ requests)
        ≡ ok (some (frame, requests))
  unfolding serve serve_content handle_content
  serve-call frame requests p =
      let content = call_bytes service payload in
      let size : length content ≡ 8 + length service + length payload = omega sizes in
      let small : ltb max_content (length content) ≡ false = ground arith in
      rw (read_header conn_type_direct_client dt_call content requests) (
        rw
          (parse_header conn_type_direct_client dt_call (length content)
            (omega arith, omega arith, omega arith)
            (λ a b c. serve_content handlers a b c (content ++ requests)))
          (rw (small, serve_content)
            (rw (read_content-append content requests) (
              rw (unpack_call_lem service payload (omega arith) (omega arith), handle_content)
                (rw p refl)))))

  -- What a client writes for a call makes the server write one frame and leaves the requests behind
  -- it, and the client takes from that frame its handler's answer, or that there is no such service,
  -- and leaves the replies behind it; if the call and the answer fit into frames.
  pub receive-serve-send_call :
      (requests replies : Bytes)
      → 8 + length (text (answer handlers service payload)) ≤ max_content
      → (frame : Bytes) × ((send_call service payload >>= λ sent. serve handlers (sent ++ requests))
          ≡ ok (some (frame, requests)))
        × (receive (frame ++ replies) ≡ ok (answer handlers service payload, replies))
  unfolding send_call
  receive-serve-send_call requests replies h =
      let (frame, p, carries) = handle_call_lem handlers service payload h in
      (
        frame,
        rw (pack_call_lem service payload (omega arith) (omega arith)) (
            rw
              (pack_frame_lem conn_type_direct_client dt_call (call_bytes service payload)
                (omega sizes))
              (serve-call frame requests p)),
        carries replies,
      )
