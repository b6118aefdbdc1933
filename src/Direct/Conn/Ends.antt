-- ===== src/Direct/Conn/Ends.antt =====
-- The loop of handleConn on whatever a peer sends (pkg/direct/server.go).
use nmid.Prelude.{ℕ, zero, suc, ◌+◌, ◌≤◌, ◌<◌, ◌≡◌, refl, List, [], ◌∷◌, length, some, none, Option}
use nmid.Prelude.{◌⊎◌, inl, inr, arith, Bool-cases, ◌==◌, ltb, not, length-drop, leb, drop, take}
use nmid.Prelude.{length-take_le}
use nmid.Wire.{Bytes, Error, eof, unexpected_eof, Outcome, ok, err, panics}
use nmid.Wire.Frame.{read_full}
use nmid.Direct.Proto.{Call, unpack_call}
use nmid.Direct.Proto.Total.{unpack_call_total, uint32_at_total}
use nmid.Direct.Exchange.{Handlers, serve, serve_content, read_content, handle_content, max_content}
use nmid.Direct.Exchange.{
  handle_call, reply_frame, conn_type_direct_client, dt_call, dt_health, bad_request,
}
use nmid.Direct.Exchange.Answer.{answer, text, Carries, handle_call_lem, replied, reply_frame_lem}
use nmid.Direct.Exchange.Answer.{receive-replied}
use nmid.Direct.Conn.{handle_conn}

-- Every answer of a handler fits into a frame.
abbrev pub AllFit : Handlers → Type 0
AllFit handlers =
    (service payload : Bytes) → 8 + length (text (answer handlers service payload)) ≤ max_content

-- A frame that the client takes for some answer.
abbrev pub IsReply : Bytes → Type 0
IsReply frame = (o : Bytes ⊎ Bytes) × Carries frame o

abbrev pub AllReplies : List Bytes → Type 0
AllReplies [] = Unit
AllReplies (frame ∷ frames) = IsReply frame × AllReplies frames

abbrev Answers : Outcome Bytes → Type 0
Answers o = (frame : Bytes) × (o ≡ ok frame) × IsReply frame

fixed_frame :
    (status : ℕ) (xs : Bytes) → status < 4 → length xs ≤ 20 → Answers (reply_frame status xs)
fixed_frame status xs s h = (
  replied status xs,
  reply_frame_lem status xs (omega arith),
  (_, λ rest. receive-replied status xs rest (omega arith) (omega arith)),
)

handle_content-Answers :
    (handlers : Handlers) (dt : ℕ) (content : Bytes)
    → AllFit handlers
    → Answers (handle_content handlers dt content)
unfolding handle_content
handle_content-Answers handlers dt content fit = elim (Bool-cases (dt == dt_call)) [
  | inr other ↦ elim (Bool-cases (dt == dt_health)) [
    | inl health ↦
        rw (other, handle_content)
          (rw (health, handle_content) (fixed_frame _ _ (omega arith) (omega arith)))
    | inr unknown ↦
        rw (other, handle_content)
          (rw (unknown, handle_content) (fixed_frame _ _ (omega arith) (omega arith)))
  ]
  | inl called ↦ rw (called, handle_content) (go (unpack_call content) refl)
]
  where
    go :
        (o : Outcome Call)
        → unpack_call content ≡ o
        → Answers (elim o [
          | panics ↦ panics
          | err e ↦ reply_frame 1 bad_request
          | ok call ↦ handle_call handlers call
        ])
    go panics e = absurd (unpack_call_total content e)
    go (err x) e = fixed_frame _ _ (omega arith) (omega arith)
    go (ok call) e =
        let (frame, p, carries) = handle_call_lem handlers call.service call.payload (fit _ _) in
        (frame, p, (_, carries))

-- A round that ends the loop, or one that writes a reply and leaves a shorter stream.
data Round (stream : Bytes) (r : Outcome (Option (Bytes × Bytes))) : Type 0 where
  stop : r ≡ ok none → Round stream r
  more :
      (frame rest : Bytes)
      → r ≡ ok (some (frame, rest))
      → IsReply frame
      → length rest < length stream
      → Round stream r

pub read_full_cases :
    (n : ℕ) (stream : Bytes)
    → ((e : Error) × (read_full n stream ≡ err e))
      ⊎ ((read_full n stream ≡ ok (take n stream, drop n stream)) × (n ≤ length stream))
unfolding read_full
read_full_cases n stream = elim (Bool-cases (leb n (length stream))) [
  | inl whole ↦ inr (ground arith, ground arith)
  | inr cut ↦ elim (Bool-cases (length stream == 0)) [
    | inl empty ↦ inl (eof, ground arith)
    | inr short ↦ inl (unexpected_eof, ground arith)
  ]
]

pub read_content_cases :
    (clen : ℕ) (stream : Bytes)
    → ((e : Error) × (read_content clen stream ≡ err e))
      ⊎ ((content rest : Bytes) × (read_content clen stream ≡ ok (content, rest))
          × (length rest ≤ length stream))
unfolding read_content
read_content_cases clen stream = elim (Bool-cases (ltb 0 clen)) [
  | inr bare ↦ inr ([], stream, rw (bare, read_content) refl, omega arith)
  | inl full ↦ elim (read_full_cases clen stream) [
    | inl (e, p) ↦ inl (e, ground (arith, full, p))
    | inr (p, h) ↦ inr (
      take clen stream,
      drop clen stream,
      ground (arith, full, p),
      omega (arith, length-drop clen stream),
    )
  ]
]

serve_content-Round :
    (handlers : Handlers) (conn_type dt clen : ℕ) (stream left : Bytes)
    → AllFit handlers
    → length left < length stream
    → Round stream (serve_content handlers conn_type dt clen left)
unfolding serve_content
serve_content-Round handlers conn_type dt clen stream left fit h =
    elim (Bool-cases (not (conn_type == conn_type_direct_client))) [
      | inl other ↦ stop (rw (other, serve_content) refl)
      | inr direct ↦ elim (Bool-cases (ltb max_content clen)) [
        | inl long ↦ stop (rw (direct, serve_content) (rw (long, serve_content) refl))
        | inr small ↦ elim (read_content_cases clen left) [
          | inl (e, p) ↦ stop (ground (arith, direct, small, p))
          | inr (content, rest, p, shorter) ↦
              let (frame, q, reply) = handle_content-Answers handlers dt content fit in
              more frame rest (ground (arith, direct, small, p, q)) reply (omega arith)
        ]
      ]
    ]

serve-Round :
    (handlers : Handlers) (stream : Bytes) → AllFit handlers → Round stream (serve handlers stream)
unfolding serve
serve-Round handlers stream fit = elim (read_full_cases 12 stream) [
  | inl (e, p) ↦ stop (rw (p, serve) refl)
  | inr (p, h) ↦
      let size : length (take 12 stream) ≡ 12 = length-take_le 12 stream h in
      let (conn_type, e₁) = uint32_at_total (take 12 stream) 0 (omega arith) in
      let (dt, e₂) = uint32_at_total (take 12 stream) 4 (omega arith) in
      let (clen, e₃) = uint32_at_total (take 12 stream) 8 (omega arith) in
      rw (p, serve)
        (rw (e₁, e₂, e₃)
          (serve_content-Round handlers conn_type dt clen stream (drop 12 stream) fit
            (omega (arith, length-drop 12 stream))))
]

-- On every stream of bytes the loop of handleConn returns, after at most one round more than the
-- stream has bytes; it does not panic, and each frame that it writes is one that the client takes for
-- an answer; if every answer of a handler fits into a frame.
pub handle_conn_total :
    (handlers : Handlers) (fuel : ℕ) (stream : Bytes)
    → AllFit handlers
    → length stream < fuel
    → (frames : List Bytes) × (handle_conn fuel handlers stream ≡ some (ok frames))
      × AllReplies frames
unfolding handle_conn
handle_conn_total handlers zero stream fit h = absurd (omega arith)
handle_conn_total handlers (suc fuel) stream fit h = elim (serve-Round handlers stream fit) [
  | stop p ↦ ([], rw (p, handle_conn) refl, tt)
  | more frame rest p reply shorter ↦
      let (frames, q, replies) = handle_conn_total handlers fuel rest fit (omega arith) in
      (frame ∷ frames, rw (p, handle_conn) (rw q refl), (reply, replies))
]
