-- ===== src/Server/Connect/Frame/Accepts.antt =====
-- Which frames the server's ReadFrame accepts.
use nmid.Prelude.{
  ℕ, ◌+◌, ◌≤◌, ◌≡◌, ◌⊎◌, refl, true, [], ◌∷◌, ◌++◌, arith, length, length-take_le, length-drop,
  length-append,
}
use nmid.Prelude.{
  zero, suc, ◌*◌, ◌-◌, ◌^◌, ◌&&◌, ap, sym, ◌∙◌, take, drop, leb, Bool-cases, inl, inr,
}
use nmid.Wire.{Bytes, IsUint32, Outcome, ok, slice, uint32}
use nmid.Wire.Frame.{frame_bytes, read_full, read_full-append, read_header, parse_header}
use nmid.Wire.Bind.{first_value}
use nmid.Wire.{uint32_at}
use nmid.Model.{min_data_size}
use nmid.Model.ConnType
use nmid.Server.Connect.Frame.{Frame, max_frame_size, read_payload, read_frame}

-- The senders that a server listens to.
abbrev pub IsPeer : ℕ → Type 0
IsPeer t = (t ≡ ConnType.worker) ⊎ (t ≡ ConnType.client) ⊎ (t ≡ ConnType.service)

read_payload_lem :
    (conn_type data_type : ℕ) (content rest : Bytes)
    → IsPeer conn_type
    → length content ≤ max_frame_size
    → read_payload conn_type data_type (length content) (content ++ rest)
      ≡ ok (record { conn_type = conn_type; data_type = data_type; payload = content }, rest)
unfolding read_payload
read_payload_lem conn_type data_type [] rest peer h = ground arith
read_payload_lem conn_type data_type (x ∷ xs) rest peer h =
    ground (arith, read_full-append (x ∷ xs) rest (length (x ∷ xs)) refl)

-- A well-formed frame is read whole, and nothing of what follows it is touched.
pub read_frame-frame_bytes :
    (conn_type data_type : ℕ) (content rest : Bytes)
    → IsPeer conn_type
    → IsUint32 data_type
    → length content ≤ max_frame_size
    → read_frame true (frame_bytes conn_type data_type content ++ rest)
      ≡ ok (record { conn_type = conn_type; data_type = data_type; payload = content }, rest)
unfolding read_frame
read_frame-frame_bytes conn_type data_type content rest peer t h =
    rw (read_header conn_type data_type content rest) (
      rw
        (parse_header conn_type data_type (length content) (ground arith, t, omega arith)
          (λ a b c. read_payload a b c (content ++ rest)))
        (read_payload_lem conn_type data_type content rest peer h))

-- What ReadFull gives has the length asked for, and is the start of the stream.
read_full_sound :
    (n : ℕ) (stream taken rest : Bytes)
    → read_full n stream ≡ ok (taken, rest)
    → (length taken ≡ n) × (stream ≡ taken ++ rest)
unfolding read_full
read_full_sound n stream taken rest e = elim (Bool-cases (leb n (length stream))) [
  | inl enough ↦
      let both : ◌≡◌ {A = Outcome (Bytes × Bytes)} (ok (take n stream, drop n stream))
          (ok (taken, rest)) =
        ground (arith, enough, e) in
      let first : take n stream ≡ taken = cc in
      let second : drop n stream ≡ rest = cc in
      (
        rw (← first) (length-take_le n stream (ground (arith, enough))),
        sym (rw (← first, ← second) (take-drop n stream)),
      )
  | inr short ↦ absurd (ground (arith, short, e))
]
  where
    take-drop : (n : ℕ) (xs : Bytes) → take n xs ++ drop n xs ≡ xs
    take-drop zero xs = refl
    take-drop (suc n) [] = refl
    take-drop (suc n) (x ∷ xs) = ap (λ ys. x ∷ ys) (take-drop n xs)

-- Four bytes, the highest first, and their number.
abbrev pub IsNumber : Bytes → ℕ → Type 0
IsNumber (a ∷ b ∷ c ∷ d ∷ []) v = v ≡ a * 2 ^ 24 + b * 2 ^ 16 + c * 2 ^ 8 + d
IsNumber _ v = ⊥

uint32_sound : (four : Bytes) (v : ℕ) → length four ≡ 4 → uint32 four ≡ ok v → IsNumber four v
unfolding uint32
uint32_sound [] v n e = absurd (omega (arith, n))
uint32_sound (a ∷ []) v n e = absurd (omega (arith, n))
uint32_sound (a ∷ b ∷ []) v n e = absurd (omega (arith, n))
uint32_sound (a ∷ b ∷ c ∷ []) v n e = absurd (omega (arith, n))
uint32_sound (a ∷ b ∷ c ∷ d ∷ []) v n e = ground (arith, e)
uint32_sound (a ∷ b ∷ c ∷ d ∷ x ∷ xs) v n e = absurd (omega (arith, n))

uint32_at_sound :
    (buf : Bytes) (s v : ℕ)
    → s + 4 ≤ length buf
    → uint32_at buf s (s + 4) ≡ ok v
    → IsNumber (take 4 (drop s buf)) v
unfolding uint32_at slice
uint32_at_sound buf s v h e =
    let width : s + 4 - s ≡ 4 = omega arith in
    let within : (leb s (s + 4) && leb (s + 4) (length buf)) ≡ true = ground (arith, h) in
    let read : uint32 (take (s + 4 - s) (drop s buf)) ≡ ok v = rw (within, uint32_at) at e in
    uint32_sound (take 4 (drop s buf)) v
      (length-take_le 4 (drop s buf) (omega (arith, h, length-drop s buf))) (rw width at read)

-- What a successful ReadFrame took: twelve bytes with the frame's two types and the length of its
-- payload, then the payload.
pub record Took (stream : Bytes) (frame : Frame) (rest : Bytes) : Type 0 where
  pub peer : IsPeer frame.conn_type
  pub bounded : length frame.payload ≤ max_frame_size
  pub header : Bytes
  pub header_size : length header ≡ 12
  pub split : stream ≡ header ++ (frame.payload ++ rest)
  pub conn_type : IsNumber (take 4 header) frame.conn_type
  pub data_type : IsNumber (take 4 (drop 4 header)) frame.data_type
  pub data_len : IsNumber (take 4 (drop 8 header)) (length frame.payload)

read_payload_sound :
    (conn_type data_type n : ℕ) (stream rest : Bytes) (frame : Frame)
    → read_payload conn_type data_type n stream ≡ ok (frame, rest)
    → IsPeer frame.conn_type
      × (length frame.payload ≤ max_frame_size)
      × (frame.conn_type ≡ conn_type)
      × (frame.data_type ≡ data_type)
      × (length frame.payload ≡ n)
      × (stream ≡ frame.payload ++ rest)
unfolding read_payload
read_payload_sound conn_type data_type n stream rest frame e =
    ground (arith, read_full_sound n stream frame.payload rest)

-- Whatever the peer sends, a frame that is accepted comes from a known kind of peer and is bounded. It
-- stands at the start of the stream, behind twelve bytes that hold its types and its length, and what
-- follows it is left.
pub read_frame_sound :
    (stream rest : Bytes) (frame : Frame)
    → read_frame true stream ≡ ok (frame, rest)
    → Took stream frame rest
unfolding read_frame
read_frame_sound stream rest frame e =
    let (taken, e₂, e₁) = first_value (read_full min_data_size stream) e in
    let (conn_type, e₃, h₁) = first_value (uint32_at taken.0 0 4) e₂ in
    let (data_type, e₄, h₂) = first_value (uint32_at taken.0 4 8) e₃ in
    let (n, e₅, h₃) = first_value (uint32_at taken.0 8 12) e₄ in
    let (peer, bounded, c, d, l, left) =
      read_payload_sound conn_type data_type n taken.1 rest frame e₅ in
    let (size, start) = read_full_sound min_data_size stream taken.0 taken.1 e₁ in
    record {
      peer = peer;
      bounded = bounded;
      header = taken.0;
      header_size = size;
      split = start ∙ ap (λ ys. taken.0 ++ ys) left;
      conn_type = rw c (uint32_at_sound taken.0 0 conn_type (omega (arith, size)) h₁);
      data_type = rw d (uint32_at_sound taken.0 4 data_type (omega (arith, size)) h₂);
      data_len = rw l (uint32_at_sound taken.0 8 n (omega (arith, size)) h₃);
    }

pub length-Took :
    (stream rest : Bytes) (frame : Frame)
    → Took stream frame rest
    → length stream ≡ 12 + length frame.payload + length rest
length-Took stream rest frame took =
    let first = length-append took.header (frame.payload ++ rest) in
    let second = length-append frame.payload rest in
    omega (arith, ap length took.split, took.header_size, first, second)
