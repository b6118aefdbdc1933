-- ===== src/Worker/Frame.antt =====
-- pkg/worker/agent.go: Agent.ReadFrame. The stream is the bytes that the server sends until it closes.
use nmid.Prelude.{
  ℕ, ◌*◌, ◌≤◌, ◌≡◌, refl, ◌==◌, Bool, true, false, not, ltb, if◌then◌else◌, [], ◌∷◌, ◌++◌, length,
  arith,
}
use nmid.Wire.{Bytes, IsUint32, Outcome, ok, err, conn_nil, invalid_conn_type, invalid_frame_size}
use nmid.Wire.{◌>>=◌, uint32_at}
use nmid.Wire.Frame.{
  frame_bytes, header_bytes, read_full, read_full-append, read_header, parse_sender,
}
use mathlib.Core.List.{append_assoc, append-nil}
use nmid.Model.{min_data_size}
use nmid.Model.ConnType

abbrev pub max_frame_size : ℕ
max_frame_size = 32 * 1024 * 1024

-- The rest of ReadFrame, behind the header: its checks, and the content copied behind the header.
unfoldable pub read_content : Bytes → ℕ → ℕ → Bytes → Outcome (Bytes × Bytes)
read_content header conn_type content_len stream =
    if not (conn_type == ConnType.server)
    then err invalid_conn_type
    else if ltb max_frame_size content_len
    then err invalid_frame_size
    else if ltb 0 content_len
    then (do taken ← read_full content_len stream; ok (header ++ taken.0, taken.1))
    else ok (header, stream)

-- The whole frame, and the rest of the stream. The flag says whether the connection is open.
unfoldable pub read_frame : Bool → Bytes → Outcome (Bytes × Bytes)
read_frame false stream = err conn_nil
read_frame true stream = do
  taken ← read_full min_data_size stream
  conn_type ← uint32_at taken.0 0 4
  content_len ← uint32_at taken.0 8 12
  read_content taken.0 conn_type content_len taken.1

read_content_lem :
    (header content rest : Bytes)
    → length content ≤ max_frame_size
    → read_content header ConnType.server (length content) (content ++ rest)
      ≡ ok (header ++ content, rest)
unfolding read_content
read_content_lem header [] rest h = ground (arith, append-nil header)
read_content_lem header (x ∷ xs) rest h =
    ground (arith, read_full-append (x ∷ xs) rest (length (x ∷ xs)) refl)

-- A frame of the server is read whole, and nothing of what follows it is touched.
pub read_frame-frame_bytes :
    (data_type : ℕ) (content rest : Bytes)
    → IsUint32 data_type
    → length content ≤ max_frame_size
    → read_frame true (frame_bytes ConnType.server data_type content ++ rest)
      ≡ ok (frame_bytes ConnType.server data_type content, rest)
unfolding read_frame
read_frame-frame_bytes data_type content rest t h =
    let header = header_bytes ConnType.server data_type (length content) in
    rw (read_header ConnType.server data_type content rest) (
      rw
        (parse_sender ConnType.server data_type (length content) (omega arith, t, omega arith)
          (λ a c. read_content header a c (content ++ rest)))
        (rw (read_content_lem header content rest h) (simp append_assoc)))
