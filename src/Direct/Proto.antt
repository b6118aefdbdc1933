-- ===== src/Direct/Proto.antt =====
-- pkg/direct/proto.go: frames, calls and replies of the direct protocol.
-- An int has 64 bits, so the conversion of a uint32 to it keeps the number, and none is negative.
pub mod RoundTrip
pub mod Total
use nmid.Prelude.{ℕ, ◌+◌, [], ltb, if◌then◌else◌, length}
use nmid.Wire.{Bytes, Outcome, ok, err, invalid_call, invalid_service_length, ◌>>=◌, to_uint32}
use nmid.Wire.{invalid_payload_length, invalid_reply, invalid_reply_length, make, copy_into, slice}
use nmid.Wire.{put_uint32, uint32_at}

pub record Call : Type 0 where
  pub service : Bytes
  pub payload : Bytes

pub record Reply : Type 0 where
  pub status : ℕ
  pub reply_data : Bytes

abbrev frame_header_size : ℕ
frame_header_size = 12

unfoldable pub pack_frame : ℕ → ℕ → Bytes → Outcome Bytes
pack_frame conn_type data_type content = do
  o₁ ← put_uint32 (make (frame_header_size + length content)) 0 4 conn_type
  o₂ ← put_uint32 o₁ 4 8 data_type
  o₃ ← put_uint32 o₂ 8 frame_header_size (to_uint32 (length content))
  copy_into o₃ frame_header_size (length o₃) content

unfoldable pub pack_call : Bytes → Bytes → Outcome Bytes
pack_call service payload = do
  let size = 4 + length service + 4 + length payload
  o₁ ← put_uint32 (make size) 0 4 (to_uint32 (length service))
  o₂ ← copy_into o₁ 4 (4 + length service) service
  let off = 4 + length service
  o₃ ← put_uint32 o₂ off (off + 4) (to_uint32 (length payload))
  copy_into o₃ (off + 4) (length o₃) payload

-- UnpackCall behind its check of the service's length.
unfoldable pub unpack_service : Bytes → ℕ → Outcome Call
unpack_service content slen = do
  service ← slice content 4 (4 + slen)
  plen ← uint32_at content (4 + slen) (4 + slen + 4)
  let off = 4 + slen + 4
  if ltb (length content) (off + plen) then err invalid_payload_length else (do
    payload ← slice content off (off + plen)
    ok (record { service = service; payload = payload }))

unfoldable pub unpack_call : Bytes → Outcome Call
unpack_call content = if ltb (length content) 8 then err invalid_call else (do
  slen ← uint32_at content 0 4
  if ltb (length content) (4 + slen + 4)
      then err invalid_service_length
      else unpack_service content slen)

unfoldable pub pack_reply : ℕ → Bytes → Outcome Bytes
pack_reply status reply_data = do
  o₁ ← put_uint32 (make (4 + 4 + length reply_data)) 0 4 status
  o₂ ← put_uint32 o₁ 4 8 (to_uint32 (length reply_data))
  copy_into o₂ 8 (length o₂) reply_data

unfoldable pub unpack_reply : Bytes → Outcome Reply
unpack_reply content = if ltb (length content) 8 then err invalid_reply else (do
  status ← uint32_at content 0 4
  dlen ← uint32_at content 4 8
  if ltb (length content) (8 + dlen) then err invalid_reply_length else (do
    reply_data ← slice content 8 (8 + dlen)
    ok (record { status = status; reply_data = reply_data })))
