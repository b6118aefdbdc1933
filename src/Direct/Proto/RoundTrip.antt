-- ===== src/Direct/Proto/RoundTrip.antt =====
-- The packing functions of pkg/direct/proto.go against the unpacking ones.
use mathlib.Core.List.{append_assoc, append-nil}
use native.Mathlib.Nat.{mod-eq_of_lt}
use nmid.Prelude.{ℕ, ◌+◌, ◌<◌, ◌^◌, ◌≡◌, refl, [], ◌++◌, arith, ltb, length, false}
use nmid.Wire.{Bytes, IsUint32, ok, ◌>>=◌, be32, make}
use nmid.Wire.Uint32.{sizes}
use nmid.Wire.Fill.{put_then, copy_then, copy_last}
use nmid.Wire.Scan.{At-start, scan_uint32, scan_slice}
use nmid.Wire.Frame.{frame_bytes}
use nmid.Direct.Proto.{pack_frame, pack_call, unpack_call, unpack_service, pack_reply}
use nmid.Direct.Proto.{unpack_reply}

abbrev pub call_bytes : Bytes → Bytes → Bytes
call_bytes service payload =
    be32 (length service) ++ (service ++ (be32 (length payload) ++ payload))

abbrev pub reply_bytes : ℕ → Bytes → Bytes
reply_bytes status reply_data = be32 status ++ (be32 (length reply_data) ++ reply_data)

pub pack_frame_lem :
    (conn_type data_type : ℕ) (content : Bytes)
    → length content < 2 ^ 32
    → pack_frame conn_type data_type content ≡ ok (frame_bytes conn_type data_type content)
unfolding pack_frame make
pack_frame_lem conn_type data_type content h = rw (mod-eq_of_lt h) (
    put_then [] _ _ _ _ _ (omega sizes) (omega sizes) (omega sizes) (
      put_then _ _ _ _ _ _ (omega sizes) (omega sizes) (omega sizes) (
        put_then _ _ _ _ _ _ (omega sizes) (omega sizes) (omega sizes)
          (copy_last _ _ _ _ (omega sizes) (omega sizes) (simp append_assoc)))))

pub pack_call_lem :
    (service payload : Bytes)
    → length service < 2 ^ 32
    → length payload < 2 ^ 32
    → pack_call service payload ≡ ok (call_bytes service payload)
unfolding pack_call make
pack_call_lem service payload h k =
    rw (mod-eq_of_lt h, mod-eq_of_lt k)
      (put_then [] _ _ _ _ _ (omega sizes) (omega sizes) (omega sizes) (
        copy_then _ _ _ _ _ _ (omega sizes) (omega sizes) (omega sizes) (
          put_then _ _ _ _ _ _ (omega sizes) (omega sizes) (omega sizes)
            (copy_last _ _ _ _ (omega sizes) (omega sizes) (simp append_assoc)))))

pub pack_reply_lem :
    (status : ℕ) (reply_data : Bytes)
    → length reply_data < 2 ^ 32
    → pack_reply status reply_data ≡ ok (reply_bytes status reply_data)
unfolding pack_reply make
pack_reply_lem status reply_data h = rw (mod-eq_of_lt h) (
    put_then [] _ _ _ _ _ (omega sizes) (omega sizes) (omega sizes) (
      put_then _ _ _ _ _ _ (omega sizes) (omega sizes) (omega sizes)
        (copy_last _ _ _ _ (omega sizes) (omega sizes) (simp append_assoc))))

pub unpack_call_lem :
    (service payload : Bytes)
    → length service < 2 ^ 32
    → length payload < 2 ^ 32
    → unpack_call (call_bytes service payload)
      ≡ ok (record { service = service; payload = payload })
unfolding unpack_call unpack_service
unpack_call_lem service payload h k =
    let buf = call_bytes service payload in
    let s = length service in
    let p = length payload in
    let size : length buf ≡ 4 + s + 4 + p = omega sizes in
    let long : ltb (4 + s + 4 + p) 8 ≡ false = ground arith in
    let holds_service : ltb (4 + s + 4 + p) (4 + s + 4) ≡ false = ground arith in
    let whole : ltb (4 + s + 4 + p) (4 + s + 4 + p) ≡ false = ground arith in
    rw (size, long)
      (scan_uint32 _ _ _ _ _ _ (At-start refl) (omega sizes) h λ a. rw holds_service (
        scan_slice _ _ _ service _ _ a (omega sizes) λ a.
          scan_uint32 _ _ _ _ _ _ a (omega sizes) k λ a.
            rw whole
              (scan_slice _ _ _ payload [] _ (rw (append-nil payload) a) (omega sizes) λ _. refl)))

pub unpack_reply_lem :
    (status : ℕ) (reply_data : Bytes)
    → IsUint32 status
    → length reply_data < 2 ^ 32
    → unpack_reply (reply_bytes status reply_data)
      ≡ ok (record { status = status; reply_data = reply_data })
unfolding unpack_reply
unpack_reply_lem status reply_data t h =
    let d = length reply_data in
    let size : length (reply_bytes status reply_data) ≡ 8 + d = omega sizes in
    let long : ltb (8 + d) 8 ≡ false = ground arith in
    let whole : ltb (8 + d) (8 + d) ≡ false = ground arith in
    rw (size, long)
      (scan_uint32 _ _ _ _ _ _ (At-start refl) (omega sizes) t λ a.
        scan_uint32 _ _ _ _ _ _ a (omega sizes) h λ a.
          rw whole (
            scan_slice _ _ _ reply_data [] _ (rw (append-nil reply_data) a) (omega sizes)
              λ _. refl))

-- A packed call is unpacked to its service and payload, if their lengths are uint32s.
pub unpack_call-pack_call :
    (service payload : Bytes)
    → length service < 2 ^ 32
    → length payload < 2 ^ 32
    → (pack_call service payload >>= unpack_call)
      ≡ ok (record { service = service; payload = payload })
unpack_call-pack_call service payload h k =
    rw (pack_call_lem service payload h k) (unpack_call_lem service payload h k)

-- A packed reply is unpacked to its status and data, if the status and the length of the data are
-- uint32s.
pub unpack_reply-pack_reply :
    (status : ℕ) (reply_data : Bytes)
    → IsUint32 status
    → length reply_data < 2 ^ 32
    → (pack_reply status reply_data >>= unpack_reply)
      ≡ ok (record { status = status; reply_data = reply_data })
unpack_reply-pack_reply status reply_data t h =
    rw (pack_reply_lem status reply_data h) (unpack_reply_lem status reply_data t h)
