-- ===== src/Client/Request/Encode.antt =====
-- What ContentPack and EncodePack write, as concatenations.
use mathlib.Core.List.{append_assoc}
use nmid.Prelude.{ℕ, ◌+◌, ◌<◌, ◌^◌, ◌%◌, ◌≡◌, [], ◌++◌, arith, length}
use nmid.Wire.{Bytes, ok, be32, make}
use nmid.Wire.Uint32.{sizes}
use nmid.Wire.Fill.{put_then, copy_then, copy_end, copy_last}
use nmid.Wire.Frame.{frame_bytes}
use nmid.Model.ConnType
use nmid.Client.Request.{Request, content_pack, content_len, encode_pack}

-- The content of a job request, in the order of the wire.
abbrev pub do_job_bytes : Request → Bytes → Bytes → Bytes
do_job_bytes req handle params =
    be32 req.params_type
    ++ (be32 req.params_handle_type
        ++ (be32 (length handle) ++ (handle ++ (be32 (length params) ++ params))))

-- The request with its content packed.
abbrev pub packed : ℕ → Bytes → Bytes → Request → Request
packed data_type handle params req = record req {
  data_type = data_type;
  handle = handle;
  handle_len = length handle;
  params = params;
  params_len = length params;
  data_len = 16 + length handle + length params;
  packet = do_job_bytes req handle params;
}

pub content_pack_lem :
    (data_type : ℕ) (handle params : Bytes) (req : Request)
    → 16 + length handle + length params < 2 ^ 32
    → content_pack data_type handle params req ≡ ok (packed data_type handle params req)
unfolding content_pack make
content_pack_lem data_type handle params req h =
    let small_handle : length handle % 2 ^ 32 ≡ length handle = omega arith in
    let small_params : length params % 2 ^ 32 ≡ length params = omega arith in
    let total : content_len (length handle) (length params) ≡ 16 + length handle + length params =
      omega arith in
    rw (small_handle, small_params, total)
      (put_then [] _ _ _ _ _ (omega sizes) (omega sizes) (omega sizes) (
        put_then _ _ _ _ _ _ (omega sizes) (omega sizes) (omega sizes) (
          put_then _ _ _ _ _ _ (omega sizes) (omega sizes) (omega sizes) (
            copy_then _ _ _ _ _ _ (omega sizes) (omega sizes) (omega sizes) (
              put_then _ _ _ _ _ _ (omega sizes) (omega sizes) (omega sizes) (
                copy_end _ _ _ _ _ _ (omega sizes) (omega sizes) (omega sizes)
                  (simp append_assoc)))))))

pub encode_pack_lem :
    (req : Request)
    → req.data_len ≡ length req.packet
    → 12 + length req.packet < 2 ^ 32
    → encode_pack req ≡ ok (frame_bytes ConnType.client req.data_type req.packet)
unfolding encode_pack make
encode_pack_lem req p h = put_then [] _ _ _ _ _ (omega sizes) (omega sizes) (omega sizes) (
    put_then _ _ _ _ _ _ (omega sizes) (omega sizes) (omega sizes) (
      put_then _ _ _ _ _ _ (omega sizes) (omega sizes) (omega sizes)
        (copy_last _ _ _ _ (omega sizes) (omega sizes) (simp (append_assoc, p)))))
