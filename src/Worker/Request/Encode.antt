-- ===== src/Worker/Request/Encode.antt =====
-- What RetPack and EncodePack write, as concatenations.
use mathlib.Core.List.{append_assoc}
use nmid.Prelude.{◌+◌, ◌<◌, ◌^◌, ◌%◌, ◌≡◌, [], ◌++◌, arith, length}
use nmid.Wire.{Bytes, ok, be32, make, to_uint32}
use nmid.Wire.Uint32.{sizes}
use nmid.Wire.Fill.{put_then, copy_then, copy_end, copy_last}
use nmid.Wire.Frame.{frame_bytes}
use nmid.Model.Pdt
use nmid.Model.ConnType
use nmid.Worker.Request.{Request, ret_pack, ret_pack_len, encode_pack}

-- The content of a result, in the order of the wire.
abbrev pub ret_bytes : Bytes → Request → Bytes
ret_bytes ret req =
    be32 req.handle_len
    ++ (req.handle
        ++ (be32 req.params_len
            ++ (req.params ++ (be32 (length ret) ++ (ret ++ (be32 req.job_id_len ++ req.job_id))))))

-- The length fields that DoFunction copies from the job are the lengths, and the content's length
-- is a uint32.
pub record IsSized (ret : Bytes) (req : Request) : Type 0 where
  pub handle : req.handle_len ≡ length req.handle
  pub params : req.params_len ≡ length req.params
  pub job_id : req.job_id_len ≡ length req.job_id
  pub fits : 16 + length req.handle + length req.params + length ret + length req.job_id < 2 ^ 32

abbrev pub packed : Bytes → Request → Request
packed ret req = record req {
  ret = ret;
  ret_len = length ret;
  data_type = Pdt.w_return_data;
  data_len = 16 + length req.handle + length req.params + length ret + length req.job_id;
  packet = ret_bytes ret req;
}

pub ret_pack_lem :
    (ret : Bytes) (req : Request) → IsSized ret req → ret_pack ret req ≡ ok (packed ret req)
unfolding ret_pack make
ret_pack_lem ret req h =
    let small_ret : length ret % 2 ^ 32 ≡ length ret = omega (arith, h.fits) in
    let handle_end : to_uint32 (4 + req.handle_len) ≡ 4 + length req.handle =
      omega (arith, h.handle, h.fits) in
    let total : ret_pack_len req (length ret)
        ≡ 16 + length req.handle + length req.params + length ret + length req.job_id =
      omega (arith, h.handle, h.params, h.job_id, h.fits) in
    rw (small_ret, handle_end, total)
      (put_then [] _ _ _ _ _ (omega sizes) (omega sizes) (omega sizes) (
        copy_then _ _ _ _ _ _ (omega sizes) (omega sizes) (omega sizes) (
          put_then _ _ _ _ _ _ (omega sizes) (omega sizes) (omega sizes) (
            copy_then _ _ _ _ _ _ (omega sizes) (omega sizes) (omega sizes) (
              put_then _ _ _ _ _ _ (omega sizes) (omega sizes) (omega sizes) (
                copy_then _ _ _ _ _ _ (omega sizes) (omega sizes) (omega sizes) (
                  put_then _ _ _ _ _ _ (omega sizes) (omega sizes) (omega sizes) (
                    copy_end _ _ _ _ _ _ (omega sizes) (omega sizes) (omega sizes)
                      (simp append_assoc)))))))))

pub encode_pack_lem :
    (req : Request)
    → req.data_len ≡ length req.packet
    → 12 + length req.packet < 2 ^ 32
    → encode_pack req ≡ ok (frame_bytes ConnType.worker req.data_type req.packet)
unfolding encode_pack make
encode_pack_lem req p h = put_then [] _ _ _ _ _ (omega sizes) (omega sizes) (omega sizes) (
    put_then _ _ _ _ _ _ (omega sizes) (omega sizes) (omega sizes) (
      put_then _ _ _ _ _ _ (omega sizes) (omega sizes) (omega sizes)
        (copy_last _ _ _ _ (omega sizes) (omega sizes) (simp (append_assoc, p)))))
