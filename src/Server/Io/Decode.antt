-- ===== src/Server/Io/Decode.antt =====
-- What ReqDecodePack reads from the packets that the senders write.
use nmid.Prelude.{ℕ, ◌+◌, ◌<◌, ◌^◌, ◌≡◌, ◌++◌, arith, length}
use nmid.Prelude.{length-replicate}
use nmid.Wire.{Bytes, IsUint32, ok, be32, make, copy_to}
use nmid.Wire.Uint32.{sizes}
use nmid.Wire.Fill.{copy_to_full}
use nmid.Wire.Scan.{At-start, scan_uint32, scan_slice, scan_last}
use nmid.Model.Pdt
use nmid.Server.Io.{Request, decode_do_job, decode_return_data, req_decode_pack}

-- A copy into a fresh buffer of the same length.
copy_to-make : (xs : Bytes) → copy_to (make (length xs)) xs ≡ xs
unfolding make
copy_to-make xs = copy_to_full _ xs (length-replicate (length xs) 0)

module _ (req : Request) (params_type params_handle_type : ℕ) (handle params : Bytes)
    (packet : req.packet
      ≡ be32 params_type
        ++ (be32 params_handle_type
            ++ (be32 (length handle) ++ (handle ++ (be32 (length params) ++ params)))))
    (types : IsUint32 params_type × IsUint32 params_handle_type)
    (small : 16 + length handle + length params < 2 ^ 32) where
  pub decode_do_job_lem :
      decode_do_job req
      ≡ ok (record req {
        params_type = params_type;
        params_handle_type = params_handle_type;
        handle_len = length handle;
        handle = handle;
        params_len = length params;
        params = params;
      })
  unfolding decode_do_job
  decode_do_job_lem = scan_uint32 _ _ _ _ _ _ (At-start packet) (omega sizes) types.0 λ a.
      scan_uint32 _ _ _ _ _ _ a (omega sizes) types.1 λ a.
        scan_uint32 _ _ _ _ _ _ a (omega sizes) (omega sizes) λ a.
          scan_slice _ _ _ handle _ _ a (omega sizes) λ a.
            scan_uint32 _ _ _ _ _ _ a (omega sizes) (omega sizes)
              λ a. scan_last _ _ _ _ a (simp copy_to-make)

module _ (req : Request) (handle params ret job_id : Bytes)
    (packet : req.packet
      ≡ be32 (length handle)
        ++ (handle
            ++ (be32 (length params)
                ++ (params ++ (be32 (length ret) ++ (ret ++ (be32 (length job_id) ++ job_id)))))))
    (small : 16 + length handle + length params + length ret + length job_id < 2 ^ 32) where
  pub decode_return_data_lem :
      decode_return_data req
      ≡ ok (record req {
        handle_len = length handle;
        handle = handle;
        params_len = length params;
        params = params;
        ret_len = length ret;
        ret = ret;
        job_id_len = length job_id;
        job_id = job_id;
      })
  unfolding decode_return_data
  decode_return_data_lem =
      scan_uint32 _ _ _ _ _ _ (At-start packet) (omega sizes) (omega sizes) λ a.
        scan_slice _ _ _ handle _ _ a (omega sizes) λ a.
          scan_uint32 _ _ _ _ _ _ a (omega sizes) (omega sizes) λ a.
            scan_slice _ _ _ params _ _ a (omega sizes) λ a.
              scan_uint32 _ _ _ _ _ _ a (omega sizes) (omega sizes) λ a.
                scan_slice _ _ _ ret _ _ a (omega sizes) λ a.
                  scan_uint32 _ _ _ _ _ _ a (omega sizes) (omega sizes)
                    λ a. scan_last _ _ _ _ a (simp copy_to-make)

-- With lengths that agree, ReqDecodePack goes by the packet type.
pub req_decode_pack-do_job :
    (req : Request) {r : Request}
    → req.data_type ≡ Pdt.c_do_job
    → req.data_len ≡ length req.packet
    → 0 < req.data_len
    → req.data_len < 2 ^ 32
    → decode_do_job req ≡ ok r
    → req_decode_pack req ≡ ok r
unfolding req_decode_pack
req_decode_pack-do_job req t l pos h e = ground arith

pub req_decode_pack-return_data :
    (req : Request) {r : Request}
    → req.data_type ≡ Pdt.w_return_data
    → req.data_len ≡ length req.packet
    → 0 < req.data_len
    → req.data_len < 2 ^ 32
    → decode_return_data req ≡ ok r
    → req_decode_pack req ≡ ok r
unfolding req_decode_pack
req_decode_pack-return_data req t l pos h e = ground arith
