-- ===== src/Client/Response/Decode.antt =====
-- What a client's DecodePack reads from a packet of the server.
use nmid.Prelude.{ℕ, ◌+◌, ◌<◌, ◌^◌, ◌≡◌, refl, [], ◌++◌, arith, length}
use nmid.Prelude.{ltb, ◌==◌, ==-refl, if◌then◌else◌, false}
use native.Mathlib.Nat.{mod-eq_of_lt}
use nmid.Wire.{Bytes, IsUint32, ok, be32}
use nmid.Wire.Uint32.{sizes}
use nmid.Wire.Scan.{At-start, At-next, scan_uint32, scan_slice}
use nmid.Wire.Frame.{frame_bytes}
use mathlib.Core.List.{append-nil}
use nmid.Model.Pdt
use nmid.Client.Response.{Response, new_res, decode_return_data, decode_content, decode_pack}

pub decode_return_data_lem :
    (conn_type data_type n : ℕ) (handle params ret packet : Bytes) (resp : Response)
    → packet
      ≡ be32 conn_type
        ++ (be32 data_type
            ++ (be32 n
                ++ (be32 (length handle)
                    ++ (be32 (length params)
                        ++ (be32 (length ret) ++ (handle ++ (params ++ ret)))))))
    → 12 + length handle + length params + length ret < 2 ^ 32
    → decode_return_data packet resp
      ≡ ok (record resp {
        handle_len = length handle;
        params_len = length params;
        ret_len = length ret;
        handle = handle;
        params = params;
        ret = ret;
      })
unfolding decode_return_data
decode_return_data_lem c d n handle params ret packet resp e small =
    let a₁ = At-next 0 4 (be32 c) _ (At-start e) (omega sizes) in
    let a₂ = At-next 4 8 (be32 d) _ a₁ (omega sizes) in
    let a₃ = At-next 8 12 (be32 n) _ a₂ (omega sizes) in
    scan_uint32 _ _ _ _ _ _ a₃ (omega sizes) (omega sizes) λ a.
      scan_uint32 _ _ _ _ _ _ a (omega sizes) (omega sizes) λ a.
        scan_uint32 _ _ _ _ _ _ a (omega sizes) (omega sizes) λ a.
          scan_slice _ _ _ handle _ _ a (omega sizes) λ a.
            scan_slice _ _ _ params _ _ a (omega sizes)
              λ a. scan_slice _ _ _ ret [] _ (rw (append-nil ret) a) (omega sizes) λ a. refl

-- A response before its content is parsed.
abbrev pub framed : ℕ → Bytes → Response
framed data_type content = record new_res {
  data_type = data_type;
  data_len = length content;
  packet = content;
}

-- DecodePack of one whole frame.
pub decode_pack-frame_bytes :
    (conn_type data_type : ℕ) (content : Bytes)
    → IsUint32 data_type
    → length content < 2 ^ 32
    → decode_pack (frame_bytes conn_type data_type content) ≡ (
        if data_type == Pdt.s_return_data
        then decode_return_data (frame_bytes conn_type data_type content) (framed data_type content)
        else ok (framed data_type content))
unfolding decode_pack decode_content
decode_pack-frame_bytes conn_type data_type content t small =
    let a₁ =
      At-next 0 4 (be32 conn_type) (be32 data_type ++ (be32 (length content) ++ content))
        (At-start refl) (omega sizes) in
    let a₂ = At-next 4 8 (be32 data_type) (be32 (length content) ++ content) a₁ (omega sizes) in
    let a₃ = At-next 8 12 (be32 (length content)) content a₂ (omega sizes) in
    let size : length (frame_bytes conn_type data_type content) ≡ 12 + length content =
      omega sizes in
    let long : ltb (12 + length content) 12 ≡ false = ground arith in
    let whole : ltb (12 + length content) (12 + length content) ≡ false = ground arith in
    rw (size, long)
      (scan_uint32 _ _ _ _ _ _ a₂ (omega sizes) small λ _. rw whole (
        scan_slice _ 12 _ content [] _ (rw (append-nil content) a₃) (omega sizes) λ _.
          scan_uint32 _ _ _ _ _ _ a₁ (omega sizes) t
            λ _. rw (==-refl (length content), mod-eq_of_lt small) refl))
