-- ===== src/Server/Io/Encode.antt =====
-- What ResEncodePack writes, as a concatenation.
use mathlib.Core.List.{append_assoc, append-nil}
use nmid.Prelude.{ℕ, ◌+◌, ◌<◌, ◌^◌, ◌%◌, ◌≡◌, refl, sym, [], ◌++◌, arith, length}
use nmid.Prelude.{lt→ltb}
use native.Mathlib.Nat.{mod-eq_of_lt}
use nmid.Model.ConnType
use nmid.Model.Pdt
use nmid.Wire.{Bytes, ok, be32, make}
use nmid.Wire.Uint32.{sizes}
use nmid.Wire.Fill.{filled, put_then, copy_then, copy_last}
use nmid.Server.Io.{Response, get_data_len, get_data_content, return_data_len, return_data_content}
use nmid.Server.Io.{get_res_content, res_encode_pack, fill_packet}

-- The content of a job packet, in the order of the wire.
abbrev pub get_data_bytes : Response → Bytes
get_data_bytes res =
    be32 res.params_type
    ++ (be32 res.params_handle_type
        ++ (be32 res.handle_len
            ++ (be32 res.params_len
                ++ (be32 res.job_id_len ++ (res.handle ++ (res.params ++ res.job_id))))))

-- The content of a result packet.
abbrev pub return_data_bytes : Response → Bytes
return_data_bytes res =
    be32 res.handle_len
    ++ (be32 res.params_len ++ (be32 res.ret_len ++ (res.handle ++ (res.params ++ res.ret))))

-- The lengths of the two contents.
abbrev pub job_size : Response → ℕ
job_size res = 20 + length res.handle + length res.params + length res.job_id

abbrev pub ret_size : Response → ℕ
ret_size res = 12 + length res.handle + length res.params + length res.ret

-- The length fields of a packet are the lengths of its parts, and its own length is a uint32.
pub record IsJobSized (res : Response) : Type 0 where
  pub handle : res.handle_len ≡ length res.handle
  pub params : res.params_len ≡ length res.params
  pub job_id : res.job_id_len ≡ length res.job_id
  pub fits : 12 + job_size res < 2 ^ 32

pub record IsRetSized (res : Response) : Type 0 where
  pub handle : res.handle_len ≡ length res.handle
  pub params : res.params_len ≡ length res.params
  pub ret : res.ret_len ≡ length res.ret
  pub fits : 12 + ret_size res < 2 ^ 32

pub get_data_content_lem :
    (res : Response) → IsJobSized res → get_data_content res ≡ ok (get_data_bytes res)
unfolding get_data_content make
get_data_content_lem res h = put_then [] _ _ _ _ _ (omega sizes) (omega sizes) (omega sizes) (
    put_then _ _ _ _ _ _ (omega sizes) (omega sizes) (omega sizes) (
      put_then _ _ _ _ _ _ (omega sizes) (omega sizes) (omega sizes) (
        put_then _ _ _ _ _ _ (omega sizes) (omega sizes) (omega sizes) (
          put_then _ _ _ _ _ _ (omega sizes) (omega sizes) (omega sizes) (
            copy_then _ _ _ _ _ _ (omega sizes) (omega sizes) (omega sizes) (
              copy_then _ _ _ _ _ _ (omega sizes) (omega sizes) (omega sizes)
                (copy_last _ _ _ _ (omega sizes) (omega sizes) (simp append_assoc))))))))

pub return_data_content_lem :
    (res : Response) → IsRetSized res → return_data_content res ≡ ok (return_data_bytes res)
unfolding return_data_content make
return_data_content_lem res h = put_then [] _ _ _ _ _ (omega sizes) (omega sizes) (omega sizes) (
    put_then _ _ _ _ _ _ (omega sizes) (omega sizes) (omega sizes) (
      put_then _ _ _ _ _ _ (omega sizes) (omega sizes) (omega sizes) (
        copy_then _ _ _ _ _ _ (omega sizes) (omega sizes) (omega sizes) (
          copy_then _ _ _ _ _ _ (omega sizes) (omega sizes) (omega sizes)
            (copy_last _ _ _ _ (omega sizes) (omega sizes) (simp append_assoc))))))

-- A packet from the server: the header and the content.
abbrev pub packet_bytes : ℕ → Bytes → Bytes
packet_bytes data_type content =
    be32 ConnType.server ++ (be32 data_type ++ (be32 (length content) ++ content))

fill_packet_lem :
    (pre content packet : Bytes) (m n : ℕ) (res : Response)
    → 12 ≡ length pre
    → m ≡ n
    → n ≡ length content
    → 12 + n < 2 ^ 32
    → 0 < n
    → pre ++ content ≡ packet
    → fill_packet (filled pre m) content n res
      ≡ ok (packet, record res { data_len = 12 + n; packet = packet })
unfolding fill_packet
fill_packet_lem pre content packet m n res p l q h pos t =
    rw (lt→ltb 0 n pos, l, mod-eq_of_lt h) (rw (copy_last pre content n 12 p q t) refl)

-- ResEncodePack, from what GetResContent gives.
res_encode_pack-full :
    (res : Response) (content : Bytes) (n : ℕ)
    → get_res_content res ≡ ok (content, n)
    → n ≡ length content
    → 12 + n < 2 ^ 32
    → 0 < n
    → res_encode_pack res
      ≡ ok (
        packet_bytes res.data_type content,
        record res { data_len = 12 + n; packet = packet_bytes res.data_type content },
      )
unfolding res_encode_pack make
res_encode_pack-full res content n e q h pos =
    let small : n % 2 ^ 32 ≡ length content = omega arith in
    rw e (
      put_then [] _ _ _ _ _ (omega sizes) (omega sizes) (omega sizes) (
        put_then _ _ _ _ _ _ (omega sizes) (omega sizes) (omega sizes) (
          put_then _ _ _ _ _ _ (omega sizes) (omega sizes) (omega sizes) (
            fill_packet_lem _ _ _ _ _ _ (omega sizes) (omega sizes) q h pos
              (simp (append_assoc, small))))))

-- A response with no content is a header alone.
pub res_encode_pack-empty :
    (res : Response)
    → get_res_content res ≡ ok ([], 0)
    → res_encode_pack res ≡ ok (packet_bytes res.data_type [], record res { data_len = 12 })
unfolding res_encode_pack make fill_packet
res_encode_pack-empty res e = rw e (
    put_then [] 12 _ _ _ _ (omega sizes) (omega sizes) (omega sizes) (
      put_then (be32 ConnType.server) 8 _ _ _ _ (omega sizes) (omega sizes) (omega sizes) (
        put_then (be32 ConnType.server ++ be32 res.data_type) 4 _ _ _ _ (omega sizes) (omega sizes)
          (omega sizes) (simp (append_assoc, append-nil)))))

get_data_chosen :
    (res : Response)
    → res.data_type ≡ Pdt.s_get_data
    → IsJobSized res
    → get_res_content res ≡ ok (get_data_bytes res, job_size res)
unfolding get_res_content
get_data_chosen res t h =
    let total : get_data_len res ≡ job_size res =
      omega (arith, h.handle, h.params, h.job_id, h.fits) in
    ground (arith, get_data_content_lem res h, total)

return_data_chosen :
    (res : Response)
    → res.data_type ≡ Pdt.s_return_data
    → IsRetSized res
    → get_res_content res ≡ ok (return_data_bytes res, ret_size res)
unfolding get_res_content
return_data_chosen res t h =
    let total : return_data_len res ≡ ret_size res =
      omega (arith, h.handle, h.params, h.ret, h.fits) in
    ground (arith, return_data_content_lem res h, total)

-- What ResEncodePack leaves in the response.
abbrev pub sent : ℕ → Bytes → Response → Response
sent n packet res = record res { data_len = 12 + n; packet = packet }

-- The whole packet of a job for a worker.
pub res_encode_pack-get_data :
    (res : Response)
    → res.data_type ≡ Pdt.s_get_data
    → IsJobSized res
    → let packet = packet_bytes Pdt.s_get_data (get_data_bytes res) in
      res_encode_pack res ≡ ok (packet, sent (job_size res) packet res)
res_encode_pack-get_data res t h =
    let size : length (get_data_bytes res) ≡ job_size res = omega sizes in
    rw
      (res_encode_pack-full res (get_data_bytes res) (job_size res) (get_data_chosen res t h)
        (sym size) (omega arith) (omega arith))
      (rw t refl)

-- The whole packet of a result for a client.
pub res_encode_pack-return_data :
    (res : Response)
    → res.data_type ≡ Pdt.s_return_data
    → IsRetSized res
    → let packet = packet_bytes Pdt.s_return_data (return_data_bytes res) in
      res_encode_pack res ≡ ok (packet, sent (ret_size res) packet res)
res_encode_pack-return_data res t h =
    let size : length (return_data_bytes res) ≡ ret_size res = omega sizes in
    rw
      (res_encode_pack-full res (return_data_bytes res) (ret_size res) (return_data_chosen res t h)
        (sym size) (omega arith) (omega arith))
      (rw t refl)
