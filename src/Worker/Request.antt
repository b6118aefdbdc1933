-- ===== src/Worker/Request.antt =====
-- pkg/worker/request.go: what a worker sends to the server.
-- The `err` results are left out: every one of them is nil.
pub mod Encode
use nmid.Prelude.{ℕ, ◌+◌, [], ◌∷◌, length}
use nmid.Wire.{Bytes, Outcome, ok, ◌>>=◌, to_uint32, make, copy_into, put_uint32}
use nmid.Model.{min_data_size, uint32_size}
use nmid.Model.Pdt
use nmid.Model.ConnType

pub record Request : Type 0 where
  pub data_type : ℕ
  pub packet : Bytes
  pub data_len : ℕ
  pub handle : Bytes
  pub handle_len : ℕ
  pub params_type : ℕ
  pub params_len : ℕ
  pub params : Bytes
  pub job_id : Bytes
  pub job_id_len : ℕ
  pub ret : Bytes
  pub ret_len : ℕ

abbrev pub new_req : Request
new_req = record {
  data_type = 0;
  packet = [];
  data_len = 0;
  handle = [];
  handle_len = 0;
  params_type = 0;
  params_len = 0;
  params = [];
  job_id = [];
  job_id_len = 0;
  ret = [];
  ret_len = 0;
}

-- The assignments that the packets with a plain text share.
abbrev text_pack : ℕ → Bytes → Request → Request
text_pack data_type text req = record req {
  data_type = data_type;
  data_len = to_uint32 (length text);
  packet = text;
}

unfoldable pub heart_beat_pack : Request → Request
heart_beat_pack = text_pack Pdt.w_heartbeat_ping (b'P' ∷ b'I' ∷ b'N' ∷ b'G' ∷ [])

unfoldable pub set_worker_name : Bytes → Request → Request
set_worker_name = text_pack Pdt.w_set_name

unfoldable pub add_function_pack : Bytes → Request → Request
add_function_pack = text_pack Pdt.w_add_func

unfoldable pub del_function_pack : Bytes → Request → Request
del_function_pack = text_pack Pdt.w_del_func

unfoldable pub grab_data_pack : Request → Request
grab_data_pack = text_pack Pdt.w_grab_job []

unfoldable pub wakeup_pack : Request → Request
wakeup_pack = text_pack Pdt.wakeup []

unfoldable pub limit_exceed_pack : Request → Request
limit_exceed_pack = text_pack Pdt.ratelimit []

abbrev pub ret_pack_len : Request → ℕ → ℕ
ret_pack_len req ret_len = to_uint32 (
    uint32_size + req.handle_len + uint32_size + req.params_len + uint32_size + ret_len
    + uint32_size + req.job_id_len)

-- RetPack: the result of a job. The request that comes back holds the content as its packet.
unfoldable pub ret_pack : Bytes → Request → Outcome Request
ret_pack ret req = do
  let ret_len = to_uint32 (length ret)
  b₁ ← put_uint32 (make (ret_pack_len req ret_len)) 0 4 req.handle_len
  let handle_end = to_uint32 (uint32_size + req.handle_len)
  b₂ ← copy_into b₁ 4 handle_end req.handle
  let params_start = handle_end + uint32_size
  b₃ ← put_uint32 b₂ handle_end params_start req.params_len
  let params_end = params_start + req.params_len
  b₄ ← copy_into b₃ params_start params_end req.params
  let ret_start = params_end + uint32_size
  b₅ ← put_uint32 b₄ params_end ret_start ret_len
  let ret_end = ret_start + ret_len
  b₆ ← copy_into b₅ ret_start ret_end ret
  let job_start = ret_end + uint32_size
  b₇ ← put_uint32 b₆ ret_end job_start req.job_id_len
  content ← copy_into b₇ job_start (job_start + req.job_id_len) req.job_id
  ok (record req {
    ret = ret;
    ret_len = ret_len;
    data_type = Pdt.w_return_data;
    data_len = ret_pack_len req ret_len;
    packet = content;
  })

unfoldable pub encode_pack : Request → Outcome Bytes
encode_pack req = do
  h₁ ← put_uint32 (make (to_uint32 (min_data_size + req.data_len))) 0 4 ConnType.worker
  h₂ ← put_uint32 h₁ 4 8 req.data_type
  h₃ ← put_uint32 h₂ 8 12 req.data_len
  copy_into h₃ 12 (length h₃) req.packet
