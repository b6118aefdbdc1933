-- ===== src/Server/Io.antt =====
-- pkg/server/io.go: the requests that the server reads and the responses that it writes.
-- Go strings are byte strings. `Request.ScInfo` is left out: nothing in the package reads it.
pub mod Encode
pub mod Decode
use nmid.Prelude.{ℕ, ◌+◌, ◌≡◌, [], ◌&&◌, ◌||◌, ltb, ◌==◌, if◌then◌else◌, length}
use nmid.Wire.{Bytes, Outcome, ok, panics, ◌>>=◌, to_uint32, make, copy_to, copy_into, slice}
use nmid.Wire.{put_uint32, uint32_at}
use nmid.Model.{min_data_size, uint32_size}
use nmid.Model.Pdt
use nmid.Model.ConnType

pub record Request : Type 0 where
  pub data_type : ℕ
  pub packet : Bytes
  pub data_len : ℕ
  pub handle : Bytes
  pub handle_len : ℕ
  pub params_type : ℕ
  pub params_handle_type : ℕ
  pub params_len : ℕ
  pub params : Bytes
  pub job_id : Bytes
  pub job_id_len : ℕ
  pub ret : Bytes
  pub ret_len : ℕ

pub record Response : Type 0 where
  pub data_type : ℕ
  pub packet : Bytes
  pub data_len : ℕ
  pub handle : Bytes
  pub handle_len : ℕ
  pub params_type : ℕ
  pub params_handle_type : ℕ
  pub params_len : ℕ
  pub params : Bytes
  pub job_id : Bytes
  pub job_id_len : ℕ
  pub ret : Bytes
  pub ret_len : ℕ

abbrev pub new_req : Request
new_req = record {
  data_type = 0;
  packet = [];
  data_len = 0;
  handle = [];
  handle_len = 0;
  params_type = 0;
  params_handle_type = 0;
  params_len = 0;
  params = [];
  job_id = [];
  job_id_len = 0;
  ret = [];
  ret_len = 0;
}

abbrev pub new_res : Response
new_res = record {
  data_type = 0;
  packet = [];
  data_len = 0;
  handle = [];
  handle_len = 0;
  params_type = 0;
  params_handle_type = 0;
  params_len = 0;
  params = [];
  job_id = [];
  job_id_len = 0;
  ret = [];
  ret_len = 0;
}

unfoldable pub get_req_data : Request → Bytes
get_req_data req = if req.data_len == to_uint32 (length req.packet) then req.packet else []

unfoldable pub get_res_data : Response → Bytes
get_res_data res = if res.data_len == to_uint32 (length res.packet) then res.packet else []

-- The length that GetResContent computes for a job sent to a worker, in uint32.
abbrev pub get_data_len : Response → ℕ
get_data_len res = to_uint32 (
    uint32_size + uint32_size + uint32_size + res.handle_len + uint32_size + res.params_len
    + uint32_size + res.job_id_len)

-- The branch of GetResContent for PDT_S_GET_DATA: what a worker is sent.
unfoldable pub get_data_content : Response → Outcome Bytes
get_data_content res = do
  b₁ ← put_uint32 (make (get_data_len res)) 0 4 res.params_type
  b₂ ← put_uint32 b₁ 4 8 res.params_handle_type
  b₃ ← put_uint32 b₂ 8 12 res.handle_len
  b₄ ← put_uint32 b₃ 12 16 res.params_len
  b₅ ← put_uint32 b₄ 16 20 res.job_id_len
  let handle_end = 20 + res.handle_len
  b₆ ← copy_into b₅ 20 handle_end res.handle
  let params_end = handle_end + res.params_len
  b₇ ← copy_into b₆ handle_end params_end res.params
  copy_into b₇ params_end (length b₇) res.job_id

abbrev pub return_data_len : Response → ℕ
return_data_len res =
    to_uint32
      (uint32_size + res.handle_len + uint32_size + res.params_len + uint32_size + res.ret_len)

-- The branch for PDT_S_RETURN_DATA: what a client is sent.
unfoldable pub return_data_content : Response → Outcome Bytes
return_data_content res = do
  b₁ ← put_uint32 (make (return_data_len res)) 0 4 res.handle_len
  b₂ ← put_uint32 b₁ 4 8 res.params_len
  b₃ ← put_uint32 b₂ 8 12 res.ret_len
  let handle_end = 12 + res.handle_len
  b₄ ← copy_into b₃ 12 handle_end res.handle
  let params_end = handle_end + res.params_len
  b₅ ← copy_into b₄ handle_end params_end res.params
  copy_into b₅ params_end (length b₅) res.ret

-- The content and its length.
unfoldable pub get_res_content : Response → Outcome (Bytes × ℕ)
get_res_content res =
    if res.data_type == Pdt.s_get_data
    then (do content ← get_data_content res; ok (content, get_data_len res))
    else if res.data_type == Pdt.s_return_data
    then (do content ← return_data_content res; ok (content, return_data_len res))
    else ok ([], 0)

-- The end of ResEncodePack: the content is copied behind the header if there is any.
unfoldable pub fill_packet : Bytes → Bytes → ℕ → Response → Outcome (Bytes × Response)
fill_packet header content content_len res =
    let sized = record res { data_len = to_uint32 (min_data_size + content_len) } in
    if ltb 0 content_len
    then (do
      packet ← copy_into header 12 (length header) content
      ok (packet, record sized { packet = packet }))
    else ok (header, sized)

-- The packet, and the response with the fields that ResEncodePack sets.
unfoldable pub res_encode_pack : Response → Outcome (Bytes × Response)
res_encode_pack res = do
  packed ← get_res_content res
  let content = packed.0
  let content_len = packed.1
  h₁ ← put_uint32 (make (min_data_size + content_len)) 0 4 ConnType.server
  h₂ ← put_uint32 h₁ 4 8 res.data_type
  h₃ ← put_uint32 h₂ 8 12 (to_uint32 content_len)
  fill_packet h₃ content content_len res

-- The branch of ReqDecodePack for PDT_W_RETURN_DATA: a worker's result.
unfoldable pub decode_return_data : Request → Outcome Request
decode_return_data req = do
  handle_len ← uint32_at req.packet 0 4
  let handle_end = 4 + handle_len
  handle ← slice req.packet 4 handle_end
  let params_start = handle_end + 4
  params_len ← uint32_at req.packet handle_end params_start
  let params_end = params_start + params_len
  params ← slice req.packet params_start params_end
  let ret_start = params_end + 4
  ret_len ← uint32_at req.packet params_end ret_start
  let ret_end = ret_start + ret_len
  ret ← slice req.packet ret_start ret_end
  let job_start = ret_end + 4
  job_id_len ← uint32_at req.packet ret_end job_start
  job_id ← slice req.packet job_start (length req.packet)
  ok (record req {
    handle_len = handle_len;
    handle = copy_to (make handle_len) handle;
    params_len = params_len;
    params = copy_to (make params_len) params;
    ret_len = ret_len;
    ret = copy_to (make ret_len) ret;
    job_id_len = job_id_len;
    job_id = copy_to (make job_id_len) job_id;
  })

-- The branch for PDT_C_DO_JOB: a client's job.
unfoldable pub decode_do_job : Request → Outcome Request
decode_do_job req = do
  params_type ← uint32_at req.packet 0 4
  params_handle_type ← uint32_at req.packet 4 8
  handle_len ← uint32_at req.packet 8 12
  let handle_end = 12 + handle_len
  handle ← slice req.packet 12 handle_end
  let params_start = handle_end + 4
  params_len ← uint32_at req.packet handle_end params_start
  params ← slice req.packet params_start (length req.packet)
  ok (record req {
    params_type = params_type;
    params_handle_type = params_handle_type;
    handle_len = handle_len;
    handle = copy_to (make handle_len) handle;
    params_len = params_len;
    params = copy_to (make params_len) params;
  })

unfoldable pub req_decode_pack : Request → Outcome Request
req_decode_pack req =
    if ltb 0 req.data_len
      && (ltb 0 (length req.packet) && (req.data_len == to_uint32 (length req.packet)))
    then (if req.data_type == Pdt.w_return_data
        then decode_return_data req
        else if req.data_type == Pdt.c_do_job
        then decode_do_job req
        else ok req)
    else ok req
