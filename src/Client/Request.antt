-- ===== src/Client/Request.antt =====
-- pkg/client/request.go: what a client sends to the server.
pub mod Encode
use nmid.Prelude.{ℕ, ◌+◌, [], length}
use nmid.Wire.{Bytes, Outcome, ok, ◌>>=◌, to_uint32, make, copy_into, put_uint32}
use nmid.Model.{min_data_size, uint32_size, params_type_msgpack, params_handle_type_encode}
use nmid.Model.ConnType

pub record Request : Type 0 where
  pub data_type : ℕ
  pub packet : Bytes
  pub data_len : ℕ
  pub handle : Bytes
  pub handle_len : ℕ
  pub params_type : ℕ
  pub params_handle_type : ℕ
  pub params_len : ℕ
  pub params : Bytes
  pub ret : Bytes
  pub ret_len : ℕ

abbrev pub new_req : Request
new_req = record {
  data_type = 0;
  packet = [];
  data_len = 0;
  handle = [];
  handle_len = 0;
  params_type = params_type_msgpack;
  params_handle_type = params_handle_type_encode;
  params_len = 0;
  params = [];
  ret = [];
  ret_len = 0;
}

abbrev pub content_len : ℕ → ℕ → ℕ
content_len handle_len params_len =
    to_uint32 (uint32_size + uint32_size + uint32_size + handle_len + uint32_size + params_len)

-- ContentPack. The content and its length are the packet and the data length of the request that
-- comes back.
unfoldable pub content_pack : ℕ → Bytes → Bytes → Request → Outcome Request
content_pack data_type handle params req = do
  let handle_len = to_uint32 (length handle)
  let params_len = to_uint32 (length params)
  b₁ ← put_uint32 (make (content_len handle_len params_len)) 0 4 req.params_type
  b₂ ← put_uint32 b₁ 4 8 req.params_handle_type
  b₃ ← put_uint32 b₂ 8 12 handle_len
  let handle_end = 12 + handle_len
  b₄ ← copy_into b₃ 12 handle_end handle
  let params_start = handle_end + uint32_size
  b₅ ← put_uint32 b₄ handle_end params_start params_len
  content ← copy_into b₅ params_start (params_start + params_len) params
  ok (record req {
    data_type = data_type;
    handle = handle;
    handle_len = handle_len;
    params = params;
    params_len = params_len;
    data_len = content_len handle_len params_len;
    packet = content;
  })

unfoldable pub encode_pack : Request → Outcome Bytes
encode_pack req = do
  h₁ ← put_uint32 (make (to_uint32 (min_data_size + req.data_len))) 0 4 ConnType.client
  h₂ ← put_uint32 h₁ 4 8 req.data_type
  h₃ ← put_uint32 h₂ 8 12 req.data_len
  copy_into h₃ 12 (length h₃) req.packet
