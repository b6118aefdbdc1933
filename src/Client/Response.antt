-- ===== src/Client/Response.antt =====
-- pkg/client/response.go: what a client reads from the server.
pub mod Decode
use nmid.Prelude.{ℕ, ◌+◌, ◌==◌, ltb, if◌then◌else◌, not, [], length}
use nmid.Wire.{Bytes, Outcome, ok, err, Error, invalid_data, request_error, have_no_job_do}
use nmid.Wire.{have_ratelimit, data_nil, ◌>>=◌, to_uint32, slice, uint32_at}
use nmid.Prelude.{Option, none, some}
use nmid.Model.{min_data_size}
use nmid.Model.Pdt

pub record Response : Type 0 where
  pub data_type : ℕ
  pub packet : Bytes
  pub data_len : ℕ
  pub handle : Bytes
  pub handle_len : ℕ
  pub params_type : ℕ
  pub params_len : ℕ
  pub params : Bytes
  pub ret : Bytes
  pub ret_len : ℕ

abbrev pub new_res : Response
new_res = record {
  data_type = 0;
  packet = [];
  data_len = 0;
  handle = [];
  handle_len = 0;
  params_type = 0;
  params_len = 0;
  params = [];
  ret = [];
  ret_len = 0;
}

-- GetResError: none is the nil error.
unfoldable pub get_res_error : Response → Option Error
get_res_error resp =
    if resp.data_type == Pdt.error
    then some request_error
    else if resp.data_type == Pdt.cant_do
    then some have_no_job_do
    else if resp.data_type == Pdt.ratelimit
    then some have_ratelimit
    else none

unfoldable pub get_res_result : Response → Outcome Bytes
get_res_result resp = if resp.data_type == Pdt.s_return_data then ok resp.ret else err data_nil

unfoldable pub get_conn_type : Bytes → Outcome ℕ
get_conn_type packet = if ltb (length packet) 4 then ok 0 else uint32_at packet 0 4

-- The part of DecodePack for PDT_S_RETURN_DATA.
unfoldable pub decode_return_data : Bytes → Response → Outcome Response
decode_return_data packet resp = do
  handle_len ← uint32_at packet 12 16
  params_len ← uint32_at packet 16 20
  ret_len ← uint32_at packet 20 24
  let handle_end = 24 + handle_len
  handle ← slice packet 24 handle_end
  let params_end = handle_end + params_len
  params ← slice packet handle_end params_end
  ret ← slice packet params_end (params_end + ret_len)
  ok (record resp {
    handle_len = handle_len;
    params_len = params_len;
    ret_len = ret_len;
    handle = handle;
    params = params;
    ret = ret;
  })

-- DecodePack behind its check of the frame's length.
unfoldable pub decode_content : Bytes → ℕ → Outcome Response
decode_content packet cl = do
  content ← slice packet min_data_size (min_data_size + cl)
  data_type ← uint32_at packet 4 8
  let resp = record new_res { data_type = data_type; data_len = to_uint32 cl; packet = content }
  if not (length content == cl)
      then err invalid_data
      else if data_type == Pdt.s_return_data
      then decode_return_data packet resp
      else ok resp

-- The length that DecodePack returns beside the response is the length of its argument.
unfoldable pub decode_pack : Bytes → Outcome Response
decode_pack packet = if ltb (length packet) min_data_size then err invalid_data else (do
  cl ← uint32_at packet 8 12
  if ltb (length packet) (min_data_size + cl) then err invalid_data else decode_content packet cl)
