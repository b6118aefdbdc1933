-- ===== src/Worker/Response.antt =====
-- pkg/worker/response.go: what a worker reads from the server. Left out of the record are the
-- fields for tracing and for the agent, which DecodePack does not touch.
-- The parsers of parameters are libraries' (msgpack and JSON): they are arguments, from the bytes
-- to the map, with none for the nil that utils gives where the parser refuses.
pub mod Decode
use nmid.Prelude.{ℕ, ◌+◌, ◌==◌, ltb, if◌then◌else◌, not, [], length, Option, none}
use nmid.Wire.{Bytes, Outcome, ok, err, invalid_data, ◌>>=◌, to_uint32, slice, uint32_at}
use nmid.Model.{min_data_size, params_type_msgpack, params_type_json}
use nmid.Model.Pdt

pub record Response (M : Type 0) : Type 0 where
  pub data_type : ℕ
  pub packet : Bytes
  pub data_len : ℕ
  pub handle : Bytes
  pub handle_len : ℕ
  pub params_type : ℕ
  pub params_handle_type : ℕ
  pub params_len : ℕ
  pub params : Bytes
  pub params_map : Option M
  pub job_id : Bytes
  pub job_id_len : ℕ
  pub ret : Bytes
  pub ret_len : ℕ

abbrev pub new_res : (M : Type 0) → Response M
new_res M = record {
  data_type = 0;
  packet = [];
  data_len = 0;
  handle = [];
  handle_len = 0;
  params_type = params_type_msgpack;
  params_handle_type = 0;
  params_len = 0;
  params = [];
  params_map = none;
  job_id = [];
  job_id_len = 0;
  ret = [];
  ret_len = 0;
}

module _ {M : Type 0} (msgpack json : Bytes → Option M) where
  unfoldable pub parse_params : Bytes → Response M → Response M
  parse_params params resp =
      if resp.params_type == params_type_msgpack
      then record resp { params = params; params_map = msgpack params }
      else if resp.params_type == params_type_json
      then record resp { params = params; params_map = json params }
      else record resp { params = params }

  -- The part of DecodePack for PDT_S_GET_DATA.
  unfoldable pub decode_get_data : Bytes → Response M → Outcome (Response M)
  decode_get_data packet resp = do
    params_type ← uint32_at packet 12 16
    params_handle_type ← uint32_at packet 16 20
    handle_len ← uint32_at packet 20 24
    params_len ← uint32_at packet 24 28
    job_id_len ← uint32_at packet 28 32
    let handle_end = 32 + handle_len
    handle ← slice packet 32 handle_end
    let params_end = handle_end + params_len
    params ← slice packet handle_end params_end
    job_id ← slice packet params_end (params_end + job_id_len)
    let parsed = parse_params params (record resp {
      params_type = params_type;
      params_handle_type = params_handle_type;
      handle_len = handle_len;
      params_len = params_len;
      job_id_len = job_id_len;
      handle = handle;
    })
    ok (record parsed { job_id = job_id })

  -- DecodePack behind its check of the frame's length.
  unfoldable pub decode_content : Bytes → ℕ → Outcome (Response M)
  decode_content packet cl = do
    content ← slice packet min_data_size (min_data_size + cl)
    data_type ← uint32_at packet 4 8
    let resp = record (new_res M) {
      data_type = data_type;
      data_len = to_uint32 cl;
      packet = content;
    }
    if not (length content == cl)
        then err invalid_data
        else if data_type == Pdt.s_get_data
        then decode_get_data packet resp
        else ok resp

  -- The length that DecodePack returns beside the response is the length of its argument.
  unfoldable pub decode_pack : Bytes → Outcome (Response M)
  decode_pack packet = if ltb (length packet) min_data_size then err invalid_data else (do
    cl ← uint32_at packet 8 12
    if ltb (length packet) (min_data_size + cl) then err invalid_data else decode_content packet cl)
