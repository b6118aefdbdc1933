-- ===== src/Protocol/JobReply.antt =====
-- A job's result, from returnData (pkg/server/worker.go) to ClientRead (pkg/client/client.go).
use nmid.Prelude.{ℕ, ◌≤◌, ◌<◌, ◌≡◌, ◌≢◌, refl, true, [], ◌++◌, arith, length, ◌^◌}
use nmid.Wire.{Bytes, Outcome, ok, ◌>>=◌}
use nmid.Wire.Uint32.{sizes}
use nmid.Wire.Frame.{frame_bytes}
use nmid.Model.Pdt
use nmid.Model.ConnType
use nmid.Server.Io as server
use nmid.Server.Io.{res_encode_pack, get_res_content}
use nmid.Server.Io.Encode.{
  IsRetSized, ret_size, return_data_bytes, res_encode_pack-return_data, res_encode_pack-empty,
}
use nmid.Client.Frame.{read_frame, max_frame_size, read_frame-frame_bytes}
use nmid.Client.Response.{Response, decode_pack}
use nmid.Client.Response.Decode.{framed, decode_return_data_lem, decode_pack-frame_bytes}

-- ClientRead: the response that it reads.
unfoldable pub receive_reply : Bytes → Outcome (Response × Bytes)
receive_reply stream = do
  taken ← read_frame true stream
  resp ← decode_pack taken.0
  ok (resp, taken.1)

-- The response that holds exactly what the server sent.
abbrev pub reply_response : server.Response → Response
reply_response res = record (framed Pdt.s_return_data (return_data_bytes res)) {
  handle_len = length res.handle;
  params_len = length res.params;
  ret_len = length res.ret;
  handle = res.handle;
  params = res.params;
  ret = res.ret;
}

module _ (res : server.Response) (rest : Bytes) (reply : res.data_type ≡ Pdt.s_return_data)
    (sized : IsRetSized res) (fits : ret_size res ≤ max_frame_size) where
  size : length (return_data_bytes res) ≡ ret_size res
  size = omega sizes

  -- The client reads from the stream the handle, the parameters and the result that the server
  -- sent, and leaves what follows, if the length fields are the lengths and the content fits into a
  -- frame.
  pub receive_reply-res_encode_pack :
      (do packed ← res_encode_pack res; receive_reply (packed.0 ++ rest))
      ≡ ok (reply_response res, rest)
  unfolding receive_reply
  receive_reply-res_encode_pack =
      let content = return_data_bytes res in
      rw (res_encode_pack-return_data res reply sized) (
        rw
          (read_frame-frame_bytes Pdt.s_return_data content rest (omega arith)
            (omega (arith, size)))
          (rw
            (decode_pack-frame_bytes ConnType.server Pdt.s_return_data content (omega arith)
              (omega (arith, size)))
            (rw
              (decode_return_data_lem ConnType.server Pdt.s_return_data (length content) res.handle
                res.params res.ret (frame_bytes ConnType.server Pdt.s_return_data content)
                (framed Pdt.s_return_data content) (rw (sized.handle, sized.params, sized.ret))
                (omega (arith, fits)))
              refl)))

-- The packet types of the answers that carry no content.
abbrev pub IsPlain : ℕ → Type 0
IsPlain t = (t < 2 ^ 32) × (t ≢ Pdt.s_get_data) × (t ≢ Pdt.s_return_data)

plain_content : (res : server.Response) → IsPlain res.data_type → get_res_content res ≡ ok ([], 0)
unfolding get_res_content
plain_content res h = ground arith

-- An answer of any other type is a bare header: the client reads a response with that type and no
-- content, and leaves what follows.
pub receive_reply-plain :
    (res : server.Response) (rest : Bytes)
    → IsPlain res.data_type
    → (do packed ← res_encode_pack res; receive_reply (packed.0 ++ rest))
      ≡ ok (framed res.data_type [], rest)
unfolding receive_reply
receive_reply-plain res rest h = rw (res_encode_pack-empty res (plain_content res h)) (
    rw (read_frame-frame_bytes res.data_type [] rest h.0 (omega arith)) (
      rw (decode_pack-frame_bytes ConnType.server res.data_type [] h.0 (omega arith))
        (ground arith)))
