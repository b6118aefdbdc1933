-- ===== src/Protocol/JobResult.antt =====
-- A job's result, from DoFunction (pkg/worker/worker.go) to RunWorker and RunWorkerOptimized
-- (pkg/server/worker.go, pkg/server/optimize.go).
use nmid.Prelude.{ℕ, ◌+◌, ◌≤◌, ◌≡◌, refl, sym, true, ◌++◌, arith, length, ◌%◌, ◌^◌}
use nmid.Wire.{Bytes, Outcome, ok, ◌>>=◌}
use nmid.Wire.Uint32.{sizes}
use nmid.Wire.Frame.{frame_bytes}
use nmid.Model.Pdt
use nmid.Model.ConnType
use nmid.Worker.Request as sent
use nmid.Worker.Request.{ret_pack, encode_pack}
use nmid.Worker.Request.Encode.{IsSized, ret_bytes, packed, ret_pack_lem, encode_pack_lem}
use nmid.Server.Io.{Request, new_req, req_decode_pack}
use nmid.Server.Io.Decode.{decode_return_data_lem, req_decode_pack-return_data}
use nmid.Server.Connect.Frame.{read_frame, worker_request, max_frame_size}
use nmid.Server.Connect.Frame.Accepts.{read_frame-frame_bytes}

-- DoFunction: the bytes that the agent writes for a result.
unfoldable pub send_result : Bytes → sent.Request → Outcome Bytes
send_result ret req = do packed_req ← ret_pack ret req; encode_pack packed_req

-- DoIO and RunWorker: the request that they read.
unfoldable pub receive_result : Bytes → Outcome (Request × Bytes)
receive_result stream = do
  taken ← read_frame true stream
  decoded ← req_decode_pack (worker_request taken.0)
  ok (decoded, taken.1)

abbrev pub total : Bytes → sent.Request → ℕ
total ret req = 16 + length req.handle + length req.params + length ret + length req.job_id

-- What the server holds after it has read the result.
abbrev pub received : Bytes → sent.Request → Request
received ret req = record new_req {
  data_type = Pdt.w_return_data;
  data_len = total ret req;
  packet = ret_bytes ret req;
  handle_len = length req.handle;
  handle = req.handle;
  params_len = length req.params;
  params = req.params;
  ret_len = length ret;
  ret = ret;
  job_id_len = length req.job_id;
  job_id = req.job_id;
}

module _ (ret : Bytes) (req : sent.Request) (rest : Bytes) (sized : IsSized ret req)
    (fits : total ret req ≤ max_frame_size) where
  size : length (ret_bytes ret req) ≡ total ret req
  size = omega sizes

  pub send_result_lem :
      send_result ret req ≡ ok (frame_bytes ConnType.worker Pdt.w_return_data (ret_bytes ret req))
  unfolding send_result
  send_result_lem =
      rw (ret_pack_lem ret req sized)
        (encode_pack_lem (packed ret req) (omega (arith, size)) (omega (arith, size)))

  -- The server reads from the stream the handle, the parameters, the result and the job id that
  -- the worker sent, and leaves what follows, if the length fields are the lengths and the content
  -- fits into a frame.
  pub receive_result-send_result :
      (do sent_bytes ← send_result ret req; receive_result (sent_bytes ++ rest))
      ≡ ok (received ret req, rest)
  unfolding receive_result worker_request
  receive_result-send_result =
      let content = ret_bytes ret req in
      let framed : Request = record new_req {
        data_type = Pdt.w_return_data;
        data_len = total ret req;
        packet = content;
      } in
      let small : length content % 2 ^ 32 ≡ length content = omega (arith, size) in
      rw send_result_lem (
        rw
          (read_frame-frame_bytes ConnType.worker Pdt.w_return_data content rest (ground arith)
            (omega arith) (omega (arith, size)))
          (rw (small, size)
            (rw
              (req_decode_pack-return_data framed refl (sym size) (omega arith) (omega arith) (
                decode_return_data_lem framed req.handle req.params ret req.job_id
                  (rw (sized.handle, sized.params, sized.job_id)) (omega arith)))
              refl)))
