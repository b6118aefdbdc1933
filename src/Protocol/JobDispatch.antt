-- ===== src/Protocol/JobDispatch.antt =====
-- A job, from doWork (pkg/server/worker.go) to the agent's Work loop (pkg/worker/agent.go).
use nmid.Prelude.{◌≤◌, ◌≡◌, refl, Option, true, ◌++◌, arith, length}
use nmid.Wire.{Bytes, IsUint32, Outcome, ok, ◌>>=◌}
use nmid.Wire.Uint32.{sizes}
use nmid.Wire.Frame.{frame_bytes}
use nmid.Model.Pdt
use nmid.Model.ConnType
use nmid.Server.Io.{res_encode_pack}
use nmid.Server.Io as server
use nmid.Server.Io.Encode.{IsJobSized, job_size, get_data_bytes, res_encode_pack-get_data}
use nmid.Worker.Frame.{read_frame, max_frame_size, read_frame-frame_bytes}
use nmid.Worker.Response.{Response, decode_pack}
use nmid.Worker.Response.Decode.{job_response, framed, decode_get_data_lem, decode_pack-frame_bytes}

module _ {M : Type 0} (msgpack json : Bytes → Option M) where
  -- Agent.Work: the response that it reads.
  unfoldable pub receive_dispatch : Bytes → Outcome (Response M × Bytes)
  receive_dispatch stream = do
    taken ← read_frame true stream
    resp ← decode_pack msgpack json taken.0
    ok (resp, taken.1)

  module _ (res : server.Response) (rest : Bytes) (job : res.data_type ≡ Pdt.s_get_data)
      (sized : IsJobSized res) (types : IsUint32 res.params_type × IsUint32 res.params_handle_type)
      (fits : job_size res ≤ max_frame_size) where
    size : length (get_data_bytes res) ≡ job_size res
    size = omega sizes

    -- The worker reads from the stream the handle, the parameters, their types and the job id that
    -- the server sent, with the map that the parser for that type gives, and leaves what follows,
    -- if the length fields are the lengths and the content fits into a frame.
    pub receive_dispatch-res_encode_pack :
        (do packed ← res_encode_pack res; receive_dispatch (packed.0 ++ rest))
        ≡ ok (
          job_response msgpack json res.params_type res.params_handle_type res.handle res.params
              res.job_id
              (framed msgpack json Pdt.s_get_data (get_data_bytes res)),
          rest,
        )
    unfolding receive_dispatch
    receive_dispatch-res_encode_pack =
        let content = get_data_bytes res in
        rw (res_encode_pack-get_data res job sized) (
          rw
            (read_frame-frame_bytes Pdt.s_get_data content rest (omega arith) (omega (arith, size)))
            (rw
              (decode_pack-frame_bytes msgpack json ConnType.server Pdt.s_get_data content
                (omega arith) (omega (arith, size)))
              (rw
                (decode_get_data_lem msgpack json ConnType.server Pdt.s_get_data (length content)
                  res.params_type res.params_handle_type res.handle res.params res.job_id
                  (frame_bytes ConnType.server Pdt.s_get_data content)
                  (framed msgpack json Pdt.s_get_data content)
                  (rw (sized.handle, sized.params, sized.job_id)) types.0 types.1
                  (omega (arith, fits)))
                refl)))
