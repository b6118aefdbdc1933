-- ===== src/Protocol/JobRequest.antt =====
-- A job request, from Client.Do (pkg/client/client.go) to doJob (pkg/server/client.go).
use nmid.Prelude.{◌+◌, ◌≤◌, ◌≡◌, refl, sym, true, ◌++◌, arith, length, ◌%◌, ◌^◌}
use nmid.Wire.{Bytes, IsUint32, Outcome, ok, ◌>>=◌}
use nmid.Wire.Uint32.{sizes}
use nmid.Wire.Frame.{frame_bytes}
use nmid.Model.Pdt
use nmid.Model.ConnType
use nmid.Client.Request as sent
use nmid.Client.Request.{content_pack, encode_pack}
use nmid.Client.Request.Encode.{do_job_bytes, packed, content_pack_lem, encode_pack_lem}
use nmid.Server.Io.{Request, req_decode_pack}
use nmid.Server.Io.Decode.{decode_do_job_lem, req_decode_pack-do_job}
use nmid.Server.Connect.Frame.{Frame, read_frame, client_request, max_frame_size}
use nmid.Server.Connect.Frame.Accepts.{read_frame-frame_bytes}

-- Client.Do: the bytes that it writes for a job.
unfoldable pub send_job : Bytes → Bytes → sent.Request → Outcome Bytes
send_job handle params req = do
  packed_req ← content_pack Pdt.c_do_job handle params req
  encode_pack packed_req

-- DoIO and doJob: the request that they read, over the request of the last frame.
unfoldable pub receive_job : Request → Bytes → Outcome (Request × Bytes)
receive_job req stream = do
  taken ← read_frame true stream
  decoded ← req_decode_pack (client_request req taken.0)
  ok (decoded, taken.1)

-- What the server holds after it has read the job.
abbrev pub received : sent.Request → Bytes → Bytes → Request → Request
received req handle params old = record old {
  data_type = Pdt.c_do_job;
  data_len = 16 + length handle + length params;
  packet = do_job_bytes req handle params;
  params_type = req.params_type;
  params_handle_type = req.params_handle_type;
  handle_len = length handle;
  handle = handle;
  params_len = length params;
  params = params;
}

-- The request of a job's frame, before it is decoded.
abbrev pub framed : sent.Request → Bytes → Bytes → Request → Request
framed req handle params old = record old {
  data_type = Pdt.c_do_job;
  data_len = 16 + length handle + length params;
  packet = do_job_bytes req handle params;
}

module _ (handle params : Bytes) (req : sent.Request) (old : Request) (rest : Bytes)
    (types : IsUint32 req.params_type × IsUint32 req.params_handle_type)
    (fits : 16 + length handle + length params ≤ max_frame_size) where
  size : length (do_job_bytes req handle params) ≡ 16 + length handle + length params
  size = omega sizes

  pub send_job_lem :
      send_job handle params req
      ≡ ok (frame_bytes ConnType.client Pdt.c_do_job (do_job_bytes req handle params))
  unfolding send_job
  send_job_lem = rw (content_pack_lem Pdt.c_do_job handle params req (omega arith)) (
      encode_pack_lem (packed Pdt.c_do_job handle params req) (omega (arith, size))
        (omega (arith, size)))

  -- The frame that the server reads.
  pub read_frame-job :
      (frame : Frame) × (read_frame true
          (frame_bytes ConnType.client Pdt.c_do_job (do_job_bytes req handle params) ++ rest)
        ≡ ok (frame, rest))
      × (client_request old frame ≡ framed req handle params old)
  unfolding client_request
  read_frame-job =
      let content = do_job_bytes req handle params in
      let small : length content % 2 ^ 32 ≡ length content = omega (arith, size) in
      (
        _,
        read_frame-frame_bytes ConnType.client Pdt.c_do_job content rest (ground arith)
            (omega arith) (omega (arith, size)),
        rw (small, size) refl,
      )

  pub req_decode_pack-job :
      req_decode_pack (framed req handle params old) ≡ ok (received req handle params old)
  req_decode_pack-job =
      req_decode_pack-do_job (framed req handle params old) refl (sym size) (omega arith)
        (omega arith) (decode_do_job_lem _ _ _ handle params refl types (omega arith))

  -- The server reads from the stream the handle, the parameters and their types that the client
  -- sent, and leaves what follows, if the content fits into a frame.
  pub receive_job-send_job :
      (do sent_bytes ← send_job handle params req; receive_job old (sent_bytes ++ rest))
      ≡ ok (received req handle params old, rest)
  unfolding receive_job
  receive_job-send_job =
      let (frame, read, request) = read_frame-job in
      rw send_job_lem (rw read (rw request (rw req_decode_pack-job refl)))
