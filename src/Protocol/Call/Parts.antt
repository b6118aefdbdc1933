-- ===== src/Protocol/Call/Parts.antt =====
-- The parts of a call (pkg/client/client.go, pkg/server, pkg/worker/worker.go), each on the bytes
-- that the one before it wrote.
use mathlib.Core.List.{append-nil}
use nmid.Prelude.{◌+◌, ◌≤◌, ◌≡◌, ◌≢◌, refl, [], arith, length}
use nmid.Prelude.{Option}
use nmid.Wire.{Bytes, IsUint32, ok}
use nmid.Model.Pdt
use nmid.Client.Request as client
use nmid.Server.Io.{Request}
use nmid.Server.Dispatch.{SWorker, Connect, Submitted}
use nmid.Server.Dispatch.{submit, do_job_async, Choice, takes_job}
use nmid.Server.Dispatch.{submitted_job, return_data, job_response}
use nmid.Server.Dispatch.Submit.{IsSubmitted, has_name_of, length_pos}
use nmid.Server.Dispatch.Submit.{job_response-IsJobSized, work_packet}
use nmid.Server.Dispatch.Answer.{IsClient, IsResult}
use nmid.Server.Dispatch.Answer.{ret_response, ret_response-IsRetSized}
use nmid.Server.Io.Encode.{get_data_bytes, return_data_bytes, res_encode_pack-get_data}
use nmid.Server.Io.Encode.{res_encode_pack-return_data, packet_bytes}
use nmid.Worker.Response.Decode as worker_decode
use nmid.Worker.Request.Encode.{IsSized, ret_bytes}
use nmid.Wire.Frame.{frame_bytes}
use nmid.Model.ConnType
use nmid.Server.Connect.Frame.{max_frame_size}
use nmid.Server.Session.{Session, handle_request, give_result}
use nmid.Worker.Request as worker
use nmid.Worker.Response.{Response}
use nmid.Protocol.JobRequest.{framed, req_decode_pack-job}
use nmid.Protocol.JobDispatch.{receive_dispatch, receive_dispatch-res_encode_pack}
use nmid.Protocol.JobResult as job_result
use nmid.Protocol.JobResult.{receive_result, send_result_lem, receive_result-send_result}
use nmid.Protocol.JobReply.{receive_reply, reply_response, receive_reply-res_encode_pack}

-- What the request of a job gives the server.
abbrev pub asked_for : Bytes → Bytes → client.Request → Connect → Submitted
asked_for handle params req peer = record {
  handle = handle;
  params = params;
  params_type = req.params_type;
  params_handle_type = req.params_handle_type;
  client = peer;
}

-- doJobAsync of a job that the client has packed.
pub do_job_async-submit :
    (job_id handle params : Bytes) (req : client.Request) (old : Request) (peer : Connect)
    (w : SWorker) (choose : Bytes → Choice)
    → choose handle ≡ takes_job
    → IsUint32 req.params_type × IsUint32 req.params_handle_type
    → 16 + length handle + length params ≤ max_frame_size
    → handle ≢ []
    → params ≢ []
    → do_job_async job_id choose (framed req handle params old) peer w
      ≡ submit job_id (asked_for handle params req peer) w
unfolding do_job_async
do_job_async-submit job_id handle params req old peer w choose takes types fits named given =
    rw (req_decode_pack-job handle params req old [] types fits) (
      ground
        (arith, takes, has_name_of handle named, length_pos handle named, length_pos params given))

-- The worker's end: the packet of a job, as the broker wrote it, and the response that it gives.
module _ {M : Type 0} (msgpack json : Bytes → Option M) where
  abbrev pub dispatched : Bytes → Submitted → Response M
  dispatched job_id s =
      worker_decode.job_response msgpack json s.params_type s.params_handle_type s.handle s.params
        job_id
        (worker_decode.framed msgpack json Pdt.s_get_data
          (get_data_bytes (job_response (submitted_job job_id [] s))))

  pub receive_dispatch-work_packet :
      (job_id worker_id : Bytes) (s : Submitted)
      → IsSubmitted job_id s
      → IsUint32 s.params_type × IsUint32 s.params_handle_type
      → 20 + length s.handle + length s.params + length job_id ≤ max_frame_size
      → receive_dispatch msgpack json (work_packet (submitted_job job_id worker_id s))
        ≡ ok (dispatched job_id s, [])
  receive_dispatch-work_packet job_id worker_id s taken types fits =
      let res = job_response (submitted_job job_id worker_id s) in
      let sized = job_response-IsJobSized job_id s taken worker_id in
      rw
        (
          res_encode_pack-get_data res refl sized,
          append-nil (packet_bytes Pdt.s_get_data (get_data_bytes res)),
        )
        at
        (receive_dispatch-res_encode_pack msgpack json res [] refl sized types
          (omega (arith, fits)))

  -- The parsers do not change the rest of the response.
  pub dispatched_fields :
      (job_id : Bytes) (s : Submitted)
      → let job = dispatched job_id s in
        (job.data_type ≡ Pdt.s_get_data)
        × (job.handle ≡ s.handle)
        × (job.handle_len ≡ length s.handle)
        × (job.params ≡ s.params)
        × (job.params_len ≡ length s.params)
        × (job.job_id ≡ job_id)
        × (job.job_id_len ≡ length job_id)
  dispatched_fields job_id s = ground arith

pub receive_result-frame_bytes :
    (ret : Bytes) (req : worker.Request)
    → IsSized ret req
    → job_result.total ret req ≤ max_frame_size
    → receive_result (frame_bytes ConnType.worker Pdt.w_return_data (ret_bytes ret req))
      ≡ ok (job_result.received ret req, [])
receive_result-frame_bytes ret req sized fits =
    rw
      (
        send_result_lem ret req [] sized fits,
        append-nil (frame_bytes ConnType.worker Pdt.w_return_data (ret_bytes ret req)),
      )
      at (receive_result-send_result ret req [] sized fits)

pub receive_reply-packet_bytes :
    (job_id worker_id : Bytes) (s : Submitted) (req : Request)
    → IsSubmitted job_id s
    → IsResult s req
    → IsClient s.client
    → 12 + length s.handle + length s.params + length req.ret ≤ max_frame_size
    → let res = ret_response (submitted_job job_id worker_id s) req in
      receive_reply (packet_bytes Pdt.s_return_data (return_data_bytes res))
      ≡ ok (reply_response res, [])
receive_reply-packet_bytes job_id worker_id s req taken result peer fits =
    let res = ret_response (submitted_job job_id worker_id s) req in
    let sized = ret_response-IsRetSized job_id s taken req result peer worker_id in
    rw
      (
        res_encode_pack-return_data res refl sized,
        append-nil (packet_bytes Pdt.s_return_data (return_data_bytes res)),
      )
      at (receive_reply-res_encode_pack res [] refl sized (omega (arith, fits)))

pub handle_request-return_data :
    (ret : Bytes) (req : worker.Request) (s : Session) (w' : SWorker)
    → return_data (job_result.received ret req) s.worker ≡ ok w'
    → handle_request (job_result.received ret req) s ≡ ok (record s { worker = w' })
unfolding handle_request give_result
handle_request-return_data ret req s w' ran = rw ran refl
