-- ===== src/Protocol/Call.antt =====
-- A call from its first byte to its last: Client.Do (pkg/client/client.go), doJobAsync and doWork
-- (pkg/server/optimize.go, worker.go), DoFunction (pkg/worker/worker.go), RunWorkerOptimized and
-- returnData (pkg/server/optimize.go, worker.go), and ClientRead (pkg/client/client.go).
pub mod Parts
pub mod Returns
mod Samples
use mathlib.Core.List.{append-nil}
use nmid.Prelude.{◌+◌, ◌≤◌, ◌≡◌, ◌≢◌, refl, sym, [], ◌∷◌, true, arith, length, List}
use nmid.Prelude.{ap, bytes_eq_refl, get_elem?, Option, some}
use nmid.Wire.{Bytes, IsUint32, Outcome, ok, ◌>>=◌}
use nmid.Table.{load}
use nmid.Model.Pdt
use nmid.Client.Request as client
use nmid.Client.Response as client_response
use nmid.Client.Request.Encode.{do_job_bytes}
use nmid.Server.Io.{Request}
use nmid.Server.Dispatch.{SWorker, Connect, Written, to_worker, to_client, http_tag, Submitted}
use nmid.Server.Dispatch.{submit, do_job_async}
use nmid.Server.Dispatch.{Choice, no_worker, takes_job, goes_elsewhere}
use nmid.Server.Function.{Chance, best_loop}
use nmid.Server.Function.View.{workers_of}
use nmid.Prelude.{none, Bool, if◌then◌else◌, bytes_eq}
use nmid.Wire.{panics, err}
use nmid.Server.Dispatch.{submitted_job, return_data, job_response}
use nmid.Server.Dispatch.Channels.{queue}
use nmid.Server.Dispatch.Submit.{IsSubmitted, has_name_of, length_pos, submit-IsQueued}
use nmid.Server.Dispatch.Submit.{job_response-IsJobSized, doing_job, work_packet, get_elem?-end}
use nmid.Server.Dispatch.Answer.{IsClient, IsResult, return_data-IsAnswered}
use nmid.Server.Dispatch.Answer.{ret_response, ret_response-IsRetSized}
use nmid.Server.Io.Encode.{get_data_bytes, return_data_bytes, res_encode_pack-get_data}
use nmid.Server.Io.Encode.{res_encode_pack-return_data, packet_bytes}
use nmid.Worker.Response.Decode as worker_decode
use nmid.Worker.Request.Encode.{IsSized, ret_bytes}
use nmid.Worker.Functions.Reply.{IsRun, job_request, do_function-written}
use nmid.Wire.Frame.{frame_bytes}
use nmid.Model.ConnType
use nmid.Server.Connect.Frame.{read_frame, client_request, max_frame_size}
use nmid.Server.Session.{Session, handle_request, give_result}
use nmid.Worker.Request as worker
use nmid.Worker.Response.{Response}
use nmid.Worker.Agent.{Agent}
use nmid.Worker.Functions.{Worker, Function, do_function}
use nmid.Protocol.JobRequest.{send_job, framed, req_decode_pack-job}
use nmid.Protocol.JobRequest.{send_job_lem, read_frame-job}
use nmid.Protocol.JobDispatch.{receive_dispatch, receive_dispatch-res_encode_pack}
use nmid.Protocol.JobResult as job_result
use nmid.Protocol.JobResult.{receive_result, send_result_lem, receive_result-send_result}
use nmid.Protocol.JobReply.{receive_reply, reply_response, receive_reply-res_encode_pack}

-- The last packet that was written.
abbrev pub latest : List Written → Bytes
latest [] = []
latest (to_worker packet ∷ earlier) = packet
latest (to_client client packet ∷ earlier) = packet
latest (http_tag job ∷ earlier) = []

abbrev pub last_packet : SWorker → Bytes
last_packet w = latest w.written

-- What GetBestWorker of the server's registry gives, for this session's worker; the pool takes the
-- closure of doJobAsync. One round more than the function has workers is enough for its loop. The
-- workers without a connection that it takes out of the registry are not followed further.
unfoldable pub choice_of : Chance → (Bytes → Bool) → Session → Bytes → Choice
choice_of chance live s handle =
    elim (best_loop chance live handle (length (workers_of handle s.funcs) + 1) 0 s.funcs []) [
      | none ↦ no_worker
      | some panics ↦ no_worker
      | some (err e) ↦ no_worker
      | some (ok best) ↦ elim best.worker [
        | none ↦ no_worker
        | some w ↦ if bytes_eq w.worker_id s.worker.worker_id then takes_job else goes_elsewhere
      ]
    ]

module _ {M : Type 0} (msgpack json : Bytes → Option M) (chance : Chance)
    (live : Bytes → Bool) where
  -- The parts of a call in their order, each on the bytes that the one before it wrote.
  unfoldable pub call :
      Bytes
      → Bytes
      → Bytes
      → client.Request
      → Request
      → Connect
      → Session
      → Agent
      → Worker M
      → Outcome client_response.Response
  call job_id handle params req old peer s a w = do
    asked ← send_job handle params req
    taken ← read_frame true asked
    broker ←
        do_job_async job_id (choice_of chance live s) (client_request old taken.0) peer s.worker
    job ← receive_dispatch msgpack json (last_packet broker)
    agent ← do_function job.0 a w
    result ← receive_result agent.written
    s' ← handle_request result.0 (record s { worker = broker })
    reply ← receive_reply (last_packet s'.worker)
    ok reply.0
