-- ===== src/Protocol/Samples.antt =====
-- The round trips of the protocol at small packets.
use nmid.Prelude.{◌≡◌, refl, Option, none, some, [], ◌∷◌, ◌++◌, arith}
use nmid.Wire.{Bytes, ok, ◌>>=◌}
use nmid.Model.Pdt
use nmid.Model.ConnType
use nmid.Server.Io as server
use nmid.Server.Io.{res_encode_pack}
use nmid.Server.Io.Encode.{get_data_bytes}
use nmid.Server.Connect.Frame.{Frame}
use nmid.Server.Connect.Frame.Accepts.{Took, read_frame_sound, read_frame-frame_bytes}
use nmid.Wire.Frame.{frame_bytes}
use nmid.Client.Request as client_request
use nmid.Worker.Request as worker_request
use nmid.Worker.Response.Decode.{job_response, framed}
use nmid.Protocol.JobRequest as job_request
use nmid.Protocol.JobRequest.{send_job, receive_job, receive_job-send_job}
use nmid.Protocol.JobResult as job_result
use nmid.Protocol.JobResult.{send_result, receive_result, receive_result-send_result}
use nmid.Protocol.JobDispatch.{receive_dispatch, receive_dispatch-res_encode_pack}
use nmid.Protocol.JobReply.{receive_reply, reply_response, receive_reply-res_encode_pack}

abbrev echo : Bytes
echo = b'e' ∷ b'c' ∷ b'h' ∷ b'o' ∷ []

abbrev hi : Bytes
hi = b'h' ∷ b'i' ∷ []

abbrev next : Bytes
next = 0 ∷ 1 ∷ []

receive_job-send_job_example :
    (do
      sent_bytes ← send_job echo hi client_request.new_req
      receive_job server.new_req (sent_bytes ++ next))
    ≡ ok (job_request.received client_request.new_req echo hi server.new_req, next)
receive_job-send_job_example =
    receive_job-send_job echo hi client_request.new_req server.new_req next (omega arith)
      (omega arith)

-- What DoFunction copies from the job.
abbrev job : worker_request.Request
job = record worker_request.new_req {
  handle = echo;
  handle_len = 4;
  params = hi;
  params_len = 2;
  job_id = b'7' ∷ [];
  job_id_len = 1;
}

receive_result-send_result_example :
    (do sent_bytes ← send_result hi job; receive_result (sent_bytes ++ next))
    ≡ ok (job_result.received hi job, next)
receive_result-send_result_example =
    receive_result-send_result hi job next (omega arith) (omega arith)

abbrev dispatch : server.Response
dispatch = record server.new_res {
  data_type = Pdt.s_get_data;
  handle = echo;
  handle_len = 4;
  params_type = 5;
  params_handle_type = 10;
  params = hi;
  params_len = 2;
  job_id = b'7' ∷ [];
  job_id_len = 1;
}

-- A parser that takes any bytes for a map, and one that refuses.
abbrev takes_all : Bytes → Option Bytes
takes_all params = some params

abbrev refuses : Bytes → Option Bytes
refuses params = none

receive_dispatch-res_encode_pack_example :
    (do packed ← res_encode_pack dispatch; receive_dispatch takes_all refuses (packed.0 ++ next))
    ≡ ok (
      job_response takes_all refuses 5 10 echo hi
          (b'7' ∷ [])
          (framed takes_all refuses Pdt.s_get_data (get_data_bytes dispatch)),
      next,
    )
receive_dispatch-res_encode_pack_example =
    receive_dispatch-res_encode_pack takes_all refuses dispatch next refl (omega arith)
      (omega arith) (omega arith)

abbrev reply : server.Response
reply = record server.new_res {
  data_type = Pdt.s_return_data;
  handle = echo;
  handle_len = 4;
  params = hi;
  params_len = 2;
  ret = hi;
  ret_len = 2;
}

receive_reply-res_encode_pack_example :
    (do packed ← res_encode_pack reply; receive_reply (packed.0 ++ next))
    ≡ ok (reply_response reply, next)
receive_reply-res_encode_pack_example =
    receive_reply-res_encode_pack reply next refl (omega arith) (omega arith)

abbrev refusal : server.Response
refusal = record server.new_res { data_type = Pdt.cant_do }

abbrev ping : Frame
ping = record { conn_type = ConnType.worker; data_type = Pdt.w_heartbeat_ping; payload = hi }

read_frame_sound_example :
    Took (frame_bytes ConnType.worker Pdt.w_heartbeat_ping hi ++ next) ping next
read_frame_sound_example =
    read_frame_sound (frame_bytes ConnType.worker Pdt.w_heartbeat_ping hi ++ next) next ping (
      read_frame-frame_bytes ConnType.worker Pdt.w_heartbeat_ping hi next (omega arith)
        (omega arith) (omega arith))
