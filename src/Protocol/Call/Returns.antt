-- ===== src/Protocol/Call/Returns.antt =====
-- A call from Client.Do to ClientRead (pkg/client/client.go), through the server and the worker.
use mathlib.Core.List.{append-nil}
use nmid.Prelude.{◌+◌, ◌≤◌, ◌≡◌, ◌≢◌, refl, sym, [], ◌∷◌, true, arith, length}
use nmid.Prelude.{ap, bytes_eq_refl, get_elem?, Option, some}
use nmid.Wire.{Bytes, IsUint32, ok}
use nmid.Table.{load}
use nmid.Model.Pdt
use nmid.Client.Request as client
use nmid.Client.Response as client_response
use nmid.Client.Request.Encode.{do_job_bytes}
use nmid.Server.Io.{Request}
use nmid.Server.Dispatch.{SWorker, Connect, Submitted}
use nmid.Server.Dispatch.{submit}
use nmid.Server.Dispatch.{submitted_job}
use nmid.Server.Dispatch.Channels.{queue}
use nmid.Server.Dispatch.Submit.{IsSubmitted, length_pos, submit-IsQueued}
use nmid.Server.Dispatch.Submit.{doing_job, work_packet, get_elem?-end}
use nmid.Server.Dispatch.Answer.{IsClient, IsResult, return_data-IsAnswered}
use nmid.Server.Dispatch.Answer.{ret_response}
use nmid.Worker.Request.Encode.{IsSized}
use nmid.Worker.Functions.Reply.{IsRun, job_request, do_function-written}
use nmid.Wire.Frame.{frame_bytes}
use nmid.Model.ConnType
use nmid.Server.Connect.Frame.{max_frame_size}
use nmid.Server.Session.{Session}
use nmid.Worker.Request as worker
use nmid.Worker.Response.{Response}
use nmid.Worker.Agent.{Agent}
use nmid.Worker.Functions.{Worker, Function}
use nmid.Protocol.JobRequest.{send_job_lem, read_frame-job}
use nmid.Protocol.JobResult as job_result
use nmid.Protocol.JobResult.{receive_result, send_result_lem, receive_result-send_result}
use nmid.Protocol.JobReply.{reply_response}
use nmid.Protocol.Call.{latest, last_packet, call, choice_of}
use nmid.Server.Dispatch.{no_worker, takes_job, goes_elsewhere}
use nmid.Server.Function as registry
use nmid.Server.Function.{Chance}
use nmid.Server.Function.Registry.{IsValid}
use nmid.Server.Function.View.{workers_of}
use nmid.Server.Function.Balance.{PicksFrom, In, any_live, Answers, best_loop-Answers}
use nmid.Prelude.{Bool, none, if◌then◌else◌, bytes_eq}
use nmid.Protocol.Call.Parts.{
  do_job_async-submit, asked_for, dispatched, receive_dispatch-work_packet, dispatched_fields,
  receive_result-frame_bytes, receive_reply-packet_bytes, handle_request-return_data,
}

-- A call that each part can carry out: a request with a name and parameters, from a client that is
-- connected, for a function that nothing waits for; a worker that is the only one with a connection
-- among those that the server's registry has for the function, and that has the function itself, which
-- returns `ret` for what the worker reads. Every packet fits into a frame.
pub record IsCall {M : Type 0} (msgpack json : Bytes → Option M) (chance : Chance)
    (live : Bytes → Bool) (job_id handle params : Bytes) (req : client.Request) (peer : Connect)
    (s : Session) (a : Agent) (w : Worker M) (function : Function M) (ret : Bytes) : Type 0 where
  pub types : IsUint32 req.params_type × IsUint32 req.params_handle_type
  pub named : handle ≢ []
  pub given : params ≢ []
  pub fits : 20 + length handle + length params + length ret + length job_id ≤ max_frame_size
  pub connected : IsClient peer
  pub law : PicksFrom chance
  pub valid : IsValid s.funcs
  pub served : any_live live (workers_of handle s.funcs) ≡ true
  pub only :
      (v : registry.SWorker)
      → In v (workers_of handle s.funcs)
      → live v.worker_id ≡ true
      → v.worker_id ≡ s.worker.worker_id
  pub idle : queue handle s.worker ≡ []
  pub on : a.conn ≡ true
  pub fresh : a.written ≡ []
  pub loaded : load handle w.funcs ≡ some function
  pub func_name : function.func_name ≡ handle
  pub result :
      function.func (dispatched msgpack json job_id (asked_for handle params req peer)) ≡ some ret

module _ {M : Type 0} (msgpack json : Bytes → Option M) (chance : Chance) (live : Bytes → Bool)
    (job_id handle params : Bytes) (req : client.Request) (peer : Connect) (s : Session) (a : Agent)
    (w : Worker M) (function : Function M) (ret : Bytes)
    (is : IsCall msgpack json chance live job_id handle params req peer s a w function ret) where
  abbrev asked_job : Submitted
  asked_job = asked_for handle params req peer

  abbrev job : Response M
  job = dispatched msgpack json job_id asked_job

  abbrev result_request : worker.Request
  result_request = job_request job a.req

  asked_job-IsSubmitted : IsSubmitted job_id asked_job
  asked_job-IsSubmitted = record {
    named = is.named;
    given = is.given;
    fits = omega (arith, is.fits);
  }

  result_request-IsSized : IsSized ret result_request
  result_request-IsSized =
      let (_, h, hl, p, pl, i, il) = dispatched_fields msgpack json job_id asked_job in
      record {
        handle = rw (h, hl) refl;
        params = rw (p, pl) refl;
        job_id = rw (i, il) refl;
        fits = rw (h, p, i) (omega (arith, is.fits));
      }

  job-IsRun : IsRun job w function ret
  job-IsRun =
      let (t, h, _, _, pl, _, _) = dispatched_fields msgpack json job_id asked_job in
      record {
        data_type = t;
        loaded = rw h is.loaded;
        named = rw h is.func_name;
        given = rw pl (λ e. omega (arith, length_pos params is.given, e));
        result = is.result;
      }

  result_request-IsResult : IsResult asked_job (job_result.received ret result_request)
  result_request-IsResult =
      let (_, h, _, p, _, _, _) = dispatched_fields msgpack json job_id asked_job in
      record {
        handle = h;
        handle_len = rw h refl;
        params_len = rw p refl;
        ret_len = refl;
        fits = omega (arith, is.fits);
      }

  chosen : choice_of chance live s handle ≡ takes_job
  unfolding choice_of
  chosen =
      let workers = workers_of handle s.funcs in
      let (b, ran, answer, _) =
        best_loop-Answers chance is.law live handle (length workers + 1) 0 s.funcs [] is.valid
          (omega arith) in
      rw (ran, choice_of) (go b.worker answer)
    where
      go :
          (o : Option registry.SWorker)
          → Answers live (workers_of handle s.funcs) o
          → (elim o [
            | none ↦ no_worker
            | some w ↦ if bytes_eq w.worker_id s.worker.worker_id then takes_job else goes_elsewhere
          ])
            ≡ takes_job
      go none nowhere = absurd (ground (arith, nowhere, is.served))
      go (some v) (alive, there) = rw (is.only v there alive, bytes_eq_refl s.worker.worker_id) refl

  broker_lem :
      (w' : SWorker) × (submit job_id asked_job s.worker ≡ ok w')
      × (last_packet w' ≡ work_packet (submitted_job job_id s.worker.worker_id asked_job))
      × (queue handle w' ≡ length s.worker.heap ∷ [])
      × (get_elem? w'.heap (length s.worker.heap)
          ≡ some (doing_job (submitted_job job_id s.worker.worker_id asked_job)))
      × (w'.worker_id ≡ s.worker.worker_id)
  broker_lem =
      let new = submitted_job job_id s.worker.worker_id asked_job in
      let (w', ran, q) =
        submit-IsQueued job_id asked_job s.worker asked_job-IsSubmitted
          (rw is.idle (omega arith)) in
      (
        w',
        ran,
        ap latest q.written,
        ground (arith, q.queued handle, bytes_eq_refl handle, is.idle),
        rw q.heap (get_elem?-end s.worker.heap (doing_job new)),
        q.worker_id,
      )

  -- A call that every part can carry out returns, if its worker is the only one with a connection that
  -- the server's registry has for the function: the reply that the client reads holds the result
  -- that the function gives for the parameters, with the call's handle and parameters.
  pub call-returns :
      (old : Request)
      → (reply : client_response.Response) × (call msgpack json chance live job_id handle params req
            old peer s a w
          ≡ ok reply)
        × (reply.ret ≡ ret)
        × (reply.handle ≡ handle)
        × (reply.params ≡ params)
  unfolding call
  call-returns old =
      let (frame, read, request) =
        read_frame-job handle params req old [] is.types (omega (arith, is.fits)) in
      let (w₁, submitted, dispatch, queued, there, mine) = broker_lem in
      let (t, h, hl, p, pl, i, il) = dispatched_fields msgpack json job_id asked_job in
      let (a', ran, written) =
        do_function-written job a w function ret job-IsRun is.on result_request-IsSized
          (rw (h, p, i) (omega (arith, is.fits))) in
      let new = submitted_job job_id s.worker.worker_id asked_job in
      let res = job_result.received ret result_request in
      let (w₂, answered, is_answered) =
        return_data-IsAnswered job_id asked_job res w₁ s.worker.worker_id (length s.worker.heap) []
          (sym mine) asked_job-IsSubmitted result_request-IsResult is.connected queued there in
      let reply =
        receive_reply-packet_bytes job_id s.worker.worker_id asked_job res asked_job-IsSubmitted
          result_request-IsResult is.connected (omega (arith, is.fits)) in
      (
        reply_response (ret_response new res),
        rw (send_job_lem handle params req old [] is.types (omega (arith, is.fits))) (
            rw
              (rw
                (append-nil
                  (frame_bytes ConnType.client Pdt.c_do_job (do_job_bytes req handle params)))
                at read)
              (rw
                (
                  request,
                  do_job_async-submit job_id handle params req old peer s.worker
                      (choice_of chance live s) chosen is.types (omega (arith, is.fits)) is.named
                      is.given,
                )
                (rw submitted (
                  rw
                    (
                      dispatch,
                      receive_dispatch-work_packet msgpack json job_id s.worker.worker_id asked_job
                          asked_job-IsSubmitted is.types (omega (arith, is.fits)),
                    )
                    (rw ran (
                      rw (written, is.fresh)
                        (rw
                          (receive_result-frame_bytes ret result_request result_request-IsSized
                            (rw (h, p, i) (omega (arith, is.fits))))
                          (rw
                            (handle_request-return_data ret result_request
                              (record s { worker = w₁ }) w₂ answered)
                            (rw (ap latest is_answered.written) (rw reply refl)))))))))),
        refl,
        refl,
        refl,
      )
