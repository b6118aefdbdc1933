-- ===== src/Server/Dispatch/Answer.antt =====
-- returnData of pkg/server/worker.go: what a result does to the oldest job of its function.
use nmid.Prelude.{ℕ, ◌+◌, ◌<◌, ◌^◌, ◌%◌, ◌≡◌, ◌≢◌, refl, [], ◌∷◌, true, List}
use nmid.Prelude.{length, if◌then◌else◌, get_elem?, set, some}
use nmid.Prelude.{arith, bytes_eq, bytes_eq_refl, bytes_eq_iff, sym, ◌∙◌, ◌==◌, ◌&&◌, not}
use native.Mathlib.Nat.{mod-eq_of_lt}
use nmid.Wire.{Bytes, ok, ◌>>=◌}
use nmid.Model.Pdt
use nmid.Model.JobStatus
use nmid.Model.ConnType
use nmid.Server.Io.{Request, Response}
use nmid.Server.Io.Encode.{IsRetSized, return_data_bytes, job_size}
use nmid.Server.Io.Encode.{packet_bytes, sent, res_encode_pack-return_data}
use nmid.Server.Dispatch.{SWorker, JobData, Connect, to_worker, to_client, Submitted}
use nmid.Server.Dispatch.{has_name, submitted_job, job_response}
use nmid.Server.Dispatch.{submit, answer_client, matches, finish_job, return_data}
use nmid.Server.Dispatch.{pop_job_from_channel}
use nmid.Server.Dispatch.Channels.{queue, queue_of_channels}
use nmid.Server.Dispatch.Channels.{pop_job_from_channel_front, pop_job_from_channel_rest}
use nmid.Server.Dispatch.Submit.{work_packet, doing_job, IsSubmitted, submit-IsQueued}
use nmid.Server.Dispatch.Submit.{has_name_of, length_pos, get_elem?-end}

-- The response that carries a result to the client.
abbrev pub ret_response : JobData → Request → Response
ret_response job req =
    record (sent (job_size (job_response job)) (work_packet job) (job_response job)) {
      data_type = Pdt.s_return_data;
      ret = req.ret;
      ret_len = req.ret_len;
    }

abbrev pub done_job : JobData → Request → JobData
done_job job req = record (doing_job job) { ret_data = req.ret; status = JobStatus.done }

-- A worker's result for a job: it names the job's function and repeats the length of its
-- parameters, its length fields are the lengths, and the answer's length is a uint32.
pub record IsResult (s : Submitted) (req : Request) : Type 0 where
  pub handle : req.handle ≡ s.handle
  pub handle_len : req.handle_len ≡ length s.handle
  pub params_len : req.params_len ≡ length s.params
  pub ret_len : req.ret_len ≡ length req.ret
  pub fits : 24 + length s.handle + length s.params + length req.ret < 2 ^ 32

-- A client that is connected as one.
pub record IsClient (client : Connect) : Type 0 where
  pub id : client.id ≢ []
  pub conn_type : client.conn_type ≡ ConnType.client

module _ (job_id : Bytes) (s : Submitted) (taken : IsSubmitted job_id s) (req : Request)
    (result : IsResult s req) (peer : IsClient s.client) (worker_id : Bytes) where
  pub ret_response-IsRetSized : IsRetSized (ret_response (submitted_job job_id worker_id s) req)
  ret_response-IsRetSized = record {
    handle = mod-eq_of_lt (omega (arith, taken.fits));
    params = mod-eq_of_lt (omega (arith, taken.fits));
    ret = result.ret_len;
    fits = omega (arith, result.fits);
  }

  answer_client-doing :
      (p : ℕ) (w : SWorker)
      → let job = submitted_job job_id worker_id s in
        answer_client req p
          (doing_job job)
          (sent (job_size (job_response job)) (work_packet job) (job_response job))
          w
        ≡ ok (record w {
          heap = set w.heap p (done_job job req);
          written =
              to_client s.client
                (packet_bytes Pdt.s_return_data (return_data_bytes (ret_response job req)))
              ∷ w.written;
        })
  unfolding answer_client
  answer_client-doing p w =
      let job = submitted_job job_id worker_id s in
      let encoded =
        res_encode_pack-return_data (ret_response job req) refl ret_response-IsRetSized in
      let some_params = length_pos s.params taken.given in
      let guard : has_name s.client.id && (has_name s.handle && not (length s.params == 0)) ≡ true =
        ground
          (arith, has_name_of s.client.id peer.id, has_name_of s.handle taken.named, some_params) in
      let is_client : (s.client.conn_type == ConnType.client) ≡ true =
        ground (arith, peer.conn_type) in
      rw (guard, answer_client) (rw is_client (rw encoded refl))

  finish_job-doing :
      (p : ℕ) (w : SWorker)
      → worker_id ≡ w.worker_id
      → let job = submitted_job job_id worker_id s in
        finish_job req p (doing_job job) w
        ≡ answer_client req p
            (doing_job job)
            (sent (job_size (job_response job)) (work_packet job) (job_response job))
            w
  unfolding finish_job matches
  finish_job-doing p w mine =
      let h : length s.handle % 2 ^ 32 ≡ length s.handle =
        mod-eq_of_lt (omega (arith, taken.fits)) in
      let k : length s.params % 2 ^ 32 ≡ length s.params =
        mod-eq_of_lt (omega (arith, taken.fits)) in
      ground (
        arith,
        h,
        k,
        result.handle,
        result.handle_len,
        result.params_len,
        bytes_eq_iff worker_id w.worker_id,
        bytes_eq_iff s.handle req.handle,
      )

-- What a result does to the worker: its packet goes to that client, the job is done, and it leaves
-- the front of its function's channel.
pub record IsAnswered (p : ℕ) (rest : List ℕ) (job : JobData) (client : Connect) (req : Request)
    (w w' : SWorker) : Type 0 where
  pub heap : w'.heap ≡ set w.heap p (done_job job req)
  pub written :
      w'.written
      ≡ to_client client (packet_bytes Pdt.s_return_data (return_data_bytes (ret_response job req)))
        ∷ w.written
  pub worker_id : w'.worker_id ≡ w.worker_id
  pub queued : (j : Bytes) → queue j w' ≡ (if bytes_eq req.handle j then rest else queue j w)

-- A result is answered to the client of the oldest job that waits for its function, whatever job id
-- the result has: that job is done and leaves the channel, and the client is written the result
-- with the job's name and parameters; if the result repeats the length of that job's parameters.
pub return_data-IsAnswered :
    (job_id : Bytes) (s : Submitted) (req : Request) (w : SWorker) (worker_id : Bytes) (p : ℕ)
    (rest : List ℕ)
    → worker_id ≡ w.worker_id
    → IsSubmitted job_id s
    → IsResult s req
    → IsClient s.client
    → queue s.handle w ≡ p ∷ rest
    → get_elem? w.heap p ≡ some (doing_job (submitted_job job_id worker_id s))
    → (w' : SWorker) × (return_data req w ≡ ok w')
      × IsAnswered p rest (submitted_job job_id worker_id s) s.client req w w'
unfolding return_data
return_data-IsAnswered job_id s req w worker_id p rest mine taken result peer front there =
    let job = submitted_job job_id worker_id s in
    let w₁ = (pop_job_from_channel req.handle w).1 in
    let (popped, queues) =
      pop_job_from_channel_front p rest req.handle w (rw result.handle front) in
    let (heap, same_id, written) = pop_job_from_channel_rest req.handle w in
    let there₁ : get_elem? w₁.heap p ≡ some (doing_job job) = rw heap there in
    let w' : SWorker = record w₁ {
      heap = set w₁.heap p (done_job job req);
      written =
          to_client s.client
            (packet_bytes Pdt.s_return_data (return_data_bytes (ret_response job req)))
          ∷ w₁.written;
    } in
    let finished : finish_job req p (doing_job job) w₁ ≡ ok w' =
      finish_job-doing job_id s taken req result peer worker_id p w₁ (mine ∙ sym same_id)
      ∙ answer_client-doing job_id s taken req result peer worker_id p w₁ in
    (
      w',
      rw (popped, return_data) (rw there₁ finished),
      record {
        heap = rw heap refl;
        written = rw written refl;
        worker_id = same_id;
        queued = λ j. queue_of_channels j w' w₁ refl ∙ queues j;
      },
    )

-- One job and its result: a worker that nothing waits for is given the job's packet, and its result
-- is written to the client that submitted the job; nothing waits for the function afterwards.
pub return_data-submit :
    (job_id : Bytes) (s : Submitted) (req : Request) (w : SWorker)
    → IsSubmitted job_id s
    → IsResult s req
    → IsClient s.client
    → queue s.handle w ≡ []
    → let job = submitted_job job_id w.worker_id s in
      (w' : SWorker) × ((submit job_id s w >>= return_data req) ≡ ok w')
      × (w'.written
          ≡ to_client s.client
              (packet_bytes Pdt.s_return_data (return_data_bytes (ret_response job req)))
            ∷ to_worker (work_packet job)
            ∷ w.written)
      × (queue s.handle w' ≡ [])
return_data-submit job_id s req w taken result peer idle =
    let job = submitted_job job_id w.worker_id s in
    let (w₁, ran₁, q) = submit-IsQueued job_id s w taken (rw idle (omega arith)) in
    let front : queue s.handle w₁ ≡ length w.heap ∷ [] =
      ground (arith, q.queued s.handle, bytes_eq_refl s.handle, idle) in
    let there : get_elem? w₁.heap (length w.heap) ≡ some (doing_job job) =
      rw q.heap (get_elem?-end w.heap (doing_job job)) in
    let (w₂, ran₂, a) =
      return_data-IsAnswered job_id s req w₁ w.worker_id (length w.heap) [] (sym q.worker_id) taken
        result peer front there in
    (
      w₂,
      rw ran₁ ran₂,
      rw q.written at a.written,
      ground (arith, a.queued s.handle, result.handle, bytes_eq_refl s.handle),
    )
