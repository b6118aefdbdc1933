-- ===== src/Server/Dispatch.antt =====
-- pkg/server/worker.go, optimize.go and client.go: a job from doJobAsync to its worker, and its
-- result back to the client.
-- A job is an object that the channel and the code share: it stands in `heap`, and a pointer is its
-- index. Each function is one step of one goroutine: a channel that is full stays full until the
-- timeout, and an empty one stays empty. What goes to Connect.Write is recorded in `written`, latest
-- first, whether or not the connection then takes it. Metrics and log lines are left out.
pub mod Submit
pub mod Answer
pub mod Channels
pub mod Limits
pub mod Dues
pub mod Once
pub mod Pool
pub mod Samples
use nmid.Prelude.{
  ℕ, ◌+◌, [], ◌∷◌, ◌++◌, ◌==◌, ◌&&◌, ◌||◌, ltb, Bool, true, false, if◌then◌else◌, not,
}
use nmid.Prelude.{Option, none, some, List, length, get_elem?, set, bytes_eq}
use nmid.Wire.{Bytes, Outcome, ok, err, panics, ◌>>=◌, to_uint32}
use nmid.Table.{Table, load, store}
use nmid.Model.Pdt
use nmid.Model.JobStatus
use nmid.Model.ConnType
use nmid.Server.Io.{Request, Response, new_res, res_encode_pack, req_decode_pack}

-- What the code reads of the connection of a client.
pub record Connect : Type 0 where
  pub id : Bytes
  pub conn_type : ℕ

pub record JobData : Type 0 where
  pub job_id : Bytes
  pub client_id : Bytes
  pub client : Option Connect
  pub http_client : Bool
  pub worker_id : Bytes
  pub status : ℕ
  pub func_name : Bytes
  pub params_type : ℕ
  pub params_handle_type : ℕ
  pub params : Bytes
  pub ret_data : Bytes
  pub response : Option Response

-- Where a packet went: to the worker, to a client, or the wake-up of a waiting HTTP request.
pub data Written : Type 0 where
  to_worker : Bytes → Written
  to_client : Connect → Bytes → Written
  http_tag : ℕ → Written

-- One worker: its id, the jobs, the channel of each function, and what was written.
pub record SWorker : Type 0 where
  pub worker_id : Bytes
  pub heap : List JobData
  pub job_channels : Table (List ℕ)
  pub written : List Written

abbrev pub channel_size : ℕ
channel_size = 1024

-- GetJobChannel: the jobs that are queued; a channel that is not there is made.
unfoldable pub get_job_channel : Bytes → SWorker → List ℕ × SWorker
get_job_channel func_name w = elim (load func_name w.job_channels) [
  | some ch ↦ (ch, w)
  | none ↦ ([], record w { job_channels = store func_name [] w.job_channels })
]

abbrev pub has_name : Bytes → Bool
has_name [] = false
has_name (c ∷ cs) = true

-- The send to a channel that PushJobToChannel and PushJobToChannelWithBackpressure share.
unfoldable pub send_job : ℕ → Bytes → SWorker → SWorker × Bool
send_job job func_name w =
    let found = get_job_channel func_name w in
    if ltb (length found.0) channel_size
    then (
      record found.1 { job_channels = store func_name (found.0 ++ job ∷ []) found.1.job_channels },
      true,
    )
    else (found.1, false)

-- PushJobToChannelWithBackpressure.
unfoldable pub push_job_to_channel : ℕ → SWorker → SWorker × Bool
push_job_to_channel job w = elim (get_elem? w.heap job) [
  | none ↦ (w, false)
  | some data_job ↦
      if has_name data_job.func_name then send_job job data_job.func_name w else (w, false)
]

-- PopJobFromChannel, which gives up on an empty channel.
unfoldable pub pop_job_from_channel : Bytes → SWorker → Option ℕ × SWorker
pop_job_from_channel handle w =
    let found = get_job_channel handle w in
    elim found.0 [
      | [] ↦ (none, found.1)
      | job ∷ rest ↦
          (some job, record found.1 { job_channels = store handle rest found.1.job_channels })
    ]

-- The response that doWork builds from a job.
abbrev pub job_response : JobData → Response
job_response job = record new_res {
  data_type = Pdt.s_get_data;
  handle = job.func_name;
  handle_len = to_uint32 (length job.func_name);
  params_type = job.params_type;
  params_handle_type = job.params_handle_type;
  params_len = to_uint32 (length job.params);
  params = job.params;
  job_id = job.job_id;
  job_id_len = to_uint32 (length job.job_id);
}

abbrev put_job : ℕ → JobData → SWorker → SWorker
put_job p job w = record w { heap = set w.heap p job }

-- The part of doWork for a job that it takes.
unfoldable pub send_work : ℕ → JobData → SWorker → Outcome SWorker
send_work p job w =
    let doing = record job { status = JobStatus.doing } in
    if has_name job.func_name && not (to_uint32 (length job.params) == 0)
    then (do
      packed ← res_encode_pack (job_response job)
      ok (record w {
        heap = set w.heap p (record doing { response = some packed.1 });
        written = to_worker packed.0 ∷ w.written;
      }))
    else ok (put_job p doing w)

unfoldable pub do_work : ℕ → SWorker → Outcome SWorker
do_work p w = elim (get_elem? w.heap p) [
  | none ↦ ok w
  | some job ↦
      if bytes_eq job.worker_id w.worker_id && (job.status == JobStatus.init)
      then send_work p job w
      else ok w
]

-- What doJobAsync has decoded of a request when it submits the job, and the client's connection.
pub record Submitted : Type 0 where
  pub handle : Bytes
  pub params : Bytes
  pub params_type : ℕ
  pub params_handle_type : ℕ
  pub client : Connect

-- The job of a submitted request; `job_id` is the UUID that NewJobData draws.
abbrev pub submitted_job : Bytes → Bytes → Submitted → JobData
submitted_job job_id worker_id s = record {
  job_id = job_id;
  client_id = s.client.id;
  client = some s.client;
  http_client = false;
  worker_id = worker_id;
  status = JobStatus.init;
  func_name = s.handle;
  params_type = s.params_type;
  params_handle_type = s.params_handle_type;
  params = s.params;
  ret_data = [];
  response = none;
}

-- An answer that has no content, by the client's response object or a new one.
unfoldable pub answer_plain : ℕ → Connect → SWorker → Outcome SWorker
answer_plain data_type client w = do
  packed ← res_encode_pack (record new_res { data_type = data_type })
  ok (record w { written = to_client client packed.0 ∷ w.written })

-- The closure that doJobAsync submits, behind GetBestWorker's choice of this worker.
unfoldable pub submit : Bytes → Submitted → SWorker → Outcome SWorker
submit job_id s w =
    let p = length w.heap in
    let job = submitted_job job_id w.worker_id s in
    let pushed = push_job_to_channel p (record w { heap = w.heap ++ job ∷ [] }) in
    if pushed.1 then do_work p pushed.0 else answer_plain Pdt.cant_do s.client pushed.0

-- What becomes of the closure of doJobAsync: the pool refuses it, or GetBestWorker gives no worker,
-- or this worker, or another one.
pub data Choice : Type 0 where
  pool_full no_worker takes_job goes_elsewhere : Choice

-- doJobAsync; `choose` stands for the pool and GetBestWorker of a function. A job of another worker
-- leaves this one as it is.
unfoldable pub do_job_async :
    Bytes → (Bytes → Choice) → Request → Connect → SWorker → Outcome SWorker
do_job_async job_id choose packed client w = do
  req ← req_decode_pack packed
  if (req.handle_len == 0) || not (has_name req.handle)
      then answer_plain Pdt.error client w
      else if (req.params_len == 0) || (length req.params == 0)
      then answer_plain Pdt.error client w
      else elim (choose req.handle) [
        | pool_full ↦ answer_plain Pdt.ratelimit client w
        | no_worker ↦ answer_plain Pdt.cant_do client w
        | takes_job ↦
            submit job_id
              (record {
                handle = req.handle;
                params = req.params;
                params_type = req.params_type;
                params_handle_type = req.params_handle_type;
                client = client;
              })
              w
        | goes_elsewhere ↦ ok w
      ]

-- The end of returnData, for a job that is done.
unfoldable pub answer_client : Request → ℕ → JobData → Response → SWorker → Outcome SWorker
answer_client req p job response w =
    let done = record job { ret_data = job.ret_data ++ req.ret; status = JobStatus.done } in
    let w' = put_job p done w in
    let ret_res = record response {
      data_type = Pdt.s_return_data;
      ret = done.ret_data;
      ret_len = req.ret_len;
    } in
    if has_name job.client_id && (has_name job.func_name && not (length job.params == 0))
    then elim job.client [
      | none ↦ ok w'
      | some client ↦
          if client.conn_type == ConnType.client
          then (do
            packed ← res_encode_pack ret_res
            ok (record w' { written = to_client client packed.0 ∷ w'.written }))
          else ok w'
    ]
    else if job.http_client && (has_name job.func_name && not (length job.params == 0))
    then ok (record w' {
      heap = set w.heap p (record done { response = some ret_res });
      written = http_tag p ∷ w'.written;
    })
    else ok w'

-- The test of returnData that the result is one of this job.
unfoldable pub matches : Request → Response → Bool
matches req response =
    (response.handle_len == req.handle_len)
    && (bytes_eq response.handle req.handle && (response.params_len == req.params_len))

-- The part of returnData for the job that it took from the channel.
unfoldable pub finish_job : Request → ℕ → JobData → SWorker → Outcome SWorker
finish_job req p job w =
    if bytes_eq job.worker_id w.worker_id && (job.status == JobStatus.doing)
    then elim job.response [
      | none ↦ ok w
      | some response ↦ if matches req response then answer_client req p job response w else ok w
    ]
    else ok w

-- returnData, for the result that RunWorkerOptimized makes of a request: its function's name is the
-- request's handle.
unfoldable pub return_data : Request → SWorker → Outcome SWorker
return_data req w =
    let popped = pop_job_from_channel req.handle w in
    elim popped.0 [
      | none ↦ ok popped.1
      | some p ↦ elim (get_elem? popped.1.heap p) [
        | none ↦ ok popped.1
        | some job ↦ finish_job req p job popped.1
      ]
    ]
