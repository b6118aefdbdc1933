-- ===== src/Server/Dispatch/Submit.antt =====
-- The closure of doJobAsync (pkg/server/optimize.go) and doWork (pkg/server/worker.go).
use nmid.Prelude.{ℕ, ◌+◌, ◌<◌, ◌^◌, ◌%◌, ◌≡◌, ◌≢◌, refl, [], ◌∷◌, ◌++◌, true, List}
use nmid.Prelude.{length, if◌then◌else◌, get_elem?, set, some}
use nmid.Prelude.{arith, bytes_eq, bytes_eq_iff, sym, ◌∙◌, ◌==◌, ◌&&◌, not}
use native.Mathlib.Nat.{mod-eq_of_lt}
use nmid.Wire.{Bytes, ok}
use nmid.Model.Pdt
use nmid.Model.JobStatus
use nmid.Server.Io.Encode.{IsJobSized, get_data_bytes, job_size}
use nmid.Server.Io.Encode.{packet_bytes, sent, res_encode_pack-get_data}
use nmid.Server.Dispatch.{SWorker, JobData, to_worker, Submitted}
use nmid.Server.Dispatch.{
  has_name, submitted_job, job_response, push_job_to_channel, send_job, send_work,
}
use nmid.Server.Dispatch.{do_work, submit}
use nmid.Server.Dispatch.{channel_size}
use nmid.Server.Dispatch.Channels.{
  queue, queue_of_channels, queue-send_job, send_job_sent, send_job_rest,
}

pub get_elem?-end :
    {A : Type 0} (xs : List A) (x : A) → get_elem? (xs ++ x ∷ []) (length xs) ≡ some x
get_elem?-end [] x = refl
get_elem?-end (y ∷ ys) x = get_elem?-end ys x

set-end : {A : Type 0} (xs : List A) (x y : A) → set (xs ++ x ∷ []) (length xs) y ≡ xs ++ y ∷ []
set-end [] x y = refl
set-end (z ∷ zs) x y = ground (arith, set-end zs x y)

-- The packet of a job for its worker.
abbrev pub work_packet : JobData → Bytes
work_packet job = packet_bytes Pdt.s_get_data (get_data_bytes (job_response job))

-- The job that its worker is doing.
abbrev pub doing_job : JobData → JobData
doing_job job = record job {
  status = JobStatus.doing;
  response = some (sent (job_size (job_response job)) (work_packet job) (job_response job));
}

-- A request that the broker takes: it has a name and parameters, and its packet's length is a
-- uint32.
pub record IsSubmitted (job_id : Bytes) (s : Submitted) : Type 0 where
  pub named : s.handle ≢ []
  pub given : s.params ≢ []
  pub fits : 32 + length s.handle + length s.params + length job_id < 2 ^ 32

pub has_name_of : (xs : Bytes) → xs ≢ [] → has_name xs ≡ true
has_name_of [] h = absurd (h refl)
has_name_of (x ∷ xs) h = refl

pub length_pos : (xs : Bytes) → xs ≢ [] → 0 < length xs
length_pos [] h = absurd (h refl)
length_pos (x ∷ xs) h = omega arith

module _ (job_id : Bytes) (s : Submitted) (taken : IsSubmitted job_id s) (worker_id : Bytes) where
  pub job_response-IsJobSized : IsJobSized (job_response (submitted_job job_id worker_id s))
  job_response-IsJobSized = record {
    handle = mod-eq_of_lt (omega (arith, taken.fits));
    params = mod-eq_of_lt (omega (arith, taken.fits));
    job_id = mod-eq_of_lt (omega (arith, taken.fits));
    fits = omega (arith, taken.fits);
  }

  send_work-submitted :
      (p : ℕ) (w : SWorker)
      → let job = submitted_job job_id worker_id s in
        send_work p job w
        ≡ ok (record w {
          heap = set w.heap p (doing_job job);
          written = to_worker (work_packet job) ∷ w.written;
        })
  unfolding send_work
  send_work-submitted p w =
      let job = submitted_job job_id worker_id s in
      let encoded = res_encode_pack-get_data (job_response job) refl job_response-IsJobSized in
      let some_params = length_pos s.params taken.given in
      let guard : has_name s.handle && not (length s.params % 2 ^ 32 == 0) ≡ true =
        ground (
          arith,
          has_name_of s.handle taken.named,
          some_params,
          mod-eq_of_lt (small some_params),
        ) in
      rw (guard, send_work) (rw encoded refl)
    where
      small : 0 < length s.params → length s.params < 2 ^ 32
      small h = omega (arith, taken.fits)

-- The broker has taken the job: it stands last in the channel of its function and in the heap, and
-- its packet has gone to the worker.
pub record IsQueued (job : JobData) (w w' : SWorker) : Type 0 where
  pub heap : w'.heap ≡ w.heap ++ doing_job job ∷ []
  pub written : w'.written ≡ to_worker (work_packet job) ∷ w.written
  pub worker_id : w'.worker_id ≡ w.worker_id
  pub queued :
      (j : Bytes)
      → queue j w' ≡ (
          if bytes_eq job.func_name j
          then queue job.func_name w ++ length w.heap ∷ []
          else queue j w)

push_job_to_channel-send_job :
    (p : ℕ) (job : JobData) (w : SWorker)
    → get_elem? w.heap p ≡ some job
    → job.func_name ≢ []
    → push_job_to_channel p w ≡ send_job p job.func_name w
unfolding push_job_to_channel
push_job_to_channel-send_job p job w e named =
    rw (e, push_job_to_channel) (rw (has_name_of job.func_name named) refl)

do_work-send_work :
    (p : ℕ) (job : JobData) (w : SWorker)
    → get_elem? w.heap p ≡ some job
    → job.worker_id ≡ w.worker_id
    → job.status ≡ JobStatus.init
    → do_work p w ≡ send_work p job w
unfolding do_work
do_work-send_work p job w e mine new =
    let guard : bytes_eq job.worker_id w.worker_id && (job.status == JobStatus.init) ≡ true =
      ground (arith, bytes_eq_iff job.worker_id w.worker_id) in
    rw (e, do_work) (rw guard refl)

-- A job with a name and parameters that finds room in its function's channel is put behind the jobs
-- that wait there, marked as being done, and its packet is written to the worker; the other
-- functions' channels and jobs stay.
pub submit-IsQueued :
    (job_id : Bytes) (s : Submitted) (w : SWorker)
    → IsSubmitted job_id s
    → length (queue s.handle w) < channel_size
    → (w' : SWorker) × (submit job_id s w ≡ ok w')
      × IsQueued (submitted_job job_id w.worker_id s) w w'
unfolding submit
submit-IsQueued job_id s w taken room =
    let job = submitted_job job_id w.worker_id s in
    let p = length w.heap in
    let w₁ : SWorker = record w { heap = w.heap ++ job ∷ [] } in
    let w₂ = (send_job p s.handle w₁).0 in
    let same : (j : Bytes) → queue j w₁ ≡ queue j w = λ j. queue_of_channels j w₁ w refl in
    let room₁ : length (queue s.handle w₁) < channel_size = rw (same s.handle) room in
    let (heap, worker_id, written) = send_job_rest p s.handle w₁ in
    let w' : SWorker = record w₂ {
      heap = set w₂.heap p (doing_job job);
      written = to_worker (work_packet job) ∷ w₂.written;
    } in
    let pushed = push_job_to_channel-send_job p job w₁ (get_elem?-end w.heap job) taken.named in
    let there : get_elem? w₂.heap p ≡ some job = rw heap (get_elem?-end w.heap job) in
    let ran : do_work p w₂ ≡ ok w' =
      do_work-send_work p job w₂ there (sym worker_id) refl
      ∙ send_work-submitted job_id s taken w.worker_id p w₂ in
    (
      w',
      rw (pushed, submit) (rw (send_job_sent p s.handle w₁ room₁) ran),
      record {
        heap = rw heap (set-end w.heap job (doing_job job));
        written = rw written refl;
        worker_id = worker_id;
        queued = λ j.
            queue_of_channels j w' w₂ refl
            ∙ (rw (same s.handle, same j) at (queue-send_job p s.handle j w₁ room₁));
      },
    )
