-- ===== src/Server/Dispatch/Channels.antt =====
-- GetJobChannel and what pushes to and pops from a worker's channels (pkg/server/worker.go).
use nmid.Prelude.{
  ℕ, ◌+◌, ◌≤◌, ◌<◌, ◌≡◌, refl, [], ◌∷◌, ◌++◌, length-append, true, false, List, length,
}
use nmid.Prelude.{if◌then◌else◌, some, Option-cases, inl, inr, arith, bytes_eq}
use nmid.Prelude.{bytes_eq_iff}
use nmid.Wire.{Bytes}
use nmid.Table.{load, store, load-store}
use nmid.Server.Dispatch.{SWorker, get_job_channel, send_job, pop_job_from_channel}
use nmid.Server.Dispatch.{channel_size}

-- The jobs that wait for a result of this function, oldest first.
unfoldable pub queue : Bytes → SWorker → List ℕ
queue func_name w = (get_job_channel func_name w).0

-- GetJobChannel changes no queue.
queue-get_job_channel :
    (func_name j : Bytes) (w : SWorker) → queue j (get_job_channel func_name w).1 ≡ queue j w
unfolding queue get_job_channel
queue-get_job_channel func_name j w = elim (Option-cases (load func_name w.job_channels)) [
  | inl e ↦
      rw (e, get_job_channel)
        (ground (arith, e, load-store func_name j [] w.job_channels, bytes_eq_iff func_name j))
  | inr (ch, e) ↦ rw (e, get_job_channel) refl
]

queue-store :
    (func_name j : Bytes) (ch : List ℕ) (w : SWorker)
    → queue j (record w { job_channels = store func_name ch w.job_channels })
      ≡ (if bytes_eq func_name j then ch else queue j w)
unfolding queue get_job_channel
queue-store func_name j ch w = ground (arith, load-store func_name j ch w.job_channels)

-- The rest of the worker is as before.
pub get_job_channel_rest :
    (func_name : Bytes) (w : SWorker)
    → let w' = (get_job_channel func_name w).1 in
      (w'.heap ≡ w.heap) × (w'.worker_id ≡ w.worker_id) × (w'.written ≡ w.written)
unfolding get_job_channel
get_job_channel_rest func_name w = ground arith

length-snoc : (xs : List ℕ) (x : ℕ) → length (xs ++ x ∷ []) ≡ length xs + 1
length-snoc xs x = omega (arith, length-append xs (x ∷ []))

pub queue-send_job :
    (p : ℕ) (func_name j : Bytes) (w : SWorker)
    → length (queue func_name w) < channel_size
    → queue j (send_job p func_name w).0
      ≡ (if bytes_eq func_name j then queue func_name w ++ p ∷ [] else queue j w)
unfolding send_job queue
queue-send_job p func_name j w h = ground (
  arith,
  queue-get_job_channel func_name j w,
  queue-store func_name j (queue func_name w ++ p ∷ []) (get_job_channel func_name w).1,
)

pub send_job_sent :
    (p : ℕ) (func_name : Bytes) (w : SWorker)
    → length (queue func_name w) < channel_size
    → (send_job p func_name w).1 ≡ true
unfolding send_job queue
send_job_sent p func_name w h = ground arith

pub send_job_rest :
    (p : ℕ) (func_name : Bytes) (w : SWorker)
    → let w' = (send_job p func_name w).0 in
      (w'.heap ≡ w.heap) × (w'.worker_id ≡ w.worker_id) × (w'.written ≡ w.written)
unfolding send_job
send_job_rest p func_name w = ground (arith, get_job_channel_rest func_name w)

-- A push never lets a channel grow beyond its size.
pub send_job-bounded :
    (p : ℕ) (func_name j : Bytes) (w : SWorker)
    → length (queue j w) ≤ channel_size
    → length (queue j (send_job p func_name w).0) ≤ channel_size
unfolding send_job queue
send_job-bounded p func_name j w h = ground (
  arith,
  queue-get_job_channel func_name j w,
  bytes_eq_iff func_name j,
  length-snoc (queue func_name w) p,
  queue-store func_name j (queue func_name w ++ p ∷ []) (get_job_channel func_name w).1,
)

pub pop_job_from_channel_front :
    (p : ℕ) (rest : List ℕ) (handle : Bytes) (w : SWorker)
    → queue handle w ≡ p ∷ rest
    → ((pop_job_from_channel handle w).0 ≡ some p)
      × ((j : Bytes)
          → queue j (pop_job_from_channel handle w).1
            ≡ (if bytes_eq handle j then rest else queue j w))
unfolding pop_job_from_channel queue
pop_job_from_channel_front p rest handle w e = (
  ground (arith, e),
  λ j. ground (
    arith,
    e,
    queue-get_job_channel handle j w,
    queue-store handle j rest (get_job_channel handle w).1,
  ),
)

pub pop_job_from_channel_rest :
    (handle : Bytes) (w : SWorker)
    → let w' = (pop_job_from_channel handle w).1 in
      (w'.heap ≡ w.heap) × (w'.worker_id ≡ w.worker_id) × (w'.written ≡ w.written)
unfolding pop_job_from_channel
pop_job_from_channel_rest handle w = ground (arith, get_job_channel_rest handle w)

-- The channels alone decide what is queued.
pub queue_of_channels :
    (j : Bytes) (w v : SWorker) → w.job_channels ≡ v.job_channels → queue j w ≡ queue j v
unfolding queue get_job_channel
queue_of_channels j w v e = rw (e, get_job_channel) (ground arith)

pub send_job_full :
    (p : ℕ) (func_name : Bytes) (w : SWorker)
    → channel_size ≤ length (queue func_name w)
    → ((send_job p func_name w).1 ≡ false)
      × ((j : Bytes) → queue j (send_job p func_name w).0 ≡ queue j w)
      × ((send_job p func_name w).0.written ≡ w.written)
unfolding send_job queue
send_job_full p func_name w full = (
  ground arith,
  λ j. ground (arith, queue-get_job_channel func_name j w),
  ground (arith, get_job_channel_rest func_name w),
)
