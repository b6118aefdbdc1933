-- ===== src/Server/Dispatch/Pool.antt =====
-- pkg/server/optimize.go: DispatchPool and ResultRouter, which are the same but for their sizes and
-- for what a job is: a closure of doJobAsync, or a result for returnData.
-- The pool is its channel and its goroutines: those that wait in the select, those that run a job,
-- and those that have returned. Of a job that has run nothing is kept but its place in `finished`;
-- `started` are the jobs that a goroutine has taken, in that order.
pub mod Runs
pub mod Drains
mod Samples
use nmid.Prelude.{
  ℕ, zero, suc, ◌+◌, ◌-◌, ◌*◌, ◌≡◌, List, [], ◌∷◌, ◌++◌, Bool, true, false, Option, none,
}
use nmid.Prelude.{some, if◌then◌else◌, ltb, length}

pub record Pool {ℓ} (J : Type ℓ) : Type ℓ where
  pub workers : ℕ
  pub size : ℕ
  pub job_ch : List J
  pub waiting : ℕ
  pub running : List J
  pub returned : ℕ
  pub cancelled : Bool
  pub started : List J
  pub finished : List J

module _ {ℓ} {J : Type ℓ} where
  -- The pool of a constructor, with all its goroutines started.
  abbrev new_pool : ℕ → ℕ → Pool J
  new_pool workers size = record {
    workers = workers;
    size = size;
    job_ch = [];
    waiting = workers;
    running = [];
    returned = 0;
    cancelled = false;
    started = [];
    finished = [];
  }

  -- NewDispatchPool and NewResultRouter; a count that is not positive is replaced.
  unfoldable pub new_dispatch_pool : ℕ → Pool J
  new_dispatch_pool zero = new_pool 512 (512 * 2)
  new_dispatch_pool (suc n) = new_pool (suc n) (suc n * 2)

  unfoldable pub new_result_router : ℕ → Pool J
  new_result_router zero = new_pool 256 (256 * 4)
  new_result_router (suc n) = new_pool (suc n) (suc n * 4)

  -- Submit, which does not wait for room in the channel.
  unfoldable pub submit : J → Pool J → Pool J × Bool
  submit j pool =
      if ltb (length pool.job_ch) pool.size
      then (record pool { job_ch = pool.job_ch ++ j ∷ [] }, true)
      else (pool, false)

  -- The case of worker's select that takes a job: none where no goroutine waits or no job does.
  unfoldable pub take_job : Pool J → Option (Pool J)
  take_job pool = elim pool.job_ch [
    | [] ↦ none
    | j ∷ rest ↦ elim pool.waiting [
      | zero ↦ none
      | suc n ↦ some (record pool {
        job_ch = rest;
        waiting = n;
        running = j ∷ pool.running;
        started = pool.started ++ j ∷ [];
      })
    ]
  ]

  -- The end of doJobFn or returnData: the goroutine goes back to its select.
  unfoldable pub finish : List J → J → List J → Pool J → Pool J
  finish others j behind pool = record pool {
    running = others ++ behind;
    waiting = pool.waiting + 1;
    finished = j ∷ pool.finished;
  }

  -- The case of worker's select that returns.
  unfoldable pub leave : Pool J → Option (Pool J)
  leave pool =
      if pool.cancelled
      then elim pool.waiting [
        | zero ↦ none
        | suc n ↦ some (record pool { waiting = n; returned = pool.returned + 1 })
      ]
      else none

  -- Close, up to its wait.
  unfoldable pub close : Pool J → Pool J
  close pool = record pool { cancelled = true }
