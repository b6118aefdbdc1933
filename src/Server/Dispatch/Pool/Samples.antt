-- ===== src/Server/Dispatch/Pool/Samples.antt =====
-- A dispatch pool of one goroutine and two jobs.
use nmid.Prelude.{ℕ, refl, [], ◌∷◌, false}
use mathlib.Core.List.{Perm}
use nmid.Server.Dispatch.Pool.{Pool, new_dispatch_pool, submit, take_job}
use nmid.Server.Dispatch.Pool.Runs.{dispatching, Reach, here, next, submits, takes, IsFair}
use nmid.Server.Dispatch.Pool.Runs.{Reach-IsFair_new}
use nmid.Server.Dispatch.Pool.Drains.{Works, Perm-finished}

abbrev start : Pool ℕ
start = new_dispatch_pool 1

-- The first job runs and the second waits.
abbrev busy : Pool ℕ
busy = record start {
  workers = 1;
  size = 2;
  job_ch = 8 ∷ [];
  waiting = 0;
  running = 7 ∷ [];
  returned = 0;
  cancelled = false;
  started = 7 ∷ [];
  finished = [];
}

reach : Reach start busy (7 ∷ 8 ∷ [])
unfolding new_dispatch_pool submit take_job
reach = next (next (next here (submits 7 refl)) (submits 8 refl)) (takes refl)

Reach-IsFair_new_example : IsFair busy (7 ∷ 8 ∷ [])
Reach-IsFair_new_example = Reach-IsFair_new (dispatching 1) reach

Perm-finished_example : (b : Pool ℕ) × Works busy b × Perm (7 ∷ 8 ∷ []) b.finished
Perm-finished_example = Perm-finished (dispatching 1) reach refl
