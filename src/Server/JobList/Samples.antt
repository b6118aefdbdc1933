-- ===== src/Server/JobList/Samples.antt =====
-- Three jobs that come and go.
use nmid.Prelude.{◌≡◌, refl, [], ◌∷◌, List, none, some, arith}
use nmid.Server.JobList.{Job, JobList, new_job_list}
use nmid.Server.JobList.Queue.{IsList, Op, pushes, pops, run, IsFresh, run-IsList}

abbrev blank : Job
blank = record {
  job_id = [];
  client_id = [];
  worker_id = [];
  status = 7;
  func_name = [];
  params = [];
  prev = none;
  next = none;
}

abbrev empty : JobList
empty = new_job_list (λ p. blank)

empty-IsList : IsList empty []
empty-IsList = record { size = refl; distinct = tt; linked = tt }

abbrev calls : List Op
calls = pushes 4 ∷ pushes 2 ∷ pushes 9 ∷ pops ∷ pushes 4 ∷ pops ∷ pops ∷ []

calls-IsFresh : IsFresh calls []
calls-IsFresh = ground arith

run-IsList_example :
    (jl' : JobList) × (run 8 calls empty ≡ some (some 4 ∷ some 2 ∷ some 9 ∷ [], jl'))
    × IsList jl' (4 ∷ [])
run-IsList_example =
    run-IsList 8 calls [] empty empty-IsList calls-IsFresh (omega arith) (omega arith)
