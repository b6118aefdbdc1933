-- ===== src/Server/JobDataList.antt =====
-- pkg/server/joblist.go: the list of jobs, front first. A nil job is none.
-- container/list takes a removed element out of its chain, so that its Next is nil.
pub mod Lookup
pub mod Samples
use nmid.Prelude.{
  ℕ, ◌+◌, ◌==◌, Bool, true, false, if◌then◌else◌, Option, none, some, List, [], ◌∷◌, ◌++◌,
}
use nmid.Prelude.{length, bytes_eq}
use nmid.Wire.{Bytes}
use nmid.Server.Dispatch.{JobData}

abbrev pub JobDataList : Type 0
JobDataList = List JobData

abbrev pub set_job_data_client : Bytes → JobData → JobData
set_job_data_client id data_job = record data_job { client_id = id }

abbrev pub set_job_data_worker : Bytes → JobData → JobData
set_job_data_worker id data_job = record data_job { worker_id = id }

abbrev pub get_job_num : JobDataList → ℕ
get_job_num jlist = length jlist

unfoldable pub push_job_data : Option JobData → JobDataList → JobDataList × Bool
push_job_data none jlist = (jlist, false)
push_job_data (some job) jlist = (jlist ++ job ∷ [], true)

-- The element at the back of a list that starts with this one, and the rest.
unfoldable pub take_back : JobData → JobDataList → JobData × JobDataList
take_back job [] = (job, [])
take_back job (k ∷ ks) = let rest = take_back k ks in (rest.0, job ∷ rest.1)

unfoldable pub pop_job_data : JobDataList → Option JobData × JobDataList
pop_job_data [] = (none, [])
pop_job_data (job ∷ jobs) = let rest = take_back job jobs in (some rest.0, rest.1)

unfoldable pub un_shift_job_data : Option JobData → JobDataList → JobDataList × Bool
un_shift_job_data none jlist = (jlist, false)
un_shift_job_data (some job) jlist = (job ∷ jlist, true)

unfoldable pub shift_job_data : JobDataList → Option JobData × JobDataList
shift_job_data [] = (none, [])
shift_job_data (job ∷ jobs) = (some job, jobs)

unfoldable pub del_job_data : Bytes → JobDataList → JobDataList × Bool
del_job_data job_id [] = ([], false)
del_job_data job_id (job ∷ jobs) =
    let rest = del_job_data job_id jobs in
    if bytes_eq job.job_id job_id then (jobs, true) else (job ∷ rest.0, rest.1)

-- The loop goes on at the Next of the element that it has just removed, which is nil.
unfoldable pub del_job_data_stats : ℕ → JobDataList → JobDataList × ℕ
del_job_data_stats status [] = ([], 0)
del_job_data_stats status (job ∷ jobs) =
    let rest = del_job_data_stats status jobs in
    if job.status == status then (jobs, 1) else (job ∷ rest.0, rest.1)

unfoldable pub get_job_data : Bytes → JobDataList → Option JobData
get_job_data job_id [] = none
get_job_data job_id (job ∷ jobs) =
    if bytes_eq job.job_id job_id then some job else get_job_data job_id jobs
