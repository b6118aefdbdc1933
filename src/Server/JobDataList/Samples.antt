-- ===== src/Server/JobDataList/Samples.antt =====
-- A list of two jobs with one status.
use nmid.Prelude.{refl, false, none, [], ◌∷◌, bytes_eq_iff, arith}
use nmid.Wire.{Bytes}
use nmid.Server.Dispatch.{JobData}
use nmid.Server.JobDataList.{JobDataList}
use nmid.Server.JobDataList.{del_job_data_stats, get_job_data}
use nmid.Server.JobDataList.Lookup.{IsUnique, FirstGone}
use nmid.Server.JobDataList.Lookup.{del_job_data_stats-FirstGone}

abbrev job_named : Bytes → JobData
job_named job_id = record {
  job_id = job_id;
  client_id = [];
  client = none;
  http_client = false;
  worker_id = [];
  status = 7;
  func_name = [];
  params_type = 0;
  params_handle_type = 0;
  params = [];
  ret_data = [];
  response = none;
}

abbrev two_jobs : JobDataList
two_jobs = job_named (b'a' ∷ []) ∷ job_named [] ∷ []

two_jobs-IsUnique : IsUnique two_jobs
unfolding get_job_data
two_jobs-IsUnique = (ground (arith, bytes_eq_iff [] (b'a' ∷ [])), (refl, tt))

del_job_data_stats-FirstGone_example : FirstGone 7 two_jobs (del_job_data_stats 7 two_jobs)
del_job_data_stats-FirstGone_example = del_job_data_stats-FirstGone 7 two_jobs
