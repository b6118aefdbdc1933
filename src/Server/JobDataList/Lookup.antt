-- ===== src/Server/JobDataList/Lookup.antt =====
-- The job list as a double-ended queue, and lookups in it by job id.
use nmid.Prelude.{ℕ, ◌==◌, ◌≡◌, refl, true, false, if◌then◌else◌, Option, none, some, []}
use nmid.Prelude.{◌≢◌, ◌⊎◌, inl, inr, ap, Bool-cases}
use nmid.Prelude.{◌∷◌, ◌++◌, bytes_eq, bytes_eq_iff, arith, Bool}
use nmid.Wire.{Bytes}
use nmid.Server.Dispatch.{JobData}
use nmid.Server.JobDataList.{JobDataList, push_job_data, take_back, pop_job_data}
use nmid.Server.JobDataList.{shift_job_data, del_job_data, del_job_data_stats, get_job_data}

-- No job id stands twice.
abbrev pub IsUnique : JobDataList → Type 0
IsUnique [] = Unit
IsUnique (job ∷ jobs) = (get_job_data job.job_id jobs ≡ none) × IsUnique jobs

abbrev pub is_found : Option JobData → Bool
is_found none = false
is_found (some job) = true

take_back-snoc :
    (k : JobData) (jobs : JobDataList) (job : JobData)
    → take_back k (jobs ++ job ∷ []) ≡ (job, k ∷ jobs)
unfolding take_back
take_back-snoc k [] job = refl
take_back-snoc k (j ∷ jobs) job = rw (take_back-snoc j jobs job) refl

-- PopJobData takes back what PushJobData put in last; ShiftJobData takes the job that has been there
-- longest, if there is one, and the pushed job otherwise.
pub pop_job_data-push_job_data :
    (job : JobData) (jlist : JobDataList)
    → (pop_job_data (push_job_data (some job) jlist).0 ≡ (some job, jlist))
      × (shift_job_data (push_job_data (some job) jlist).0 ≡ elim jlist [
        | [] ↦ (some job, [])
        | oldest ∷ others ↦ (some oldest, others ++ job ∷ [])
      ])
unfolding pop_job_data push_job_data shift_job_data take_back
pop_job_data-push_job_data job [] = (refl, refl)
pop_job_data-push_job_data job (k ∷ jobs) = (rw (take_back-snoc k jobs job) refl, refl)

-- Where no job id stands twice, DelJobData makes its job id unknown, changes no other lookup, and
-- says whether the job was there.
pub get_job_data-del_job_data :
    (job_id j : Bytes) (jlist : JobDataList)
    → IsUnique jlist
    → (get_job_data j (del_job_data job_id jlist).0
        ≡ (if bytes_eq job_id j then none else get_job_data j jlist))
      × ((del_job_data job_id jlist).1 ≡ is_found (get_job_data job_id jlist))
unfolding get_job_data del_job_data
get_job_data-del_job_data job_id j [] u = (ground arith, refl)
get_job_data-del_job_data job_id j (job ∷ jobs) u =
    let rest = get_job_data-del_job_data job_id j jobs u.1 in
    (
      ground (
        arith,
        rest.0,
        u.0,
        bytes_eq_iff job.job_id job_id,
        bytes_eq_iff job.job_id j,
        bytes_eq_iff job_id j,
      ),
      ground (arith, rest.1),
    )

-- No job has the status.
abbrev pub NoneHas : ℕ → JobDataList → Type 0
NoneHas status [] = Unit
NoneHas status (job ∷ jobs) = (job.status ≢ status) × NoneHas status jobs

-- What is left of a list, and the answer, if the first job with the status goes, and nothing else.
abbrev pub FirstGone : ℕ → JobDataList → JobDataList × ℕ → Type 0
FirstGone status jlist result =
    (NoneHas status jlist × (result ≡ (jlist, 0)))
    ⊎ ((before : JobDataList) × (job : JobData) × (after : JobDataList) × (jlist
          ≡ before ++ job ∷ after)
        × NoneHas status before
        × (job.status ≡ status)
        × (result ≡ (before ++ after, 1)))

-- DelJobDataStats takes out the first job with the status and leaves all others in their places,
-- however many have the status: its answer is one. If no job has it, the list stays and the answer is
-- zero.
pub del_job_data_stats-FirstGone :
    (status : ℕ) (jlist : JobDataList) → FirstGone status jlist (del_job_data_stats status jlist)
unfolding del_job_data_stats
del_job_data_stats-FirstGone status [] = inl (tt, refl)
del_job_data_stats-FirstGone status (job ∷ jobs) = elim (Bool-cases (job.status == status)) [
  | inl has ↦ inr ([], job, jobs, refl, tt, ground (arith, has), rw (has, del_job_data_stats) refl)
  | inr other ↦
      let not_it : job.status ≢ status = λ e. ground (arith, other, e) in
      elim (del_job_data_stats-FirstGone status jobs) [
        | inl (none_has, e) ↦ inl ((not_it, none_has), rw (other, del_job_data_stats) (rw e refl))
        | inr (before, hit, after, split, none_has, has, e) ↦ inr (
          job ∷ before,
          hit,
          after,
          ap (λ js. job ∷ js) split,
          (not_it, none_has),
          has,
          rw (other, del_job_data_stats) (rw e refl),
        )
      ]
]
