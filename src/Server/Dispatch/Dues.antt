-- ===== src/Server/Dispatch/Dues.antt =====
-- What the server owes its clients: the answers given, and the jobs that are being done
-- (pkg/server/optimize.go, worker.go).
use nmid.Prelude.{
  ℕ, zero, suc, ◌+◌, ◌^◌, ◌%◌, ◌≤◌, ◌≡◌, refl, ap, [], ◌∷◌, ◌++◌, true, false, ◌||◌, none, Bool,
  List, length, if◌then◌else◌, get_elem?, set, some, Option,
}
use nmid.Prelude.{arith, bytes_eq, ◌==◌, ◌&&◌, not, Bool-cases, Option-cases, inl, inr}
use nmid.Wire.{Bytes, ok}
use nmid.Wire.Bind.{first_value}
use nmid.Model.Pdt
use nmid.Model.JobStatus
use nmid.Server.Io.{new_res, res_encode_pack}
use nmid.Server.Dispatch.{
  SWorker, JobData, Connect, Written, to_worker, to_client, http_tag, Submitted,
}
use nmid.Server.Dispatch.{
  has_name, submitted_job, job_response, push_job_to_channel, send_work, do_work,
}
use nmid.Server.Dispatch.{answer_plain, submit}
use nmid.Server.Dispatch.Channels.{send_job_rest}
use nmid.Server.Dispatch.Submit.{get_elem?-end}

abbrev pub one_if : Bool → ℕ
one_if b = if b then 1 else 0

pub one_if-or : (a b : Bool) → one_if b ≤ one_if (a || b)
one_if-or true true = omega arith
one_if-or true false = omega arith
one_if-or false b = omega arith

-- Counts for some of the clients, and for the waiting HTTP requests or not.
module _ (mine : Connect → Bool) (http : Bool) where
  -- The packets that went to the clients, and the wake-ups.
  abbrev pub answers : List Written → ℕ
  answers [] = 0
  answers (to_worker packet ∷ earlier) = answers earlier
  answers (to_client client packet ∷ earlier) = one_if (mine client) + answers earlier
  answers (http_tag job ∷ earlier) = one_if http + answers earlier

  abbrev pub is_owed : JobData → Bool
  is_owed job = http || elim job.client [ none ↦ false | some client ↦ mine client ]

  abbrev pub is_doing : JobData → ℕ
  is_doing job = one_if ((job.status == JobStatus.doing) && is_owed job)

  -- The jobs of the clients that a worker is doing.
  abbrev pub doing_jobs : List JobData → ℕ
  doing_jobs [] = 0
  doing_jobs (job ∷ jobs) = is_doing job + doing_jobs jobs

  doing_jobs-set :
      (jobs : List JobData) (p : ℕ) (job new : JobData)
      → get_elem? jobs p ≡ some job
      → doing_jobs (set jobs p new) + is_doing job ≡ doing_jobs jobs + is_doing new
  doing_jobs-set [] p job new e = absurd (cc e)
  doing_jobs-set (x ∷ jobs) zero job new e =
      let same : is_doing x ≡ is_doing job = ap is_doing (first x job e) in omega (arith, same)
    where
      first : (a b : JobData) → ◌≡◌ {A = Option JobData} (some a) (some b) → a ≡ b
      first a b q = cc
  doing_jobs-set (x ∷ jobs) (suc p) job new e = omega (arith, doing_jobs-set jobs p job new e)

  doing_jobs-append :
      (jobs : List JobData) (job : JobData)
      → doing_jobs (jobs ++ job ∷ []) ≡ doing_jobs jobs + is_doing job
  doing_jobs-append [] job = omega arith
  doing_jobs-append (x ∷ jobs) job = omega (arith, doing_jobs-append jobs job)

  -- The answers that were given, and those that may still come.
  abbrev pub dues : SWorker → ℕ
  dues w = answers w.written + doing_jobs w.heap

  pub dues_of : (w v : SWorker) → w.heap ≡ v.heap → w.written ≡ v.written → dues w ≡ dues v
  dues_of w v h k = omega (arith, ap doing_jobs h, ap answers k)

  pub answer_plain-dues :
      (data_type : ℕ) (client : Connect) (w : SWorker) {w' : SWorker}
      → answer_plain data_type client w ≡ ok w'
      → dues w' ≡ one_if (mine client) + dues w
  unfolding answer_plain
  answer_plain-dues data_type client w {w'} e =
      let (packed, ran, encoded) =
        first_value (res_encode_pack (record new_res { data_type = data_type })) e in
      let heap : w'.heap ≡ w.heap = cc in
      let written : w'.written ≡ to_client client packed.0 ∷ w.written = cc in
      omega (arith, ap doing_jobs heap, ap answers written)

  send_work-dues :
      (p : ℕ) (job : JobData) (w : SWorker) {w' : SWorker}
      → get_elem? w.heap p ≡ some job
      → job.status ≡ JobStatus.init
      → send_work p job w ≡ ok w'
      → dues w' ≤ one_if (is_owed job) + dues w
  unfolding send_work
  send_work-dues p job w {w'} there new e =
      elim (Bool-cases (has_name job.func_name && not (length job.params % 2 ^ 32 == 0))) [
        | inl sent ↦
            let (packed, ran, encoded) =
              first_value (res_encode_pack (job_response job)) (rw sent at e) in
            let doing = record job { status = JobStatus.doing; response = some packed.1 } in
            let heap : w'.heap ≡ set w.heap p doing = cc in
            let written : w'.written ≡ to_worker packed.0 ∷ w.written = cc in
            omega (
              arith,
              doing_jobs-set w.heap p job doing there,
              ap doing_jobs heap,
              ap answers written,
            )
        | inr kept ↦
            let doing = record job { status = JobStatus.doing } in
            let same = rw kept at e in
            let heap : w'.heap ≡ set w.heap p doing = cc in
            let written : w'.written ≡ w.written = cc in
            omega (
              arith,
              doing_jobs-set w.heap p job doing there,
              ap doing_jobs heap,
              ap answers written,
            )
      ]

  do_work-dues :
      (p : ℕ) (job : JobData) (w : SWorker) {w' : SWorker}
      → get_elem? w.heap p ≡ some job
      → do_work p w ≡ ok w'
      → dues w' ≤ one_if (is_owed job) + dues w
  unfolding do_work
  do_work-dues p job w {w'} there e =
      elim (Bool-cases (bytes_eq job.worker_id w.worker_id && (job.status == JobStatus.init))) [
        | inl mine ↦
            let ran : send_work p job w ≡ ok w' = ground (arith, e, there, mine) in
            send_work-dues p job w there (ground (arith, mine)) ran
        | inr other ↦
            let same : w' ≡ w = ground (arith, e, there, other) in
            omega (arith, dues_of w' w (ap (λ v. v.heap) same) (ap (λ v. v.written) same))
      ]

  push_job_to_channel_rest :
      (p : ℕ) (w : SWorker)
      → ((push_job_to_channel p w).0.heap ≡ w.heap)
        × ((push_job_to_channel p w).0.written ≡ w.written)
  unfolding push_job_to_channel
  push_job_to_channel_rest p w = elim (Option-cases (get_elem? w.heap p)) [
    | inl absent ↦ ground (arith, absent)
    | inr (job, there) ↦
        let (heap, worker_id, written) = send_job_rest p job.func_name w in
        ground (arith, there, heap, written)
  ]

  pub submit-dues :
      (job_id : Bytes) (s : Submitted) (w : SWorker) {w' : SWorker}
      → submit job_id s w ≡ ok w'
      → dues w' ≤ one_if (http || mine s.client) + dues w
  unfolding submit
  submit-dues job_id s w {w'} e =
      let job = submitted_job job_id w.worker_id s in
      let w₁ : SWorker = record w { heap = w.heap ++ job ∷ [] } in
      let pushed = push_job_to_channel (length w.heap) w₁ in
      let (heap, written) = push_job_to_channel_rest (length w.heap) w₁ in
      let new : is_doing job ≡ 0 = refl in
      let same : dues pushed.0 ≡ dues w =
        omega (arith, doing_jobs-append w.heap job, new, ap doing_jobs heap, ap answers written) in
      elim (Bool-cases pushed.1) [
        | inl sent ↦
            let ran : do_work (length w.heap) pushed.0 ≡ ok w' = ground (arith, e, sent) in
            let at_end : get_elem? pushed.0.heap (length w.heap) ≡ some job =
              rw heap (get_elem?-end w.heap job) in
            omega (arith, same, do_work-dues (length w.heap) job pushed.0 at_end ran)
        | inr full ↦
            let ran : answer_plain Pdt.cant_do s.client pushed.0 ≡ ok w' =
              ground (arith, e, full) in
            let counted = one_if-or http (mine s.client) in
            omega (arith, same, counted, answer_plain-dues Pdt.cant_do s.client pushed.0 ran)
      ]

  pub done-dues :
      (p : ℕ) (job done : JobData) (w : SWorker)
      → get_elem? w.heap p ≡ some job
      → (job.status == JobStatus.doing) ≡ true
      → done.status ≡ JobStatus.done
      → one_if (is_owed job) + doing_jobs (set w.heap p done) ≡ doing_jobs w.heap
  done-dues p job done w there doing e =
      let was : is_doing job ≡ one_if (is_owed job) = rw doing refl in
      let is : is_doing done ≡ 0 = rw e refl in
      omega (arith, doing_jobs-set w.heap p job done there, was, is)
