-- ===== src/Server/Dispatch/Once.antt =====
-- How often the server answers, over any sequence of jobs and results (pkg/server/optimize.go,
-- worker.go).
use nmid.Prelude.{
  ℕ, ◌+◌, ◌≤◌, ◌≡◌, refl, ap, [], false, none, ◌∷◌, ◌++◌, true, Bool, List, length, get_elem?, set,
  some,
}
use nmid.Prelude.{arith, bytes_eq, ◌==◌, ◌&&◌, ◌||◌, not, Bool-cases, Option-cases, inl, inr}
use nmid.Wire.{Bytes, Outcome, ok, ◌>>=◌}
use nmid.Wire.Bind.{first_value}
use nmid.Model.Pdt
use nmid.Model.JobStatus
use nmid.Model.ConnType
use nmid.Server.Io.{Request, Response, res_encode_pack, req_decode_pack}
use nmid.Server.Dispatch.{SWorker, JobData, Connect, to_client, http_tag}
use nmid.Server.Dispatch.{has_name, submit, Submitted}
use nmid.Server.Dispatch.{Choice, pool_full, no_worker, takes_job, goes_elsewhere}
use nmid.Server.Dispatch.{
  answer_plain, do_job_async, answer_client, matches, finish_job, return_data, pop_job_from_channel,
}
use nmid.Server.Dispatch.Channels.{pop_job_from_channel_rest}
use nmid.Server.Dispatch.Dues.{
  one_if, one_if-or, is_owed, answers, doing_jobs, dues, dues_of, answer_plain-dues, submit-dues,
  done-dues,
}

-- What reaches the server for a worker: a client's request, or the worker's result.
pub data Arrival : Type 0 where
  asks : Bytes → (Bytes → Choice) → Request → Connect → Arrival
  returns : Request → Arrival

-- The worker's state after each arrival in turn.
unfoldable pub serve : List Arrival → SWorker → Outcome SWorker
serve [] w = ok w
serve (asks job_id choose packed client ∷ arrivals) w = do
  w' ← do_job_async job_id choose packed client w
  serve arrivals w'
serve (returns req ∷ arrivals) w = do w' ← return_data req w; serve arrivals w'

or-one_if : (a b : Bool) → one_if a ≤ one_if (a || b)
or-one_if true b = omega arith
or-one_if false true = omega arith
or-one_if false false = omega arith

-- Counts for some of the clients, and for the waiting HTTP requests or not.
module _ (mine : Connect → Bool) (http : Bool) where
  -- A job that was being done, and of which one answer may have been given.
  module _ (p : ℕ) (job : JobData) (w : SWorker) (there : get_elem? w.heap p ≡ some job)
      (doing : (job.status == JobStatus.doing) ≡ true) where
    settled :
        (done : JobData) (w' : SWorker)
        → done.status ≡ JobStatus.done
        → w'.heap ≡ set w.heap p done
        → answers mine http w'.written
          ≤ one_if (is_owed mine http job) + answers mine http w.written
        → dues mine http w' ≤ dues mine http w
    settled done w' e heap few =
        omega (
          arith,
          done-dues mine http p job done w there doing e,
          ap (doing_jobs mine http) heap,
          few,
        )

    answer_client-dues :
        (req : Request) (response : Response) {w' : SWorker}
        → answer_client req p job response w ≡ ok w'
        → dues mine http w' ≤ dues mine http w
    unfolding answer_client
    answer_client-dues req response {w'} e =
        let done : JobData = record job {
          ret_data = job.ret_data ++ req.ret;
          status = JobStatus.done;
        } in
        let ret_res : Response = record response {
          data_type = Pdt.s_return_data;
          ret = done.ret_data;
          ret_len = req.ret_len;
        } in
        let w₁ : SWorker = record w { heap = set w.heap p done } in
        let silent : w' ≡ w₁ → dues mine http w' ≤ dues mine http w = λ same.
          settled done w' refl (ap (λ v. v.heap) same)
            (omega (arith, ap (λ v. answers mine http v.written) same)) in
        elim (Bool-cases
          (has_name job.client_id && (has_name job.func_name && not (length job.params == 0)))) [
            | inl asked ↦ elim (Option-cases job.client) [
              | inl nobody ↦ silent (ground (arith, e, asked, nobody))
              | inr (client, somebody) ↦ elim (Bool-cases (client.conn_type == ConnType.client)) [
                | inl connected ↦
                    let ran : (res_encode_pack ret_res >>= λ packed.
                    ok (record w₁ { written = to_client client packed.0 ∷ w.written }))
                        ≡ ok w' =
                      ground (arith, e, asked, somebody, connected) in
                    let (packed, last, encoded) = first_value (res_encode_pack ret_res) ran in
                    let heap : w'.heap ≡ set w.heap p done = cc in
                    let written : w'.written ≡ to_client client packed.0 ∷ w.written = cc in
                    let owed : is_owed mine http job ≡ (http || mine client) = rw somebody refl in
                    let counted : one_if (mine client) ≤ one_if (is_owed mine http job) =
                      rw owed (one_if-or http (mine client)) in
                    settled done w' refl heap
                      (omega (arith, counted, ap (answers mine http) written))
                | inr other ↦ silent (ground (arith, e, asked, somebody, other))
              ]
            ]
            | inr unasked ↦
                elim (Bool-cases
                  (job.http_client && (has_name job.func_name && not (length job.params == 0)))) [
                    | inl waits ↦
                        let told : JobData = record done { response = some ret_res } in
                        let same : w' ≡ record w {
                          heap = set w.heap p told;
                          written = http_tag p ∷ w.written;
                        } =
                          ground (arith, e, unasked, waits) in
                        let counted =
                          or-one_if http (elim job.client [ none ↦ false | some c ↦ mine c ]) in
                        settled told w' refl (ap (λ v. v.heap) same)
                          (omega (arith, counted, ap (λ v. answers mine http v.written) same))
                    | inr neither ↦ silent (ground (arith, e, unasked, neither))
                  ]
          ]

  finish_job-dues :
      (req : Request) (p : ℕ) (job : JobData) (w : SWorker) {w' : SWorker}
      → get_elem? w.heap p ≡ some job
      → finish_job req p job w ≡ ok w'
      → dues mine http w' ≤ dues mine http w
  unfolding finish_job
  finish_job-dues req p job w {w'} there e =
      let idle : w' ≡ w → dues mine http w' ≤ dues mine http w = λ same.
        omega (arith, dues_of mine http w' w (ap (λ v. v.heap) same) (ap (λ v. v.written) same)) in
      elim (Bool-cases (bytes_eq job.worker_id w.worker_id && (job.status == JobStatus.doing))) [
        | inr other ↦ idle (ground (arith, e, other))
        | inl mine ↦ elim (Option-cases job.response) [
          | inl early ↦ idle (ground (arith, e, mine, early))
          | inr (response, sent) ↦ elim (Bool-cases (matches req response)) [
            | inr wrong ↦ idle (ground (arith, e, mine, sent, wrong))
            | inl right ↦
                let ran : answer_client req p job response w ≡ ok w' =
                  ground (arith, e, mine, sent, right) in
                answer_client-dues p job w there (ground (arith, mine)) req response ran
          ]
        ]
      ]

  return_data-dues :
      (req : Request) (w : SWorker) {w' : SWorker}
      → return_data req w ≡ ok w'
      → dues mine http w' ≤ dues mine http w
  unfolding return_data
  return_data-dues req w {w'} e =
      let popped = pop_job_from_channel req.handle w in
      let (heap, worker_id, written) = pop_job_from_channel_rest req.handle w in
      let same : dues mine http popped.1 ≡ dues mine http w =
        dues_of mine http popped.1 w heap written in
      let idle : w' ≡ popped.1 → dues mine http w' ≤ dues mine http w = λ q.
        omega (
          arith,
          same,
          dues_of mine http w' popped.1 (ap (λ v. v.heap) q) (ap (λ v. v.written) q),
        ) in
      elim (Option-cases popped.0) [
        | inl empty ↦ idle (ground (arith, e, empty))
        | inr (p, taken) ↦ elim (Option-cases (get_elem? popped.1.heap p)) [
          | inl absent ↦ idle (ground (arith, e, taken, absent))
          | inr (job, there) ↦
              let ran : finish_job req p job popped.1 ≡ ok w' = ground (arith, e, taken, there) in
              omega (arith, same, finish_job-dues req p job popped.1 there ran)
        ]
      ]

  do_job_async-dues :
      (job_id : Bytes) (choose : Bytes → Choice) (packed : Request) (client : Connect) (w : SWorker)
      {w' : SWorker}
      → do_job_async job_id choose packed client w ≡ ok w'
      → dues mine http w' ≤ one_if (http || mine client) + dues mine http w
  unfolding do_job_async
  do_job_async-dues job_id choose packed client w {w'} e =
      let (req, ran, decoded) = first_value (req_decode_pack packed) e in
      let counted = one_if-or http (mine client) in
      let plain : (t : ℕ)
          → answer_plain t client w ≡ ok w'
          → dues mine http w' ≤ one_if (http || mine client) + dues mine http w =
        λ t q. omega (arith, counted, answer_plain-dues mine http t client w q) in
      let s : Submitted = record {
        handle = req.handle;
        params = req.params;
        params_type = req.params_type;
        params_handle_type = req.params_handle_type;
        client = client;
      } in
      elim (Bool-cases ((req.handle_len == 0) || not (has_name req.handle))) [
        | inl unnamed ↦ plain Pdt.error (rw unnamed at ran)
        | inr named ↦ elim (Bool-cases ((req.params_len == 0) || (length req.params == 0))) [
          | inl bare ↦ plain Pdt.error (rw (named, bare) at ran)
          | inr given ↦ go s plain (choose req.handle) (rw (named, given) at ran)
        ]
      ]
    where
      go :
          (s : Submitted)
          → ((t : ℕ)
              → answer_plain t client w ≡ ok w'
              → dues mine http w' ≤ one_if (http || mine client) + dues mine http w)
          → (choice : Choice)
          → (elim choice [
            | pool_full ↦ answer_plain Pdt.ratelimit client w
            | no_worker ↦ answer_plain Pdt.cant_do client w
            | takes_job ↦ submit job_id (record s { client = client }) w
            | goes_elsewhere ↦ ok w
          ])
            ≡ ok w'
          → dues mine http w' ≤ one_if (http || mine client) + dues mine http w
      go s plain pool_full q = plain Pdt.ratelimit q
      go s plain no_worker q = plain Pdt.cant_do q
      go s plain takes_job q = submit-dues mine http job_id (record s { client = client }) w q
      go s plain goes_elsewhere q =
          let same : w' ≡ w = cc in
          omega (arith, dues_of mine http w' w (ap (λ v. v.heap) same) (ap (λ v. v.written) same))

  -- The requests of the clients.
  abbrev pub requests : List Arrival → ℕ
  requests [] = 0
  requests (asks job_id choose packed client ∷ arrivals) =
      one_if (http || mine client) + requests arrivals
  requests (returns req ∷ arrivals) = requests arrivals

  -- Whatever requests and results arrive, in whatever order, and whichever clients are counted: the
  -- answers that the server gives these clients are, together with the jobs of theirs that a worker is
  -- still doing, at most as many as their requests, so that no client gets more answers than it has made
  -- requests, whichever results a worker sends. `http` says whether the waiting HTTP requests count.
  pub serve-dues :
      (arrivals : List Arrival) (w w' : SWorker)
      → serve arrivals w ≡ ok w'
      → answers mine http w'.written + doing_jobs mine http w'.heap
        ≤ answers mine http w.written + doing_jobs mine http w.heap + requests arrivals
  unfolding serve
  serve-dues [] w w' e =
      let same : w' ≡ w = ground (arith, e) in
      omega (arith, dues_of mine http w' w (ap (λ v. v.heap) same) (ap (λ v. v.written) same))
  serve-dues (asks job_id choose packed client ∷ arrivals) w w' e =
      let (w₁, ran, first) = first_value (do_job_async job_id choose packed client w) e in
      omega (
        arith,
        do_job_async-dues job_id choose packed client w first,
        serve-dues arrivals w₁ w' ran,
      )
  serve-dues (returns req ∷ arrivals) w w' e =
      let (w₁, ran, first) = first_value (return_data req w) e in
      omega (arith, return_data-dues req w first, serve-dues arrivals w₁ w' ran)
