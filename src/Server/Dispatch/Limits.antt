-- ===== src/Server/Dispatch/Limits.antt =====
-- The size of a worker's channels, and the jobs that find one full (pkg/server/optimize.go).
use nmid.Prelude.{ℕ, ◌%◌, ◌^◌, ◌≤◌, ◌≡◌, refl, [], ◌∷◌, ◌++◌, length, get_elem?, false}
use nmid.Prelude.{some, Option-cases, Bool-cases, inl, inr, ◌∙◌, arith, bytes_eq, ◌&&◌, not, ◌==◌}
use nmid.Wire.{Bytes, ok}
use nmid.Wire.Bind.{first_value}
use nmid.Model.Pdt
use nmid.Model.JobStatus
use nmid.Server.Io.{new_res, res_encode_pack}
use nmid.Server.Dispatch.{SWorker, JobData, Connect, Submitted, has_name, job_response, send_work}
use nmid.Server.Dispatch.{do_work, answer_plain, push_job_to_channel, submit, submitted_job}
use nmid.Server.Dispatch.{channel_size, to_client}
use nmid.Server.Io.{get_res_content}
use nmid.Server.Io.Encode.{packet_bytes, res_encode_pack-empty}
use nmid.Server.Dispatch.Submit.{get_elem?-end}
use nmid.Server.Dispatch.Channels.{queue, queue_of_channels, send_job-bounded, send_job_full}

send_work_channels :
    (p : ℕ) (job : JobData) (w : SWorker) {w' : SWorker}
    → send_work p job w ≡ ok w'
    → w'.job_channels ≡ w.job_channels
unfolding send_work
send_work_channels p job w e =
    elim (Bool-cases (has_name job.func_name && not (length job.params % 2 ^ 32 == 0))) [
      | inl sent ↦
          let (packed, ran, encoded) =
            first_value (res_encode_pack (job_response job)) (rw sent at e) in
          cc
      | inr kept ↦ let same = rw kept at e in cc
    ]

do_work_channels :
    (p : ℕ) (w : SWorker) {w' : SWorker} → do_work p w ≡ ok w' → w'.job_channels ≡ w.job_channels
unfolding do_work
do_work_channels p w {w'} e = elim (Option-cases (get_elem? w.heap p)) [
  | inl absent ↦ ground (arith, e, absent)
  | inr (job, there) ↦
      elim (Bool-cases (bytes_eq job.worker_id w.worker_id && (job.status == JobStatus.init))) [
        | inl mine ↦
            let ran : send_work p job w ≡ ok w' = ground (arith, e, there, mine) in
            send_work_channels p job w ran
        | inr other ↦ ground (arith, e, there, other)
      ]
]

answer_plain_channels :
    (data_type : ℕ) (client : Connect) (w : SWorker) {w' : SWorker}
    → answer_plain data_type client w ≡ ok w'
    → w'.job_channels ≡ w.job_channels
unfolding answer_plain
answer_plain_channels data_type client w e =
    let (packed, ran, encoded) =
      first_value (res_encode_pack (record new_res { data_type = data_type })) e in
    cc

-- Every channel is within its size.
abbrev IsLimited : SWorker → Type 0
IsLimited w = (j : Bytes) → length (queue j w) ≤ channel_size

IsLimited-job_channels :
    (w v : SWorker) → v.job_channels ≡ w.job_channels → IsLimited w → IsLimited v
IsLimited-job_channels w v e limited j = rw (queue_of_channels j v w e) (limited j)

push_job_to_channel-IsLimited :
    (p : ℕ) (w : SWorker) → IsLimited w → IsLimited (push_job_to_channel p w).0
unfolding push_job_to_channel
push_job_to_channel-IsLimited p w limited j = elim (Option-cases (get_elem? w.heap p)) [
  | inl absent ↦ ground (arith, absent, limited j)
  | inr (job, there) ↦ elim (Bool-cases (has_name job.func_name)) [
    | inl named ↦ ground (arith, there, named, send_job-bounded p job.func_name j w (limited j))
    | inr unnamed ↦ ground (arith, there, unnamed, limited j)
  ]
]

-- Whatever is submitted, no channel of the worker grows beyond its 1024 jobs.
submit-IsLimited :
    (job_id : Bytes) (s : Submitted) (w w' : SWorker)
    → IsLimited w
    → submit job_id s w ≡ ok w'
    → IsLimited w'
unfolding submit
submit-IsLimited job_id s w w' limited e =
    let w₁ : SWorker = record w { heap = w.heap ++ submitted_job job_id w.worker_id s ∷ [] } in
    let pushed = push_job_to_channel (length w.heap) w₁ in
    let kept : IsLimited pushed.0 =
      push_job_to_channel-IsLimited (length w.heap) w₁ (IsLimited-job_channels w w₁ refl limited) in
    elim (Bool-cases pushed.1) [
      | inl sent ↦
          let ran : do_work (length w.heap) pushed.0 ≡ ok w' = ground (arith, e, sent) in
          IsLimited-job_channels pushed.0 w' (do_work_channels (length w.heap) pushed.0 ran) kept
      | inr full ↦
          let ran : answer_plain Pdt.cant_do s.client pushed.0 ≡ ok w' = ground (arith, e, full) in
          IsLimited-job_channels pushed.0 w'
            (answer_plain_channels Pdt.cant_do s.client pushed.0 ran) kept
    ]

answer_plain_lem :
    (client : Connect) (w : SWorker)
    → answer_plain Pdt.cant_do client w
      ≡ ok (record w { written = to_client client (packet_bytes Pdt.cant_do []) ∷ w.written })
unfolding answer_plain get_res_content
answer_plain_lem client w =
    let res = record new_res { data_type = Pdt.cant_do } in rw (res_encode_pack-empty res refl) refl

push_job_to_channel_full :
    (p : ℕ) (job : JobData) (w : SWorker)
    → get_elem? w.heap p ≡ some job
    → channel_size ≤ length (queue job.func_name w)
    → ((push_job_to_channel p w).1 ≡ false)
      × ((j : Bytes) → queue j (push_job_to_channel p w).0 ≡ queue j w)
      × ((push_job_to_channel p w).0.written ≡ w.written)
unfolding push_job_to_channel
push_job_to_channel_full p job w there full =
    let (refused, kept, written) = send_job_full p job.func_name w full in
    elim (Bool-cases (has_name job.func_name)) [
      | inl named ↦ (
        ground (arith, there, named, refused),
        λ j. ground (arith, there, named, kept j),
        ground (arith, there, named, written),
      )
      | inr unnamed ↦ (
        ground (arith, there, unnamed),
        λ j. ground (arith, there, unnamed),
        ground (arith, there, unnamed),
      )
    ]

-- A job that finds its function's channel full is refused: its client is written a bare packet of
-- type PDT_CANT_DO, nothing goes to the worker, and every channel stays as it was.
submit_full :
    (job_id : Bytes) (s : Submitted) (w : SWorker)
    → channel_size ≤ length (queue s.handle w)
    → (w' : SWorker) × (submit job_id s w ≡ ok w')
      × (w'.written ≡ to_client s.client (packet_bytes Pdt.cant_do []) ∷ w.written)
      × ((j : Bytes) → queue j w' ≡ queue j w)
unfolding submit
submit_full job_id s w full =
    let job = submitted_job job_id w.worker_id s in
    let w₁ : SWorker = record w { heap = w.heap ++ job ∷ [] } in
    let pushed = push_job_to_channel (length w.heap) w₁ in
    let there = get_elem?-end w.heap job in
    let same : (j : Bytes) → queue j w₁ ≡ queue j w = λ j. queue_of_channels j w₁ w refl in
    let (refused, kept, written) =
      push_job_to_channel_full (length w.heap) job w₁ there (rw (same s.handle) full) in
    let w' : SWorker = record pushed.0 {
      written = to_client s.client (packet_bytes Pdt.cant_do []) ∷ pushed.0.written;
    } in
    (
      w',
      rw (refused, submit) (answer_plain_lem s.client pushed.0),
      rw written refl,
      λ j. queue_of_channels j w' pushed.0 refl ∙ kept j ∙ same j,
    )
