-- ===== src/Server/Dispatch/Samples.antt =====
-- One job and its result, and a result for one of two jobs.
use nmid.Prelude.{◌∷◌, [], ◌≡◌, refl, arith, bytes_eq_refl}
use nmid.Wire.{Bytes, ok}
use nmid.Model.ConnType
use nmid.Server.Io.{Request, new_req}
use nmid.Server.Dispatch.{SWorker, Connect, Submitted, submitted_job, submit, return_data}
use nmid.Server.Dispatch.{get_job_channel}
use nmid.Table.{load}
use nmid.Prelude.{replicate}
use nmid.Server.Dispatch.Channels.{queue}
use nmid.Server.Dispatch.Submit.{IsSubmitted, IsQueued, submit-IsQueued, doing_job}
use nmid.Server.Dispatch.Answer.{IsResult, IsClient, IsAnswered}
use nmid.Server.Dispatch.Answer.{return_data-IsAnswered}

abbrev echo : Bytes
echo = b'e' ∷ b'c' ∷ b'h' ∷ b'o' ∷ []

abbrev hi : Bytes
hi = b'h' ∷ b'i' ∷ []

abbrev idle_worker : SWorker
idle_worker = record { worker_id = b'9' ∷ []; heap = []; job_channels = []; written = [] }

abbrev peer : Connect
peer = record { id = b'5' ∷ []; conn_type = ConnType.client }

abbrev echo_hi : Submitted
echo_hi = record {
  handle = echo;
  params = hi;
  params_type = 5;
  params_handle_type = 10;
  client = peer;
}

abbrev result : Request
result = record new_req {
  handle = echo;
  handle_len = 4;
  params_len = 2;
  ret = b'y' ∷ b'o' ∷ b'u' ∷ [];
  ret_len = 3;
}

abbrev job_id : Bytes
job_id = b'j' ∷ []

echo_hi-IsSubmitted : IsSubmitted job_id echo_hi
echo_hi-IsSubmitted = record { named = λ e. cc; given = λ e. cc; fits = omega arith }

result-IsResult : IsResult echo_hi result
result-IsResult = record {
  handle = refl;
  handle_len = refl;
  params_len = refl;
  ret_len = refl;
  fits = omega arith;
}

peer-IsClient : IsClient peer
peer-IsClient = record { id = λ e. cc; conn_type = refl }

nothing_queued : queue echo idle_worker ≡ []
unfolding queue get_job_channel load
nothing_queued = refl

-- A second job of the same function, from another client.
abbrev other_id : Bytes
other_id = b'k' ∷ []

abbrev other : Submitted
other = record echo_hi { client = record { id = b'6' ∷ []; conn_type = ConnType.client } }

-- The worker with both jobs in its channel, and a result that names the second.
abbrev busy_worker : SWorker
busy_worker = record {
  worker_id = b'9' ∷ [];
  heap =
      doing_job (submitted_job job_id (b'9' ∷ []) echo_hi)
      ∷ doing_job (submitted_job other_id (b'9' ∷ []) other)
      ∷ [];
  job_channels = (echo, 0 ∷ 1 ∷ []) ∷ [];
  written = [];
}

abbrev late_result : Request
late_result = record result { job_id = other_id; job_id_len = 1 }

both_queued : queue echo busy_worker ≡ 0 ∷ 1 ∷ []
unfolding queue get_job_channel load
both_queued = ground (arith, bytes_eq_refl echo)

late_result-IsResult : IsResult echo_hi late_result
late_result-IsResult = record {
  handle = refl;
  handle_len = refl;
  params_len = refl;
  ret_len = refl;
  fits = omega arith;
}

return_data-IsAnswered_example :
    (w' : SWorker) × (return_data late_result busy_worker ≡ ok w')
    × IsAnswered 0
        (1 ∷ [])
        (submitted_job job_id (b'9' ∷ []) echo_hi)
        peer
        late_result
        busy_worker
        w'
return_data-IsAnswered_example =
    return_data-IsAnswered job_id echo_hi late_result busy_worker (b'9' ∷ []) 0 (1 ∷ []) refl
      echo_hi-IsSubmitted late_result-IsResult peer-IsClient both_queued refl

-- A job that the idle worker takes, and one that finds the channel full.
taken_job :
    (w' : SWorker) × (submit job_id echo_hi idle_worker ≡ ok w')
    × IsQueued (submitted_job job_id (b'9' ∷ []) echo_hi) idle_worker w'
taken_job =
    submit-IsQueued job_id echo_hi idle_worker echo_hi-IsSubmitted (rw nothing_queued (omega arith))

abbrev full_worker : SWorker
full_worker = record idle_worker { job_channels = (echo, replicate 1024 0) ∷ [] }

all_queued : queue echo full_worker ≡ replicate 1024 0
unfolding queue get_job_channel load
all_queued = ground (arith, bytes_eq_refl echo)
