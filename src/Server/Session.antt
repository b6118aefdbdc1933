-- ===== src/Server/Session.antt =====
-- pkg/server/worker.go, optimize.go and connect.go: what the server does with the frames of a worker,
-- from its first frame until it is gone.
-- The registry of the server stands in the session. A result goes to returnData at once, with or
-- without the result router between them. Metrics, alerts and log lines are left out.
pub mod Registers
pub mod Leaves
pub mod Ends
use nmid.Prelude.{
  ℕ, zero, suc, [], ◌∷◌, ◌==◌, ltb, Bool, true, false, not, if◌then◌else◌, some, Option, none,
}
use nmid.Wire.{Bytes, Outcome, ok, err, panics, ◌>>=◌}
use nmid.Model.Pdt
use nmid.Model.ConnType
use nmid.Server.Io.{Request, new_res, req_decode_pack, res_encode_pack, get_req_data}
use nmid.Server.Connect.Frame.{Frame, read_frame, worker_request}
use nmid.Server.Function as registry
use nmid.Server.Function.{FuncMap, add_func, del_worker_func, clean_worker_func, del_worker}
use nmid.Server.Dispatch.{SWorker, has_name, return_data, to_worker}

pub record Session : Type 0 where
  pub worker : SWorker
  pub worker_name : Bytes
  pub sleep : Bool
  pub funcs : FuncMap

-- The worker as the registry knows it; nothing sets its weight.
abbrev pub registered : Session → registry.SWorker
registered s = record { worker_id = s.worker.worker_id; weight = 0 }

-- A bare packet to the worker.
unfoldable pub answer_worker : ℕ → Session → Outcome Session
answer_worker data_type s = do
  packed ← res_encode_pack (record new_res { data_type = data_type })
  ok (record s { worker = record s.worker { written = to_worker packed.0 ∷ s.worker.written } })

-- addFunction
unfoldable pub add_function : Request → Session → Outcome Session
add_function req s =
    let function_name = get_req_data req in
    answer_worker Pdt.ok (
      if ltb 0 req.data_len
      then (if has_name function_name
          then record s { funcs = (add_func (some (registered s)) function_name s.funcs).0 }
          else s)
      else s)

-- delFunction, which does not answer.
unfoldable pub del_function : Request → Session → Session
del_function req s =
    let function_name = get_req_data req in
    if ltb 0 req.data_len
    then (if has_name function_name
        then record s { funcs = (del_worker_func s.worker.worker_id function_name s.funcs).0 }
        else s)
    else s

unfoldable pub worker_wakeup : Session → Session
worker_wakeup s = record s { sleep = false }

unfoldable pub do_limit : Session → Outcome Session
do_limit = answer_worker Pdt.ratelimit

unfoldable pub heart_beat_pong : Session → Outcome Session
heart_beat_pong = answer_worker Pdt.s_heartbeat_pong

unfoldable pub set_worker_name : Request → Session → Outcome Session
set_worker_name req s =
    let worker_name = get_req_data req in
    answer_worker Pdt.ok (
      if ltb 0 req.data_len
      then (if has_name worker_name then record s { worker_name = worker_name } else s)
      else s)

unfoldable pub give_result : Request → Session → Outcome Session
give_result req s = do worker ← return_data req s.worker; ok (record s { worker = worker })

-- The switch of RunWorkerOptimized, on the decoded request.
unfoldable pub handle_request : Request → Session → Outcome Session
handle_request req s =
    if req.data_type == Pdt.w_add_func
    then add_function req s
    else if req.data_type == Pdt.w_del_func
    then ok (del_function req s)
    else if req.data_type == Pdt.wakeup
    then ok (worker_wakeup s)
    else if req.data_type == Pdt.w_return_data
    then give_result req s
    else if req.data_type == Pdt.w_heartbeat_ping
    then heart_beat_pong s
    else if req.data_type == Pdt.w_set_name
    then set_worker_name req s
    else ok s

unfoldable pub run_worker_optimized : Frame → Session → Outcome Session
run_worker_optimized frame s = do req ← req_decode_pack (worker_request frame); handle_request req s

-- One turn of DoIO's loop while the frames come from a worker: the session behind it and the rest of
-- the stream, or none, where ReadFrame fails or the frame is not a worker's.
unfoldable pub do_io_turn : Bytes → Session → Outcome (Option (Session × Bytes))
do_io_turn stream s = elim (read_frame true stream) [
  | panics ↦ panics
  | err e ↦ ok none
  | ok taken ↦
      if not (taken.0.conn_type == ConnType.worker)
      then ok none
      else (do s' ← run_worker_optimized taken.0 s; ok (some (s', taken.1)))
]

-- The loop, one turn for each unit of fuel, until a turn is none: the session and what is left of the
-- stream; none when the fuel is out.
unfoldable pub do_io : ℕ → Bytes → Session → Option (Outcome (Session × Bytes))
do_io zero stream s = none
do_io (suc fuel) stream s = elim (do_io_turn stream s) [
  | panics ↦ some panics
  | err e ↦ some (err e)
  | ok none ↦ some (ok (s, stream))
  | ok (some turn) ↦ do_io fuel turn.1 turn.0
]

-- The end of DoIO when a worker's stream is at its end: DelWorker, and CloseWorkerConnect, which
-- CloseAll calls.
unfoldable pub worker_gone : Session → Session
worker_gone s =
    let worker_id = s.worker.worker_id in
    record s { funcs = clean_worker_func worker_id (del_worker worker_id s.funcs).0 }
