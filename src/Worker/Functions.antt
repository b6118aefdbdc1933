-- ===== src/Worker/Functions.antt =====
-- pkg/worker/worker.go and function.go: a worker's functions, what it tells its servers about them,
-- and the jobs that it runs.
-- A JobFunc is a function of the response, none where it returns an error; what it does besides is
-- its own. What the code starts with `go` happens here at once. `dial` says which servers can be
-- reached. Tracing, alerts and log lines are left out.
pub mod Announce
pub mod Reply
use mathlib.Core.List.{map}
use nmid.Prelude.{◌++◌}
use nmid.Worker.Agent.{new_agent}
use nmid.Prelude.{ℕ, [], ◌∷◌, ◌==◌, Bool, true, false, not, if◌then◌else◌, Option, none, some, List}
use nmid.Prelude.{get_elem?, set, bytes_eq}
use nmid.Wire.{
  Bytes, Error, Outcome, ok, err, panics, ◌>>=◌, none_agents, none_functions, dial_failed,
}
use nmid.Wire.{
  function_exists, function_not_exist, no_funcs, not_found, funcname_error, params_error,
}
use nmid.Table.{Table, load, store, delete}
use nmid.Model.Pdt
use nmid.Worker.Request.{Request, set_worker_name, add_function_pack, del_function_pack, ret_pack}
use nmid.Worker.Response.{Response}
use nmid.Worker.Agent.{Agent, write, connect, re_connect, close, grab, wakeup, heart_beat_ping}
use nmid.Worker.Agent.{del_old_func_msg, re_add_func_msg, re_set_worker_name}

abbrev pub JobFunc : Type 0 → Type 0
JobFunc M = Response M → Option Bytes

pub record Function (M : Type 0) : Type 0 where
  pub func : JobFunc M
  pub func_name : Bytes

pub record Worker (M : Type 0) : Type 0 where
  pub worker_id : Bytes
  pub worker_name : Bytes
  pub agents : List Agent
  pub funcs : Table (Function M)
  pub ready : Bool
  pub running : Bool

-- The packet that MsgBroadcast makes of a name.
abbrev pack_name : Bytes → ℕ → Request → Request
pack_name name flag req =
    if flag == Pdt.w_set_name
    then set_worker_name name req
    else if flag == Pdt.w_add_func
    then add_function_pack name req
    else if flag == Pdt.w_del_func
    then del_function_pack name req
    else add_function_pack name req

unfoldable pub msg_broadcast : Bytes → ℕ → List Agent → Outcome (List Agent)
msg_broadcast name flag [] = ok []
msg_broadcast name flag (a ∷ agents) = do
  a' ← write (record a { req = pack_name name flag a.req })
  rest ← msg_broadcast name flag agents
  ok (a' ∷ rest)

-- The loops of WorkerReady: each connection, then each function's name.
unfoldable pub connect_all : (Bytes → Bool) → List Agent → List Agent × Bool
connect_all dial [] = ([], true)
connect_all dial (a ∷ agents) =
    let first = connect (dial a.addr) a in
    let rest = connect_all dial agents in
    if first.1 then (first.0 ∷ rest.0, rest.1) else (first.0 ∷ agents, false)

abbrev pub if_empty : Bytes → Bytes → Bytes
if_empty [] other = other
if_empty (b ∷ bs) other = b ∷ bs

abbrev pub no_agent : List Agent → Bool
no_agent [] = true
no_agent (a ∷ agents) = false

module _ {M : Type 0} where
  unfoldable pub broadcast_each : ℕ → Table (Function M) → List Agent → Outcome (List Agent)
  broadcast_each flag [] agents = ok agents
  broadcast_each flag ((name, function) ∷ t) agents = do
    agents' ← msg_broadcast name flag agents
    broadcast_each flag t agents'

  unfoldable pub add_function : Bytes → JobFunc M → Worker M → Outcome (Worker M)
  add_function func_name job_func w = elim (load func_name w.funcs) [
    | some function ↦ err function_exists
    | none ↦ do
      let function : Function M = record { func = job_func; func_name = func_name }
      agents ← (if w.running then msg_broadcast func_name Pdt.w_add_func w.agents else ok w.agents)
      ok (record w { funcs = store func_name function w.funcs; agents = agents })
  ]

  unfoldable pub del_function : Bytes → Worker M → Outcome (Worker M)
  del_function func_name w = elim (load func_name w.funcs) [
    | none ↦ err function_not_exist
    | some function ↦ do
      agents ← (if w.running then msg_broadcast func_name Pdt.w_del_func w.agents else ok w.agents)
      ok (record w { funcs = delete func_name w.funcs; agents = agents })
  ]

  -- len(w.Funcs) == 0
  abbrev pub no_entry : Table (Function M) → Bool
  no_entry [] = true
  no_entry (entry ∷ t) = false

  unfoldable pub get_function : Bytes → Worker M → Outcome (Function M)
  get_function func_name w =
      if no_entry w.funcs then err no_funcs else elim (load func_name w.funcs) [
        | none ↦ err not_found
        | some f ↦ if bytes_eq f.func_name func_name then ok f else err not_found
      ]

  -- WorkerReady, and the error that it returns.
  unfoldable pub worker_ready : (Bytes → Bool) → Worker M → Outcome (Worker M × Option Error)
  worker_ready dial w =
      let connected = connect_all dial w.agents in
      if no_agent w.agents
      then ok (w, some none_agents)
      else if no_entry w.funcs
      then ok (w, some none_functions)
      else if not connected.1
      then ok (record w { agents = connected.0 }, some dial_failed)
      else (do
        named ← msg_broadcast w.worker_name Pdt.w_set_name connected.0
        announced ← broadcast_each Pdt.w_add_func w.funcs named
        ok (record w { agents = announced; ready = true }, none))

  -- SetWorkerId and GetWorkerKey; `id` is what utils.GetId draws.
  unfoldable pub set_worker_id : Bytes → Bytes → Worker M → Worker M
  set_worker_id id worker_id w = record w { worker_id = if_empty worker_id id }

  unfoldable pub get_worker_key : Bytes → Worker M → Bytes
  get_worker_key id w = if_empty (if_empty w.worker_name w.worker_id) id

  unfoldable pub add_server : Bytes → ℕ → Worker M → Worker M
  add_server addr now w = record w { agents = w.agents ++ new_agent addr now ∷ [] }

  -- WorkerClose, when its signal to stop is received.
  unfoldable pub worker_close : Worker M → Outcome (Worker M)
  worker_close w =
      if w.running
      then (do
        agents ← broadcast_each Pdt.w_del_func w.funcs w.agents
        ok (record w { agents = map close agents; running = false }))
      else ok w

  -- The end of DoFunction: the job's fields go into the agent's request, with the result.
  unfoldable pub return_result : Bytes → Response M → Agent → Outcome Agent
  return_result ret resp a = do
    packed ← ret_pack ret (record a.req {
      handle_len = resp.handle_len;
      handle = resp.handle;
      params_len = resp.params_len;
      params = resp.params;
      job_id_len = resp.job_id_len;
      job_id = resp.job_id;
    })
    write (record a { req = packed })

  -- DoFunction for a response that `a` read.
  unfoldable pub do_function : Response M → Agent → Worker M → Outcome Agent
  do_function resp a w =
      if resp.data_type == Pdt.s_get_data
      then elim (get_function resp.handle w) [
        | panics ↦ panics
        | err e ↦ err e
        | ok function ↦
            if not (bytes_eq function.func_name resp.handle)
            then err funcname_error
            else if resp.params_len == 0
            then err params_error
            else elim (function.func resp) [ none ↦ ok a | some ret ↦ return_result ret resp a ]
      ]
      else ok a

  -- handleResponse, for a response that `a` read: what becomes of the agent. An error of DoFunction
  -- is logged.
  unfoldable pub handle_response : ℕ → Response M → Agent → Worker M → Outcome Agent
  handle_response now resp a w =
      if resp.data_type == Pdt.tosleep
      then wakeup a
      else if resp.data_type == Pdt.s_get_data
      then elim (do_function resp a w) [ panics ↦ panics | err e ↦ ok a | ok a' ↦ ok a' ]
      else if resp.data_type == Pdt.no_job
      then grab a
      else if resp.data_type == Pdt.s_heartbeat_pong
      then ok (record a { last_time = now })
      else if resp.data_type == Pdt.wakeuped
      then ok a
      else grab a

  -- The loops of WorkerReConnect.
  unfoldable pub each_func :
      (Bytes → Agent → Outcome Agent) → Table (Function M) → Agent → Outcome Agent
  each_func send [] a = ok a
  each_func send ((name, function) ∷ t) a = do a' ← send name a; each_func send t a'

  -- WorkerReConnect of one agent. Without a new connection the messages are lost.
  unfoldable pub worker_re_connect : Bool → ℕ → Agent → Worker M → Outcome Agent
  worker_re_connect dialled now a w = do
    a₁ ← each_func del_old_func_msg w.funcs a
    let a₂ = (re_connect dialled now (close a₁)).0
    a₃ ← re_set_worker_name w.worker_name a₂
    each_func re_add_func_msg w.funcs a₃
