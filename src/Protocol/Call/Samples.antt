-- ===== src/Protocol/Call/Samples.antt =====
-- A worker that becomes ready, and a call of its function, at small names.
use nmid.Prelude.{
  ◌∷◌, [], ◌≡◌, ◌≢◌, refl, true, false, arith, Option, some, none, Bool-cases, inl, inr, ◌++◌,
}
use nmid.Prelude.{bytes_eq, bytes_eq_refl, bytes_eq_iff, if◌then◌else◌}
use nmid.Prelude.{◌+◌, ◌≤◌, List}
use nmid.Server.Dispatch.{SWorker}
use nmid.Server.Dispatch.Answer.{IsResult, return_data-submit}
use nmid.Wire.Bind.{first_value}
use nmid.Server.Io.{Request}
use nmid.Server.Dispatch.{Submitted, submit}
use nmid.Server.Dispatch.Submit.{IsSubmitted}
use nmid.Server.Dispatch.Dues.{answers, doing_jobs}
use nmid.Server.Dispatch.Once.{Arrival, asks, returns, serve, requests, serve-dues}
use nmid.Protocol.JobRequest.{framed}
use nmid.Protocol.Call.Parts.{asked_for, do_job_async-submit}
use nmid.Wire.{Bytes, ok}
use nmid.Model.ConnType
use nmid.Table.{load}
use nmid.Client.Request as client
use nmid.Client.Response as client_response
use nmid.Server.Io.{new_req}
use nmid.Server.Function as registry
use nmid.Server.Function.{new_func_map, add_func, Chance}
use nmid.Server.Function.Balance.{any_live}
use nmid.Server.Dispatch.{Choice, takes_job}
use nmid.Prelude.{Bool}
use nmid.Table.{store}
use nmid.Server.Function.Registry.{new_func_map-IsValid, add_func-IsValid}
use nmid.Server.Function.View.{workers_of, workers_of-add_func}
use nmid.Server.Dispatch.{Connect, get_job_channel}
use nmid.Server.Dispatch.Channels.{queue}
use nmid.Server.Session.{Session, registered, do_io, worker_gone}
use nmid.Server.Session.Leaves.{Absent}
use nmid.Server.Session.Ends.{do_io_total}
use nmid.Worker.Agent.{Agent, new_agent}
use nmid.Worker.Functions.{Worker, Function}
use nmid.Worker.Functions.Announce.{greeted}
use nmid.Protocol.Registration.{IsWelcome, provides, do_io-greeted}
use nmid.Protocol.Call.{call}
use nmid.Protocol.Call.Returns.{IsCall, call-returns}

abbrev echo : Bytes
echo = b'e' ∷ b'c' ∷ b'h' ∷ b'o' ∷ []

abbrev hi : Bytes
hi = b'h' ∷ b'i' ∷ []

abbrev takes_all : Bytes → Option Bytes
takes_all params = some params

abbrev refuses : Bytes → Option Bytes
refuses params = none

-- A function that returns its parameters.
abbrev echo_function : Function Bytes
echo_function = record { func = λ resp. some resp.params; func_name = echo }

abbrev agent : Agent
agent = new_agent (b':' ∷ b'1' ∷ []) 0

abbrev echo_worker : Worker Bytes
echo_worker = record {
  worker_id = b'9' ∷ [];
  worker_name = hi;
  agents = agent ∷ [];
  funcs = (echo, echo_function) ∷ [];
  ready = false;
  running = true;
}

abbrev other_worker : registry.SWorker
other_worker = record { worker_id = b'1' ∷ []; weight = 0 }

-- The server's session, when another worker has the function already.
abbrev session : Session
session = record {
  worker = record { worker_id = b'9' ∷ []; heap = []; job_channels = []; written = [] };
  worker_name = [];
  sleep = false;
  funcs = (add_func (some other_worker) echo new_func_map).0;
}

differ : bytes_eq other_worker.worker_id session.worker.worker_id ≡ false
differ = ground (arith, bytes_eq_iff (b'1' ∷ []) (b'9' ∷ []))

session-Absent : (j : Bytes) → Absent session.worker.worker_id (workers_of j session.funcs)
unfolding workers_of load
session-Absent j =
    rw (workers_of-add_func other_worker b'e' (b'c' ∷ b'h' ∷ b'o' ∷ []) j new_func_map)
      (elim (Bool-cases (bytes_eq echo j)) [ inl e ↦ rw e (differ, tt) | inr e ↦ rw e tt ])

is_welcome : IsWelcome echo_worker session
unfolding load
is_welcome = record {
  unique = (refl, tt);
  named = record { nonempty = λ e. cc; fits = omega arith };
  names = (record { nonempty = λ e. cc; fits = omega arith }, tt);
  valid = add_func-IsValid (some other_worker) echo new_func_map-IsValid;
  absent = session-Absent;
}

do_io-greeted_example :
    (s' : Session) × (do_io 3 (greeted echo_worker agent).written session ≡ some (ok (s', [])))
    × (s'.worker_name ≡ hi)
    × ((j : Bytes)
        → workers_of j s'.funcs
          ≡ workers_of j session.funcs
            ++ (if provides j echo_worker.funcs then registered session ∷ [] else []))
    × ((j : Bytes) → workers_of j (worker_gone s').funcs ≡ workers_of j session.funcs)
do_io-greeted_example = do_io-greeted echo_worker agent session 3 is_welcome (omega arith)

do_io_total_example : do_io 3 hi session ≢ none
do_io_total_example = do_io_total 3 hi session (omega arith)

abbrev peer : Connect
peer = record { id = b'5' ∷ []; conn_type = ConnType.client }

abbrev connected_agent : Agent
connected_agent = record agent { conn = true }

-- The session, when its worker has registered the function behind the other worker, which is gone.
abbrev ready : Session
ready = record session { funcs = (add_func (some (registered session)) echo session.funcs).0 }

abbrev own_live : Bytes → Bool
own_live worker_id = bytes_eq worker_id (b'9' ∷ [])

abbrev picks_none : List registry.SWorker → Option registry.SWorker
picks_none ws = none

abbrev chance : Chance
chance = record { draw = λ i. 4; pick = picks_none }

served_by : any_live own_live (workers_of echo ready.funcs) ≡ true
unfolding workers_of add_func load store
served_by = ground (arith, bytes_eq_refl echo, bytes_eq_refl (b'9' ∷ []))

is_call :
    IsCall takes_all refuses chance own_live
      (b'7' ∷ [])
      echo
      hi
      client.new_req
      peer
      ready
      connected_agent
      echo_worker
      echo_function
      hi
unfolding load queue get_job_channel
is_call = record {
  types = omega arith;
  named = λ e. cc;
  given = λ e. cc;
  fits = omega arith;
  connected = record { id = λ e. cc; conn_type = refl };
  law = λ ws w e. absurd cc;
  valid =
      add_func-IsValid (some (registered session)) echo
        (add_func-IsValid (some other_worker) echo new_func_map-IsValid);
  served = served_by;
  only = λ v there alive. ground (arith, bytes_eq_iff v.worker_id (b'9' ∷ []), alive);
  idle = ground arith;
  on = refl;
  fresh = refl;
  loaded = ground (arith, bytes_eq_refl echo);
  func_name = refl;
  result = ground arith;
}

call-returns_example :
    (reply : client_response.Response) × (call takes_all refuses chance own_live
        (b'7' ∷ [])
        echo
        hi
        client.new_req
        new_req
        peer
        ready
        connected_agent
        echo_worker
      ≡ ok reply)
    × (reply.ret ≡ hi)
    × (reply.handle ≡ echo)
    × (reply.params ≡ hi)
call-returns_example =
    call-returns takes_all refuses chance own_live (b'7' ∷ []) echo hi client.new_req peer ready
      connected_agent echo_worker echo_function hi is_call new_req

abbrev echo_hi : Submitted
echo_hi = asked_for echo hi client.new_req peer

abbrev echo_result : Request
echo_result = record new_req {
  handle = echo;
  handle_len = 4;
  params_len = 2;
  ret = hi;
  ret_len = 2;
}

abbrev takes_every : Bytes → Choice
takes_every handle = takes_job

-- The request, and its result.
abbrev arrivals : List Arrival
arrivals =
    asks (b'7' ∷ []) takes_every (framed client.new_req echo hi new_req) peer
    ∷ returns echo_result
    ∷ []

echo_hi-IsSubmitted : IsSubmitted (b'7' ∷ []) echo_hi
echo_hi-IsSubmitted = record { named = λ e. cc; given = λ e. cc; fits = omega arith }

echo_result-IsResult : IsResult echo_hi echo_result
echo_result-IsResult = record {
  handle = refl;
  handle_len = refl;
  params_len = refl;
  ret_len = refl;
  fits = omega arith;
}

served : (w' : SWorker) × (serve arrivals session.worker ≡ ok w')
unfolding serve
served =
    let (w', both, _, _) =
      return_data-submit (b'7' ∷ []) echo_hi echo_result session.worker echo_hi-IsSubmitted
        echo_result-IsResult is_call.connected is_call.idle in
    let (w₁, ran, first) = first_value (submit (b'7' ∷ []) echo_hi session.worker) both in
    (
      w',
      rw
          (do_job_async-submit (b'7' ∷ []) echo hi client.new_req new_req peer session.worker
            takes_every refl is_call.types (omega arith) is_call.named is_call.given)
          (rw first (rw ran refl)),
    )

-- The answers to the one client.
abbrev to_peer : Connect → Bool
to_peer client = bytes_eq client.id peer.id

serve-dues_example :
    answers to_peer false served.0.written + doing_jobs to_peer false served.0.heap
    ≤ answers to_peer false session.worker.written
      + doing_jobs to_peer false session.worker.heap
      + requests to_peer false arrivals
serve-dues_example = serve-dues to_peer false arrivals session.worker served.0 served.1
