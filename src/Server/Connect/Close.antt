-- ===== src/Server/Connect/Close.antt =====
-- pkg/server/connect.go: how a connection ends, from the loop of DoIO to CloseAll; and
-- CloseSelfWorker of pkg/server/worker.go.
-- The registry of the server stands in the connection. A frame carries what RunWorkerOptimized or
-- RunClientOptimized makes of the registry, none where it panics, as ReqDecodePack does on contents
-- that are cut off. A run that panics is none, whatever its deferred calls do before the process
-- ends. Metrics, alerts and log lines are left out.
pub mod Ends
mod Samples
use nmid.Prelude.{ℕ, ◌+◌, ◌==◌, ◌&&◌, Bool, true, false, Option, none, some, if◌then◌else◌}
use nmid.Wire.{Bytes}
use nmid.Model.ConnType
use nmid.Server.Function.{FuncMap, clean_worker_func, del_worker}

-- `conn` says whether the field is set, `run_worker` and `run_client` likewise; `timer` is that of the
-- client, `close_signals` the number of times that the channel closeCh was closed.
pub record Connect : Type 0 where
  pub id : Bytes
  pub closed : Bool
  pub close_signals : ℕ
  pub conn : Bool
  pub conn_type : ℕ
  pub run_worker : Bool
  pub run_client : Bool
  pub timer : Bool
  pub funcs : FuncMap

-- The connection that NewConnect makes.
abbrev pub new_connect : Bytes → FuncMap → Connect
new_connect id funcs = record {
  id = id;
  closed = false;
  close_signals = 0;
  conn = true;
  conn_type = ConnType.init;
  run_worker = false;
  run_client = false;
  timer = false;
  funcs = funcs;
}

-- closeSignal
unfoldable pub close_signal : Connect → Connect
close_signal c =
    if c.closed then c else record c { closed = true; close_signals = c.close_signals + 1 }

-- CloseSelfWorker, when the connection is no more there.
unfoldable pub close_self_worker : Connect → Connect
close_self_worker c = record c { funcs = clean_worker_func c.id c.funcs }

-- The client of the connection, with its timer stopped.
abbrev without_client : Connect → Connect
without_client c = record c { run_client = false; timer = if c.run_client then false else c.timer }

-- CloseConnect
unfoldable pub close_connect : Connect → Connect
close_connect c =
    if c.conn
    then without_client (record (close_signal c) { conn = false; run_worker = false })
    else c

-- CloseWorkerConnect; a method of a worker that is nil panics.
unfoldable pub close_worker_connect : Connect → Option Connect
close_worker_connect c =
    if c.conn
    then (if c.run_worker
        then some (record (close_self_worker (record (close_signal c) { conn = false })) {
          run_worker = false;
        })
        else none)
    else some c

-- CloseClientConnect
unfoldable pub close_client_connect : Connect → Connect
close_client_connect c =
    if c.conn then without_client (record (close_signal c) { conn = false }) else c

-- CloseAll
unfoldable pub close_all : Connect → Option Connect
close_all c =
    if c.conn_type == ConnType.worker && c.run_worker
    then close_worker_connect c
    else if c.conn_type == ConnType.client && c.run_client
    then some (close_client_connect c)
    else some (close_connect c)

-- The errors of ReadFrame that end the loop: of the network, the end of the stream, and all others,
-- such as a stream that ends within a frame, or a frame that is not accepted.
pub data Failure : Type 0 where
  op_error eof other_error : Failure

-- What ReadFrame gives, turn by turn.
pub data Readings : Type 0 where
  fails : Failure → Readings
  temporary : Readings → Readings
  reads : ℕ → (FuncMap → Option FuncMap) → Readings → Readings

-- A turn of the loop that has a frame: getSWClinet and getSCClient make what is missing, and the
-- frame runs; none where that panics.
unfoldable pub take_frame : ℕ → (FuncMap → Option FuncMap) → Connect → Option Connect
take_frame conn_type runs c =
    if conn_type == ConnType.worker
    then elim (runs c.funcs) [
      | none ↦ none
      | some funcs ↦ some (record c { conn_type = conn_type; run_worker = true; funcs = funcs })
    ]
    else if conn_type == ConnType.client
    then elim (runs c.funcs) [
      | none ↦ none
      | some funcs ↦ some (record c {
        conn_type = conn_type;
        run_client = true;
        timer = if c.run_client then c.timer else true;
        funcs = funcs;
      })
    ]
    else some (record c { conn_type = conn_type })

-- The turn that ends the loop.
unfoldable pub end_of_loop : Failure → Connect → Option Connect
end_of_loop op_error c =
    if c.conn_type == ConnType.worker
    then close_worker_connect c
    else if c.conn_type == ConnType.client
    then some (close_client_connect c)
    else some c
end_of_loop eof c =
    if c.conn_type == ConnType.worker
    then some (record c { funcs = (del_worker c.id c.funcs).0 })
    else some c
end_of_loop other_error c = some (close_connect c)

-- DoIO, with the CloseAll that it defers.
unfoldable pub do_io : Readings → Connect → Option Connect
do_io (fails e) c = elim (end_of_loop e c) [ none ↦ none | some c' ↦ close_all c' ]
do_io (temporary rest) c = do_io rest c
do_io (reads conn_type runs rest) c = elim (take_frame conn_type runs c) [
  | none ↦ none
  | some c' ↦ do_io rest c'
]
