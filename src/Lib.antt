-- ===== src/Lib.antt =====
-- nmid: a broker between clients that want functions run and workers that run them.
--
-- A client writes a job to the server (Do in pkg/client/client.go). The server's connection reads
-- the frame (ReadFrame and DoIO in pkg/server/connect.go), decodes it (ReqDecodePack in
-- pkg/server/io.go), chooses a worker that has registered the function (GetBestWorker in
-- pkg/server/function.go), queues the job in the worker's channel for that function and writes it to
-- the worker (doJobAsync in pkg/server/optimize.go, doWork in pkg/server/worker.go). The worker
-- reads and runs it and writes the result back (pkg/worker), the server takes the job from the
-- channel and answers its client (returnData), and the client decodes the answer. Beside the broker,
-- a client may call a service directly (pkg/direct).
--
-- Files:
--   Prelude       names of the libraries, Boolean tests, lists over the native numbers
--   Wire          byte slices, make, copy and encoding/binary, results that may be errors or panics;
--                 its children carry the proofs about filling a buffer (Fill), reading it (Scan) and
--                 frames (Frame)
--   Table         Go maps and sync.Map as lists of entries
--   Model         the constants of pkg/model/const.go
--   Server/Io     pkg/server/io.go
--   Server/Connect/Frame       ReadFrame and DoIO of pkg/server/connect.go
--   Server/Connect/WriteQueue  Write and writeLoop of pkg/server/connect.go, as a step relation
--   Server/Connect/Close       the end of a connection: the errors of DoIO, CloseAll and what it calls
--   Server/Function            pkg/server/function.go; Registry is its invariant, View what a client
--                              of it sees, Balance the choice of a worker
--   Server/Dispatch            doJobAsync, doWork, returnData and the channels between them; Pool is the
--                              dispatch pool and the result router of pkg/server/optimize.go
--   Server/Gateway             HTTPDoWorkByClientHandle of pkg/server/gateway.go
--   Server/Session             what the server does with the frames of a worker: RunWorkerOptimized and
--                              the loop of DoIO, until the worker is gone
--   Server/JobDataList         pkg/server/joblist.go
--   Server/JobList             pkg/server/job.go, on a heap of jobs
--   Client        pkg/client/request.go, response.go and ReadFrame of client.go; Calls is the rest of
--                 client.go, Pool is pool_client.go, as a step relation
--   Worker        pkg/worker/request.go, response.go and ReadFrame of agent.go; Agent is the rest of
--                 agent.go, Functions is worker.go and function.go
--   Protocol      the four legs of a job, from the writer of one party to the reader of the next; Call
--                 puts them together to a whole call, Registration is a worker that comes and goes
--   Direct        pkg/direct: Proto is proto.go, Exchange a round of server.go with a call of
--                 client.go, Conn the server's loop and the connection of a client, PoolClient the
--                 connections of pool_client.go, as a step relation
--   Registry      pkg/registry: Discovery is the client of a discovery cluster, Nmidr that of the nmid
--                 registry, Scheduler is UseScheduler of registry.go
--   Dashboard     pkg/dashboard: Health is health.go, its goroutines as a step relation
--   Metric        pkg/metric/getmetric.go
--   Security      pkg/security and its use in NewConnect of pkg/server/connect.go
--
-- Conventions. Definitions keep the names of the source in snake case. Bytes and string characters
-- are numbers; a uint32 is a number whose arithmetic is taken modulo 2 ^ 32 where the code computes
-- in uint32, and an int has 64 bits, so that sizes do not wrap. A slice is the whole of its backing
-- array. A call ends with a value, a returned error or a run-time panic (Wire.Outcome). A stream is
-- the bytes that the peer sends until it closes. Struct methods take the struct and return it.
-- Where Go chooses (the order of a map, a random number, which goroutine goes next), the model takes
-- the choice as an argument or as a step. The loop of GetBestWorker runs on fuel; one unit more than
-- the function has workers is enough, since each round but the last takes a worker out. So does the
-- loop of DoIO, for which one unit more than the stream has bytes is enough, since each turn but the
-- last reads a frame; so does that of handleConn, with as much fuel; and so does the walk to the tail of
-- a linked list, for which one unit more than the list has jobs is enough.
--
-- Not modelled: the timing of deadlines, heartbeats and rate limits; metrics, logs and alerts; TCP and
-- HTTP themselves; the discovering client of pkg/client; the loop of WorkerDo; the breaker and the
-- limiters; the side car, the pages of the dashboard and pkg/service, which call HTTP; listeners,
-- configuration and the process; the SDKs and the examples. A job or a result that a pool accepts is
-- run at once in Server/Dispatch and Server/Session, while Server/Dispatch/Pool is about the order in
-- which a pool runs what it accepts. In Server/Dispatch each function is one step of one goroutine,
-- and in Server/Function each operation is one atomic step. A panic ends a run: what the deferred calls
-- do before the process dies is left out.
pub mod Client
pub mod Dashboard
pub mod Direct
pub mod Metric
pub mod Model
pub mod Prelude
pub mod Protocol
pub mod Registry
pub mod Security
pub mod Server
pub mod Table
pub mod Wire
pub mod Worker
