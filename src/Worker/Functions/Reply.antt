-- ===== src/Worker/Functions/Reply.antt =====
-- DoFunction of pkg/worker/worker.go, for a job whose function the worker has.
use nmid.Prelude.{◌+◌, ◌<◌, ◌^◌, ◌≡◌, ◌≢◌, refl, ◌++◌, true, length, arith, some, bytes_eq_refl}
use nmid.Prelude.{[], ◌∷◌, false}
use nmid.Wire.{Bytes, ok}
use nmid.Wire.Frame.{frame_bytes}
use nmid.Wire.Uint32.{sizes}
use nmid.Table.{Table, load}
use nmid.Model.Pdt
use nmid.Model.ConnType
use nmid.Worker.Request.{Request}
use nmid.Worker.Request.Encode.{IsSized, ret_bytes, packed, ret_pack_lem, encode_pack_lem}
use nmid.Worker.Response.{Response}
use nmid.Worker.Agent.{Agent, write}
use nmid.Worker.Functions.{Function, Worker, get_function, do_function, return_result, no_entry}

module _ {M : Type 0} where
  -- What DoFunction copies from the job into the agent's request.
  abbrev pub job_request : Response M → Request → Request
  job_request resp req = record req {
    handle_len = resp.handle_len;
    handle = resp.handle;
    params_len = resp.params_len;
    params = resp.params;
    job_id_len = resp.job_id_len;
    job_id = resp.job_id;
  }

  -- The worker has this function for the job, which has parameters.
  pub record IsRun (resp : Response M) (w : Worker M) (function : Function M) (ret : Bytes)
      : Type 0 where
    pub data_type : resp.data_type ≡ Pdt.s_get_data
    pub loaded : load resp.handle w.funcs ≡ some function
    pub named : function.func_name ≡ resp.handle
    pub given : resp.params_len ≢ 0
    pub result : function.func resp ≡ some ret

  no_entry-load :
      (t : Table (Function M)) (j : Bytes) (function : Function M)
      → load j t ≡ some function
      → no_entry t ≡ false
  unfolding load
  no_entry-load [] j function e = ground (arith, e)
  no_entry-load (entry ∷ t) j function e = refl

  get_function_lem :
      (resp : Response M) (w : Worker M) (function : Function M) (ret : Bytes)
      → IsRun resp w function ret
      → get_function resp.handle w ≡ ok function
  unfolding get_function
  get_function_lem resp w function ret run =
      rw (no_entry-load w.funcs resp.handle function run.loaded)
        (rw run.loaded (rw run.named (rw (bytes_eq_refl resp.handle) refl)))

  do_function-return_result :
      (resp : Response M) (a : Agent) (w : Worker M) (function : Function M) (ret : Bytes)
      → IsRun resp w function ret
      → do_function resp a w ≡ return_result ret resp a
  unfolding do_function
  do_function-return_result resp a w function ret run = ground (
    arith,
    run.data_type,
    get_function_lem resp w function ret run,
    run.named,
    bytes_eq_refl resp.handle,
    run.given,
    run.result,
  )

  -- The agent writes the result, with the job's fields, behind what it has written.
  pub do_function-written :
      (resp : Response M) (a : Agent) (w : Worker M) (function : Function M) (ret : Bytes)
      → IsRun resp w function ret
      → a.conn ≡ true
      → IsSized ret (job_request resp a.req)
      → 28 + length resp.handle + length resp.params + length ret + length resp.job_id < 2 ^ 32
      → (a' : Agent) × (do_function resp a w ≡ ok a')
        × (a'.written
            ≡ a.written
              ++ frame_bytes ConnType.worker Pdt.w_return_data
                  (ret_bytes ret (job_request resp a.req)))
  unfolding return_result write
  do_function-written resp a w function ret run on sized fits =
      let req = job_request resp a.req in
      let size : length (ret_bytes ret req)
          ≡ 16 + length resp.handle + length resp.params + length ret + length resp.job_id =
        omega sizes in
      (
        record a {
          req = packed ret req;
          written = a.written ++ frame_bytes ConnType.worker Pdt.w_return_data (ret_bytes ret req);
        },
        rw (do_function-return_result resp a w function ret run, ret_pack_lem ret req sized)
            (rw (encode_pack_lem (packed ret req) (omega (arith, size)) (omega (arith, size, fits)))
              (rw on refl)),
        refl,
      )
