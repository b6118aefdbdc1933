-- ===== src/Worker/Agent.antt =====
-- pkg/worker/agent.go: a worker's connection to one server, and what it writes.
-- `written` is the bytes that the connection has taken, oldest first; a write to an open connection
-- takes all of them. Times are in milliseconds, as utils.GetNowSecond gives them.
pub mod Texts
use nmid.Prelude.{ℕ, [], ◌++◌, Bool, true, false, if◌then◌else◌}
use nmid.Wire.{Bytes, Outcome, ok, ◌>>=◌}
use nmid.Worker.Request.{Request, new_req, encode_pack, heart_beat_pack, set_worker_name}
use nmid.Worker.Request.{add_function_pack, del_function_pack, grab_data_pack, wakeup_pack}
use nmid.Worker.Request.{limit_exceed_pack}

pub record Agent : Type 0 where
  pub addr : Bytes
  pub conn : Bool
  pub req : Request
  pub last_time : ℕ
  pub written : Bytes

abbrev pub new_agent : Bytes → ℕ → Agent
new_agent addr now = record {
  addr = addr;
  conn = false;
  req = new_req;
  last_time = now;
  written = [];
}

-- Write: the packet is encoded also when there is no connection to write it to.
unfoldable pub write : Agent → Outcome Agent
write a = do
  buf ← encode_pack a.req
  ok (if a.conn then record a { written = a.written ++ buf } else a)

-- The packing of a request, and Write.
abbrev write_req : (Request → Request) → Agent → Outcome Agent
write_req pack a = write (record a { req = pack a.req })

unfoldable pub del_old_func_msg : Bytes → Agent → Outcome Agent
del_old_func_msg func_name = write_req (del_function_pack func_name)

unfoldable pub re_add_func_msg : Bytes → Agent → Outcome Agent
re_add_func_msg func_name = write_req (add_function_pack func_name)

unfoldable pub re_set_worker_name : Bytes → Agent → Outcome Agent
re_set_worker_name worker_name = write_req (set_worker_name worker_name)

unfoldable pub heart_beat_ping : Agent → Outcome Agent
heart_beat_ping = write_req heart_beat_pack

unfoldable pub grab : Agent → Outcome Agent
grab = write_req grab_data_pack

unfoldable pub wakeup : Agent → Outcome Agent
wakeup = write_req wakeup_pack

unfoldable pub limit_exceed : Agent → Outcome Agent
limit_exceed = write_req limit_exceed_pack

-- Connect and ReConnect; `dialled` says whether the server could be reached. What went to the old
-- connection is not on the new one. On a failure Connect leaves no connection, and ReConnect the
-- one that was there.
unfoldable pub connect : Bool → Agent → Agent × Bool
connect dialled a =
    if dialled
    then (record a { conn = true; written = [] }, true)
    else (record a { conn = false }, false)

unfoldable pub re_connect : Bool → ℕ → Agent → Agent × Bool
re_connect dialled now a =
    if dialled then (record a { conn = true; written = []; last_time = now }, true) else (a, false)

unfoldable pub close : Agent → Agent
close a = record a { conn = false }
