-- ===== src/Client/Calls.antt =====
-- pkg/client/client.go: a client's connection, its calls and their handlers.
-- A handler is a number; `called` holds the responses that handlers were called with, latest first,
-- and `errors` what the error handler was called with. `written` is the bytes that the connection has
-- taken, and `res_queue` the responses that ClientRead has ready for the channel, oldest first. What a
-- goroutine waits for has happened before the step or never does. Log lines are left out.
pub mod Answers
use nmid.Prelude.{
  ℕ, [], ◌∷◌, ◌++◌, ◌==◌, ◌&&◌, ◌||◌, not, Bool, true, false, if◌then◌else◌, Option, none, some,
  List, length,
}
use nmid.Wire.{Bytes, Error, Outcome, ok, err, panics, ◌>>=◌, conn_fail, conn_nil, res_timeout}
use nmid.Table.{Table, load, store, delete}
use nmid.Model.{
  params_type_msgpack, params_type_json, params_handle_type_encode, params_handle_type_original,
}
use nmid.Model.Pdt
use nmid.Client.Request.{Request, new_req, content_pack, encode_pack}
use nmid.Client.Response.{Response, get_res_error, decode_pack}

-- `resp_handlers` is none when the pointer is nil.
pub record Client : Type 0 where
  pub conn : Bool
  pub req : Option Request
  pub res_queue : List Response
  pub has_err_handler : Bool
  pub resp_handlers : Option (Table ℕ)
  pub written : Bytes
  pub called : List (ℕ × Response)
  pub errors : List Error

abbrev pub new_client : Client
new_client = record {
  conn = false;
  req = none;
  res_queue = [];
  has_err_handler = false;
  resp_handlers = some [];
  written = [];
  called = [];
  errors = [];
}

-- ClientConn; `dialled` says whether the server could be reached. Without an answer there is no
-- connection.
unfoldable pub client_conn : Bool → Client → Client × Bool
client_conn dialled c = (record c { conn = dialled; written = [] }, dialled)

-- Close, which does nothing without a connection.
unfoldable pub close : Client → Client
close c = if c.conn then record c { conn = false; res_queue = []; resp_handlers = none } else c

abbrev pub req_of : Client → Request
req_of c = elim c.req [ none ↦ new_req | some req ↦ req ]

unfoldable pub set_params_type : ℕ → Client → Client
set_params_type p_type c =
    if not (p_type == params_type_msgpack) && not (p_type == params_type_json)
    then c
    else record c { req = some (record (req_of c) { params_type = p_type }) }

unfoldable pub set_params_handle : ℕ → Client → Client
set_params_handle h_type c =
    if not (h_type == params_handle_type_encode) && not (h_type == params_handle_type_original)
    then c
    else record c { req = some (record (req_of c) { params_handle_type = h_type }) }

-- Write of a request.
unfoldable pub write : Request → Client → Outcome Client
write req c =
    if not c.conn
    then err conn_nil
    else (do buf ← encode_pack req; ok (record c { written = c.written ++ buf }))

abbrev pub is_empty : Bytes → Bool
is_empty [] = true
is_empty (b ∷ bs) = false

-- HandlerResp; the map behind a nil pointer cannot be locked.
unfoldable pub handler_resp : Response → Client → Outcome Client
handler_resp resp c =
    if is_empty resp.handle || (resp.handle_len == 0) then ok c else elim c.resp_handlers [
      | none ↦ panics
      | some handlers ↦ elim (load resp.handle handlers) [
        | none ↦ ok c
        | some handler ↦ ok (record c {
          called = (handler, resp) ∷ c.called;
          resp_handlers = some (delete resp.handle handlers);
        })
      ]
    ]

unfoldable pub safe_err_handler : Error → Client → Client
safe_err_handler e c = if c.has_err_handler then record c { errors = e ∷ c.errors } else c

-- An error packet; get_res_error is never none for one.
abbrev failed : Response → Client → Client
failed resp c = elim (get_res_error resp) [ none ↦ c | some e ↦ safe_err_handler e c ]

-- ProcessResp: it takes the oldest response, or the time is out.
unfoldable pub process_resp : Client → Outcome Client
process_resp c = elim c.res_queue [
  | [] ↦ ok (safe_err_handler res_timeout c)
  | resp ∷ rest ↦
      let c' = record c { res_queue = rest } in
      if (resp.data_type == Pdt.error)
        || ((resp.data_type == Pdt.cant_do) || (resp.data_type == Pdt.ratelimit))
      then ok (failed resp c')
      else if resp.data_type == Pdt.s_return_data
      then handler_resp resp c'
      else ok c'
]

-- The part of Do behind its tests; `arrived` is the responses that come in before the time is out.
unfoldable pub call_with : Table ℕ → Bytes → Bytes → ℕ → List Response → Client → Outcome Client
call_with handlers func_name params callback arrived c = do
  req ← content_pack Pdt.c_do_job func_name params (req_of c)
  c' ←
      write req
        (record c { req = some req; resp_handlers = some (store func_name callback handlers) })
  process_resp (record c' { res_queue = c'.res_queue ++ arrived })

unfoldable pub do_call : Bytes → Bytes → ℕ → List Response → Client → Outcome Client
do_call func_name params callback arrived c =
    if not c.conn then err conn_fail else elim c.resp_handlers [
      | none ↦ panics
      | some handlers ↦ call_with handlers func_name params callback arrived c
    ]

-- What ReadFrame gives to a turn of ClientRead.
pub data Reading : Type 0 where
  frame : Bytes → Reading
  temporary : Reading
  op_error : Reading
  other_error : Reading

-- A turn of ClientRead, and whether the loop goes on: on an error that is none of the network's
-- operations it closes the connection and makes a new one.
unfoldable pub client_read : Reading → Bool → Client → Outcome (Client × Bool)
client_read (frame packet) dialled c = elim (decode_pack packet) [
  | panics ↦ panics
  | err e ↦ ok (c, true)
  | ok resp ↦ ok (record c { res_queue = c.res_queue ++ resp ∷ [] }, true)
]
client_read temporary dialled c = ok (c, true)
client_read op_error dialled c = ok (c, false)
client_read other_error dialled c = ok (client_conn dialled (close c))
