-- ===== src/Server/Gateway.antt =====
-- pkg/server/gateway.go: a request of HTTP that is answered by a call of the server.
-- The headers and the body of the request are given; JSON and msgpack are parameters: `from_json` is
-- json.Unmarshal and then msgpack.Marshal, none where the first fails, and `open_ret` opens the result
-- of a function. The answer is what the ResponseWriter has: once the status is written, no header
-- changes any more. Listening, routing and log lines are left out.
pub mod Answers
mod Samples
use nmid.Prelude.{
  ℕ, [], ◌∷◌, ◌++◌, ◌==◌, ◌&&◌, not, List, Bool, true, false, if◌then◌else◌, Option, none,
}
use nmid.Prelude.{some}
use nmid.Wire.{Bytes, Error, Outcome, ok, err, panics, res_timeout}
use nmid.Model.{params_type_msgpack, params_type_json}
use nmid.Model.Pdt
use nmid.Client.Response.{Response}
use nmid.Client.Calls.{Client, new_client, client_conn, set_params_type, do_call, is_empty}

-- What the code reads of the request. `params_type` is none where the header is empty or no number,
-- `content_length` where it is not known, and the body where it cannot be read.
pub record HttpRequest : Type 0 where
  pub function_header : Bytes
  pub function_path : Bytes
  pub params_type : Option ℕ
  pub content_length : Option ℕ
  pub body : Option Bytes

-- The texts of the header NMessageStatusType.
pub data Status : Type 0 where
  request_time_out request_error ret_unmarshal_error ret_code_error : Status
  params_length_zero read_params_empty json_unmarshal_error params_msgpack_error : Status
  client_do_error : Status

pub record ResponseWriter : Type 0 where
  pub status : Option ℕ
  pub function_name : Bytes
  pub message_status : Option Status
  pub return_data : Bool
  pub body : Bytes

pub record RetStruct : Type 0 where
  pub code : ℕ
  pub ret_data : Bytes

-- Set of the two headers that name an error.
unfoldable pub set_message : Status → ResponseWriter → ResponseWriter
set_message s w = elim w.status [ none ↦ record w { message_status = some s } | some code ↦ w ]

unfoldable pub write_header : ℕ → ResponseWriter → ResponseWriter
write_header code w = elim w.status [ none ↦ record w { status = some code } | some first ↦ w ]

-- Write, with the header before it.
unfoldable pub write_body : Bytes → ResponseWriter → ResponseWriter
unfolding write_header
write_body bytes w =
    let w' = write_header 200 (record w { return_data = true }) in
    record w' { body = w'.body ++ bytes }

abbrev is_timeout : Error → Bool
is_timeout res_timeout = true
is_timeout _ = false

-- The ErrHandler.
unfoldable pub err_handler : Error → ResponseWriter → ResponseWriter
err_handler e w =
    let w' = if is_timeout e then write_header 408 (set_message request_time_out w) else w in
    write_header 500 (set_message request_error w')

abbrev pub function_of : HttpRequest → Bytes
function_of r = if is_empty r.function_header then r.function_path else r.function_header

abbrev pub type_of : HttpRequest → ℕ
type_of r = elim r.params_type [ none ↦ params_type_msgpack | some t ↦ t ]

abbrev pub is_zero : Option ℕ → Bool
is_zero none = false
is_zero (some n) = n == 0

module _ (from_json : Bytes → Option (Option Bytes)) (open_ret : Bytes → Option RetStruct) where
  unfoldable pub resp_handler : Response → ResponseWriter → ResponseWriter
  resp_handler resp w =
      if (resp.data_type == Pdt.s_return_data) && not (resp.ret_len == 0)
      then elim (open_ret resp.ret) [
        | none ↦ set_message ret_unmarshal_error w
        | some ret ↦
            if not (ret.code == 0) then set_message ret_code_error w else write_body ret.ret_data w
      ]
      else w

  -- What the handlers make of the answer, in the order of their calls.
  unfoldable pub on_errors : List Error → ResponseWriter → ResponseWriter
  on_errors [] w = w
  on_errors (e ∷ es) w = err_handler e (on_errors es w)

  unfoldable pub on_called : List (ℕ × Response) → ResponseWriter → ResponseWriter
  on_called [] w = w
  on_called ((callback, resp) ∷ called) w = resp_handler resp (on_called called w)

  -- The end of the handler, with the parameters of the call.
  unfoldable pub call_function :
      Bytes → Bytes → List Response → Client → ResponseWriter → Outcome ResponseWriter
  call_function function_name params arrived c w = elim (do_call function_name params 0 arrived c) [
    | panics ↦ panics
    | err e ↦ ok (set_message client_do_error w)
    | ok c' ↦ ok (on_called c'.called (on_errors c'.errors w))
  ]

  -- The parameters out of the body, or the error; a type that is none of the two has none.
  unfoldable pub params_of : ℕ → Bytes → Bytes × Option Status
  params_of params_type body =
      if params_type == params_type_msgpack
      then elim (from_json body) [
        | none ↦ ([], some json_unmarshal_error)
        | some none ↦ ([], some params_msgpack_error)
        | some (some params) ↦ (params, none)
      ]
      else if params_type == params_type_json
      then (body, none)
      else ([], none)

  unfoldable pub with_params :
      Bytes
      → Bytes × Option Status
      → List Response
      → Client
      → ResponseWriter
      → Outcome ResponseWriter
  with_params function_name (params, some s) arrived c w = ok (set_message s w)
  with_params function_name (params, none) arrived c w =
      call_function function_name params arrived c w

  -- The part from the reading of the body on.
  unfoldable pub with_body :
      Bytes → ℕ → Option Bytes → List Response → Client → ResponseWriter → Outcome ResponseWriter
  with_body function_name params_type none arrived c w = ok (set_message read_params_empty w)
  with_body function_name params_type (some []) arrived c w = ok (set_message read_params_empty w)
  with_body function_name params_type (some (b ∷ bs)) arrived c w =
      with_params function_name (params_of params_type (b ∷ bs)) arrived c w

  -- HTTPDoWorkByClientHandle. Without a connection GetClient gives nil, whose fields are assigned.
  unfoldable pub http_do_work_by_client_handle :
      Bool → HttpRequest → List Response → Outcome ResponseWriter
  http_do_work_by_client_handle dialled r arrived =
      let c = record (set_params_type (type_of r) (client_conn dialled new_client).0) {
        has_err_handler = true;
      } in
      let w : ResponseWriter = record {
        status = none;
        function_name = r.function_header;
        message_status = none;
        return_data = false;
        body = [];
      } in
      if not dialled
      then panics
      else if is_zero r.content_length
      then ok (set_message params_length_zero w)
      else with_body (function_of r) (type_of r) r.body arrived c w
