-- ===== src/Server/Gateway/Samples.antt =====
-- A request in JSON, for a function that echoes.
use nmid.Prelude.{◌≡◌, refl, [], ◌∷◌, Option, some, true, arith}
use nmid.Wire.{Bytes, ok}
use nmid.Model.{params_type_json}
use nmid.Model.Pdt
use nmid.Client.Response.{Response, new_res}
use nmid.Client.Calls.Answers.{IsReturned}
use nmid.Server.Gateway.{HttpRequest, RetStruct, http_do_work_by_client_handle, params_of}
use nmid.Server.Gateway.{request_time_out}
use nmid.Server.Gateway.Answers.{blank, IsCall, http_do_work_by_client_handle-IsReturned}
use nmid.Server.Gateway.Answers.{http_do_work_by_client_handle-unanswered}

abbrev echo : Bytes
echo = b'e' ∷ []

abbrev hi : Bytes
hi = b'h' ∷ b'i' ∷ []

abbrev from_json : Bytes → Option (Option Bytes)
from_json body = some (some body)

abbrev open_ret : Bytes → Option RetStruct
open_ret bytes = some (record { code = 0; ret_data = bytes })

abbrev request : HttpRequest
request = record {
  function_header = echo;
  function_path = [];
  params_type = some params_type_json;
  content_length = some 2;
  body = some hi;
}

request-IsCall : IsCall from_json open_ret request hi
unfolding params_of
request-IsCall = record {
  text = hi;
  body = refl;
  not_empty = λ e. cc;
  has_length = refl;
  encoded = refl;
  fits = omega arith;
}

abbrev answer : Response
answer = record new_res {
  data_type = Pdt.s_return_data;
  handle = echo;
  handle_len = 1;
  ret = hi;
  ret_len = 2;
}

answer-IsReturned : IsReturned echo answer
answer-IsReturned = record {
  data_type = refl;
  handle = refl;
  handle_len = λ e. omega arith;
  named = λ e. cc;
}

http_do_work_by_client_handle-IsReturned_example :
    http_do_work_by_client_handle from_json open_ret true request (answer ∷ [])
    ≡ ok (record (blank request) { status = some 200; return_data = true; body = hi })
http_do_work_by_client_handle-IsReturned_example =
    http_do_work_by_client_handle-IsReturned from_json open_ret request hi answer
      (record { code = 0; ret_data = hi }) request-IsCall answer-IsReturned (λ e. omega arith) refl
      refl

http_do_work_by_client_handle-unanswered_example :
    http_do_work_by_client_handle from_json open_ret true request []
    ≡ ok (record (blank request) { status = some 408; message_status = some request_time_out })
http_do_work_by_client_handle-unanswered_example =
    http_do_work_by_client_handle-unanswered from_json open_ret request hi request-IsCall
