-- ===== src/Server/Gateway/Answers.antt =====
-- What a request of HTTP is answered with (pkg/server/gateway.go).
use nmid.Prelude.{ℕ, ◌+◌, ◌<◌, ◌^◌, ◌≡◌, ◌≢◌, refl, [], ◌∷◌, ◌==◌, List, true, false, Option}
use nmid.Prelude.{none, some, not, ◌&&◌, length, arith, ap, ◌∙◌, Bool-cases, inl, inr}
use nmid.Wire.{Bytes, ok, res_timeout}
use nmid.Model.{params_type_msgpack, params_type_json}
use nmid.Model.Pdt
use nmid.Client.Response.{Response}
use nmid.Client.Calls.{Client, new_client, client_conn, set_params_type}
use nmid.Client.Calls.Answers.{IsReturned, do_call-returned, do_call-unanswered}
use nmid.Server.Gateway.{HttpRequest, ResponseWriter, RetStruct, request_time_out}
use nmid.Server.Gateway.{
  http_do_work_by_client_handle, call_function, params_of, function_of, type_of,
}
use nmid.Server.Gateway.{is_zero, on_called, on_errors, err_handler, resp_handler, set_message}
use nmid.Server.Gateway.{write_header, write_body, with_body, with_params}

-- The client that a request calls with.
abbrev caller : ℕ → Client
caller t = record (set_params_type t (client_conn true new_client).0) { has_err_handler = true }

record IsReady (c : Client) : Type 0 where
  connected : c.conn ≡ true
  idle : c.res_queue ≡ []
  handlers : c.resp_handlers ≡ some []
  fresh : (c.called ≡ []) × (c.errors ≡ [])

caller-IsReady : (t : ℕ) → IsReady (caller t)
unfolding set_params_type client_conn
caller-IsReady t =
    elim (Bool-cases (not (t == params_type_msgpack) && not (t == params_type_json))) [
      | inl other ↦ record {
        connected = ground (arith, other);
        idle = ground (arith, other);
        handlers = ground (arith, other);
        fresh = (ground (arith, other), ground (arith, other));
      }
      | inr known ↦ record {
        connected = ground (arith, known);
        idle = ground (arith, known);
        handlers = ground (arith, known);
        fresh = (ground (arith, known), ground (arith, known));
      }
    ]

-- The answer as the handler finds it.
abbrev pub blank : HttpRequest → ResponseWriter
blank r = record {
  status = none;
  function_name = r.function_header;
  message_status = none;
  return_data = false;
  body = [];
}

module _ (from_json : Bytes → Option (Option Bytes)) (open_ret : Bytes → Option RetStruct) where
  -- A request with a body that can be put into parameters, which make a packet with its function.
  pub record IsCall (r : HttpRequest) (params : Bytes) : Type 0 where
    pub text : Bytes
    pub body : r.body ≡ some text
    pub not_empty : text ≢ []
    pub has_length : is_zero r.content_length ≡ false
    pub encoded : params_of from_json open_ret (type_of r) text ≡ (params, none)
    pub fits : 28 + length (function_of r) + length params < 2 ^ 32

  called_with :
      (r : HttpRequest) (params : Bytes) (arrived : List Response)
      → IsCall r params
      → http_do_work_by_client_handle from_json open_ret true r arrived
        ≡ call_function from_json open_ret
            (function_of r)
            params
            arrived
            (caller (type_of r))
            (blank r)
  unfolding http_do_work_by_client_handle with_body with_params
  called_with r params arrived is =
      let has_length = is.has_length in
      rw (has_length, http_do_work_by_client_handle)
        (ap
            (λ b.
              with_body from_json open_ret (function_of r) (type_of r) b arrived
                (caller (type_of r)) (blank r))
            is.body
          ∙ with_text is.text is.not_empty is.encoded)
    where
      with_text :
          (text : Bytes)
          → text ≢ []
          → params_of from_json open_ret (type_of r) text ≡ (params, none)
          → with_body from_json open_ret
              (function_of r)
              (type_of r)
              (some text)
              arrived
              (caller (type_of r))
              (blank r)
            ≡ call_function from_json open_ret
                (function_of r)
                params
                arrived
                (caller (type_of r))
                (blank r)
      with_text [] full encoded = absurd (full refl)
      with_text (b ∷ bs) full encoded = rw (encoded, with_body) refl

  -- A request whose function answers with the code 0 gets the data of the answer, with the status
  -- 200; if the request has a length and a body that can be put into parameters, which with the name
  -- fit into a packet, and the answer is one to the call.
  pub http_do_work_by_client_handle-IsReturned :
      (r : HttpRequest) (params : Bytes) (resp : Response) (ret : RetStruct)
      → IsCall r params
      → IsReturned (function_of r) resp
      → resp.ret_len ≢ 0
      → open_ret resp.ret ≡ some ret
      → ret.code ≡ 0
      → http_do_work_by_client_handle from_json open_ret true r (resp ∷ [])
        ≡ ok (record (blank r) { status = some 200; return_data = true; body = ret.ret_data })
  unfolding call_function on_called on_errors resp_handler write_body write_header
  http_do_work_by_client_handle-IsReturned r params resp ret is back there opens fine =
      let ready = caller-IsReady (type_of r) in
      let (c', did, called, errors, _, _) =
        do_call-returned (function_of r) params 0 resp [] (caller (type_of r)) back ready.connected
          ready.idle ready.handlers tt is.fits in
      let all_called : c'.called ≡ (0, resp) ∷ [] = called ∙ ap (◌∷◌ (0, resp)) ready.fresh.0 in
      let no_errors : c'.errors ≡ [] = errors ∙ ready.fresh.1 in
      let returned : (resp.data_type == Pdt.s_return_data) && not (resp.ret_len == 0) ≡ true =
        ground (arith, back.data_type, there) in
      called_with r params (resp ∷ []) is
      ∙ rw (did, call_function)
          (rw (all_called, on_called)
            (rw (no_errors, on_errors)
              (rw (returned, resp_handler) (rw (opens, resp_handler) (ground (arith, fine))))))

  -- A request that nothing comes back for in time is answered with the status 408 and as timed out,
  -- though the handler also writes a status 500 behind it; if the request is a call.
  pub http_do_work_by_client_handle-unanswered :
      (r : HttpRequest) (params : Bytes)
      → IsCall r params
      → http_do_work_by_client_handle from_json open_ret true r []
        ≡ ok (record (blank r) { status = some 408; message_status = some request_time_out })
  unfolding call_function on_called on_errors err_handler set_message write_header
  http_do_work_by_client_handle-unanswered r params is =
      let ready = caller-IsReady (type_of r) in
      let (c', did, called, errors) =
        do_call-unanswered (function_of r) params 0 [] (caller (type_of r)) ready.connected
          ready.idle ready.handlers refl is.fits in
      let none_called : c'.called ≡ [] = called ∙ ready.fresh.0 in
      let timed : c'.errors ≡ res_timeout ∷ [] = errors ∙ ap (◌∷◌ res_timeout) ready.fresh.1 in
      called_with r params [] is
      ∙ rw (did, call_function) (rw (none_called, on_called) (rw (timed, on_errors) refl))
