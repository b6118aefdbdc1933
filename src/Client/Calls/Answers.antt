-- ===== src/Client/Calls/Answers.antt =====
-- What Do of pkg/client/client.go makes of the response to its call.
use nmid.Prelude.{
  ℕ, ◌+◌, ◌<◌, ◌^◌, ◌≡◌, ◌≢◌, refl, ap, ◌∙◌, [], ◌∷◌, ◌++◌, ◌==◌, true, false, if◌then◌else◌,
  Option, none, some, List, length, arith, bytes_eq, bytes_eq_refl,
}
use nmid.Prelude.{◌||◌}
use nmid.Wire.{Bytes, ok, res_timeout}
use nmid.Wire.Uint32.{sizes}
use nmid.Wire.Frame.{frame_bytes}
use nmid.Table.{Table, load, store, delete, load-store, load-delete, IsUnique, store-IsUnique}
use nmid.Model.Pdt
use nmid.Model.ConnType
use nmid.Client.Request.Encode.{do_job_bytes, packed, content_pack_lem, encode_pack_lem}
use nmid.Client.Response.{Response}
use nmid.Client.Calls.{
  Client, req_of, is_empty, write, handler_resp, process_resp, do_call, call_with, safe_err_handler,
}

-- The handlers of a client; none behind a nil pointer.
abbrev pub handler_of : Bytes → Client → Option ℕ
handler_of j c = elim c.resp_handlers [ none ↦ none | some handlers ↦ load j handlers ]

is_empty_of : (xs : Bytes) → xs ≢ [] → is_empty xs ≡ false
is_empty_of [] h = absurd (h refl)
is_empty_of (x ∷ xs) h = refl

-- The client that has written a call and keeps its handler.
abbrev asked : Bytes → Bytes → ℕ → Table ℕ → Client → Client
asked func_name params callback handlers c = record c {
  req = some (packed Pdt.c_do_job func_name params (req_of c));
  resp_handlers = some (store func_name callback handlers);
  written =
      c.written
      ++ frame_bytes ConnType.client Pdt.c_do_job (do_job_bytes (req_of c) func_name params);
}

write-packed :
    (func_name params : Bytes) (callback : ℕ) (handlers : Table ℕ) (c : Client)
    → c.conn ≡ true
    → 28 + length func_name + length params < 2 ^ 32
    → let req = packed Pdt.c_do_job func_name params (req_of c) in
      write req
        (record c { req = some req; resp_handlers = some (store func_name callback handlers) })
      ≡ ok (asked func_name params callback handlers c)
unfolding write
write-packed func_name params callback handlers c on fits =
    let req = packed Pdt.c_do_job func_name params (req_of c) in
    let size : length (do_job_bytes (req_of c) func_name params)
        ≡ 16 + length func_name + length params =
      omega sizes in
    rw (encode_pack_lem req (omega (arith, size)) (omega (arith, size, fits))) (rw on refl)

-- The response is one for a call of this function.
pub record IsReturned (func_name : Bytes) (resp : Response) : Type 0 where
  pub data_type : resp.data_type ≡ Pdt.s_return_data
  pub handle : resp.handle ≡ func_name
  pub handle_len : resp.handle_len ≢ 0
  pub named : func_name ≢ []

process_resp-returned :
    (func_name : Bytes) (callback : ℕ) (resp : Response) (rest : List Response) (handlers : Table ℕ)
    (c : Client)
    → IsReturned func_name resp
    → c.res_queue ≡ resp ∷ rest
    → c.resp_handlers ≡ some handlers
    → load func_name handlers ≡ some callback
    → process_resp c
      ≡ ok (record c {
        res_queue = rest;
        called = (callback, resp) ∷ c.called;
        resp_handlers = some (delete func_name handlers);
      })
unfolding process_resp handler_resp
process_resp-returned func_name callback resp rest handlers c is first there loaded =
    let named : is_empty resp.handle ≡ false = rw is.handle (is_empty_of func_name is.named) in
    let length_there : (resp.handle_len == 0) ≡ false = ground (arith, is.handle_len) in
    let no_error : (resp.data_type == Pdt.error)
          || ((resp.data_type == Pdt.cant_do) || (resp.data_type == Pdt.ratelimit))
        ≡ false =
      ground (arith, is.data_type) in
    let answer : (resp.data_type == Pdt.s_return_data) ≡ true = ground (arith, is.data_type) in
    let found : load resp.handle handlers ≡ some callback = rw is.handle loaded in
    rw (first, process_resp)
      (rw no_error (
        rw answer (
          rw (named, handler_resp)
            (rw length_there (
              rw there (
                rw found (
                  ap
                    (λ h. ok (record c {
                      res_queue = rest;
                      called = (callback, resp) ∷ c.called;
                      resp_handlers = some (delete h handlers);
                    }))
                    is.handle)))))))

do_call-call_with :
    (func_name params : Bytes) (callback : ℕ) (arrived : List Response) (handlers : Table ℕ)
    (c : Client)
    → c.conn ≡ true
    → c.resp_handlers ≡ some handlers
    → do_call func_name params callback arrived c
      ≡ call_with handlers func_name params callback arrived c
unfolding do_call
do_call-call_with func_name params callback arrived handlers c on there = ground (arith, on, there)

-- A call of a client that is connected and has answered what came before: its packet is written, its
-- callback is called once, with the response, and then is no handler any more; the other handlers
-- stay, and the error handler is not called.
pub do_call-returned :
    (func_name params : Bytes) (callback : ℕ) (resp : Response) (handlers : Table ℕ) (c : Client)
    → IsReturned func_name resp
    → c.conn ≡ true
    → c.res_queue ≡ []
    → c.resp_handlers ≡ some handlers
    → IsUnique handlers
    → 28 + length func_name + length params < 2 ^ 32
    → (c' : Client) × (do_call func_name params callback (resp ∷ []) c ≡ ok c')
      × (c'.called ≡ (callback, resp) ∷ c.called)
      × (c'.errors ≡ c.errors)
      × (c'.written
          ≡ c.written
            ++ frame_bytes ConnType.client Pdt.c_do_job (do_job_bytes (req_of c) func_name params))
      × ((j : Bytes) → handler_of j c' ≡ (if bytes_eq func_name j then none else load j handlers))
unfolding call_with
do_call-returned func_name params callback resp handlers c is on idle there unique fits =
    let c₁ = asked func_name params callback handlers c in
    let kept = store func_name callback handlers in
    let c₂ : Client = record c₁ { res_queue = c.res_queue ++ resp ∷ [] } in
    let loaded : load func_name kept ≡ some callback =
      ground (arith, load-store func_name func_name callback handlers, bytes_eq_refl func_name) in
    let answered =
      process_resp-returned func_name callback resp [] kept c₂ is (rw idle refl) refl loaded in
    (
      record c₂ {
        res_queue = [];
        called = (callback, resp) ∷ c.called;
        resp_handlers = some (delete func_name kept);
      },
      do_call-call_with func_name params callback (resp ∷ []) handlers c on there
          ∙ rw (content_pack_lem Pdt.c_do_job func_name params (req_of c) (omega arith), call_with)
              (rw (write-packed func_name params callback handlers c on fits) answered),
      refl,
      refl,
      refl,
      λ j. ground (
        arith,
        load-delete func_name j kept (store-IsUnique func_name callback handlers unique),
        load-store func_name j callback handlers,
      ),
    )

-- A call that nothing comes back for: the error handler, where there is one, is called with the time
-- out, and no other.
pub do_call-unanswered :
    (func_name params : Bytes) (callback : ℕ) (handlers : Table ℕ) (c : Client)
    → c.conn ≡ true
    → c.res_queue ≡ []
    → c.resp_handlers ≡ some handlers
    → c.has_err_handler ≡ true
    → 28 + length func_name + length params < 2 ^ 32
    → (c' : Client) × (do_call func_name params callback [] c ≡ ok c')
      × (c'.called ≡ c.called)
      × (c'.errors ≡ res_timeout ∷ c.errors)
unfolding call_with process_resp safe_err_handler
do_call-unanswered func_name params callback handlers c on idle there heard fits =
    let c₁ = asked func_name params callback handlers c in
    let c₂ : Client = record c₁ { res_queue = c.res_queue ++ [] } in
    let none_there : c.res_queue ++ [] ≡ [] = rw idle refl in
    let timed : process_resp c₂ ≡ ok (record c₂ { errors = res_timeout ∷ c.errors }) =
      ground (arith, none_there, heard) in
    (
      record c₂ { errors = res_timeout ∷ c.errors },
      do_call-call_with func_name params callback [] handlers c on there
          ∙ rw (content_pack_lem Pdt.c_do_job func_name params (req_of c) (omega arith), call_with)
              (rw (write-packed func_name params callback handlers c on fits) timed),
      refl,
      refl,
    )
