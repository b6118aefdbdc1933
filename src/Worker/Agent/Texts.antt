-- ===== src/Worker/Agent/Texts.antt =====
-- The packets of an agent that carry a plain text.
use nmid.Prelude.{ℕ, ◌+◌, ◌<◌, ◌≡◌, refl, ◌++◌, arith, length, true, ◌%◌, ◌^◌}
use native.Mathlib.Nat.{mod-eq_of_lt}
use nmid.Wire.{Bytes, ok}
use nmid.Wire.Frame.{frame_bytes}
use nmid.Model.Pdt
use nmid.Model.ConnType
use nmid.Worker.Request.{Request, set_worker_name, add_function_pack, del_function_pack}
use nmid.Worker.Request.Encode.{encode_pack_lem}
use nmid.Worker.Agent.{Agent, write}

-- The request that carries a text.
abbrev pub with_text : ℕ → Bytes → Request → Request
with_text data_type text req = record req {
  data_type = data_type;
  data_len = length text;
  packet = text;
}

-- The agent that has written a text.
abbrev pub wrote : ℕ → Bytes → Agent → Agent
wrote data_type text a = record a {
  req = with_text data_type text a.req;
  written = a.written ++ frame_bytes ConnType.worker data_type text;
}

pub write-with_text :
    (data_type : ℕ) (text : Bytes) (a : Agent)
    → a.conn ≡ true
    → 12 + length text < 2 ^ 32
    → write (record a { req = with_text data_type text a.req }) ≡ ok (wrote data_type text a)
unfolding write
write-with_text data_type text a on h =
    rw (encode_pack_lem (with_text data_type text a.req) refl h) (rw on refl)

module _ (text : Bytes) (req : Request) (h : 12 + length text < 2 ^ 32) where
  small : length text % 2 ^ 32 ≡ length text
  small = mod-eq_of_lt (omega arith)

  pub set_worker_name_lem : set_worker_name text req ≡ with_text Pdt.w_set_name text req
  unfolding set_worker_name
  set_worker_name_lem = rw small refl

  pub add_function_pack_lem : add_function_pack text req ≡ with_text Pdt.w_add_func text req
  unfolding add_function_pack
  add_function_pack_lem = rw small refl

  pub del_function_pack_lem : del_function_pack text req ≡ with_text Pdt.w_del_func text req
  unfolding del_function_pack
  del_function_pack_lem = rw small refl
