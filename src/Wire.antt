-- ===== src/Wire.antt =====
-- Byte slices as Go code handles them, and encoding/binary's BigEndian.
-- A slice is the list of its bytes and the whole of its backing array, as `make` gives it.
-- The proofs are in the children, which use this module.
pub mod Uint32
pub mod Bind
pub mod Fill
pub mod Scan
pub mod Frame
use nmid.Prelude.{ℕ, ◌+◌, ◌-◌, ◌*◌, ◌/◌, ◌%◌, ◌^◌, ◌<◌, List, [], ◌∷◌, ◌++◌, ◌&&◌}
use nmid.Prelude.{leb, if◌then◌else◌, length, take, drop, replicate}

abbrev pub Bytes : Type 0
Bytes = List ℕ

-- The errors that the code returns, named for their messages.
pub data Error : Type 0 where
  eof unexpected_eof conn_nil invalid_conn_type invalid_frame_size invalid_data : Error
  invalid_call invalid_service_length invalid_payload_length : Error
  invalid_reply invalid_reply_length invalid_data_type invalid_reply_size : Error
  request_error have_no_job_do have_ratelimit data_nil : Error
  none_agents none_functions dial_failed function_exists function_not_exist : Error
  no_funcs not_found funcname_error params_error conn_fail res_timeout : Error

-- How a Go call ends: with a value, with a returned error, or in a run-time panic (a slice bound
-- out of range, a nil dereference).
pub data Outcome {ℓ} (A : Type ℓ) : Type ℓ where
  panics : Outcome A
  err : Error → Outcome A
  ok : A → Outcome A

module _ {ℓ κ} {A : Type ℓ} {B : Type κ} where
  infixl 5 ◌>>=◌
  abbrev pub ◌>>=◌ : Outcome A → (A → Outcome B) → Outcome B
  panics >>= next = panics
  err e >>= next = err e
  ok a >>= next = next a

abbrev pub IsByte : ℕ → Type 0
IsByte b = b < 256

abbrev pub IsUint32 : ℕ → Type 0
IsUint32 v = v < 2 ^ 32

-- uint32(n)
abbrev pub to_uint32 : ℕ → ℕ
to_uint32 n = n % 2 ^ 32

-- make([]byte, n)
unfoldable pub make : ℕ → Bytes
make n = replicate n 0

-- copy(dst, src), on a whole slice
unfoldable pub copy_to : Bytes → Bytes → Bytes
copy_to dst src = take (length dst) src ++ drop (length src) dst

-- buf[s:e]
unfoldable pub slice : Bytes → ℕ → ℕ → Outcome Bytes
slice buf s e = if leb s e && leb e (length buf) then ok (take (e - s) (drop s buf)) else panics

-- copy(buf[s:e], src)
unfoldable pub copy_into : Bytes → ℕ → ℕ → Bytes → Outcome Bytes
unfolding copy_to
copy_into buf s e src =
    if leb s e && leb e (length buf)
    then ok (take s buf ++ (copy_to (take (e - s) (drop s buf)) src ++ drop e buf))
    else panics

-- The bytes byte(v>>24), byte(v>>16), byte(v>>8), byte(v).
unfoldable pub be32 : ℕ → Bytes
be32 v = (v / 2 ^ 24 % 256) ∷ (v / 2 ^ 16 % 256) ∷ (v / 2 ^ 8 % 256) ∷ (v % 256) ∷ []

-- binary.BigEndian.PutUint32(buf[s:e], v)
unfoldable pub put_uint32 : Bytes → ℕ → ℕ → ℕ → Outcome Bytes
unfolding be32
put_uint32 buf s e v =
    if (leb s e && leb e (length buf)) && leb 4 (e - s)
    then ok (take s buf ++ (be32 v ++ drop (s + 4) buf))
    else panics

-- binary.BigEndian.Uint32(b)
unfoldable pub uint32 : Bytes → Outcome ℕ
uint32 (a ∷ b ∷ c ∷ d ∷ rest) = ok (a * 2 ^ 24 + b * 2 ^ 16 + c * 2 ^ 8 + d)
uint32 _ = panics

-- binary.BigEndian.Uint32(buf[s:e])
unfoldable pub uint32_at : Bytes → ℕ → ℕ → Outcome ℕ
unfolding slice uint32
uint32_at buf s e = slice buf s e >>= uint32
