-- ===== src/Direct/Conn/Samples.antt =====
-- A connection of a direct client and its server at small values.
use nmid.Prelude.{◌∷◌, [], ◌++◌, ◌≡◌, some, none, inr, arith, List}
use nmid.Wire.{Bytes, ok}
use nmid.Direct.Exchange.{Handlers, Handler}
use nmid.Direct.Conn.{Client, handle_conn, call}
use nmid.Direct.Conn.Pipeline.{Calls, IsAnswered, handle_conn-IsAnswered}
use nmid.Direct.Conn.Ends.{AllFit, AllReplies, handle_conn_total}
use nmid.Direct.Conn.Closes.{IsSettled, call-IsSettled}

abbrev name : Bytes
name = b'e' ∷ []

abbrev hi : Bytes
hi = b'h' ∷ b'i' ∷ []

abbrev repeats : Handler
repeats payload = inr (payload ++ payload)

abbrev constant : Handler
constant payload = inr hi

abbrev services : Handlers
services [] = none
services (c ∷ cs) = some repeats

abbrev constants : Handlers
constants [] = none
constants (c ∷ cs) = some constant

-- The second call names no service.
abbrev two_calls : Calls
two_calls = (name, hi) ∷ ([], hi) ∷ []

-- Half a header.
abbrev broken : Bytes
broken = 0 ∷ 0 ∷ 0 ∷ 101 ∷ 0 ∷ []

abbrev idle : Client
idle = record { conn = none; written = [] }

constants-AllFit : AllFit constants
constants-AllFit [] payload = omega arith
constants-AllFit (c ∷ cs) payload = omega arith

handle_conn-IsAnswered_example : IsAnswered services two_calls
handle_conn-IsAnswered_example =
    handle_conn-IsAnswered services two_calls
      (omega arith, omega arith, (omega arith, omega arith, tt))

handle_conn_total_example :
    (frames : List Bytes) × (handle_conn 6 constants broken ≡ some (ok frames)) × AllReplies frames
handle_conn_total_example = handle_conn_total constants 6 broken constants-AllFit (omega arith)

call-IsSettled_example : IsSettled name hi (some broken) idle (call (some broken) none name hi idle)
call-IsSettled_example = call-IsSettled name hi (some broken) none idle (omega arith)
