-- ===== src/Direct/Conn/Pipeline.antt =====
-- Calls that a client writes behind one another on one connection (pkg/direct/server.go).
use nmid.Prelude.{ℕ, zero, suc, ◌+◌, ◌≤◌, ◌≡◌, refl, List, [], ◌∷◌, ◌++◌, length, some, ◌⊎◌}
use nmid.Wire.{Bytes, Outcome, ok, ◌>>=◌}
use nmid.Wire.Frame.{read_full}
use nmid.Wire.Bind.{first_value}
use nmid.Direct.Exchange.{Handlers, serve, send_call, receive, max_content}
use nmid.Direct.Exchange.Answer.{answer, text, receive-serve-send_call}
use nmid.Direct.Conn.{handle_conn}

-- The service and the payload of each call.
abbrev pub Calls : Type 0
Calls = List (Bytes × Bytes)

abbrev pub send_calls : Calls → Outcome Bytes
send_calls [] = ok []
send_calls ((service, payload) ∷ calls) = do
  first ← send_call service payload
  rest ← send_calls calls
  ok (first ++ rest)

abbrev pub joined : List Bytes → Bytes
joined [] = []
joined (frame ∷ frames) = frame ++ joined frames

abbrev pub receive_each : ℕ → Bytes → Outcome (List (Bytes ⊎ Bytes))
receive_each zero stream = ok []
receive_each (suc n) stream = do p ← receive stream; rest ← receive_each n p.1; ok (p.0 ∷ rest)

abbrev pub answers : Handlers → Calls → List (Bytes ⊎ Bytes)
answers handlers [] = []
answers handlers ((service, payload) ∷ calls) =
    answer handlers service payload ∷ answers handlers calls

-- The calls and their answers fit into frames.
abbrev pub Fit : Handlers → Calls → Type 0
Fit handlers [] = Unit
Fit handlers ((service, payload) ∷ calls) =
    (8 + length service + length payload ≤ max_content)
    × (8 + length (text (answer handlers service payload)) ≤ max_content)
    × Fit handlers calls

-- The stream of the calls, the frames that the loop writes for it, and what the client takes from
-- these.
pub record IsAnswered (handlers : Handlers) (calls : Calls) : Type 0 where
  pub stream : Bytes
  pub frames : List Bytes
  pub sent : send_calls calls ≡ ok stream
  pub served : handle_conn (suc (length calls)) handlers stream ≡ some (ok frames)
  pub received : receive_each (length calls) (joined frames) ≡ ok (answers handlers calls)

-- Calls written behind one another are answered one by one and in their order, each with its
-- handler's answer or that there is no such service, and the loop ends behind the last; if every call
-- and every answer fit into a frame.
pub handle_conn-IsAnswered :
    (handlers : Handlers) (calls : Calls) → Fit handlers calls → IsAnswered handlers calls
unfolding handle_conn serve read_full
handle_conn-IsAnswered handlers [] fit = record {
  stream = [];
  frames = [];
  sent = refl;
  served = refl;
  received = refl;
}
handle_conn-IsAnswered handlers ((service, payload) ∷ calls) fit =
    let more = handle_conn-IsAnswered handlers calls fit.2 in
    let (frame, served, got) =
      receive-serve-send_call handlers service payload fit.0 more.stream (joined more.frames)
        fit.1 in
    let (sent, took, first) = first_value (send_call service payload) served in
    record {
      stream = sent ++ more.stream;
      frames = frame ∷ more.frames;
      sent = rw (first, more.sent) refl;
      served = rw (took, handle_conn) (rw more.served refl);
      received = rw got (rw more.received refl);
    }
