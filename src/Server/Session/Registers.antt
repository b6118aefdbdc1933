-- ===== src/Server/Session/Registers.antt =====
-- What the name and the functions that a worker sends do to its session and to the registry
-- (RunWorkerOptimized of pkg/server/optimize.go).
use mathlib.Core.List.{append_assoc, append-nil}
use nmid.Prelude.{ℕ, zero, suc, ◌+◌, ◌≤◌, ◌<◌, ◌≡◌, ◌≢◌, refl, sym, ◌∙◌, [], ◌∷◌, ◌++◌, true}
use nmid.Prelude.{List, length, arith, some, ltb, bytes_eq, if◌then◌else◌, ◌%◌, ◌^◌}
use native.Mathlib.Nat.{mod-eq_of_lt}
use nmid.Wire.{Bytes, ok}
use nmid.Wire.Frame.{frame_bytes, read_full}
use nmid.Model.Pdt
use nmid.Model.ConnType
use nmid.Server.Io.{Request, new_req, new_res, req_decode_pack, get_req_data, get_res_content}
use nmid.Server.Io.Encode.{packet_bytes, res_encode_pack-empty}
use nmid.Server.Connect.Frame.{read_frame, worker_request, max_frame_size}
use nmid.Server.Connect.Frame.Accepts.{read_frame-frame_bytes}
use nmid.Server.Function as registry
use nmid.Server.Function.{add_func}
use nmid.Server.Function.Registry.{IsValid, add_func-IsValid}
use nmid.Server.Function.View.{workers_of, workers_of-add_func}
use nmid.Server.Dispatch.{to_worker, has_name}
use nmid.Worker.Functions.Announce.{text_frames, greeting}
use nmid.Prelude.{Bool-cases, inl, inr}
use nmid.Server.Session.{Session, registered, answer_worker, add_function, set_worker_name}
use nmid.Server.Session.{handle_request, run_worker_optimized, do_io_turn, do_io}

-- A name that is not empty and fits into a frame.
pub record IsName (text : Bytes) : Type 0 where
  pub nonempty : text ≢ []
  pub fits : length text ≤ max_frame_size

-- The request that carries a text.
abbrev pub text_request : ℕ → Bytes → Request
text_request data_type text = record new_req {
  data_type = data_type;
  data_len = length text;
  packet = text;
}

-- The session whose worker has been answered PDT_OK.
abbrev pub acked : Session → Session
acked s = record s {
  worker = record s.worker { written = to_worker (packet_bytes Pdt.ok []) ∷ s.worker.written };
}

answer_worker_lem : (s : Session) → answer_worker Pdt.ok s ≡ ok (acked s)
unfolding answer_worker get_res_content
answer_worker_lem s = rw (res_encode_pack-empty (record new_res { data_type = Pdt.ok }) refl) refl

run_worker_optimized-text :
    (data_type : ℕ) (text : Bytes) (s : Session)
    → IsName text
    → data_type ≢ Pdt.w_return_data
    → data_type ≢ Pdt.c_do_job
    → run_worker_optimized
        (record { conn_type = ConnType.worker; data_type = data_type; payload = text })
        s
      ≡ handle_request (text_request data_type text) s
unfolding run_worker_optimized worker_request req_decode_pack
run_worker_optimized-text data_type text s named p q =
    let small : length text % 2 ^ 32 ≡ length text = mod-eq_of_lt (omega (arith, named.fits)) in
    ground (arith, small)

get_req_data_lem :
    (data_type : ℕ) (text : Bytes) → IsName text → get_req_data (text_request data_type text) ≡ text
unfolding get_req_data
get_req_data_lem data_type text named =
    let small : length text % 2 ^ 32 ≡ length text = mod-eq_of_lt (omega (arith, named.fits)) in
    ground (arith, small)

given : (text : Bytes) → IsName text → (ltb 0 (length text) ≡ true) × (has_name text ≡ true)
given [] named = absurd (named.nonempty refl)
given (c ∷ cs) named = (ground arith, refl)

-- The session in which the function is registered.
abbrev pub with_func : Bytes → Session → Session
with_func name s = acked (record s { funcs = (add_func (some (registered s)) name s.funcs).0 })

handle_request-add :
    (name : Bytes) (s : Session)
    → IsName name
    → handle_request (text_request Pdt.w_add_func name) s ≡ ok (with_func name s)
unfolding handle_request add_function
handle_request-add name s named =
    let (some_bytes, some_name) = given name named in
    rw (get_req_data_lem Pdt.w_add_func name named, some_bytes, some_name)
      (answer_worker_lem (record s { funcs = (add_func (some (registered s)) name s.funcs).0 }))

handle_request-name :
    (name : Bytes) (s : Session)
    → IsName name
    → handle_request (text_request Pdt.w_set_name name) s
      ≡ ok (acked (record s { worker_name = name }))
unfolding handle_request set_worker_name
handle_request-name name s named =
    let (some_bytes, some_name) = given name named in
    rw (get_req_data_lem Pdt.w_set_name name named, some_bytes, some_name)
      (answer_worker_lem (record s { worker_name = name }))

-- A turn of the loop on such a frame.
do_io_turn-text :
    (data_type : ℕ) (text rest : Bytes) (s s' : Session)
    → IsName text
    → data_type < 2 ^ 32
    → data_type ≢ Pdt.w_return_data
    → data_type ≢ Pdt.c_do_job
    → handle_request (text_request data_type text) s ≡ ok s'
    → do_io_turn (frame_bytes ConnType.worker data_type text ++ rest) s ≡ ok (some (s', rest))
unfolding do_io_turn
do_io_turn-text data_type text rest s s' named t p q handled =
    rw
      (
        read_frame-frame_bytes ConnType.worker data_type text rest (ground arith) t named.fits,
        do_io_turn,
      )
      (rw (run_worker_optimized-text data_type text s named p q, handled) refl)

do_io-turn :
    (stream rest : Bytes) (s s' : Session) (fuel : ℕ)
    → do_io_turn stream s ≡ ok (some (s', rest))
    → do_io (suc fuel) stream s ≡ do_io fuel rest s'
unfolding do_io
do_io-turn stream rest s s' fuel turn = rw (turn, do_io) refl

-- The end of the stream.
do_io-nil : (s : Session) (fuel : ℕ) → do_io (suc fuel) [] s ≡ some (ok (s, []))
unfolding do_io do_io_turn read_frame read_full
do_io-nil s fuel = refl

-- The worker, once for each time that its names have this one.
abbrev pub registrations : Bytes → List Bytes → registry.SWorker → List registry.SWorker
registrations j [] me = []
registrations j (name ∷ names) me =
    if bytes_eq name j then me ∷ registrations j names me else registrations j names me

abbrev pub AllNames : List Bytes → Type 0
AllNames [] = Unit
AllNames (name ∷ names) = IsName name × AllNames names

workers_of-with_func :
    (name j : Bytes) (s : Session)
    → IsName name
    → workers_of j (with_func name s).funcs ≡ (
        if bytes_eq name j then workers_of j s.funcs ++ registered s ∷ [] else workers_of j s.funcs)
workers_of-with_func [] j s named = absurd (named.nonempty refl)
workers_of-with_func (c ∷ cs) j s named = workers_of-add_func (registered s) c cs j s.funcs

-- What the packets of a worker's functions make of a session.
pub record IsJoined (worker_name : Bytes) (names : List Bytes) (s s' : Session) : Type 0 where
  pub worker_id : s'.worker.worker_id ≡ s.worker.worker_id
  pub named : s'.worker_name ≡ worker_name
  pub funcs :
      (j : Bytes)
      → workers_of j s'.funcs ≡ workers_of j s.funcs ++ registrations j names (registered s)
  pub valid : IsValid s.funcs → IsValid s'.funcs

with_func-IsJoined :
    (name : Bytes) (names : List Bytes) (s s' : Session)
    → IsName name
    → IsJoined s.worker_name names (with_func name s) s'
    → IsJoined s.worker_name (name ∷ names) s s'
with_func-IsJoined name names s s' named joined = record {
  worker_id = joined.worker_id;
  named = joined.named;
  funcs = λ j. joined.funcs j ∙ one_more j;
  valid = λ v. joined.valid (add_func-IsValid (some (registered s)) name v);
}
  where
    one_more :
        (j : Bytes)
        → workers_of j (with_func name s).funcs ++ registrations j names (registered s)
          ≡ workers_of j s.funcs ++ registrations j (name ∷ names) (registered s)
    one_more j = elim (Bool-cases (bytes_eq name j)) [
      | inl e ↦
          rw (workers_of-with_func name j s named, e)
            (append_assoc (workers_of j s.funcs) (registered s ∷ []) _)
      | inr e ↦ rw (workers_of-with_func name j s named, e) refl
    ]

-- The loop over the packets of some functions, up to the end of the stream.
pub do_io-text_frames :
    (names : List Bytes) (s : Session) (fuel : ℕ)
    → AllNames names
    → length names < fuel
    → (s' : Session) × (do_io fuel (text_frames Pdt.w_add_func names) s ≡ some (ok (s', [])))
      × IsJoined s.worker_name names s s'
do_io-text_frames names s zero all h = absurd (omega arith)
do_io-text_frames [] s (suc fuel) all h = (
  s,
  do_io-nil s fuel,
  record {
    worker_id = refl;
    named = refl;
    funcs = λ j. sym (append-nil (workers_of j s.funcs));
    valid = λ v. v;
  },
)
do_io-text_frames (name ∷ names) s (suc fuel) all h =
    let (s', ran, joined) = do_io-text_frames names (with_func name s) fuel all.1 (omega arith) in
    let turn =
      do_io_turn-text Pdt.w_add_func name (text_frames Pdt.w_add_func names) s (with_func name s)
        all.0 (omega arith) (omega arith) (omega arith) (handle_request-add name s all.0) in
    (
      s',
      do_io-turn _ _ s (with_func name s) fuel turn ∙ ran,
      with_func-IsJoined name names s s' all.0 joined,
    )

-- What a worker sends when it becomes ready gives its session its name, and puts it at the end of
-- the list of each of its functions and of no other; the loop ends at the end of the stream, after
-- at most two turns more than the worker has functions. The names are not empty and fit into frames.
pub do_io-greeting :
    (worker_name : Bytes) (names : List Bytes) (s : Session) (fuel : ℕ)
    → IsName worker_name
    → AllNames names
    → length names + 1 < fuel
    → (s' : Session) × (do_io fuel (greeting worker_name names) s ≡ some (ok (s', [])))
      × IsJoined worker_name names s s'
do_io-greeting worker_name names s zero named all h = absurd (omega arith)
do_io-greeting worker_name names s (suc fuel) named all h =
    let s₁ : Session = acked (record s { worker_name = worker_name }) in
    let (s', ran, joined) = do_io-text_frames names s₁ fuel all (omega arith) in
    let turn =
      do_io_turn-text Pdt.w_set_name worker_name (text_frames Pdt.w_add_func names) s s₁ named
        (omega arith) (omega arith) (omega arith) (handle_request-name worker_name s named) in
    (
      s',
      do_io-turn _ _ s s₁ fuel turn ∙ ran,
      record {
        worker_id = joined.worker_id;
        named = joined.named;
        funcs = joined.funcs;
        valid = joined.valid;
      },
    )
