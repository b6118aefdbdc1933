-- ===== src/Server/Connect/Close/Ends.antt =====
-- A connection behind DoIO (pkg/server/connect.go).
use nmid.Prelude.{ℕ, ◌+◌, ◌≡◌, ◌==◌, Bool, true, false, none, some, if◌then◌else◌}
use nmid.Prelude.{Option}
use nmid.Wire.{Bytes}
use nmid.Model.ConnType
use nmid.Server.Function.{FuncMap, clean_worker_func, del_worker}
use nmid.Server.Connect.Close.{Connect}
use nmid.Server.Connect.Close.{close_all, Failure, op_error}
use nmid.Server.Connect.Close.{eof, other_error, Readings, fails, temporary, reads, take_frame}
use nmid.Server.Connect.Close.{end_of_loop}

-- The connection when the last reading fails, and how it fails; none if a frame panics before.
abbrev pub last_turn : Readings → Connect → Option (Connect × Failure)
last_turn (fails e) c = some (c, e)
last_turn (temporary rest) c = last_turn rest c
last_turn (reads conn_type runs rest) c = elim (take_frame conn_type runs c) [
  | none ↦ none
  | some c' ↦ last_turn rest c'
]

-- What becomes of the registry at the end of a connection of a type.
abbrev pub funcs_behind : ℕ → Failure → Bytes → FuncMap → FuncMap
funcs_behind conn_type e id funcs =
    if conn_type == ConnType.worker
    then elim e [
      | op_error ↦ clean_worker_func id funcs
      | eof ↦ clean_worker_func id (del_worker id funcs).0
      | other_error ↦ funcs
    ]
    else funcs

-- A connection in the loop: it is open, and has a worker or a client if its last frame was from one.
record IsOpen (c : Connect) : Type 0 where
  open_conn : c.conn ≡ true
  not_closed : c.closed ≡ false
  no_signal : c.close_signals ≡ 0
  has_worker : (c.conn_type == ConnType.worker) ≡ true → c.run_worker ≡ true
  has_client : (c.conn_type == ConnType.client) ≡ true → c.run_client ≡ true

-- A connection that is closed, once.
pub record IsEnded (funcs : FuncMap) (c : Connect) : Type 0 where
  pub no_conn : c.conn ≡ false
  pub is_closed : c.closed ≡ true
  pub one_signal : c.close_signals ≡ 1
  pub registry : c.funcs ≡ funcs

abbrev Ends : Failure → Connect → Type 0
Ends e c =
    (c' : Connect) × ((elim (end_of_loop e c) [ none ↦ none | some a ↦ close_all a ]) ≡ some c')
    × IsEnded (funcs_behind c.conn_type e c.id c.funcs) c'

-- The states that the closing functions lead to.
abbrev shut : FuncMap → Connect → Connect
shut funcs c = record c {
  closed = true;
  close_signals = c.close_signals + 1;
  conn = false;
  run_worker = false;
  funcs = funcs;
}

abbrev shut_client : Bool → Connect → Connect
shut_client run_worker c = record c {
  closed = true;
  close_signals = c.close_signals + 1;
  conn = false;
  run_worker = run_worker;
  run_client = false;
  timer = if c.run_client then false else c.timer;
}

-- The end of DoIO: it panics with a frame that panics, and closes the connection otherwise.
abbrev pub EndsWith : Option (Connect × Failure) → Option Connect → Type 0
EndsWith none result = result ≡ none
EndsWith (some (last, e)) result =
    (c : Connect) × (result ≡ some c) × IsEnded (funcs_behind last.conn_type e last.id last.funcs) c
