-- ===== src/Server/Session/Ends.antt =====
-- The loop of DoIO (pkg/server/connect.go) on whatever a worker sends.
use nmid.Prelude.{ℕ, zero, suc, ◌<◌, ◌≡◌, ◌≢◌, refl, true, Option, none, some, length}
use nmid.Prelude.{arith, ap, ◌==◌, Bool-cases, inl, inr}
use nmid.Wire.{Bytes, Outcome, ok, err, panics, ◌>>=◌}
use nmid.Wire.Bind.{first_value}
use nmid.Model.ConnType
use nmid.Server.Connect.Frame.{Frame, read_frame}
use nmid.Server.Connect.Frame.Accepts.{read_frame_sound, length-Took}
use nmid.Server.Session.{Session, run_worker_optimized, do_io_turn, do_io}

same_rest :
    (s s' : Session) (left rest : Bytes)
    → ◌≡◌ {A = Outcome (Option (Session × Bytes))} (ok (some (s, left))) (ok (some (s', rest)))
    → left ≡ rest
same_rest s s' left rest e = cc

do_io_turn-shorter :
    (stream rest : Bytes) (s s' : Session)
    → do_io_turn stream s ≡ ok (some (s', rest))
    → length rest < length stream
unfolding do_io_turn
do_io_turn-shorter stream rest s s' e = go (read_frame true stream) refl
  where
    go : (o : Outcome (Frame × Bytes)) → read_frame true stream ≡ o → length rest < length stream
    go panics p = ground (arith, e, p)
    go (err x) p = ground (arith, e, p)
    go (ok (frame, left)) p = elim (Bool-cases (frame.conn_type == ConnType.worker)) [
      | inl worker ↦
          let took = read_frame_sound stream left frame p in
          let ran : (run_worker_optimized frame s >>= λ s''. ok (some (s'', left)))
              ≡ ok (some (s', rest)) =
            ground (arith, e, p, worker) in
          let (s'', last, _) = first_value (run_worker_optimized frame s) ran in
          omega
            (arith, length-Took stream left frame took, ap length (same_rest s'' s' left rest last))
      | inr other ↦ ground (arith, e, p, other)
    ]

-- The loop ends on every stream, after at most one turn more than the stream has bytes.
pub do_io_total :
    (fuel : ℕ) (stream : Bytes) (s : Session) → length stream < fuel → do_io fuel stream s ≢ none
unfolding do_io
do_io_total zero stream s h e = absurd (omega arith)
do_io_total (suc fuel) stream s h e = go (do_io_turn stream s) refl (do_io_total fuel)
  where
    go :
        (o : Outcome (Option (Session × Bytes)))
        → do_io_turn stream s ≡ o
        → ((rest : Bytes) (s' : Session) → length rest < fuel → do_io fuel rest s' ≢ none)
        → ⊥
    go panics p ends = ground (arith, e, p)
    go (err x) p ends = ground (arith, e, p)
    go (ok none) p ends = ground (arith, e, p)
    go (ok (some (s', rest))) p ends =
        ends rest s' (omega (arith, do_io_turn-shorter stream rest s s' p, h))
          (ground (arith, e, p))
