-- ===== src/Protocol/Registration.antt =====
-- A worker's registration, from WorkerReady (pkg/worker/worker.go) to the server's registry
-- (pkg/server/function.go), and its end.
use nmid.Prelude.{ℕ, ◌+◌, ◌<◌, ◌≡◌, refl, [], ◌∷◌, ◌++◌, length, arith, Bool, true, false}
use nmid.Prelude.{none, some, if◌then◌else◌, bytes_eq_iff}
use nmid.Wire.{Bytes, ok}
use nmid.Table.{Table, load, IsUnique}
use nmid.Worker.Agent.{Agent}
use nmid.Worker.Functions.{Function, Worker}
use nmid.Worker.Functions.Announce.{names_of, greeted, written-greeted}
use nmid.Server.Function as registry
use nmid.Server.Function.Registry.{IsValid}
use nmid.Server.Function.View.{workers_of}
use nmid.Server.Session.{Session, registered, do_io, worker_gone}
use nmid.Server.Session.Registers.{IsName, AllNames, registrations, do_io-greeting}
use nmid.Server.Session.Leaves.{Absent, workers_of-worker_gone_new}

module _ {M : Type 0} where
  -- The worker has this function.
  abbrev pub provides : Bytes → Table (Function M) → Bool
  provides j t = elim (load j t) [ none ↦ false | some function ↦ true ]

  no_registrations :
      (j : Bytes) (t : Table (Function M)) (me : registry.SWorker)
      → load j t ≡ none
      → registrations j (names_of t) me ≡ []
  unfolding load
  no_registrations j [] me e = refl
  no_registrations j ((name, function) ∷ t) me e = ground (arith, e, no_registrations j t me)

  registrations_lem :
      (j : Bytes) (t : Table (Function M)) (me : registry.SWorker)
      → IsUnique t
      → registrations j (names_of t) me ≡ (if provides j t then me ∷ [] else [])
  unfolding load
  registrations_lem j [] me u = refl
  registrations_lem j ((name, function) ∷ t) me u =
      ground
        (arith, u.0, registrations_lem j t me u.1, bytes_eq_iff name j, no_registrations j t me)

  -- A worker and the session that the server opens for it.
  pub record IsWelcome (w : Worker M) (s : Session) : Type 0 where
    pub unique : IsUnique w.funcs
    pub named : IsName w.worker_name
    pub names : AllNames (names_of w.funcs)
    pub valid : IsValid s.funcs
    pub absent : (j : Bytes) → Absent s.worker.worker_id (workers_of j s.funcs)

  -- The bytes that an agent of a ready worker has written, followed by the end of the stream, make
  -- the server's loop end with a session in which the worker has its name and stands last in the list
  -- of each function that it has, and in no other; and when the server has then closed the connection
  -- each list is what it was before the worker came. The worker's names are not empty and fit into
  -- frames, and its id is new.
  pub do_io-greeted :
      (w : Worker M) (a : Agent) (s : Session) (fuel : ℕ)
      → IsWelcome w s
      → length (names_of w.funcs) + 1 < fuel
      → (s' : Session) × (do_io fuel (greeted w a).written s ≡ some (ok (s', [])))
        × (s'.worker_name ≡ w.worker_name)
        × ((j : Bytes)
            → workers_of j s'.funcs
              ≡ workers_of j s.funcs ++ (if provides j w.funcs then registered s ∷ [] else []))
        × ((j : Bytes) → workers_of j (worker_gone s').funcs ≡ workers_of j s.funcs)
  do_io-greeted w a s fuel welcome h =
      let (s', ran, joined) =
        do_io-greeting w.worker_name (names_of w.funcs) s fuel welcome.named welcome.names h in
      let lists : (j : Bytes)
          → workers_of j s'.funcs
            ≡ workers_of j s.funcs ++ (if provides j w.funcs then registered s ∷ [] else []) =
        λ j. rw (registrations_lem j w.funcs (registered s) welcome.unique) at (joined.funcs j) in
      let me : registered s' ≡ registered s = rw joined.worker_id refl in
      (
        s',
        rw (written-greeted w a) ran,
        joined.named,
        lists,
        λ j.
            workers_of-worker_gone_new j s' (workers_of j s.funcs) (provides j w.funcs)
              (joined.valid welcome.valid) (rw joined.worker_id (welcome.absent j))
              (rw me (lists j)),
      )
