-- ===== src/Server/Session/Leaves.antt =====
-- What is left of a worker in the registry when its stream has ended (DelWorker and
-- CloseWorkerConnect at the end of DoIO, pkg/server/connect.go).
use mathlib.Core.List.{append-nil}
use nmid.Prelude.{◌≡◌, refl, sym, ap, ◌∙◌, [], ◌∷◌, ◌++◌, true, false, List}
use nmid.Prelude.{if◌then◌else◌, bytes_eq, bytes_eq_refl, arith, Bool-cases, inl, inr, ◌==◌}
use nmid.Prelude.{Option-cases, Bool, length}
use nmid.Wire.{Bytes}
use nmid.Table.{load, Table}
use nmid.Server.Function.{SWorker, Func, FuncMap, del_worker}
use nmid.Server.Function.Registry.{IsValid}
use nmid.Server.Function.Registry.Walks.{stripped, load-del_each, del_worker-IsValid}
use nmid.Server.Function.View.{
  workers_of, minus, minus-without_worker, workers_of-clean_worker_func,
}
use nmid.Server.Session.{Session, registered, worker_gone}

minus_nil : (worker_id : Bytes) → minus worker_id [] ≡ []
unfolding minus
minus_nil worker_id = refl

stripped_workers :
    (worker_id : Bytes) (function : Func)
    → (stripped worker_id function).workers ≡ minus worker_id function.workers
unfolding stripped
stripped_workers worker_id function =
    ground (arith, minus-without_worker worker_id function.workers)

empty_map : {fm : FuncMap} → IsValid fm → fm.func_num ≡ 0 → fm.funcs ≡ []
empty_map {fm} v e = nothing fm.funcs (cc (v.counted, e))
  where
    nothing : (t : Table Func) → length t ≡ 0 → t ≡ []
    nothing [] p = refl
    nothing (x ∷ t) p = absurd (omega arith)

-- DelWorker takes the first registration of the worker from each list.
workers_of-del_worker :
    (worker_id j : Bytes) {fm : FuncMap}
    → IsValid fm
    → workers_of j (del_worker worker_id fm).0 ≡ minus worker_id (workers_of j fm)
unfolding workers_of del_worker load
workers_of-del_worker worker_id j {fm} v = elim (Bool-cases (fm.func_num == 0)) [
  | inl idle ↦
      rw (idle, del_worker) (rw (empty_map v (ground (arith, idle))) (sym (minus_nil worker_id)))
  | inr busy ↦
      rw (busy, del_worker)
        (elim (Option-cases (load j fm.funcs)) [
          | inl e ↦ ground (arith, e, load-del_each worker_id j fm.funcs, minus_nil worker_id)
          | inr (function, e) ↦
              ground
                (arith, e, load-del_each worker_id j fm.funcs, stripped_workers worker_id function)
        ])
]

workers_of-worker_gone :
    (j : Bytes) (s : Session)
    → IsValid s.funcs
    → workers_of j (worker_gone s).funcs
      ≡ minus s.worker.worker_id (minus s.worker.worker_id (workers_of j s.funcs))
unfolding worker_gone
workers_of-worker_gone j s v =
    workers_of-clean_worker_func s.worker.worker_id j (del_worker-IsValid s.worker.worker_id v)
    ∙ ap (minus s.worker.worker_id) (workers_of-del_worker s.worker.worker_id j v)

-- No worker of the list has this id.
abbrev pub Absent : Bytes → List SWorker → Type 0
Absent worker_id [] = Unit
Absent worker_id (w ∷ ws) = (bytes_eq w.worker_id worker_id ≡ false) × Absent worker_id ws

minus-Absent :
    (worker_id : Bytes) (ws : List SWorker) → Absent worker_id ws → minus worker_id ws ≡ ws
unfolding minus
minus-Absent worker_id [] a = refl
minus-Absent worker_id (w ∷ ws) a = rw (a.0, minus-Absent worker_id ws a.1) refl

minus-snoc :
    (me : SWorker) (ws : List SWorker)
    → Absent me.worker_id ws
    → minus me.worker_id (ws ++ me ∷ []) ≡ ws
unfolding minus
minus-snoc me [] a = rw (bytes_eq_refl me.worker_id) refl
minus-snoc me (w ∷ ws) a = rw (a.0, minus-snoc me ws a.1) refl

-- When a worker has gone, the list of a function is what it was before the worker had put itself
-- behind it, or had not.
pub workers_of-worker_gone_new :
    (j : Bytes) (s : Session) (before : List SWorker) (joined : Bool)
    → IsValid s.funcs
    → Absent s.worker.worker_id before
    → workers_of j s.funcs ≡ before ++ (if joined then registered s ∷ [] else [])
    → workers_of j (worker_gone s).funcs ≡ before
workers_of-worker_gone_new j s before true v a e =
    let worker_id = s.worker.worker_id in
    workers_of-worker_gone j s v
    ∙ rw (e, minus-snoc (registered s) before a) (minus-Absent worker_id before a)
workers_of-worker_gone_new j s before false v a e =
    let worker_id = s.worker.worker_id in
    let same = minus-Absent worker_id before a in
    workers_of-worker_gone j s v ∙ rw (e, append-nil before, same) same
