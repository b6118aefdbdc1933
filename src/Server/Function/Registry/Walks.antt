-- ===== src/Server/Function/Registry/Walks.antt =====
-- The walks over all functions, CleanWorkerFunc and DelWorker of pkg/server/function.go, and the
-- registry's invariant.
use nmid.Prelude.{◌==◌, ◌≡◌, refl}
use nmid.Prelude.{none, some, [], ◌∷◌, arith, length}
use nmid.Prelude.{Option-cases, Bool-cases, inl, inr}
use mathlib.Core.Option
use mathlib.Core.Path.{subst}
use nmid.Wire.{Bytes}
use nmid.Table.{Table, load, IsUnique}
use nmid.Server.Function.{Func, FuncMap}
use nmid.Server.Function.{without_worker, less_worker}
use nmid.Server.Function.{clean_each, clean_worker_func, del_each}
use nmid.Server.Function.{del_worker}
use nmid.Server.Function.Registry.{
  IsCounted, IsValid, less_worker-IsCounted, del_worker_func-IsValid,
}

clean_each-IsValid :
    (worker_id : Bytes) (t : Table Func) {fm : FuncMap}
    → IsValid fm
    → IsValid (clean_each worker_id t fm)
unfolding clean_each
clean_each-IsValid worker_id [] v = v
clean_each-IsValid worker_id ((key, function) ∷ t) v =
    clean_each-IsValid worker_id t (del_worker_func-IsValid worker_id function.func_name v)

pub clean_worker_func-IsValid :
    (worker_id : Bytes) {fm : FuncMap} → IsValid fm → IsValid (clean_worker_func worker_id fm)
unfolding clean_worker_func
clean_worker_func-IsValid worker_id {fm} v = clean_each-IsValid worker_id fm.funcs v

-- The function that DelWorker leaves in an entry.
unfoldable pub stripped : Bytes → Func → Func
stripped worker_id function = elim (without_worker worker_id function.workers) [
  | none ↦ function
  | some ws ↦ less_worker ws function
]

pub load-del_each :
    (worker_id j : Bytes) (t : Table Func)
    → load j (del_each worker_id t) ≡ Option.map (stripped worker_id) (load j t)
unfolding del_each load stripped
load-del_each worker_id j [] = refl
load-del_each worker_id j ((key, function) ∷ t) = ground (arith, load-del_each worker_id j t)

length-del_each : (worker_id : Bytes) (t : Table Func) → length (del_each worker_id t) ≡ length t
unfolding del_each
length-del_each worker_id [] = refl
length-del_each worker_id ((key, function) ∷ t) = omega (arith, length-del_each worker_id t)

del_each-IsUnique :
    (worker_id : Bytes) (t : Table Func) → IsUnique t → IsUnique (del_each worker_id t)
unfolding del_each
del_each-IsUnique worker_id [] u = tt
del_each-IsUnique worker_id ((key, function) ∷ t) u =
    (rw (load-del_each worker_id key t, u.0) refl, del_each-IsUnique worker_id t u.1)

stripped-IsCounted :
    (worker_id name : Bytes) (function : Func)
    → IsCounted name function
    → IsCounted name (stripped worker_id function)
unfolding stripped
stripped-IsCounted worker_id name function c =
    elim (Option-cases (without_worker worker_id function.workers)) [
      | inl e ↦ rw (e, stripped) c
      | inr (ws, e) ↦ rw (e, stripped) (less_worker-IsCounted worker_id name function c e)
    ]

pub del_worker-IsValid :
    (worker_id : Bytes) {fm : FuncMap} → IsValid fm → IsValid (del_worker worker_id fm).0
unfolding del_worker
del_worker-IsValid worker_id {fm} v = elim (Bool-cases (fm.func_num == 0)) [
  | inl empty ↦ rw (empty, del_worker) v
  | inr some_func ↦
      rw (some_func, del_worker)
        (record {
          unique = del_each-IsUnique worker_id fm.funcs v.unique;
          counted = omega (arith, v.counted, length-del_each worker_id fm.funcs);
          at_name = λ j f p. elim (Option-cases (load j fm.funcs)) [
            | inl e ↦ cc (load-del_each worker_id j fm.funcs, e)
            | inr (old, e) ↦
                let step : some (stripped worker_id old) ≡ some f =
                  rw (load-del_each worker_id j fm.funcs, e) at p in
                let same : stripped worker_id old ≡ f = cc step in
                subst (IsCounted j) same (stripped-IsCounted worker_id j old (v.at_name j old e))
          ];
        })
]
