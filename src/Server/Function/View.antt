-- ===== src/Server/Function/View.antt =====
-- The registry as a client of it sees it: each name's list of workers. Each operation is given by
-- what it does to that view.
use nmid.Prelude.{ℕ, ◌==◌, ◌≡◌, ◌≢◌, refl, Bool, true, false, if◌then◌else◌}
use nmid.Prelude.{Option, none, some, List, [], ◌∷◌, ◌++◌, arith, length, bytes_eq}
use nmid.Prelude.{bytes_eq_iff, bytes_eq_refl, Option-cases, Bool-cases, inl, inr}
use nmid.Wire.{Bytes}
use nmid.Table.{Table, load, store, IsUnique, load-store, load-delete, store-IsUnique}
use nmid.Server.Function.{SWorker, Func, FuncMap, add_func, with_worker, new_func}
use nmid.Server.Function.{get_func, del_all_func, without_worker, less_worker, drop_worker}
use nmid.Server.Function.{del_found, del_worker_func, clean_each, clean_worker_func}
use nmid.Server.Function.Registry.{
  IsCounted, IsValid, del_worker_func-IsValid, length-without_worker,
}

abbrev workers_in : Option Func → List SWorker
workers_in none = []
workers_in (some function) = function.workers

-- The workers that serve a function.
unfoldable pub workers_of : Bytes → FuncMap → List SWorker
workers_of name fm = workers_in (load name fm.funcs)

-- The list without its first worker with this id, if there is one.
unfoldable pub minus : Bytes → List SWorker → List SWorker
minus worker_id [] = []
minus worker_id (w ∷ ws) = if bytes_eq w.worker_id worker_id then ws else w ∷ minus worker_id ws

pub minus-without_worker :
    (worker_id : Bytes) (ws : List SWorker)
    → minus worker_id ws ≡ elim (without_worker worker_id ws) [ none ↦ ws | some vs ↦ vs ]
unfolding minus without_worker
minus-without_worker worker_id [] = refl
minus-without_worker worker_id (w ∷ ws) = ground (arith, minus-without_worker worker_id ws)

-- AddFunc puts the worker at the end of the named list, and changes no other.
pub workers_of-add_func :
    (worker : SWorker) (c : ℕ) (cs j : Bytes) (fm : FuncMap)
    → workers_of j (add_func (some worker) (c ∷ cs) fm).0
      ≡ (if bytes_eq (c ∷ cs) j then workers_of j fm ++ worker ∷ [] else workers_of j fm)
unfolding workers_of add_func
workers_of-add_func worker c cs j fm =
    let name = c ∷ cs in
    elim (Option-cases (load name fm.funcs)) [
      | inl e ↦
          rw (e, add_func)
            (ground (
              arith,
              e,
              load-store name j (with_worker worker (new_func name)) fm.funcs,
              bytes_eq_iff name j,
            ))
      | inr (old, e) ↦
          rw (e, add_func)
            (ground
              (arith, e, load-store name j (with_worker worker old) fm.funcs, bytes_eq_iff name j))
    ]

empty_of_length : (ws : List SWorker) → length ws ≡ 0 → ws ≡ []
empty_of_length [] e = refl
empty_of_length (w ∷ ws) e = absurd (omega arith)

-- What is in the map after the last worker of a function has gone.
load-del_all_func :
    (name j : Bytes) (function : Func) (fm : FuncMap)
    → IsUnique fm.funcs
    → load name fm.funcs ≡ some function
    → load j (del_all_func name fm).0.funcs ≡ (if bytes_eq name j then none else load j fm.funcs)
unfolding del_all_func
load-del_all_func name j function fm u e = rw (e, del_all_func) (load-delete name j fm.funcs u)

module _ (worker_id name : Bytes) (function : Func) {ws : List SWorker} {fm : FuncMap}
    (v : IsValid fm) (e : load name fm.funcs ≡ some function)
    (found : without_worker worker_id function.workers ≡ some ws) where
  workers_of-drop_worker :
      (j : Bytes)
      → workers_of j (drop_worker name ws function fm)
        ≡ (if bytes_eq name j then ws else workers_of j fm)
  unfolding workers_of drop_worker
  workers_of-drop_worker j =
      let left = less_worker ws function in
      let stored = store name left fm.funcs in
      let self : load name stored ≡ some left =
        ground (arith, load-store name name left fm.funcs, bytes_eq_refl name) in
      elim (Bool-cases (left.worker_num == 0)) [
        | inl last ↦
            let gone : ws ≡ [] = empty_of_length ws (
              ground (
                arith,
                length-without_worker worker_id function.workers found,
                (v.at_name name function e).workers,
              )) in
            rw (last, drop_worker)
              (ground (
                arith,
                gone,
                load-store name j left fm.funcs,
                load-del_all_func name j left (record fm { funcs = stored })
                    (store-IsUnique name left fm.funcs v.unique) self,
              ))
        | inr more ↦ rw (more, drop_worker) (ground (arith, load-store name j left fm.funcs))
      ]

minus_nil : (worker_id : Bytes) → minus worker_id [] ≡ []
unfolding minus
minus_nil worker_id = refl

pub here :
    (name : Bytes) (function : Func) (fm : FuncMap)
    → load name fm.funcs ≡ some function
    → workers_of name fm ≡ function.workers
unfolding workers_of
here name function fm e = rw e refl

pub missing : (name : Bytes) (fm : FuncMap) → load name fm.funcs ≡ none → workers_of name fm ≡ []
unfolding workers_of
missing name fm e = rw e refl

module _ (worker_id : Bytes) (c : ℕ) (cs j : Bytes) {fm : FuncMap} (v : IsValid fm) where
  -- The first worker with the id leaves the named list, and no other list changes.
  pub workers_of-del_worker_func :
      workers_of j (del_worker_func worker_id (c ∷ cs) fm).0
      ≡ (if bytes_eq (c ∷ cs) j then minus worker_id (workers_of j fm) else workers_of j fm)
  unfolding del_worker_func get_func del_found
  workers_of-del_worker_func =
      let name = c ∷ cs in
      elim (Option-cases (load name fm.funcs)) [
        | inl e ↦
            rw (e, del_worker_func)
              (ground (arith, missing name fm e, minus_nil worker_id, bytes_eq_iff name j))
        | inr (function, e) ↦ elim (Option-cases (without_worker worker_id function.workers)) [
          | inl absent ↦
              rw (e, del_worker_func)
                (ground (
                  arith,
                  absent,
                  here name function fm e,
                  minus-without_worker worker_id function.workers,
                  bytes_eq_iff name j,
                ))
          | inr (ws, found) ↦
              rw (e, del_worker_func)
                (ground (
                  arith,
                  found,
                  here name function fm e,
                  minus-without_worker worker_id function.workers,
                  bytes_eq_iff name j,
                  length-without_worker worker_id function.workers found,
                  bytes_eq_iff function.func_name name,
                  v.at_name name function e,
                  workers_of-drop_worker worker_id name function v e found j,
                ))
        ]
      ]

-- The same for a name that is known not to be empty.
workers_of-del_named :
    (worker_id name j : Bytes) {fm : FuncMap}
    → IsValid fm
    → name ≢ []
    → workers_of j (del_worker_func worker_id name fm).0
      ≡ (if bytes_eq name j then minus worker_id (workers_of j fm) else workers_of j fm)
workers_of-del_named worker_id [] j v nonempty = absurd (nonempty refl)
workers_of-del_named worker_id (c ∷ cs) j v nonempty = workers_of-del_worker_func worker_id c cs j v

abbrev present : Option Func → Bool
present none = false
present (some function) = true

-- The walk of CleanWorkerFunc visits each name of the map it started from once.
workers_of-clean_each :
    (worker_id j : Bytes) (t : Table Func) {fm : FuncMap}
    → IsValid fm
    → IsUnique t
    → ((name : Bytes) (function : Func) → load name t ≡ some function → IsCounted name function)
    → workers_of j (clean_each worker_id t fm)
      ≡ (if present (load j t) then minus worker_id (workers_of j fm) else workers_of j fm)
unfolding clean_each load
workers_of-clean_each worker_id j [] v u all = refl
workers_of-clean_each worker_id j ((key, function) ∷ t) {fm} v u all =
    let first : IsCounted key function = all key function (ground (arith, bytes_eq_refl key)) in
    let nonempty : function.func_name ≢ [] = λ e. first.nonempty (cc (first.named, e)) in
    let rest =
      workers_of-clean_each worker_id j t (del_worker_func-IsValid worker_id function.func_name v)
        u.1 (λ name f e. all name f (ground (arith, bytes_eq_iff key name, u.0, e))) in
    ground (
      arith,
      rest,
      workers_of-del_named worker_id function.func_name j v nonempty,
      first.named,
      bytes_eq_iff key j,
      bytes_eq_iff function.func_name j,
      u.0,
    )

-- CleanWorkerFunc takes one registration of the worker from every list.
pub workers_of-clean_worker_func :
    (worker_id j : Bytes) {fm : FuncMap}
    → IsValid fm
    → workers_of j (clean_worker_func worker_id fm) ≡ minus worker_id (workers_of j fm)
unfolding clean_worker_func
workers_of-clean_worker_func worker_id j {fm} v =
    let walk = workers_of-clean_each worker_id j fm.funcs v v.unique v.at_name in
    elim (Option-cases (load j fm.funcs)) [
      | inl e ↦ ground (arith, walk, e, missing j fm e, minus_nil worker_id)
      | inr (function, e) ↦ ground (arith, walk, e)
    ]
