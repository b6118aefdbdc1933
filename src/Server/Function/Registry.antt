-- ===== src/Server/Function/Registry.antt =====
-- The registry of pkg/server/function.go: its invariant.
pub mod Walks
pub mod Runs
use nmid.Prelude.{
  ℕ, zero, suc, ◌+◌, ◌-◌, ◌<◌, ◌==◌, ◌≡◌, ◌≢◌, refl, sym, true, false, if◌then◌else◌,
}
use nmid.Prelude.{Option, none, some, List, [], ◌∷◌, ◌++◌, arith, length, length-append, bytes_eq}
use nmid.Prelude.{bytes_eq_iff, bytes_eq_refl, Option-cases, Bool-cases, inl, inr}
use mathlib.Core.Option
use mathlib.Core.Path.{subst}
use nmid.Wire.{Bytes}
use nmid.Table.{Table, load, store, delete, IsUnique, load-store, load-delete, store-IsUnique}
use nmid.Table.{delete-IsUnique, length-store_new, length-store_old, length-delete}
use nmid.Model.LoadBlance
use nmid.Server.Function.{SWorker, Func, FuncMap, new_func_map, add_func, with_worker, new_func}
use nmid.Server.Function.{get_func, del_all_func, without_worker, less_worker, drop_worker}
use nmid.Server.Function.{del_found, del_worker_func, clean_each, clean_worker_func, del_each}
use nmid.Server.Function.{del_worker}

-- A function stands under its own name, which is not empty, counts its workers, and is not one
-- that GetBestWorker panics on.
pub record IsCounted (name : Bytes) (function : Func) : Type 0 where
  pub named : function.func_name ≡ name
  pub nonempty : name ≢ []
  pub workers : function.worker_num ≡ length function.workers
  pub balanced : function.load_blance_type ≢ LoadBlance.lru

pub record IsValid (fm : FuncMap) : Type 0 where
  pub unique : IsUnique fm.funcs
  pub counted : fm.func_num ≡ length fm.funcs
  pub at_name :
      (name : Bytes) (function : Func)
      → load name fm.funcs ≡ some function
      → IsCounted name function

pub new_func_map-IsValid : IsValid new_func_map
unfolding load
new_func_map-IsValid = record { unique = tt; counted = refl; at_name = λ name f e. cc }

module _ (name : Bytes) (function : Func) {fm : FuncMap} (v : IsValid fm)
    (counted : IsCounted name function) where
  -- A new version of a function that is there.
  store_old-IsValid :
      (old : Func)
      → load name fm.funcs ≡ some old
      → IsValid (record fm { funcs = store name function fm.funcs })
  store_old-IsValid old e = record {
    unique = store-IsUnique name function fm.funcs v.unique;
    counted = omega (arith, v.counted, length-store_old name function old fm.funcs e);
    at_name = λ j f p.
        ground
          (arith, load-store name j function fm.funcs, bytes_eq_iff name j, v.at_name j f, counted);
  }

  -- A function that is new.
  store_new-IsValid :
      load name fm.funcs ≡ none
      → IsValid (record { func_num = fm.func_num + 1; funcs = store name function fm.funcs })
  store_new-IsValid e = record {
    unique = store-IsUnique name function fm.funcs v.unique;
    counted = omega (arith, v.counted, length-store_new name function fm.funcs e);
    at_name = λ j f p.
        ground
          (arith, load-store name j function fm.funcs, bytes_eq_iff name j, v.at_name j f, counted);
  }

length-snoc : (ws : List SWorker) (w : SWorker) → length (ws ++ w ∷ []) ≡ length ws + 1
length-snoc ws w = omega (arith, length-append ws (w ∷ []))

with_worker-IsCounted :
    (worker : SWorker) (name : Bytes) (function : Func)
    → IsCounted name function
    → IsCounted name (with_worker worker function)
with_worker-IsCounted worker name function c = record {
  named = c.named;
  nonempty = c.nonempty;
  balanced = c.balanced;
  workers = omega (arith, c.workers, length-snoc function.workers worker);
}

pub add_func-IsValid :
    (worker : Option SWorker) (name : Bytes) {fm : FuncMap}
    → IsValid fm
    → IsValid (add_func worker name fm).0
unfolding add_func
add_func-IsValid none name v = v
add_func-IsValid (some worker) [] v = v
add_func-IsValid (some worker) (c ∷ cs) {fm} v =
    let name = c ∷ cs in
    elim (Option-cases (load name fm.funcs)) [
      | inl e ↦
          rw (e, add_func)
            (store_new-IsValid name _ v
              (with_worker-IsCounted worker name (new_func name) (record {
                named = refl;
                nonempty = λ e. cc;
                workers = refl;
                balanced = omega arith;
              }))
              e)
      | inr (old, e) ↦
          rw (e, add_func)
            (store_old-IsValid name _ v
              (with_worker-IsCounted worker name old (v.at_name name old e)) old e)
    ]

pub del_all_func-IsValid :
    (name : Bytes) {fm : FuncMap} → IsValid fm → IsValid (del_all_func name fm).0
unfolding del_all_func
del_all_func-IsValid name {fm} v = elim (Option-cases (load name fm.funcs)) [
  | inl e ↦ rw (e, del_all_func) v
  | inr (old, e) ↦
      rw (e, del_all_func)
        (record {
          unique = delete-IsUnique name fm.funcs v.unique;
          counted = omega (arith, v.counted, length-delete name old fm.funcs e);
          at_name = λ j f p.
              ground
                (arith, load-delete name j fm.funcs v.unique, bytes_eq_iff name j, v.at_name j f);
        })
]

pub length-without_worker :
    (worker_id : Bytes) (ws : List SWorker) {vs : List SWorker}
    → without_worker worker_id ws ≡ some vs
    → length vs + 1 ≡ length ws
unfolding without_worker
length-without_worker worker_id [] e = cc
length-without_worker worker_id (w ∷ ws) {vs} e =
    elim (Option-cases (without_worker worker_id ws)) [
      | inl none_left ↦ ground arith
      | inr (us, e') ↦ ground (arith, length-without_worker worker_id ws e')
    ]

pub less_worker-IsCounted :
    (worker_id name : Bytes) (function : Func) {ws : List SWorker}
    → IsCounted name function
    → without_worker worker_id function.workers ≡ some ws
    → IsCounted name (less_worker ws function)
less_worker-IsCounted worker_id name function c e = record {
  named = c.named;
  nonempty = c.nonempty;
  balanced = c.balanced;
  workers = omega (arith, c.workers, length-without_worker worker_id function.workers e);
}

drop_worker-IsValid :
    (worker_id name : Bytes) (function : Func) {ws : List SWorker} {fm : FuncMap}
    → IsValid fm
    → load name fm.funcs ≡ some function
    → without_worker worker_id function.workers ≡ some ws
    → IsValid (drop_worker name ws function fm)
unfolding drop_worker
drop_worker-IsValid worker_id name function {ws} {fm} v e found =
    let left = less_worker ws function in
    let kept =
      store_old-IsValid name left v
        (less_worker-IsCounted worker_id name function (v.at_name name function e) found) function
        e in
    elim (Bool-cases (left.worker_num == 0)) [
      | inl last ↦ rw last (del_all_func-IsValid name kept)
      | inr more ↦ rw more kept
    ]

del_found-IsValid :
    (worker_id name : Bytes) (function : Func) {fm : FuncMap}
    → IsValid fm
    → load name fm.funcs ≡ some function
    → IsValid (del_found worker_id name function fm).0
unfolding del_found
del_found-IsValid worker_id name function {fm} v e =
    elim (Option-cases (without_worker worker_id function.workers)) [
      | inl absent ↦ ground (arith, absent)
      | inr (ws, found) ↦ ground (arith, drop_worker-IsValid worker_id name function v e found)
    ]

pub del_worker_func-IsValid :
    (worker_id name : Bytes) {fm : FuncMap}
    → IsValid fm
    → IsValid (del_worker_func worker_id name fm).0
unfolding del_worker_func get_func
del_worker_func-IsValid worker_id [] v = v
del_worker_func-IsValid worker_id (c ∷ cs) {fm} v = elim (Option-cases (load (c ∷ cs) fm.funcs)) [
  | inl e ↦ rw (e, del_worker_func) v
  | inr (function, e) ↦ rw (e, del_worker_func) (del_found-IsValid worker_id (c ∷ cs) function v e)
]
