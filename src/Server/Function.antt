-- ===== src/Server/Function.antt =====
-- pkg/server/function.go: which workers serve which function, and the choice of one.
-- A worker is its id and its weight. Whether its connection still has a worker is a snapshot of
-- the connections, `live`, by the worker's id, which is the id of its connection.
pub mod Registry
pub mod View
pub mod Balance
pub mod Samples
use nmid.Prelude.{ℕ, zero, suc, ◌+◌, ◌-◌, ◌%◌, ◌==◌, leb, Bool, true, false, not, if◌then◌else◌}
use nmid.Prelude.{Option, none, some, List, [], ◌∷◌, ◌++◌, ◌||◌, length, get_elem?, bytes_eq}
use nmid.Wire.{Bytes, Outcome, ok, err, panics}
use nmid.Table.{Table, load, store, delete}
use nmid.Model.LoadBlance

pub record SWorker : Type 0 where
  pub worker_id : Bytes
  pub weight : ℕ

pub record Func : Type 0 where
  pub func_name : Bytes
  pub worker_num : ℕ
  pub load_blance_type : ℕ
  pub workers : List SWorker

pub record FuncMap : Type 0 where
  pub func_num : ℕ
  pub funcs : Table Func

abbrev pub new_func_map : FuncMap
new_func_map = record { func_num = 0; funcs = [] }

-- The function that AddFunc registers the worker under.
abbrev with_worker : SWorker → Func → Func
with_worker worker function = record function {
  worker_num = function.worker_num + 1;
  workers = function.workers ++ worker ∷ [];
}

abbrev new_func : Bytes → Func
new_func name = record {
  func_name = name;
  worker_num = 0;
  load_blance_type = LoadBlance.hash;
  workers = [];
}

-- AddFunc. A nil worker is none.
unfoldable pub add_func : Option SWorker → Bytes → FuncMap → FuncMap × Bool
add_func none name fm = (fm, false)
add_func (some worker) [] fm = (fm, false)
add_func (some worker) (c ∷ cs) fm =
    let name = c ∷ cs in
    elim (load name fm.funcs) [
      | some function ↦
          (record fm { funcs = store name (with_worker worker function) fm.funcs }, true)
      | none ↦ (
        record {
          func_num = fm.func_num + 1;
          funcs = store name (with_worker worker (new_func name)) fm.funcs;
        },
        true,
      )
    ]

unfoldable pub get_func : Bytes → FuncMap → Option Func
get_func name fm = load name fm.funcs

unfoldable pub del_all_func : Bytes → FuncMap → FuncMap × Bool
del_all_func name fm = elim (load name fm.funcs) [
  | some function ↦ (record { func_num = fm.func_num - 1; funcs = delete name fm.funcs }, true)
  | none ↦ (fm, false)
]

-- The workers without the first that has this id; none if no worker has it.
unfoldable pub without_worker : Bytes → List SWorker → Option (List SWorker)
without_worker worker_id [] = none
without_worker worker_id (w ∷ ws) =
    let rest = without_worker worker_id ws in
    if bytes_eq w.worker_id worker_id
    then some ws
    else elim rest [ none ↦ none | some vs ↦ some (w ∷ vs) ]

abbrev less_worker : List SWorker → Func → Func
less_worker ws function = record function { worker_num = function.worker_num - 1; workers = ws }

-- The end of DelWorkerFunc: the function is kept if a worker is left.
unfoldable pub drop_worker : Bytes → List SWorker → Func → FuncMap → FuncMap
drop_worker name ws function fm =
    let left = less_worker ws function in
    let fm' = record fm { funcs = store name left fm.funcs } in
    if left.worker_num == 0 then (del_all_func name fm').0 else fm'

unfoldable pub del_found : Bytes → Bytes → Func → FuncMap → FuncMap × Bool
del_found worker_id name function fm =
    if function.worker_num == 0
    then (fm, false)
    else if not (bytes_eq function.func_name name)
    then (fm, false)
    else elim (without_worker worker_id function.workers) [
      | none ↦ (fm, false)
      | some ws ↦ (drop_worker name ws function fm, true)
    ]

unfoldable pub del_worker_func : Bytes → Bytes → FuncMap → FuncMap × Bool
del_worker_func worker_id [] fm = (fm, false)
del_worker_func worker_id (c ∷ cs) fm =
    let name = c ∷ cs in
    elim (get_func name fm) [
      | none ↦ (fm, false)
      | some function ↦ del_found worker_id name function fm
    ]

-- The walk of CleanWorkerFunc over the functions that stood in the map when it began.
unfoldable pub clean_each : Bytes → Table Func → FuncMap → FuncMap
clean_each worker_id [] fm = fm
clean_each worker_id ((key, function) ∷ t) fm =
    clean_each worker_id t (del_worker_func worker_id function.func_name fm).0

-- CleanWorkerFunc, which always returns true.
unfoldable pub clean_worker_func : Bytes → FuncMap → FuncMap
clean_worker_func worker_id fm = clean_each worker_id fm.funcs fm

-- The walk of DelWorker: each function loses its first worker with this id, and stays in the map.
unfoldable pub del_each : Bytes → Table Func → Table Func
del_each worker_id [] = []
del_each worker_id ((key, function) ∷ t) =
    (
      key,
      elim (without_worker worker_id function.workers) [
        | none ↦ function
        | some ws ↦ less_worker ws function
      ],
    )
    ∷ del_each worker_id t

abbrev any_entry : Table Func → Bool
any_entry [] = false
any_entry (entry ∷ t) = true

unfoldable pub del_worker : Bytes → FuncMap → FuncMap × Bool
del_worker worker_id fm =
    if fm.func_num == 0
    then (fm, true)
    else (record fm { funcs = del_each worker_id fm.funcs }, any_entry fm.funcs)

-- What the libraries decide in GetBestWorker: `draw i` is the i-th number of math/rand, and `pick`
-- the choice of weightedrand, none where it reports an error.
pub record Chance : Type 0 where
  pub draw : ℕ → ℕ
  pub pick : List SWorker → Option SWorker

-- function.Workers[rand.Int() % function.WorkerNum]
unfoldable pub hash_func : Chance → ℕ → Func → Outcome SWorker
hash_func chance i function =
    elim (get_elem? function.workers (chance.draw i % function.worker_num)) [
      | none ↦ panics
      | some w ↦ ok w
    ]

-- The choice by weight, and by the hash where the weights give none.
unfoldable pub by_weight : Chance → ℕ → Func → Outcome SWorker
by_weight chance i function =
    if leb function.worker_num 10
    then elim (chance.pick function.workers) [ none ↦ hash_func chance i function | some w ↦ ok w ]
    else hash_func chance i function

-- The branch for LOADBLANCE_LRU compares with a nil `best`, and dereferences it.
unfoldable pub balance : Chance → ℕ → Func → Outcome SWorker
balance chance i function =
    if function.load_blance_type == LoadBlance.hash
    then hash_func chance i function
    else if function.load_blance_type == LoadBlance.round_weight
    then by_weight chance i function
    else if function.load_blance_type == LoadBlance.lru
    then panics
    else hash_func chance i function

-- What GetBestWorker leaves: the map, the workers that it closed, latest first, and its answer.
pub record Best : Type 0 where
  pub map : FuncMap
  pub closed : List SWorker
  pub worker : Option SWorker

-- The loop of GetBestWorker, one round for each unit of fuel; none when the fuel is out.
unfoldable pub best_loop :
    Chance → (Bytes → Bool) → Bytes → ℕ → ℕ → FuncMap → List SWorker → Option (Outcome Best)
best_loop chance live name zero i fm closed = none
best_loop chance live name (suc fuel) i fm closed = elim (load name fm.funcs) [
  | none ↦ some (ok (record { map = fm; closed = closed; worker = none }))
  | some function ↦ elim (function.worker_num == 0) [
    | true ↦ some (ok (record { map = fm; closed = closed; worker = none }))
    | false ↦ elim (balance chance i function) [
      | panics ↦ some panics
      | err e ↦ some panics
      | ok best ↦ elim (live best.worker_id) [
        | true ↦ some (ok (record { map = fm; closed = closed; worker = some best }))
        | false ↦
            best_loop chance live name fuel (suc i) (clean_worker_func best.worker_id fm)
              (best ∷ closed)
      ]
    ]
  ]
]
