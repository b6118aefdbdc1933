-- ===== src/Server/Function/Registry/Runs.antt =====
-- Any sequence of calls on the registry of pkg/server/function.go.
use nmid.Prelude.{Option, List, [], ◌∷◌}
use nmid.Wire.{Bytes}
use nmid.Server.Function.{SWorker, FuncMap, new_func_map, add_func, del_all_func, del_worker_func}
use nmid.Server.Function.{clean_worker_func, del_worker}
use nmid.Server.Function.Registry.{IsValid, new_func_map-IsValid, add_func-IsValid}
use nmid.Server.Function.Registry.{del_all_func-IsValid, del_worker_func-IsValid}
use nmid.Server.Function.Registry.Walks.{clean_worker_func-IsValid, del_worker-IsValid}

pub data Op : Type 0 where
  adds_func : Option SWorker → Bytes → Op
  dels_all_func : Bytes → Op
  dels_worker_func : Bytes → Bytes → Op
  cleans_worker_func : Bytes → Op
  dels_worker : Bytes → Op

abbrev pub apply : Op → FuncMap → FuncMap
apply (adds_func worker name) fm = (add_func worker name fm).0
apply (dels_all_func name) fm = (del_all_func name fm).0
apply (dels_worker_func worker_id name) fm = (del_worker_func worker_id name fm).0
apply (cleans_worker_func worker_id) fm = clean_worker_func worker_id fm
apply (dels_worker worker_id) fm = (del_worker worker_id fm).0

abbrev pub run : List Op → FuncMap → FuncMap
run [] fm = fm
run (op ∷ ops) fm = run ops (apply op fm)

apply-IsValid : (op : Op) {fm : FuncMap} → IsValid fm → IsValid (apply op fm)
apply-IsValid (adds_func worker name) v = add_func-IsValid worker name v
apply-IsValid (dels_all_func name) v = del_all_func-IsValid name v
apply-IsValid (dels_worker_func worker_id name) v = del_worker_func-IsValid worker_id name v
apply-IsValid (cleans_worker_func worker_id) v = clean_worker_func-IsValid worker_id v
apply-IsValid (dels_worker worker_id) v = del_worker-IsValid worker_id v

run-IsValid : (ops : List Op) {fm : FuncMap} → IsValid fm → IsValid (run ops fm)
run-IsValid [] v = v
run-IsValid (op ∷ ops) v = run-IsValid ops (apply-IsValid op v)

-- Whatever calls were made on a new registry: no name stands twice, FuncNum is the number of
-- functions, and each function stands under its own name, which is not empty, with WorkerNum the
-- number of its workers and a way to balance that GetBestWorker does not panic on.
pub run-new_func_map : (ops : List Op) → IsValid (run ops new_func_map)
run-new_func_map ops = run-IsValid ops new_func_map-IsValid
