-- ===== src/Metric.antt =====
-- pkg/metric/getmetric.go: the numbers and the lists that the dashboard shows, out of the metrics that
-- Prometheus gathers.
-- Of a gauge the code reads only whether it is above zero, and a counter counts events. The lists are
-- given before they are sorted by their times, in the order of the maps.
pub mod Workers
pub mod Labels
pub mod Last
mod Samples
use nmid.Prelude.{ℕ, ◌+◌, ◌==◌, ◌&&◌, List, [], ◌∷◌, Bool, true, false, Option, none, some}
use nmid.Prelude.{if◌then◌else◌, bytes_eq}
use nmid.Wire.{Bytes}
use nmid.Table.{Table, load, store}

-- The names of metrics and labels that the code compares with.
pub data Label : Type 0 where
  discovery_name worker_name worker_id worker_ip func_name create_time other_label : Label

pub data Name : Type 0 where
  discovery_count worker_func_count func_func_count : Name
  worker_func_success worker_func_fail worker_close_count other_name : Name

pub record Metric : Type 0 where
  pub gauge : Option Bool
  pub counter : Option ℕ
  pub label : List (Label × Bytes)

pub record MetricFamily : Type 0 where
  pub name : Name
  pub metric : List Metric

pub record Counts : Type 0 where
  pub discovery_num : ℕ
  pub worker_num : ℕ
  pub func_num : ℕ
  pub worker_funcs : Table ℕ

-- The entry of a map of numbers, 0 where there is none.
abbrev pub number_at : Bytes → Table ℕ → ℕ
number_at k t = elim (load k t) [ none ↦ 0 | some n ↦ n ]

-- The body of a loop over the labels of a metric.
unfoldable pub count_discovery : Label × Bytes → Counts → Counts
count_discovery (discovery_name, value) c = record c { discovery_num = c.discovery_num + 1 }
count_discovery _ c = c

unfoldable pub count_worker : Bool → Label × Bytes → Counts → Counts
count_worker true (worker_name, value) c = record c {
  worker_num = if number_at value c.worker_funcs == 0 then c.worker_num + 1 else c.worker_num;
  worker_funcs = store value (number_at value c.worker_funcs + 1) c.worker_funcs;
}
count_worker _ _ c = c

-- A loop whose body is a function.
unfoldable pub each : {A B : Type 0} → (A → B → B) → List A → B → B
each f [] b = b
each f (x ∷ xs) b = each f xs (f x b)

unfoldable pub count_metric : Name → Metric → Counts → Counts
unfolding count_discovery count_worker each
count_metric discovery_count m c = each count_discovery m.label c
count_metric worker_func_count m c = elim m.gauge [
  | none ↦ c
  | some positive ↦ each (count_worker positive) m.label c
]
count_metric func_func_count m c = elim m.gauge [
  | some true ↦ record c { func_num = c.func_num + 1 }
  | some false ↦ c
  | none ↦ c
]
count_metric _ m c = c

unfoldable pub count_family : MetricFamily → Counts → Counts
unfolding each count_metric
count_family mf c = each (count_metric mf.name) mf.metric c

abbrev pub no_counts : Counts
no_counts = record { discovery_num = 0; worker_num = 0; func_num = 0; worker_funcs = [] }

-- GetDiscoveryWorkerFuncNum
unfoldable pub get_discovery_worker_func_num : List MetricFamily → Counts
unfolding each count_family
get_discovery_worker_func_num mfs = each count_family mfs no_counts

pub record Nums : Type 0 where
  pub success_num : ℕ
  pub fail_num : ℕ
  pub close_num : ℕ

unfoldable pub add_counter : Name → Metric → Nums → Nums
add_counter name m n = elim m.counter [
  | none ↦ n
  | some value ↦ elim name [
    | worker_func_success ↦ record n { success_num = n.success_num + value }
    | worker_func_fail ↦ record n { fail_num = n.fail_num + value }
    | worker_close_count ↦ record n { close_num = n.close_num + value }
    | _ ↦ n
  ]
]

-- GetSuccesFailCloseNum
unfoldable pub get_succes_fail_close_num : List MetricFamily → Nums
unfolding each add_counter
get_succes_fail_close_num mfs =
    each (λ mf n. each (add_counter mf.name) mf.metric n) mfs
      (record { success_num = 0; fail_num = 0; close_num = 0 })

pub record WorkerRow : Type 0 where
  pub id : Bytes
  pub name : Bytes
  pub online : Bool
  pub create_time : Bytes

pub record FuncRow : Type 0 where
  pub name : Bytes
  pub healthy : Bool
  pub worker : Bytes
  pub host : Bytes
  pub create_time : Bytes

unfoldable pub label_worker : Label × Bytes → WorkerRow → WorkerRow
label_worker (worker_name, value) row = record row { name = value }
label_worker (worker_id, value) row = record row { id = value }
label_worker (create_time, value) row = record row { create_time = value }
label_worker _ row = row

unfoldable pub label_func : Label × Bytes → FuncRow → FuncRow
label_func (worker_name, value) row = record row { worker = value }
label_func (func_name, value) row = record row { name = value }
label_func (worker_ip, value) row = record row { host = value }
label_func (create_time, value) row = record row { create_time = value }
label_func _ row = row

-- The rows of a metric.
unfoldable pub worker_row : Bool → Metric → WorkerRow
unfolding each label_worker
worker_row positive m =
    each label_worker m.label (record { id = []; name = []; online = positive; create_time = [] })

unfoldable pub func_row : Bool → Metric → FuncRow
unfolding each label_func
func_row positive m =
    each label_func m.label
      (record { name = []; healthy = positive; worker = []; host = []; create_time = [] })

pub record Rows : Type 0 where
  pub workers : Table WorkerRow
  pub funcs : Table FuncRow

unfoldable pub add_rows : Metric → Rows → Rows
unfolding worker_row func_row
add_rows m rows = elim m.gauge [
  | none ↦ rows
  | some positive ↦ record {
    workers = store (worker_row positive m).name (worker_row positive m) rows.workers;
    funcs = store (func_row positive m).name (func_row positive m) rows.funcs;
  }
]

unfoldable pub family_rows : MetricFamily → Rows → Rows
unfolding each add_rows
family_rows mf rows = elim mf.name [ worker_func_count ↦ each add_rows mf.metric rows | _ ↦ rows ]

-- GetWorkersFuncs, up to the sorting.
unfoldable pub get_workers_funcs : List MetricFamily → Rows
unfolding each family_rows
get_workers_funcs mfs = each family_rows mfs (record { workers = []; funcs = [] })
