-- ===== src/Metric/Labels.antt =====
-- The rows that a metric gives, by its labels (pkg/metric/getmetric.go).
use nmid.Prelude.{◌≡◌, refl, List, [], ◌∷◌, Bool, true, false, Option, none, some, if◌then◌else◌}
use nmid.Prelude.{◌∙◌}
use nmid.Wire.{Bytes}
use nmid.Metric.{
  Label, discovery_name, worker_name, worker_id, worker_ip, func_name, create_time, other_label,
}
use nmid.Metric.{label_worker, label_func}
use nmid.Metric.{Metric, each}
use nmid.Metric.{WorkerRow, FuncRow, worker_row, func_row}

abbrev pub or_else : {R : Type 0} → Option R → Option R → Option R
or_else (some a) other = some a
or_else none other = other

-- The last that a list has.
abbrev pub last : {A R : Type 0} → (A → Option R) → List A → Option R
last h [] = none
last h (x ∷ xs) = or_else (last h xs) (h x)

-- The values of the labels that the rows show.
abbrev pub name_value : Label × Bytes → Option Bytes
name_value (worker_name, value) = some value
name_value _ = none

abbrev id_value : Label × Bytes → Option Bytes
id_value (worker_id, value) = some value
id_value _ = none

abbrev pub func_value : Label × Bytes → Option Bytes
func_value (func_name, value) = some value
func_value _ = none

abbrev ip_value : Label × Bytes → Option Bytes
ip_value (worker_ip, value) = some value
ip_value _ = none

abbrev time_value : Label × Bytes → Option Bytes
time_value (create_time, value) = some value
time_value _ = none

-- The last value of a label, and nothing where the metric does not have it.
abbrev pub value_of : (Label × Bytes → Option Bytes) → Metric → Bytes
value_of h m = elim (last h m.label) [ none ↦ [] | some value ↦ value ]

-- The worker of a metric, which is online if its gauge is above zero, and the function, which is
-- healthy then.
abbrev pub shown_worker : Bool → Metric → WorkerRow
shown_worker positive m = record {
  id = value_of id_value m;
  name = value_of name_value m;
  online = if positive then true else false;
  create_time = value_of time_value m;
}

abbrev pub shown_func : Bool → Metric → FuncRow
shown_func positive m = record {
  name = value_of func_value m;
  healthy = if positive then true else false;
  worker = value_of name_value m;
  host = value_of ip_value m;
  create_time = value_of time_value m;
}

-- A field that each label with a value replaces.
field_value :
    {R : Type 0} (f : Label × Bytes → R → R) (field : R → Bytes) (h : Label × Bytes → Option Bytes)
    → ((l : Label × Bytes) (row : R)
        → field (f l row) ≡ elim (h l) [ none ↦ field row | some value ↦ value ])
    → (labels : List (Label × Bytes)) (row : R)
    → field (each f labels row) ≡ elim (last h labels) [ none ↦ field row | some value ↦ value ]
unfolding each
field_value f field h step [] row = refl
field_value f field h step (l ∷ labels) row =
    field_value f field h step labels (f l row) ∙ go (last h labels)
  where
    go :
        (o : Option Bytes)
        → (elim o [ none ↦ field (f l row) | some value ↦ value ])
          ≡ elim (or_else o (h l)) [ none ↦ field row | some value ↦ value ]
    go none = step l row
    go (some value) = refl

-- A field that no label replaces.
field_kept :
    {R X : Type 0} (f : Label × Bytes → R → R) (field : R → X)
    → ((l : Label × Bytes) (row : R) → field (f l row) ≡ field row)
    → (labels : List (Label × Bytes)) (row : R) → field (each f labels row) ≡ field row
unfolding each
field_kept f field step [] row = refl
field_kept f field step (l ∷ labels) row = field_kept f field step labels (f l row) ∙ step l row

if_same : (b : Bool) → b ≡ (if b then true else false)
if_same true = refl
if_same false = refl

label_worker_id :
    (l : Label × Bytes) (row : WorkerRow)
    → (label_worker l row).id ≡ elim (id_value l) [ none ↦ row.id | some value ↦ value ]
unfolding label_worker
label_worker_id (discovery_name, value) row = refl
label_worker_id (worker_name, value) row = refl
label_worker_id (worker_id, value) row = refl
label_worker_id (worker_ip, value) row = refl
label_worker_id (func_name, value) row = refl
label_worker_id (create_time, value) row = refl
label_worker_id (other_label, value) row = refl

label_worker_name :
    (l : Label × Bytes) (row : WorkerRow)
    → (label_worker l row).name ≡ elim (name_value l) [ none ↦ row.name | some value ↦ value ]
unfolding label_worker
label_worker_name (discovery_name, value) row = refl
label_worker_name (worker_name, value) row = refl
label_worker_name (worker_id, value) row = refl
label_worker_name (worker_ip, value) row = refl
label_worker_name (func_name, value) row = refl
label_worker_name (create_time, value) row = refl
label_worker_name (other_label, value) row = refl

label_worker_create_time :
    (l : Label × Bytes) (row : WorkerRow)
    → (label_worker l row).create_time
      ≡ elim (time_value l) [ none ↦ row.create_time | some value ↦ value ]
unfolding label_worker
label_worker_create_time (discovery_name, value) row = refl
label_worker_create_time (worker_name, value) row = refl
label_worker_create_time (worker_id, value) row = refl
label_worker_create_time (worker_ip, value) row = refl
label_worker_create_time (func_name, value) row = refl
label_worker_create_time (create_time, value) row = refl
label_worker_create_time (other_label, value) row = refl

label_func_name :
    (l : Label × Bytes) (row : FuncRow)
    → (label_func l row).name ≡ elim (func_value l) [ none ↦ row.name | some value ↦ value ]
unfolding label_func
label_func_name (discovery_name, value) row = refl
label_func_name (worker_name, value) row = refl
label_func_name (worker_id, value) row = refl
label_func_name (worker_ip, value) row = refl
label_func_name (func_name, value) row = refl
label_func_name (create_time, value) row = refl
label_func_name (other_label, value) row = refl

label_func_worker :
    (l : Label × Bytes) (row : FuncRow)
    → (label_func l row).worker ≡ elim (name_value l) [ none ↦ row.worker | some value ↦ value ]
unfolding label_func
label_func_worker (discovery_name, value) row = refl
label_func_worker (worker_name, value) row = refl
label_func_worker (worker_id, value) row = refl
label_func_worker (worker_ip, value) row = refl
label_func_worker (func_name, value) row = refl
label_func_worker (create_time, value) row = refl
label_func_worker (other_label, value) row = refl

label_func_host :
    (l : Label × Bytes) (row : FuncRow)
    → (label_func l row).host ≡ elim (ip_value l) [ none ↦ row.host | some value ↦ value ]
unfolding label_func
label_func_host (discovery_name, value) row = refl
label_func_host (worker_name, value) row = refl
label_func_host (worker_id, value) row = refl
label_func_host (worker_ip, value) row = refl
label_func_host (func_name, value) row = refl
label_func_host (create_time, value) row = refl
label_func_host (other_label, value) row = refl

label_func_create_time :
    (l : Label × Bytes) (row : FuncRow)
    → (label_func l row).create_time
      ≡ elim (time_value l) [ none ↦ row.create_time | some value ↦ value ]
unfolding label_func
label_func_create_time (discovery_name, value) row = refl
label_func_create_time (worker_name, value) row = refl
label_func_create_time (worker_id, value) row = refl
label_func_create_time (worker_ip, value) row = refl
label_func_create_time (func_name, value) row = refl
label_func_create_time (create_time, value) row = refl
label_func_create_time (other_label, value) row = refl

label_worker_online :
    (l : Label × Bytes) (row : WorkerRow) → (label_worker l row).online ≡ row.online
unfolding label_worker
label_worker_online (discovery_name, value) row = refl
label_worker_online (worker_name, value) row = refl
label_worker_online (worker_id, value) row = refl
label_worker_online (worker_ip, value) row = refl
label_worker_online (func_name, value) row = refl
label_worker_online (create_time, value) row = refl
label_worker_online (other_label, value) row = refl

label_func_healthy : (l : Label × Bytes) (row : FuncRow) → (label_func l row).healthy ≡ row.healthy
unfolding label_func
label_func_healthy (discovery_name, value) row = refl
label_func_healthy (worker_name, value) row = refl
label_func_healthy (worker_id, value) row = refl
label_func_healthy (worker_ip, value) row = refl
label_func_healthy (func_name, value) row = refl
label_func_healthy (create_time, value) row = refl
label_func_healthy (other_label, value) row = refl

pub worker_row_lem :
    (positive : Bool) (m : Metric) → worker_row positive m ≡ shown_worker positive m
unfolding worker_row
worker_row_lem positive m =
    let start : WorkerRow = record { id = []; name = []; online = positive; create_time = [] } in
    let id = field_value label_worker (λ row. row.id) id_value label_worker_id m.label start in
    let name =
      field_value label_worker (λ row. row.name) name_value label_worker_name m.label start in
    let online = field_kept label_worker (λ row. row.online) label_worker_online m.label start in
    let time =
      field_value label_worker (λ row. row.create_time) time_value label_worker_create_time m.label
        start in
    worker_rows id name (online ∙ if_same positive) time
  where
    worker_rows :
        {r s : WorkerRow}
        → r.id ≡ s.id
        → r.name ≡ s.name
        → r.online ≡ s.online
        → r.create_time ≡ s.create_time
        → r ≡ s
    worker_rows a b c d = λ i. record { id = a i; name = b i; online = c i; create_time = d i }

pub func_row_lem : (positive : Bool) (m : Metric) → func_row positive m ≡ shown_func positive m
unfolding func_row
func_row_lem positive m =
    let start : FuncRow = record {
      name = [];
      healthy = positive;
      worker = [];
      host = [];
      create_time = [];
    } in
    let name = field_value label_func (λ row. row.name) func_value label_func_name m.label start in
    let healthy = field_kept label_func (λ row. row.healthy) label_func_healthy m.label start in
    let worker =
      field_value label_func (λ row. row.worker) name_value label_func_worker m.label start in
    let host = field_value label_func (λ row. row.host) ip_value label_func_host m.label start in
    let time =
      field_value label_func (λ row. row.create_time) time_value label_func_create_time m.label
        start in
    func_rows name (healthy ∙ if_same positive) worker host time
  where
    func_rows :
        {r s : FuncRow}
        → r.name ≡ s.name
        → r.healthy ≡ s.healthy
        → r.worker ≡ s.worker
        → r.host ≡ s.host
        → r.create_time ≡ s.create_time
        → r ≡ s
    func_rows a b c d e =
        λ i. record { name = a i; healthy = b i; worker = c i; host = d i; create_time = e i }
