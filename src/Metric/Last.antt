-- ===== src/Metric/Last.antt =====
-- The rows that GetWorkersFuncs shows (pkg/metric/getmetric.go).
use nmid.Prelude.{
  ◌≡◌, refl, List, [], ◌∷◌, Bool, Option, none, some, if◌then◌else◌, bytes_eq, arith,
}
use nmid.Prelude.{◌∙◌, ap}
use nmid.Wire.{Bytes}
use nmid.Table.{load, store, load-store}
use nmid.Metric.{Name, discovery_count, worker_func_count, func_func_count, other_name}
use nmid.Metric.{
  worker_func_success, worker_func_fail, worker_close_count, Metric, MetricFamily, each,
}
use nmid.Metric.{Rows, WorkerRow, FuncRow, worker_row, func_row, add_rows, family_rows}
use nmid.Metric.{get_workers_funcs}
use nmid.Metric.Labels.{
  or_else, last, name_value, func_value, value_of, shown_worker, shown_func, worker_row_lem,
  func_row_lem,
}

-- The row of a metric with a gauge, if it is that of the key.
abbrev pub worker_of : Bytes → Metric → Option WorkerRow
worker_of k m = elim m.gauge [
  | none ↦ none
  | some positive ↦
      if bytes_eq (value_of name_value m) k then some (shown_worker positive m) else none
]

abbrev pub func_of : Bytes → Metric → Option FuncRow
func_of k m = elim m.gauge [
  | none ↦ none
  | some positive ↦
      if bytes_eq (value_of func_value m) k then some (shown_func positive m) else none
]

-- The last row in a family, which has some only if it is nmid_server_worker_func_count.
abbrev pub of_family : {R : Type 0} → (Metric → Option R) → MetricFamily → Option R
of_family h mf = elim mf.name [ worker_func_count ↦ last h mf.metric | _ ↦ none ]

or_else_assoc : {R : Type 0} (a b c : Option R) → or_else a (or_else b c) ≡ or_else (or_else a b) c
or_else_assoc (some a) b c = refl
or_else_assoc none b c = refl

each-last :
    {A B R : Type 0} (f : A → B → B) (look : B → Option R) (h : A → Option R)
    → ((x : A) (b : B) → look (f x b) ≡ or_else (h x) (look b))
    → (xs : List A) (b : B) → look (each f xs b) ≡ or_else (last h xs) (look b)
unfolding each
each-last f look h step [] b = refl
each-last f look h step (x ∷ xs) b =
    each-last f look h step xs (f x b)
    ∙ ap (or_else (last h xs)) (step x b)
    ∙ or_else_assoc (last h xs) (h x) (look b)

module _ (k : Bytes) where
  add_rows-worker :
      (m : Metric) (rows : Rows)
      → load k (add_rows m rows).workers ≡ or_else (worker_of k m) (load k rows.workers)
  unfolding add_rows
  add_rows-worker m rows = go m.gauge
    where
      go :
          (gauge : Option Bool)
          → load k
              (elim gauge as (λ g. Rows) [
                | none ↦ rows
                | some positive ↦ record {
                  workers = store (worker_row positive m).name (worker_row positive m) rows.workers;
                  funcs = store (func_row positive m).name (func_row positive m) rows.funcs;
                }
              ]).workers
            ≡ or_else
                (elim gauge [
                  | none ↦ none
                  | some positive ↦
                      if bytes_eq (value_of name_value m) k
                      then some (shown_worker positive m)
                      else none
                ])
                (load k rows.workers)
      go none = refl
      go (some positive) = rw (worker_row_lem positive m) (
          ground (
            arith,
            load-store (shown_worker positive m).name k (shown_worker positive m) rows.workers,
          ))

  add_rows-func :
      (m : Metric) (rows : Rows)
      → load k (add_rows m rows).funcs ≡ or_else (func_of k m) (load k rows.funcs)
  unfolding add_rows
  add_rows-func m rows = go m.gauge
    where
      go :
          (gauge : Option Bool)
          → load k
              (elim gauge as (λ g. Rows) [
                | none ↦ rows
                | some positive ↦ record {
                  workers = store (worker_row positive m).name (worker_row positive m) rows.workers;
                  funcs = store (func_row positive m).name (func_row positive m) rows.funcs;
                }
              ]).funcs
            ≡ or_else
                (elim gauge [
                  | none ↦ none
                  | some positive ↦
                      if bytes_eq (value_of func_value m) k
                      then some (shown_func positive m)
                      else none
                ])
                (load k rows.funcs)
      go none = refl
      go (some positive) = rw (func_row_lem positive m) (
          ground
            (arith, load-store (shown_func positive m).name k (shown_func positive m) rows.funcs))

  family_rows-last :
      {R : Type 0} (look : Rows → Option R) (h : Metric → Option R)
      → ((m : Metric) (rows : Rows) → look (add_rows m rows) ≡ or_else (h m) (look rows))
      → (mf : MetricFamily) (rows : Rows)
      → look (family_rows mf rows) ≡ or_else (of_family h mf) (look rows)
  unfolding family_rows
  family_rows-last look h step mf rows = go mf.name
    where
      go :
          (name : Name)
          → look (elim name [ worker_func_count ↦ each add_rows mf.metric rows | _ ↦ rows ])
            ≡ or_else (elim name [ worker_func_count ↦ last h mf.metric | _ ↦ none ]) (look rows)
      go worker_func_count = each-last add_rows look h step mf.metric rows
      go discovery_count = refl
      go func_func_count = refl
      go worker_func_success = refl
      go worker_func_fail = refl
      go worker_close_count = refl
      go other_name = refl

  or_else-none : {R : Type 0} (a : Option R) → or_else a none ≡ a
  or_else-none (some a) = refl
  or_else-none none = refl

  -- The row that is shown for a worker is that of the last metric that names it, whatever the others
  -- say: it has the values of that metric's labels, and is online exactly if its gauge is above zero.
  -- Likewise for a function, which is shown with one worker, and is healthy then.
  pub load-get_workers_funcs :
      (mfs : List MetricFamily)
      → (load k (get_workers_funcs mfs).workers ≡ last (of_family (worker_of k)) mfs)
        × (load k (get_workers_funcs mfs).funcs ≡ last (of_family (func_of k)) mfs)
  unfolding get_workers_funcs load
  load-get_workers_funcs mfs =
      let empty : Rows = record { workers = []; funcs = [] } in
      (
        each-last family_rows (λ rows. load k rows.workers) (of_family (worker_of k))
              (family_rows-last (λ rows. load k rows.workers) (worker_of k) add_rows-worker) mfs
              empty
            ∙ or_else-none (last (of_family (worker_of k)) mfs),
        each-last family_rows (λ rows. load k rows.funcs) (of_family (func_of k))
              (family_rows-last (λ rows. load k rows.funcs) (func_of k) add_rows-func) mfs empty
            ∙ or_else-none (last (of_family (func_of k)) mfs),
      )
