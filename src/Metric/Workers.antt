-- ===== src/Metric/Workers.antt =====
-- The workers that GetDiscoveryWorkerFuncNum counts and GetWorkersFuncs lists
-- (pkg/metric/getmetric.go).
use nmid.Prelude.{ℕ, ◌+◌, ◌≤◌, ◌≡◌, refl, List, [], ◌∷◌, Bool, true, false, Option, none, some}
use nmid.Prelude.{if◌then◌else◌, bytes_eq, bytes_eq_iff, length, arith, Option-cases, inl, inr}
use nmid.Wire.{Bytes}
use nmid.Table.{load, IsUnique, load-store, store-IsUnique, length-store_new}
use nmid.Table.{length-store_old}
use nmid.Metric.{Label, discovery_name, worker_name, worker_id, worker_ip, func_name, create_time}
use nmid.Metric.{other_label, Name, discovery_count, worker_func_count, func_func_count, other_name}
use nmid.Metric.{worker_func_success, worker_func_fail, worker_close_count, Metric, MetricFamily}
use nmid.Metric.{Counts, number_at, count_discovery, count_worker, each, count_metric, count_family}
use nmid.Metric.{no_counts, get_discovery_worker_func_num}

-- The sum over a list.
abbrev pub total : {A : Type 0} → (A → ℕ) → List A → ℕ
total h [] = 0
total h (x ∷ xs) = h x + total h xs

module _ {A B : Type 0} (f : A → B → B) where
  each-keeps :
      (P : B → Type 0)
      → ((x : A) (b : B) → P b → P (f x b))
      → (xs : List A) (b : B) → P b
      → P (each f xs b)
  unfolding each
  each-keeps P step [] b p = p
  each-keeps P step (x ∷ xs) b p = each-keeps P step xs (f x b) (step x b p)

  each-adds :
      (measure : B → ℕ) (h : A → ℕ)
      → ((x : A) (b : B) → measure (f x b) ≡ measure b + h x)
      → (xs : List A) (b : B) → measure (each f xs b) ≡ measure b + total h xs
  unfolding each
  each-adds measure h step [] b = omega arith
  each-adds measure h step (x ∷ xs) b = omega (arith, each-adds measure h step xs (f x b), step x b)

-- How often a worker is named by a gauge above zero.
abbrev pub label_hits : Bytes → Bool → Label × Bytes → ℕ
label_hits k true (worker_name, value) = if bytes_eq value k then 1 else 0
label_hits k _ _ = 0

abbrev pub metric_hits : Bytes → Metric → ℕ
metric_hits k m = elim m.gauge [ none ↦ 0 | some positive ↦ total (label_hits k positive) m.label ]

abbrev pub family_hits : Bytes → MetricFamily → ℕ
family_hits k mf = elim mf.name [ worker_func_count ↦ total (metric_hits k) mf.metric | _ ↦ 0 ]

-- The count of the workers is that of the entries, which are the names that a gauge above zero has,
-- each once and with the number of such gauges.
pub record IsTally (mfs : List MetricFamily) (c : Counts) : Type 0 where
  pub distinct : c.worker_num ≡ length c.worker_funcs
  pub unique : IsUnique c.worker_funcs
  pub positive : (k : Bytes) (n : ℕ) → load k c.worker_funcs ≡ some n → 1 ≤ n
  pub seen : (k : Bytes) → number_at k c.worker_funcs ≡ total (family_hits k) mfs

record IsCounted (c : Counts) : Type 0 where
  distinct : c.worker_num ≡ length c.worker_funcs
  unique : IsUnique c.worker_funcs
  positive : (k : Bytes) (n : ℕ) → load k c.worker_funcs ≡ some n → 1 ≤ n

store-IsCounted :
    (value : Bytes) (c : Counts)
    → IsCounted c
    → IsCounted (count_worker true (worker_name, value) c)
unfolding count_worker
store-IsCounted value c s = record {
  distinct = elim (Option-cases (load value c.worker_funcs)) [
    | inl new ↦ ground (
      arith,
      new,
      s.distinct,
      length-store_new value (number_at value c.worker_funcs + 1) c.worker_funcs new,
    )
    | inr (n, old) ↦ ground (
      arith,
      old,
      s.distinct,
      s.positive value n old,
      length-store_old value (number_at value c.worker_funcs + 1) n c.worker_funcs old,
    )
  ];
  unique = store-IsUnique value (number_at value c.worker_funcs + 1) c.worker_funcs s.unique;
  positive = λ k n e. ground (
    arith,
    e,
    s.positive k n,
    load-store value k (number_at value c.worker_funcs + 1) c.worker_funcs,
  );
}

count_worker-IsCounted :
    (positive : Bool) (label : Label × Bytes) (c : Counts)
    → IsCounted c
    → IsCounted (count_worker positive label c)
unfolding count_worker
count_worker-IsCounted true (worker_name, value) c s = store-IsCounted value c s
count_worker-IsCounted true (discovery_name, value) c s = s
count_worker-IsCounted true (worker_id, value) c s = s
count_worker-IsCounted true (worker_ip, value) c s = s
count_worker-IsCounted true (func_name, value) c s = s
count_worker-IsCounted true (create_time, value) c s = s
count_worker-IsCounted true (other_label, value) c s = s
count_worker-IsCounted false label c s = s

-- What a step makes of the workers: they stay a tally, and grow by what the step saw.
record Tallies (k : Bytes) (hits : ℕ) (c c' : Counts) : Type 0 where
  counted : IsCounted c → IsCounted c'
  grows : number_at k c'.worker_funcs ≡ number_at k c.worker_funcs + hits

count_worker-Tallies :
    (k : Bytes) (positive : Bool) (label : Label × Bytes) (c : Counts)
    → Tallies k (label_hits k positive label) c (count_worker positive label c)
unfolding count_worker
count_worker-Tallies k positive label c = record {
  counted = count_worker-IsCounted positive label c;
  grows = go positive label;
}
  where
    go :
        (positive : Bool) (label : Label × Bytes)
        → number_at k (count_worker positive label c).worker_funcs
          ≡ number_at k c.worker_funcs + label_hits k positive label
    go true (worker_name, value) = ground (
      arith,
      bytes_eq_iff value k,
      load-store value k (number_at value c.worker_funcs + 1) c.worker_funcs,
    )
    go true (discovery_name, value) = omega arith
    go true (worker_id, value) = omega arith
    go true (worker_ip, value) = omega arith
    go true (func_name, value) = omega arith
    go true (create_time, value) = omega arith
    go true (other_label, value) = omega arith
    go false label = omega arith

Tallies-same :
    (k : Bytes) (c c' : Counts)
    → c'.worker_num ≡ c.worker_num
    → c'.worker_funcs ≡ c.worker_funcs
    → Tallies k 0 c c'
Tallies-same k c c' e f = record {
  counted = λ s. record {
    distinct = rw (e, f) s.distinct;
    unique = rw f s.unique;
    positive = rw f s.positive;
  };
  grows = rw f (omega arith);
}

each-Tallies :
    {A : Type 0} (k : Bytes) (f : A → Counts → Counts) (h : A → ℕ)
    → ((x : A) (c : Counts) → Tallies k (h x) c (f x c))
    → (xs : List A) (c : Counts) → Tallies k (total h xs) c (each f xs c)
each-Tallies k f h step xs c = record {
  counted = each-keeps f IsCounted (λ x b s. (step x b).counted s) xs c;
  grows = each-adds f (λ b. number_at k b.worker_funcs) h (λ x b. (step x b).grows) xs c;
}

-- The loops that leave the workers alone.
count_discovery-workers :
    (labels : List (Label × Bytes)) (c : Counts)
    → ((each count_discovery labels c).worker_num ≡ c.worker_num)
      × ((each count_discovery labels c).worker_funcs ≡ c.worker_funcs)
unfolding count_discovery
count_discovery-workers labels c =
    each-keeps count_discovery
      (λ b. (b.worker_num ≡ c.worker_num) × (b.worker_funcs ≡ c.worker_funcs)) step labels c
      (refl, refl)
  where
    step :
        (label : Label × Bytes) (b : Counts)
        → (b.worker_num ≡ c.worker_num) × (b.worker_funcs ≡ c.worker_funcs)
        → ((count_discovery label b).worker_num ≡ c.worker_num)
          × ((count_discovery label b).worker_funcs ≡ c.worker_funcs)
    step (discovery_name, value) b p = p
    step (worker_name, value) b p = p
    step (worker_id, value) b p = p
    step (worker_ip, value) b p = p
    step (func_name, value) b p = p
    step (create_time, value) b p = p
    step (other_label, value) b p = p

count_metric-Tallies :
    (k : Bytes) (name : Name) (m : Metric) (c : Counts)
    → Tallies k
        (elim name [ worker_func_count ↦ metric_hits k m | _ ↦ 0 ])
        c
        (count_metric name m c)
unfolding count_metric
count_metric-Tallies k discovery_count m c =
    let same = count_discovery-workers m.label c in Tallies-same k c _ same.0 same.1
count_metric-Tallies k worker_func_count m c = go m.gauge
  where
    go :
        (gauge : Option Bool)
        → Tallies k
            (elim gauge [ none ↦ 0 | some positive ↦ total (label_hits k positive) m.label ])
            c
            (elim gauge [ none ↦ c | some positive ↦ each (count_worker positive) m.label c ])
    go none = Tallies-same k c c refl refl
    go (some positive) =
        each-Tallies k (count_worker positive) (label_hits k positive)
          (count_worker-Tallies k positive) m.label c
count_metric-Tallies k func_func_count m c = go m.gauge
  where
    go :
        (gauge : Option Bool)
        → Tallies k 0 c (elim gauge [
          | some true ↦ record c { func_num = c.func_num + 1 }
          | some false ↦ c
          | none ↦ c
        ])
    go none = Tallies-same k c c refl refl
    go (some true) = Tallies-same k c _ refl refl
    go (some false) = Tallies-same k c c refl refl
count_metric-Tallies k worker_func_success m c = Tallies-same k c c refl refl
count_metric-Tallies k worker_func_fail m c = Tallies-same k c c refl refl
count_metric-Tallies k worker_close_count m c = Tallies-same k c c refl refl
count_metric-Tallies k other_name m c = Tallies-same k c c refl refl

total-zero : {A : Type 0} (xs : List A) → total (λ (x : A). 0) xs ≡ 0
total-zero [] = refl
total-zero (x ∷ xs) = omega (arith, total-zero xs)

count_family-Tallies :
    (k : Bytes) (mf : MetricFamily) (c : Counts)
    → Tallies k (family_hits k mf) c (count_family mf c)
unfolding count_family
count_family-Tallies k mf c = go mf.name
  where
    plain :
        (name : Name)
        → ((m : Metric) (c : Counts) → Tallies k 0 c (count_metric name m c))
        → Tallies k 0 c (each (count_metric name) mf.metric c)
    plain name step =
        rw (total-zero mf.metric) at (each-Tallies k (count_metric name) (λ m. 0) step mf.metric c)

    go :
        (name : Name)
        → Tallies k
            (elim name [ worker_func_count ↦ total (metric_hits k) mf.metric | _ ↦ 0 ])
            c
            (each (count_metric name) mf.metric c)
    go worker_func_count =
        each-Tallies k (count_metric worker_func_count) (metric_hits k)
          (count_metric-Tallies k worker_func_count) mf.metric c
    go discovery_count = plain discovery_count (count_metric-Tallies k discovery_count)
    go func_func_count = plain func_func_count (count_metric-Tallies k func_func_count)
    go worker_func_success = plain worker_func_success (count_metric-Tallies k worker_func_success)
    go worker_func_fail = plain worker_func_fail (count_metric-Tallies k worker_func_fail)
    go worker_close_count = plain worker_close_count (count_metric-Tallies k worker_close_count)
    go other_name = plain other_name (count_metric-Tallies k other_name)

-- The count of the workers is the number of the names that a gauge above zero of
-- nmid_server_worker_func_count has as its worker_name, each counted once; beside it stands for each
-- name the number of such gauges.
pub get_discovery_worker_func_num-IsTally :
    (mfs : List MetricFamily) → IsTally mfs (get_discovery_worker_func_num mfs)
unfolding get_discovery_worker_func_num load
get_discovery_worker_func_num-IsTally mfs =
    let counted = (tally []).counted start in
    record {
      distinct = counted.distinct;
      unique = counted.unique;
      positive = counted.positive;
      seen = λ k. let grows = (tally k).grows in omega (arith, grows);
    }
  where
    start : IsCounted no_counts
    start = record { distinct = refl; unique = tt; positive = λ k n e. absurd cc }

    tally :
        (k : Bytes)
        → Tallies k (total (family_hits k) mfs) no_counts (get_discovery_worker_func_num mfs)
    tally k = each-Tallies k count_family (family_hits k) (count_family-Tallies k) mfs no_counts
