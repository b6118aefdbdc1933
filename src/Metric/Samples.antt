-- ===== src/Metric/Samples.antt =====
-- A worker with one function that runs and one that has ended.
use nmid.Prelude.{◌≡◌, [], ◌∷◌, List, some, none, true, false}
use nmid.Wire.{Bytes}
use nmid.Table.{load}
use nmid.Metric.{Label, worker_name, func_name, worker_func_count, MetricFamily}
use nmid.Metric.{get_discovery_worker_func_num, get_workers_funcs}
use nmid.Metric.Workers.{IsTally, get_discovery_worker_func_num-IsTally}
use nmid.Metric.Labels.{last}
use nmid.Metric.Last.{of_family, worker_of, func_of, load-get_workers_funcs}

abbrev w : Bytes
w = b'w' ∷ []

abbrev of_func : Bytes → List (Label × Bytes)
of_func f = (worker_name, w) ∷ (func_name, f) ∷ []

abbrev gathered : List MetricFamily
gathered =
    record {
      name = worker_func_count;
      metric =
          record { gauge = some true; counter = none; label = of_func (b'f' ∷ []) }
          ∷ record { gauge = some false; counter = none; label = of_func (b'g' ∷ []) }
          ∷ [];
    }
    ∷ []

get_discovery_worker_func_num-IsTally_example :
    IsTally gathered (get_discovery_worker_func_num gathered)
get_discovery_worker_func_num-IsTally_example = get_discovery_worker_func_num-IsTally gathered

load-get_workers_funcs_example :
    (load w (get_workers_funcs gathered).workers ≡ last (of_family (worker_of w)) gathered)
    × (load w (get_workers_funcs gathered).funcs ≡ last (of_family (func_of w)) gathered)
load-get_workers_funcs_example = load-get_workers_funcs w gathered
