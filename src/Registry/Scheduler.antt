-- ===== src/Registry/Scheduler.antt =====
-- pkg/registry/registry.go: UseScheduler, which spreads the instances of a zone over others.
-- The weight of an instance is that of its metadata, 0 where there is none above zero; `has_metadata`
-- says whether the map of its metadata is there, since writing to a nil map panics. The
-- destinations of a zone stand in the order of the map. A run is none where an index is out of range
-- or a divisor is zero, which panics, or where a product does not fit into an int64, which is not
-- followed further; a weight of the scheduler below zero is left out.
pub mod Shares
pub mod Split
mod Samples
use nmid.Prelude.{
  ℕ, ◌+◌, ◌*◌, ◌/◌, ◌^◌, ◌==◌, List, [], ◌∷◌, ◌++◌, Option, none, some, ltb, bytes_eq, Bool, true,
  false, not, ◌&&◌,
}
use nmid.Prelude.{if◌then◌else◌}
use nmid.Wire.{Bytes}
use nmid.Table.{Table, load, store}

pub record Instance : Type 0 where
  pub hostname : Bytes
  pub zone : Bytes
  pub has_metadata : Bool
  pub weight : ℕ

pub record Zone : Type 0 where
  pub src : Bytes
  pub dst : Table ℕ

pub record InstancesInfo : Type 0 where
  pub instances : Table (List Instance)
  pub scheduler : List Zone

abbrev pub weight_of : Instance → ℕ
weight_of ins = if ins.has_metadata && not (ins.weight == 0) then ins.weight else 10

abbrev pub total_weight : List Instance → ℕ
total_weight [] = 0
total_weight (ins ∷ inss) = weight_of ins + total_weight inss

-- A product of int64s.
abbrev pub times : ℕ → ℕ → Option ℕ
times a b = if ltb (a * b) (2 ^ 63) then some (a * b) else none

-- The variables of the loop over the destinations.
pub record Found : Type 0 where
  pub zone : List Bytes
  pub weights : List ℕ
  pub ori_weights : List ℕ
  pub inss : List Instance

unfoldable pub visit : Table (List Instance) → Table ℕ → Found
visit instances [] = record { zone = []; weights = []; ori_weights = []; inss = [] }
visit instances ((z, w) ∷ dst) =
    let rest = visit instances dst in
    elim (load z instances) [
      | none ↦ record rest { zone = z ∷ rest.zone; weights = w ∷ rest.weights }
      | some zins ↦ record {
        zone = z ∷ rest.zone;
        weights = w ∷ rest.weights;
        ori_weights = total_weight zins ∷ rest.ori_weights;
        inss = zins ++ rest.inss;
      }
    ]

-- The destinations of the schedulers for the zone.
unfoldable pub destinations : Bytes → List Zone → Table ℕ
destinations zone [] = []
destinations zone (sch ∷ schs) =
    let rest = destinations zone schs in if bytes_eq sch.src zone then sch.dst ++ rest else rest

unfoldable pub com_multi : List ℕ → Option ℕ
com_multi [] = some 1
com_multi (o ∷ os) = elim (com_multi os) [ none ↦ none | some k ↦ times o k ]

-- The weight of a destination; a division by zero panics.
unfoldable pub divided : ℕ → ℕ → ℕ → Option ℕ
divided w multi o =
    if o == 0 then none else elim (times w multi) [ none ↦ none | some p ↦ some (p / o) ]

-- The loop that fills fixWeight.
unfoldable pub fix_weight : ℕ → List Bytes → List ℕ → List ℕ → Table ℕ → Option (Table ℕ)
fix_weight multi (z ∷ zs) (w ∷ ws) (o ∷ os) fixed = elim (divided w multi o) [
  | none ↦ none
  | some q ↦ fix_weight multi zs ws os (store z q fixed)
]
fix_weight multi (z ∷ zs) (w ∷ ws) [] fixed = none
fix_weight multi (z ∷ zs) [] os fixed = none
fix_weight multi [] ws os fixed = some fixed

unfoldable pub new_weight : Table ℕ → Instance → Option ℕ
new_weight fixed ins = elim (load ins.zone fixed) [
  | none ↦ some (weight_of ins)
  | some fix ↦ times (weight_of ins) fix
]

-- The loop that sets the weights.
unfoldable pub reweigh : Table ℕ → List Instance → Option (List Instance)
reweigh fixed [] = some []
reweigh fixed (ins ∷ inss) = elim (new_weight fixed ins) [
  | none ↦ none
  | some w ↦ elim ins.has_metadata [
    | false ↦ none
    | true ↦ elim (reweigh fixed inss) [
      | none ↦ none
      | some rest ↦ some (record ins { weight = w } ∷ rest)
    ]
  ]
]

abbrev all_instances : Table (List Instance) → List Instance
all_instances [] = []
all_instances ((z, zins) ∷ instances) = zins ++ all_instances instances

-- The weighing of the instances that were found.
unfoldable pub weigh : Found → Option (List Instance)
weigh found = elim (com_multi found.ori_weights) [
  | none ↦ none
  | some multi ↦ elim (fix_weight multi found.zone found.weights found.ori_weights []) [
    | none ↦ none
    | some fixed ↦ reweigh fixed found.inss
  ]
]

-- Without instances of a destination, those of the zone or else all are given as they are.
unfoldable pub or_zone :
    Bytes → Table (List Instance) → List Instance → Option (List Instance) → Option (List Instance)
or_zone zone instances (ins ∷ inss) weighed = weighed
or_zone zone instances [] weighed = elim (load zone instances) [
  | some zins ↦ some zins
  | none ↦ some (all_instances instances)
]

-- UseScheduler
unfoldable pub use_scheduler : Bytes → InstancesInfo → Option (List Instance)
use_scheduler zone info =
    let found = visit info.instances (destinations zone info.scheduler) in
    or_zone zone info.instances found.inss (weigh found)
