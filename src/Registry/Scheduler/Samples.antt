-- ===== src/Registry/Scheduler/Samples.antt =====
-- A zone whose calls go to two others, one part to the first and three to the second.
use nmid.Prelude.{
  ℕ, ◌≡◌, ◌≢◌, refl, [], ◌∷◌, List, some, arith, bytes_eq_refl, bytes_eq, eq_of_bytes_eq,
  Bool-cases, inl, inr, false, true,
}
use nmid.Wire.{Bytes}
use nmid.Table.{Table, load, IsUnique}
use nmid.Registry.Scheduler.{Instance, InstancesInfo, use_scheduler, destinations, visit}
use nmid.Registry.Scheduler.{com_multi}
use nmid.Registry.Scheduler.Split.{AllFit, IsSplit, use_scheduler-IsSplit}

abbrev here : Bytes
here = []

abbrev one : Bytes
one = 1 ∷ []

abbrev two : Bytes
two = 1 ∷ 2 ∷ []

abbrev at_zone : Bytes → ℕ → Instance
at_zone zone weight = record {
  hostname = b'h' ∷ [];
  zone = zone;
  has_metadata = true;
  weight = weight;
}

abbrev info : InstancesInfo
info = record {
  instances = (one, at_zone one 4 ∷ []) ∷ (two, at_zone two 0 ∷ at_zone two 2 ∷ []) ∷ [];
  scheduler = record { src = here; dst = (one, 1) ∷ (two, 3) ∷ [] } ∷ [];
}

abbrev dst : Table ℕ
dst = (one, 1) ∷ (two, 3) ∷ []

dst_there : destinations here info.scheduler ≡ dst
unfolding destinations
dst_there = ground (arith, bytes_eq_refl here)

differ : bytes_eq one two ≡ false
differ = elim (Bool-cases (bytes_eq one two)) [
  | inl same ↦ absurd (ground (arith, eq_of_bytes_eq one two same))
  | inr other ↦ other
]

first_instances : load one info.instances ≡ some (at_zone one 4 ∷ [])
unfolding load
first_instances = ground (arith, bytes_eq_refl one)

second_instances : load two info.instances ≡ some (at_zone two 0 ∷ at_zone two 2 ∷ [])
unfolding load
second_instances = ground (arith, bytes_eq_refl two, differ)

full : (visit info.instances dst).inss ≢ []
unfolding visit
full e = ground (arith, e, first_instances, second_instances)

multi_there : com_multi (visit info.instances dst).ori_weights ≡ some 48
unfolding com_multi visit
multi_there = ground (arith, first_instances, second_instances)

fit : AllFit info.instances 48 dst
fit = (
  (_, first_instances, (refl, tt), (refl, tt), (λ e. cc), omega arith),
  ((_, second_instances, (refl, (refl, tt)), (refl, (refl, tt)), (λ e. cc), omega arith), tt),
)

unique : IsUnique dst
unfolding load
unique = (ground (arith, not_same), (refl, tt))
  where
    not_same : bytes_eq two one ≡ false
    not_same = elim (Bool-cases (bytes_eq two one)) [
      | inl same ↦ absurd (ground (arith, eq_of_bytes_eq two one same))
      | inr other ↦ other
    ]

use_scheduler-IsSplit_example :
    (out : List Instance) × (use_scheduler here info ≡ some out)
    × IsSplit info.instances 48 (destinations here info.scheduler) out
use_scheduler-IsSplit_example =
    use_scheduler-IsSplit here info 48 (rw dst_there full) (rw dst_there multi_there)
      (rw dst_there fit) (rw dst_there unique)
