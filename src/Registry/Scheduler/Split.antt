-- ===== src/Registry/Scheduler/Split.antt =====
-- How UseScheduler shares the weights out (pkg/registry/registry.go).
use nmid.Prelude.{ℕ, ◌*◌, ◌/◌, ◌^◌, ◌<◌, ◌==◌, ◌≡◌, ◌≢◌, refl, ◌∙◌, List, [], ◌∷◌, ◌++◌}
use nmid.Prelude.{Option, some}
use nmid.Prelude.{arith, Bool-cases, inl, inr, false, true, not, ◌&&◌}
use native.Mathlib.Nat.{add-mul}
use nmid.Wire.{Bytes}
use nmid.Table.{Table, load, store, IsUnique}
use nmid.Registry.Scheduler.{Instance, InstancesInfo, weight_of, total_weight, times, visit}
use nmid.Registry.Scheduler.{
  destinations, com_multi, divided, fix_weight, new_weight, reweigh, weigh,
}
use nmid.Registry.Scheduler.{or_zone, use_scheduler}
use nmid.Registry.Scheduler.Shares.{
  sum_weights, AllIn, reweighed, reweigh-sum, AllFound, com_multi-AllDivide, visit_cons, AllFixed,
  fix_weight-AllFixed,
}

-- The list is made of the instances of the destinations, in their order, each with its weight
-- multiplied by one number for its destination; and the weights of each destination together are its
-- weight in the scheduler times the same number.
abbrev pub IsSplit : Table (List Instance) → ℕ → Table ℕ → List Instance → Type 0
IsSplit instances multi [] out = out ≡ []
IsSplit instances multi ((z, w) ∷ dst) out =
    (zins : List Instance) × (q : ℕ) × (rest : List Instance) × (load z instances ≡ some zins)
    × (out ≡ reweighed q zins ++ rest)
    × (sum_weights (reweighed q zins) ≡ w * multi)
    × IsSplit instances multi dst rest

reweigh-IsSplit :
    (instances : Table (List Instance)) (multi : ℕ) (fixed dst : Table ℕ) (out : List Instance)
    → AllFixed instances multi fixed dst
    → reweigh fixed (visit instances dst).inss ≡ some out
    → IsSplit instances multi dst out
unfolding AllFixed visit reweigh
reweigh-IsSplit instances multi fixed [] out all e = cc
reweigh-IsSplit instances multi fixed ((z, w) ∷ dst) out all e =
    let (zins, q, there, in_zone, own, share) = all.0 in
    let e' : reweigh fixed (zins ++ (visit instances dst).inss) ≡ some out =
      rw (visit_cons instances z w dst zins there) at e in
    let (ys, rest, same, goes_on, sum, kept) =
      reweigh-sum fixed z q zins (visit instances dst).inss out in_zone own e' in
    (
      zins,
      q,
      rest,
      there,
      rw kept at same,
      (rw kept at sum) ∙ share,
      reweigh-IsSplit instances multi fixed dst rest all.1 goes_on,
    )

-- The products of the weights of the scheduler fit, and no destination is without instances.
abbrev pub AllWritable : List Instance → Type 0
AllWritable [] = Unit
AllWritable (ins ∷ inss) = (ins.has_metadata ≡ true) × AllWritable inss

abbrev pub AllFit : Table (List Instance) → ℕ → Table ℕ → Type 0
AllFit instances multi [] = Unit
AllFit instances multi ((z, w) ∷ dst) =
    ((zins : List Instance) × (load z instances ≡ some zins)
      × AllIn z zins
      × AllWritable zins
      × (zins ≢ [])
      × (w * multi < 2 ^ 63))
    × AllFit instances multi dst

AllFit-AllFound :
    (instances : Table (List Instance)) (multi : ℕ) (dst : Table ℕ)
    → AllFit instances multi dst
    → AllFound instances dst
AllFit-AllFound instances multi [] all = tt
AllFit-AllFound instances multi ((z, w) ∷ dst) all =
    let (zins, there, in_zone, _, _, _) = all.0 in
    ((zins, there, in_zone), AllFit-AllFound instances multi dst all.1)

total_positive : (zins : List Instance) → zins ≢ [] → (total_weight zins == 0) ≡ false
total_positive [] h = absurd (h refl)
total_positive (ins ∷ zins) h = elim (Bool-cases (ins.has_metadata && not (ins.weight == 0))) [
  | inl unset ↦ ground (arith, unset)
  | inr set ↦ ground (arith, set)
]

times_total : (a b : ℕ) → a * b < 2 ^ 63 → times a b ≡ some (a * b)
times_total a b h = ground (arith, h)

fix_weight_total :
    (instances : Table (List Instance)) (multi : ℕ) (dst fixed : Table ℕ)
    → AllFit instances multi dst
    → let found = visit instances dst in
      (t : Table ℕ) × (fix_weight multi found.zone found.weights found.ori_weights fixed ≡ some t)
unfolding fix_weight visit divided
fix_weight_total instances multi [] fixed all = (fixed, refl)
fix_weight_total instances multi ((z, w) ∷ dst) fixed all =
    let (zins, there, in_zone, _, full, small) = all.0 in
    let q = w * multi / total_weight zins in
    let share : divided w multi (total_weight zins) ≡ some q =
      rw (total_positive zins full, divided) (rw (times_total w multi small, divided) refl) in
    let (t, e) = fix_weight_total instances multi dst (store z q fixed) all.1 in
    (t, rw (visit_cons instances z w dst zins there) (rw (share, fix_weight) e))

reweigh-append :
    (fixed : Table ℕ) (z : Bytes) (q : ℕ) (zins rest out : List Instance)
    → AllIn z zins
    → AllWritable zins
    → load z fixed ≡ some q
    → total_weight zins * q < 2 ^ 63
    → reweigh fixed rest ≡ some out
    → (out' : List Instance) × (reweigh fixed (zins ++ rest) ≡ some out')
unfolding reweigh new_weight
reweigh-append fixed z q [] rest out all writable e h r = (out, r)
reweigh-append fixed z q (ins ∷ zins) rest out all writable e h r =
    let parts = add-mul (weight_of ins) (total_weight zins) q in
    let first : weight_of ins * q < 2 ^ 63 = omega (arith, parts, h) in
    let others : total_weight zins * q < 2 ^ 63 = omega (arith, parts, h) in
    let here : load ins.zone fixed ≡ some q = rw all.0 e in
    let fits = times_total (weight_of ins) q first in
    let (more, p) = reweigh-append fixed z q zins rest out all.1 writable.1 e others r in
    (record ins { weight = weight_of ins * q } ∷ more, ground (arith, here, fits, writable.0, p))

reweigh_total :
    (instances : Table (List Instance)) (multi : ℕ) (fixed dst : Table ℕ)
    → AllFixed instances multi fixed dst
    → AllFit instances multi dst
    → (out : List Instance) × (reweigh fixed (visit instances dst).inss ≡ some out)
unfolding AllFixed visit reweigh
reweigh_total instances multi fixed [] all fit = ([], refl)
reweigh_total instances multi fixed ((z, w) ∷ dst) all fit =
    let (zins, q, there, in_zone, own, share) = all.0 in
    let (others, found, _, writable, _, small) = fit.0 in
    let same : others ≡ zins = cc in
    let (out, e) = reweigh_total instances multi fixed dst all.1 fit.1 in
    let (out', e') =
      reweigh-append fixed z q zins (visit instances dst).inss out in_zone (rw same at writable) own
        (omega (arith, share, small)) e in
    (out', rw (visit_cons instances z w dst zins there) e')

weigh-IsSplit :
    (instances : Table (List Instance)) (multi : ℕ) (dst : Table ℕ)
    → com_multi (visit instances dst).ori_weights ≡ some multi
    → AllFit instances multi dst
    → IsUnique dst
    → (out : List Instance) × (weigh (visit instances dst) ≡ some out)
      × IsSplit instances multi dst out
unfolding weigh
weigh-IsSplit instances multi dst p fit unique =
    let found = visit instances dst in
    let (t, q) = fix_weight_total instances multi dst [] fit in
    let fixed =
      fix_weight-AllFixed instances multi dst [] t (AllFit-AllFound instances multi dst fit) unique
        (com_multi-AllDivide found.ori_weights multi p) q in
    let (out, r) = reweigh_total instances multi t dst fixed.0 fit in
    (out, ground (arith, p, q, r), reweigh-IsSplit instances multi t dst out fixed.0 r)

-- Where the destinations of a zone are different and each has instances, which know their zone and
-- have metadata, UseScheduler does not panic: it gives the instances of the destinations in their
-- order, those of a destination with their weights multiplied by one number and nothing else changed,
-- and the weights of each destination together are its weight in the scheduler times one number for all, the product of what
-- the destinations weighed before; if that product, and its products with the scheduler's weights,
-- fit into an int64.
pub use_scheduler-IsSplit :
    (zone : Bytes) (info : InstancesInfo) (multi : ℕ)
    → let dst = destinations zone info.scheduler in
      (visit info.instances dst).inss ≢ []
      → com_multi (visit info.instances dst).ori_weights ≡ some multi
      → AllFit info.instances multi dst
      → IsUnique dst
      → (out : List Instance) × (use_scheduler zone info ≡ some out)
        × IsSplit info.instances multi dst out
unfolding use_scheduler or_zone
use_scheduler-IsSplit zone info multi full product_there fit unique =
    let dst = destinations zone info.scheduler in
    let found = visit info.instances dst in
    let (out, e, split) = weigh-IsSplit info.instances multi dst product_there fit unique in
    (out, go found.inss (weigh found) full e, split)
  where
    go :
        {out : List Instance} (inss : List Instance) (weighed : Option (List Instance))
        → inss ≢ []
        → weighed ≡ some out
        → or_zone zone info.instances inss weighed ≡ some out
    go [] weighed full e = absurd (full refl)
    go (ins ∷ inss) weighed full e = e
