-- ===== src/Registry/Scheduler/Shares.antt =====
-- The weight that UseScheduler fixes for each destination (pkg/registry/registry.go).
use nmid.Prelude.{ℕ, ◌+◌, ◌*◌, ◌/◌, ◌==◌, ◌≡◌, refl, sym, ◌∙◌, List, [], ◌∷◌, ◌++◌}
use nmid.Prelude.{none, some, Option-cases, bytes_eq_refl}
use nmid.Prelude.{arith, Bool-cases, inl, inr}
use Prim.Native.Nat.{◌∣◌}
use native.Mathlib.Nat.{add-mul, mul-div_cancel', dvd-mul_left_of_dvd, dvd-mul_right}
use mathlib.Core.Path.{subst}
use nmid.Wire.{Bytes}
use nmid.Table.{Table, load, store, load-store, IsUnique}
use nmid.Registry.Scheduler.{Instance, weight_of, total_weight, times, visit}
use nmid.Registry.Scheduler.{com_multi, divided, fix_weight, new_weight, reweigh}

-- The weights of a list as they are.
abbrev pub sum_weights : List Instance → ℕ
sum_weights [] = 0
sum_weights (ins ∷ inss) = ins.weight + sum_weights inss

times_lem : (a b p : ℕ) → times a b ≡ some p → p ≡ a * b
times_lem a b p e = ground (arith, e)

abbrev pub AllIn : Bytes → List Instance → Type 0
AllIn z [] = Unit
AllIn z (ins ∷ inss) = (ins.zone ≡ z) × AllIn z inss

product : {w s : ℕ} (f a b : ℕ) → w ≡ a * f → s ≡ b * f → w + s ≡ (a + b) * f
product f a b p q = rw (p, q) (sym (add-mul a b f))

-- The instances as they were, but for their weights, which are multiplied.
abbrev pub reweighed : ℕ → List Instance → List Instance
reweighed q [] = []
reweighed q (ins ∷ inss) = record ins { weight = weight_of ins * q } ∷ reweighed q inss

-- The instances of one destination get its fixed weight each.
pub reweigh-sum :
    (fixed : Table ℕ) (z : Bytes) (fix : ℕ) (zins rest : List Instance) (out : List Instance)
    → AllIn z zins
    → load z fixed ≡ some fix
    → reweigh fixed (zins ++ rest) ≡ some out
    → (ys out' : List Instance) × (out ≡ ys ++ out')
      × (reweigh fixed rest ≡ some out')
      × (sum_weights ys ≡ total_weight zins * fix)
      × (ys ≡ reweighed fix zins)
unfolding reweigh new_weight
reweigh-sum fixed z fix [] rest out all e f = ([], out, refl, f, omega arith, refl)
reweigh-sum fixed z fix (ins ∷ zins) rest out all e f =
    let here : load ins.zone fixed ≡ some fix = rw all.0 e in
    elim (Option-cases (times (weight_of ins) fix)) [
      | inl over ↦ absurd (ground (arith, here, over, f))
      | inr (w, p) ↦ elim (Option-cases (reweigh fixed (zins ++ rest))) [
        | inl out_of ↦ absurd (ground (arith, here, p, out_of, f))
        | inr (more, q) ↦
            let (ys, out', same, goes_on, sum, kept) =
              reweigh-sum fixed z fix zins rest more all.1 e q in
            let eq : out ≡ record ins { weight = w } ∷ more = ground (arith, here, p, q, f) in
            (
              record ins { weight = w } ∷ ys,
              out',
              rw same at eq,
              goes_on,
              product fix (weight_of ins) (total_weight zins) (times_lem _ _ w p) sum,
              ground (arith, kept, times_lem _ _ w p),
            )
      ]
    ]

-- Every destination has instances, which know their zone.
abbrev pub AllFound : Table (List Instance) → Table ℕ → Type 0
AllFound instances [] = Unit
AllFound instances ((z, w) ∷ dst) =
    ((zins : List Instance) × (load z instances ≡ some zins) × AllIn z zins)
    × AllFound instances dst

abbrev pub AllDivide : ℕ → List ℕ → Type 0
AllDivide m [] = Unit
AllDivide m (o ∷ os) = (o ∣ m) × AllDivide m os

AllDivide-times : (o k : ℕ) (os : List ℕ) → AllDivide k os → AllDivide (o * k) os
AllDivide-times o k [] d = tt
AllDivide-times o k (x ∷ os) d = (dvd-mul_left_of_dvd x d.0 o, AllDivide-times o k os d.1)

pub com_multi-AllDivide : (os : List ℕ) (m : ℕ) → com_multi os ≡ some m → AllDivide m os
unfolding com_multi
com_multi-AllDivide [] m e = tt
com_multi-AllDivide (o ∷ os) m e = elim (Option-cases (com_multi os)) [
  | inl over ↦ absurd (ground (arith, over, e))
  | inr (k, p) ↦
      let eq : m ≡ o * k = times_lem o k m (ground (arith, p, e)) in
      let all : AllDivide (o * k) (o ∷ os) =
        (dvd-mul_right o k, AllDivide-times o k os (com_multi-AllDivide os k p)) in
      subst (λ n. AllDivide n (o ∷ os)) (sym eq) all
]

-- The share of a destination, undone.
divided_lem : (w m o q : ℕ) → o ∣ m → divided w m o ≡ some q → o * q ≡ w * m
unfolding divided
divided_lem w m o q d e = elim (Bool-cases (o == 0)) [
  | inl zero_there ↦ absurd (ground (arith, zero_there, e))
  | inr fine ↦ elim (Option-cases (times w m)) [
    | inl over ↦ absurd (ground (arith, fine, over, e))
    | inr (p, t) ↦
        let product_eq = times_lem w m p t in
        let eq : q ≡ p / o = ground (arith, fine, t, e) in
        rw (eq, product_eq) (mul-div_cancel' o (dvd-mul_left_of_dvd o d w))
  ]
]

pub visit_cons :
    (instances : Table (List Instance)) (z : Bytes) (w : ℕ) (dst : Table ℕ) (zins : List Instance)
    → load z instances ≡ some zins
    → visit instances ((z, w) ∷ dst) ≡ record {
      zone = z ∷ (visit instances dst).zone;
      weights = w ∷ (visit instances dst).weights;
      ori_weights = total_weight zins ∷ (visit instances dst).ori_weights;
      inss = zins ++ (visit instances dst).inss;
    }
unfolding visit
visit_cons instances z w dst zins e = rw (e, visit) refl

-- The fixed weights of the destinations.
unfoldable pub AllFixed : Table (List Instance) → ℕ → Table ℕ → Table ℕ → Type 0
AllFixed instances multi fixed [] = Unit
AllFixed instances multi fixed ((z, w) ∷ dst) =
    ((zins : List Instance) × (q : ℕ) × (load z instances ≡ some zins)
      × AllIn z zins
      × (load z fixed ≡ some q)
      × (total_weight zins * q ≡ w * multi))
    × AllFixed instances multi fixed dst

pub fix_weight-AllFixed :
    (instances : Table (List Instance)) (multi : ℕ) (dst fixed t : Table ℕ)
    → AllFound instances dst
    → IsUnique dst
    → AllDivide multi (visit instances dst).ori_weights
    → (let found = visit instances dst in
        fix_weight multi found.zone found.weights found.ori_weights fixed ≡ some t)
    → AllFixed instances multi t dst × ((j : Bytes) → load j dst ≡ none → load j t ≡ load j fixed)
unfolding fix_weight AllFixed visit load
fix_weight-AllFixed instances multi [] fixed t all unique divide e =
    let same : t ≡ fixed = cc in (tt, λ j absent. rw same refl)
fix_weight-AllFixed instances multi ((z, w) ∷ dst) fixed t all unique divide e =
    let (zins, there, in_zone) = all.0 in
    let found = visit instances dst in
    let divide' : AllDivide multi (total_weight zins ∷ found.ori_weights) =
      rw (visit_cons instances z w dst zins there) at divide in
    let e' : fix_weight multi (z ∷ found.zone) (w ∷ found.weights)
          (total_weight zins ∷ found.ori_weights) fixed
        ≡ some t =
      rw (visit_cons instances z w dst zins there) at e in
    elim (Option-cases (divided w multi (total_weight zins))) [
      | inl out ↦ absurd (ground (arith, out, e'))
      | inr (q, p) ↦
          let goes_on : fix_weight multi found.zone found.weights found.ori_weights
                (store z q fixed)
              ≡ some t =
            ground (arith, p, e') in
          let (rest, kept) =
            fix_weight-AllFixed instances multi dst (store z q fixed) t all.1 unique.1 divide'.1
              goes_on in
          let own : load z t ≡ some q =
            kept z unique.0 ∙ ground (arith, load-store z z q fixed, bytes_eq_refl z) in
          (
            (
              (zins, q, there, in_zone, own, divided_lem w multi (total_weight zins) q divide'.0 p),
              rest,
            ),
            λ j absent.
                kept j (ground (arith, absent)) ∙ ground (arith, load-store z j q fixed, absent),
          )
    ]
