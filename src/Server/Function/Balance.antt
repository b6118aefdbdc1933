-- ===== src/Server/Function/Balance.antt =====
-- GetBestWorker of pkg/server/function.go: its choice of a worker and its loop.
use nmid.Prelude.{ℕ, zero, suc, ◌+◌, ◌%◌, ◌<◌, ◌==◌, leb, ◌≡◌, ◌≢◌, refl, Bool, true, false}
use nmid.Prelude.{Option, none, some, List, [], ◌∷◌, arith, length, get_elem?}
use mathlib.Core.Path.{subst}
use nmid.Prelude.{◌||◌, bytes_eq, bytes_eq_iff, bytes_eq_refl, Option-cases, Bool-cases, inl, inr}
use nmid.Wire.{Bytes, ok}
use nmid.Table.{load}
use nmid.Model.LoadBlance
use nmid.Server.Function.{SWorker, Func, FuncMap, Chance, hash_func, by_weight, balance, Best}
use nmid.Server.Function.{best_loop, clean_worker_func}
use nmid.Server.Function.Registry.{IsCounted, IsValid}
use nmid.Server.Function.Registry.Walks.{clean_worker_func-IsValid}
use nmid.Server.Function.View.{workers_of, minus, workers_of-clean_worker_func, here, missing}

-- A worker of a list.
abbrev pub In : SWorker → List SWorker → Type 0
In w ws = (i : ℕ) × (get_elem? ws i ≡ some w)

-- The documented behaviour of weightedrand: it chooses one of the choices.
abbrev pub PicksFrom : Chance → Type 0
PicksFrom chance = (ws : List SWorker) (w : SWorker) → chance.pick ws ≡ some w → In w ws

get_elem?-out : (ws : List SWorker) (k : ℕ) → k < length ws → get_elem? ws k ≢ none
get_elem?-out [] k h e = absurd (omega arith)
get_elem?-out (w ∷ ws) zero h e = cc
get_elem?-out (w ∷ ws) (suc k) h e = get_elem?-out ws k (omega arith) e

module _ (chance : Chance) (i : ℕ) (function : Func) {name : Bytes}
    (counted : IsCounted name function) (more : function.worker_num ≢ 0) where
  hash_func-In : (w : SWorker) × (hash_func chance i function ≡ ok w) × In w function.workers
  unfolding hash_func
  hash_func-In =
      let key = chance.draw i % function.worker_num in
      elim (Option-cases (get_elem? function.workers key)) [
        | inl e ↦
            absurd (get_elem?-out function.workers key (omega (arith, counted.workers, more)) e)
        | inr (w, e) ↦ (w, ground (arith, e), (key, e))
      ]

  by_weight-In :
      PicksFrom chance
      → (w : SWorker) × (by_weight chance i function ≡ ok w) × In w function.workers
  unfolding by_weight
  by_weight-In law =
      let (h, same, there) = hash_func-In in
      elim (Bool-cases (leb function.worker_num 10)) [
        | inl few ↦ elim (Option-cases (chance.pick function.workers)) [
          | inl e ↦ (h, ground (arith, e, few, same), there)
          | inr (w, e) ↦ (w, ground (arith, e, few), law function.workers w e)
        ]
        | inr many ↦ (h, ground (arith, many, same), there)
      ]

  balance-In :
      PicksFrom chance → (w : SWorker) × (balance chance i function ≡ ok w) × In w function.workers
  unfolding balance
  balance-In law =
      let (h, same, there) = hash_func-In in
      let (w, same', there') = by_weight-In law in
      elim (Bool-cases (function.load_blance_type == LoadBlance.round_weight)) [
        | inl weighted ↦ (w, ground (arith, weighted, same', counted.balanced), there')
        | inr other ↦ (h, ground (arith, other, same, counted.balanced), there)
      ]

abbrev pub any_live : (Bytes → Bool) → List SWorker → Bool
any_live live [] = false
any_live live (w ∷ ws) = live w.worker_id || any_live live ws

any_live-minus :
    (live : Bytes → Bool) (worker_id : Bytes) (ws : List SWorker)
    → live worker_id ≡ false
    → any_live live (minus worker_id ws) ≡ any_live live ws
unfolding minus
any_live-minus live worker_id [] dead = refl
any_live-minus live worker_id (w ∷ ws) dead = elim (Bool-cases (bytes_eq w.worker_id worker_id)) [
  | inl e ↦
      let same : w.worker_id ≡ worker_id = ground (arith, bytes_eq_iff w.worker_id worker_id) in
      rw (e, same, dead) refl
  | inr e ↦ rw (e, any_live-minus live worker_id ws dead) refl
]

length-minus :
    (w : SWorker) (ws : List SWorker) → In w ws → length (minus w.worker_id ws) + 1 ≡ length ws
unfolding minus
length-minus w [] (i, e) = cc
length-minus w (v ∷ ws) (zero, e) =
    let same : v ≡ w = cc in ground (arith, same, bytes_eq_refl w.worker_id)
length-minus w (v ∷ ws) (suc i, e) = ground (arith, length-minus w ws (i, e))

In-cons :
    (w v : SWorker) (us ws : List SWorker) → (In w us → In w ws) → In w (v ∷ us) → In w (v ∷ ws)
In-cons w v us ws f (zero, e) = (zero, e)
In-cons w v us ws f (suc i, e) = let (k, e') = f (i, e) in (suc k, e')

In-minus :
    (w : SWorker) (worker_id : Bytes) (ws : List SWorker) → In w (minus worker_id ws) → In w ws
unfolding minus
In-minus w worker_id [] there = there
In-minus w worker_id (v ∷ ws) there = elim (Bool-cases (bytes_eq v.worker_id worker_id)) [
  | inl e ↦
      let cut : minus worker_id (v ∷ ws) ≡ ws = ground (arith, e) in
      let (i, e') = subst (In w) cut there in (suc i, e')
  | inr e ↦
      let kept : minus worker_id (v ∷ ws) ≡ v ∷ minus worker_id ws = ground (arith, e) in
      In-cons w v (minus worker_id ws) ws (In-minus w worker_id ws) (subst (In w) kept there)
]

-- The answer is a worker of the list with a connection, or none, and then no worker has one.
abbrev pub Answers : (Bytes → Bool) → List SWorker → Option SWorker → Type 0
Answers live ws none = any_live live ws ≡ false
Answers live ws (some w) = (live w.worker_id ≡ true) × In w ws

Answers-minus :
    (live : Bytes → Bool) (worker_id : Bytes) (ws : List SWorker) (o : Option SWorker)
    → live worker_id ≡ false
    → Answers live (minus worker_id ws) o
    → Answers live ws o
Answers-minus live worker_id ws none dead a = cc (any_live-minus live worker_id ws dead, a)
Answers-minus live worker_id ws (some w) dead (alive, there) =
    (alive, In-minus w worker_id ws there)

module _ (chance : Chance) (law : PicksFrom chance) (live : Bytes → Bool) (name : Bytes) where
  shorter :
      (us vs ws : List SWorker) {fuel : ℕ}
      → us ≡ vs
      → length vs + 1 ≡ length ws
      → length ws < suc fuel
      → length us < fuel
  shorter us vs ws e p h = rw e (omega arith)

  none_live : (ws : List SWorker) → length ws ≡ 0 → any_live live ws ≡ false
  none_live [] e = refl
  none_live (w ∷ ws) e = absurd (omega arith)

  -- GetBestWorker returns: it needs at most one round more than the function has workers. It
  -- answers with a worker of the function that has a connection, or with none if no worker of the
  -- function has one, and leaves a valid registry.
  pub best_loop-Answers :
      (fuel i : ℕ) (fm : FuncMap) (closed : List SWorker)
      → IsValid fm
      → length (workers_of name fm) < fuel
      → (b : Best) × (best_loop chance live name fuel i fm closed ≡ some (ok b))
        × Answers live (workers_of name fm) b.worker
        × IsValid b.map
  unfolding best_loop
  best_loop-Answers zero i fm closed v h = absurd (omega arith)
  best_loop-Answers (suc fuel) i fm closed v h =
      let stop : Best = record { map = fm; closed = closed; worker = none } in
      elim (Option-cases (load name fm.funcs)) [
        | inl e ↦ (stop, ground (arith, e), rw (missing name fm e) refl, v)
        | inr (function, e) ↦
            let counted = v.at_name name function e in
            elim (Bool-cases (function.worker_num == 0)) [
              | inl idle ↦ (
                stop,
                ground (arith, e, idle),
                none_live (workers_of name fm)
                    (ground (arith, idle, counted.workers, here name function fm e)),
                v,
              )
              | inr busy ↦
                  let (best, chosen, there) =
                    balance-In chance i function counted (ground (arith, busy)) law in
                  let listed : In best (workers_of name fm) = rw (here name function fm e) there in
                  elim (Bool-cases (live best.worker_id)) [
                    | inl alive ↦ (
                      record stop { worker = some best },
                      ground (arith, e, busy, chosen, alive),
                      (alive, listed),
                      v,
                    )
                    | inr dead ↦
                        let fm' = clean_worker_func best.worker_id fm in
                        let view = workers_of-clean_worker_func best.worker_id name v in
                        let (b, e', a, v') =
                          best_loop-Answers fuel (suc i) fm' (best ∷ closed)
                            (clean_worker_func-IsValid best.worker_id v)
                            (shorter _ _ (workers_of name fm) view
                              (length-minus best (workers_of name fm) listed) h) in
                        (
                          b,
                          ground (arith, e, busy, chosen, dead, e'),
                          Answers-minus live best.worker_id (workers_of name fm) b.worker dead
                              (subst (λ ws. Answers live ws b.worker) view a),
                          v',
                        )
                  ]
            ]
      ]
