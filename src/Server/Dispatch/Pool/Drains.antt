-- ===== src/Server/Dispatch/Pool/Drains.antt =====
-- What the goroutines of the pools of pkg/server/optimize.go can do with the jobs that wait.
use nmid.Prelude.{ℕ, zero, suc, ◌+◌, ◌≤◌, ◌≡◌, refl, List, [], ◌∷◌, ◌++◌, false, arith, length}
use nmid.Prelude.{ap}
use mathlib.Core.List.{append-nil, Perm}
use nmid.Server.Dispatch.Pool.{Pool, take_job, finish}
use nmid.Server.Dispatch.Pool.Runs.{Move, takes, finishes, Reach, next, IsNew, Reach-IsFair_new}

module _ {J : Type 0} where
  -- Moves that accept no job.
  pub data Works (a : Pool J) : Pool J → Type 0 where
    done : Works a a
    goes_on : {b c : Pool J} → Works a b → Move b c [] → Works a c

  Works-trans : {a b c : Pool J} → Works a b → Works b c → Works a c
  Works-trans w done = w
  Works-trans w (goes_on v m) = goes_on (Works-trans w v) m

  Reach-Works : {s a b : Pool J} {js : List J} → Reach s a js → Works a b → Reach s b js
  Reach-Works r done = r
  Reach-Works {js = js} r (goes_on w m) = rw append-nil at (next (Reach-Works r w) m)

  -- Nothing runs, and all that ran waits.
  record Rests (a b : Pool J) : Type 0 where
    works : Works a b
    idle : b.running ≡ []
    same_jobs : b.job_ch ≡ a.job_ch
    hands : b.waiting ≡ a.waiting + length a.running
    still_live : b.cancelled ≡ a.cancelled

  rest : (xs : List J) (a : Pool J) → a.running ≡ xs → (b : Pool J) × Rests a b
  unfolding finish
  rest [] a e = (
    a,
    record {
      works = done;
      idle = e;
      same_jobs = refl;
      hands = omega (arith, ap length e);
      still_live = refl;
    },
  )
  rest (j ∷ xs) a e =
      let first : Move a (finish [] j xs a) [] = finishes [] xs j e in
      let (b, r) = rest xs (finish [] j xs a) refl in
      (
        b,
        record {
          works = Works-trans (goes_on done first) r.works;
          idle = r.idle;
          same_jobs = r.same_jobs;
          hands = omega (arith, r.hands, ap length e);
          still_live = r.still_live;
        },
      )

  drain :
      (js : List J) (a : Pool J) (n : ℕ)
      → a.job_ch ≡ js
      → a.running ≡ []
      → a.waiting ≡ suc n
      → (b : Pool J) × Works a b × (b.job_ch ≡ []) × (b.running ≡ [])
  unfolding take_job finish
  drain [] a n e idle free = (a, done, e, idle)
  drain (j ∷ js) a n e idle free =
      let a₁ = record a {
        job_ch = js;
        waiting = n;
        running = j ∷ a.running;
        started = a.started ++ j ∷ [];
      } in
      let first : Move a a₁ [] = takes (ground (arith, e, free)) in
      let second : Move a₁ (finish [] j a.running a₁) [] = finishes [] a.running j refl in
      let (b, w, empty, rests) = drain js (finish [] j a.running a₁) n refl idle (omega arith) in
      (b, Works-trans (goes_on (goes_on done first) second) w, empty, rests)

  -- As long as a pool is not closed, its goroutines can go on, without a further Submit, to where
  -- every accepted job has run, and once.
  pub Perm-finished :
      {start a : Pool J} {js : List J}
      → IsNew start
      → Reach start a js
      → a.cancelled ≡ false
      → (b : Pool J) × Works a b × Perm js b.finished
  Perm-finished {a = a} {js = js} new r live =
      let fair = Reach-IsFair_new new r in
      let (b, rests) = rest a.running a refl in
      let hands = rests.hands in
      let (n, free) =
        predecessor b.waiting
          (omega (arith, hands, fair.goroutines, fair.manned, fair.present live)) in
      let (c, w, empty, idle) = drain b.job_ch b n refl rests.idle free in
      let all = Works-trans rests.works w in
      let fair' = Reach-IsFair_new new (Reach-Works r all) in
      let ordered : js ≡ c.started = rw (empty, append-nil) at fair'.in_order in
      (c, all, rw ordered (rw idle at fair'.once))
    where
      predecessor : (k : ℕ) → 1 ≤ k → (n : ℕ) × (k ≡ suc n)
      predecessor zero h = absurd (omega arith)
      predecessor (suc n) h = (n, refl)
