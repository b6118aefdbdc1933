-- ===== src/Server/Dispatch/Pool/Runs.antt =====
-- The pools of pkg/server/optimize.go, whichever goroutine goes on next.
use nmid.Prelude.{ℕ, zero, suc, ◌+◌, ◌≤◌, ◌≡◌, refl, List, [], ◌∷◌, ◌++◌, Bool, true, false}
use nmid.Prelude.{some, arith, length, length-append, ◌⊎◌, ltb, inl, inr, Bool-cases, ap, ◌∙◌, sym}
use mathlib.Core.List.{append_assoc, append-nil, Perm, perm_middle, perm_append_singleton}
use mathlib.Core.List.Perm
use nmid.Server.Dispatch.Pool.{Pool, new_dispatch_pool, new_result_router, submit, take_job, finish}
use nmid.Server.Dispatch.Pool.{leave, close}

module _ {J : Type 0} where
  -- One move; the list grows by the job that Submit accepts.
  pub data Move (pool : Pool J) : Pool J → List J → Type 0 where
    submits : (j : J) {b : Pool J} → submit j pool ≡ (b, true) → Move pool b (j ∷ [])
    refused : (j : J) {b : Pool J} → submit j pool ≡ (b, false) → Move pool b []
    takes : {b : Pool J} → take_job pool ≡ some b → Move pool b []
    finishes :
        (others behind : List J) (j : J)
        → pool.running ≡ others ++ j ∷ behind
        → Move pool (finish others j behind pool) []
    leaves : {b : Pool J} → leave pool ≡ some b → Move pool b []
    closes : Move pool (close pool) []

  -- Runs with the jobs that were accepted, oldest first.
  pub data Reach (start : Pool J) : Pool J → List J → Type 0 where
    here : Reach start start []
    next :
        {a b : Pool J} {js ks : List J} → Reach start a js → Move a b ks → Reach start b (js ++ ks)

  pub record IsFair (pool : Pool J) (accepted : List J) : Type 0 where
    pub in_order : accepted ≡ pool.started ++ pool.job_ch
    pub once : Perm pool.started (pool.running ++ pool.finished)
    pub in_bounds : length pool.job_ch ≤ pool.size
    pub goroutines : pool.waiting + length pool.running + pool.returned ≡ pool.workers
    pub present : pool.cancelled ≡ false → pool.returned ≡ 0
    pub manned : 1 ≤ pool.workers

  submit-cases :
      (j : J) (a b : Pool J) (ok : Bool)
      → submit j a ≡ (b, ok)
      → ((ltb (length a.job_ch) a.size ≡ true)
          × (b ≡ record a { job_ch = a.job_ch ++ j ∷ [] })
          × (ok ≡ true))
        ⊎ ((b ≡ a) × (ok ≡ false))
  unfolding submit
  submit-cases j a b ok e = elim (Bool-cases (ltb (length a.job_ch) a.size)) [
    | inl room ↦ inl (room, ground (arith, e, room), ground (arith, e, room))
    | inr full ↦ inr (ground (arith, e, full), ground (arith, e, full))
  ]

  take_job-cases :
      (a b : Pool J)
      → take_job a ≡ some b
      → (j : J) × (rest : List J) × (n : ℕ) × (a.job_ch ≡ j ∷ rest)
        × (a.waiting ≡ suc n)
        × (b ≡ record a {
          job_ch = rest;
          waiting = n;
          running = j ∷ a.running;
          started = a.started ++ j ∷ [];
        })
  unfolding take_job
  take_job-cases a b e = go a.job_ch a.waiting refl refl
    where
      go :
          (js : List J) (n : ℕ)
          → a.job_ch ≡ js
          → a.waiting ≡ n
          → (j : J) × (rest : List J) × (n : ℕ) × (a.job_ch ≡ j ∷ rest)
            × (a.waiting ≡ suc n)
            × (b ≡ record a {
              job_ch = rest;
              waiting = n;
              running = j ∷ a.running;
              started = a.started ++ j ∷ [];
            })
      go [] n p q = absurd (ground (arith, e, p))
      go (j ∷ rest) zero p q = absurd (ground (arith, e, p, q))
      go (j ∷ rest) (suc n) p q = (j, rest, n, p, q, ground (arith, e, p, q))

  leave-cases :
      (a b : Pool J)
      → leave a ≡ some b
      → (n : ℕ) × (a.cancelled ≡ true)
        × (a.waiting ≡ suc n)
        × (b ≡ record a { waiting = n; returned = a.returned + 1 })
  unfolding leave
  leave-cases a b e = go a.cancelled a.waiting refl refl
    where
      go :
          (c : Bool) (n : ℕ)
          → a.cancelled ≡ c
          → a.waiting ≡ n
          → (n : ℕ) × (a.cancelled ≡ true)
            × (a.waiting ≡ suc n)
            × (b ≡ record a { waiting = n; returned = a.returned + 1 })
      go false n p q = absurd (ground (arith, e, p))
      go true zero p q = absurd (ground (arith, e, p, q))
      go true (suc n) p q = (n, p, q, ground (arith, e, p, q))

  -- A job that runs is moved to those that have run.
  moved_once :
      (others behind finished : List J) (j : J)
      → Perm ((others ++ j ∷ behind) ++ finished) ((others ++ behind) ++ j ∷ finished)
  moved_once others behind finished j =
      Perm.trans (Perm.append_right finished (perm_middle others behind))
        (Perm.symm (perm_middle (others ++ behind) finished))

  length-middle : (xs ys : List J) (j : J) → length (xs ++ j ∷ ys) ≡ length (xs ++ ys) + 1
  length-middle xs ys j = ground (arith, length-append xs (j ∷ ys), length-append xs ys)

  Move-IsFair : {a b : Pool J} {js ks : List J} → Move a b ks → IsFair a js → IsFair b (js ++ ks)
  unfolding finish close
  Move-IsFair {a = a} {js = js} (submits j {b = b} e) s = elim (submit-cases j a b true e) [
    | inr (same, not_sent) ↦ absurd cc
    | inl (room, same, sent) ↦ rw same (record {
      in_order = rw s.in_order (append_assoc a.started a.job_ch (j ∷ []));
      once = s.once;
      in_bounds = ground (arith, room, length-append a.job_ch (j ∷ []));
      goroutines = s.goroutines;
      present = s.present;
      manned = s.manned;
    })
  ]
  Move-IsFair {a = a} {js = js} (refused j {b = b} e) s = elim (submit-cases j a b false e) [
    | inr (same, not_sent) ↦ rw (append-nil js) (rw same s)
    | inl (room, same, sent) ↦ absurd cc
  ]
  Move-IsFair {a = a} {js = js} (takes {b = b} e) s =
      let (j, rest, n, there, free, same) = take_job-cases a b e in
      rw same (record {
        in_order =
            rw append-nil (s.in_order ∙ rw there (sym (append_assoc a.started (j ∷ []) rest)));
        once = Perm.trans (perm_append_singleton j a.started) (Perm.cons j s.once);
        in_bounds = omega (arith, ap length there, s.in_bounds);
        goroutines = omega (arith, free, s.goroutines);
        present = s.present;
        manned = s.manned;
      })
  Move-IsFair {a = a} {js = js} (finishes others behind j e) s = rw (append-nil js) (record {
    in_order = s.in_order;
    once = Perm.trans s.once (rw e (moved_once others behind a.finished j));
    in_bounds = s.in_bounds;
    goroutines = omega (arith, ap length e, length-middle others behind j, s.goroutines);
    present = s.present;
    manned = s.manned;
  })
  Move-IsFair {a = a} {js = js} (leaves {b = b} e) s =
      let (n, closed, free, same) = leave-cases a b e in
      rw (append-nil js) (
        rw same (record {
          in_order = s.in_order;
          once = s.once;
          in_bounds = s.in_bounds;
          goroutines = omega (arith, free, s.goroutines);
          present = λ live. absurd (ground (arith, closed, live));
          manned = s.manned;
        }))
  Move-IsFair {js = js} closes s = rw (append-nil js) (record {
    in_order = s.in_order;
    once = s.once;
    in_bounds = s.in_bounds;
    goroutines = s.goroutines;
    present = λ live. absurd cc;
    manned = s.manned;
  })

  Reach-IsFair : {start b : Pool J} {js : List J} → Reach start b js → IsFair start [] → IsFair b js
  Reach-IsFair here s = s
  Reach-IsFair (next r m) s = Move-IsFair m (Reach-IsFair r s)

  new_dispatch_pool-IsFair : (n : ℕ) → IsFair (new_dispatch_pool n) []
  unfolding new_dispatch_pool
  new_dispatch_pool-IsFair zero = record {
    in_order = refl;
    once = Perm.refl [];
    in_bounds = omega arith;
    goroutines = omega arith;
    present = λ live. refl;
    manned = omega arith;
  }
  new_dispatch_pool-IsFair (suc n) = record {
    in_order = refl;
    once = Perm.refl [];
    in_bounds = omega arith;
    goroutines = omega arith;
    present = λ live. refl;
    manned = omega arith;
  }

  new_result_router-IsFair : (n : ℕ) → IsFair (new_result_router n) []
  unfolding new_result_router
  new_result_router-IsFair zero = record {
    in_order = refl;
    once = Perm.refl [];
    in_bounds = omega arith;
    goroutines = omega arith;
    present = λ live. refl;
    manned = omega arith;
  }
  new_result_router-IsFair (suc n) = record {
    in_order = refl;
    once = Perm.refl [];
    in_bounds = omega arith;
    goroutines = omega arith;
    present = λ live. refl;
    manned = omega arith;
  }

  -- A pool of one of the constructors.
  pub data IsNew : Pool J → Type 0 where
    dispatching : (n : ℕ) → IsNew (new_dispatch_pool n)
    routing : (n : ℕ) → IsNew (new_result_router n)

  IsNew-IsFair : {pool : Pool J} → IsNew pool → IsFair pool []
  IsNew-IsFair (dispatching n) = new_dispatch_pool-IsFair n
  IsNew-IsFair (routing n) = new_result_router-IsFair n

  -- However a dispatch pool or a result router is used and whichever goroutine goes on, the accepted
  -- jobs are started in the order of their acceptance, those that wait are the rest and at most as
  -- many as the channel holds; each started job runs or has run, and once; and each goroutine waits,
  -- runs one job or has returned, of which there is at least one, and none has returned before Close.
  pub Reach-IsFair_new :
      {start b : Pool J} {js : List J} → IsNew start → Reach start b js → IsFair b js
  Reach-IsFair_new new r = Reach-IsFair r (IsNew-IsFair new)
