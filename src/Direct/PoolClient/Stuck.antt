-- ===== src/Direct/PoolClient/Stuck.antt =====
-- A pooled client (pkg/direct/pool_client.go) after a dial that has failed.
use nmid.Prelude.{ℕ, ◌≡◌, ◌≢◌, [], ◌∷◌, ◌++◌, true, List}
use nmid.Direct.PoolClient.{PoolClient, Step, Steps}
use nmid.Direct.PoolClient.{dial, dial_fail, wait, take, fail, count_off, put, drop, stay, next}

-- A dial has failed, and no connection is left.
pub record IsStuck (c : PoolClient) : Type 0 where
  pub dial_err : c.dial_err ≡ true
  pub idle : c.idle ≡ []
  pub in_use : c.in_use ≡ []

middle_empty : (l xs : List ℕ) (n : ℕ) (ys : List ℕ) → l ≡ xs ++ n ∷ ys → l ≢ []
middle_empty l [] n ys e p = cc
middle_empty l (x ∷ xs) n ys e p = cc

Step-IsStuck : {c d : PoolClient} → Step c d → IsStuck c → IsStuck d
Step-IsStuck (dial opened room) s = absurd (cc (opened, s.dial_err))
Step-IsStuck (dial_fail opened room) s = absurd (cc (opened, s.dial_err))
Step-IsStuck (wait e) s = record { dial_err = s.dial_err; idle = s.idle; in_use = s.in_use }
Step-IsStuck (take n rest others e w) s = absurd (cc (e, s.idle))
Step-IsStuck {c} (fail xs n ys e) s = absurd (middle_empty c.in_use xs n ys e s.in_use)
Step-IsStuck (count_off others e) s = record {
  dial_err = s.dial_err;
  idle = s.idle;
  in_use = s.in_use;
}
Step-IsStuck {c} (put xs n ys e room) s = absurd (middle_empty c.in_use xs n ys e s.in_use)
Step-IsStuck {c} (drop xs n ys e full) s = absurd (middle_empty c.in_use xs n ys e s.in_use)

-- Once a dial has failed and no connection is left, no call ever gets one again: whatever happens,
-- none is in use and none is idle.
pub Steps-IsStuck : {c d : PoolClient} → IsStuck c → Steps c d → IsStuck d
Steps-IsStuck s stay = s
Steps-IsStuck s (next steps step) = Step-IsStuck step (Steps-IsStuck s steps)
