-- ===== src/Direct/PoolClient/Sound.antt =====
-- What holds of the connections of a pooled client (pkg/direct/pool_client.go) at all times.
use nmid.Prelude.{
  ℕ, ◌+◌, ◌≤◌, ◌≡◌, refl, ap, [], ◌∷◌, ◌++◌, ◌==◌, List, length, length-append, if◌then◌else◌,
  arith,
}
use nmid.Direct.PoolClient.{PoolClient, Step, Steps, new_pool_client}
use nmid.Direct.PoolClient.{dial, dial_fail, wait, take, fail, count_off, put, drop, stay, next}

-- How often a connection is in a list.
abbrev pub times : ℕ → List ℕ → ℕ
times n [] = 0
times n (m ∷ ms) = let rest = times n ms in if n == m then rest + 1 else rest

times-append : (n : ℕ) (xs ys : List ℕ) → times n (xs ++ ys) ≡ times n xs + times n ys
times-append n [] ys = omega arith
times-append n (x ∷ xs) ys = ground (arith, times-append n xs ys)

-- A connection out of the middle of a list.
times-middle :
    (m n : ℕ) (l xs ys : List ℕ)
    → l ≡ xs ++ n ∷ ys
    → times m l ≡ times m (xs ++ ys) + times m (n ∷ [])
times-middle m n l xs ys e = rw e (ground (arith, times-append m xs (n ∷ ys), times-append m xs ys))

length-middle : (n : ℕ) (l xs ys : List ℕ) → l ≡ xs ++ n ∷ ys → length l ≡ length (xs ++ ys) + 1
length-middle n l xs ys e = rw e (omega (arith, length-append xs (n ∷ ys), length-append xs ys))

-- The connections that are counted are those that exist, within the size of the pool; none stands
-- twice among the idle ones and those of the calls; and the next one is new.
pub record IsSound (c : PoolClient) : Type 0 where
  pub exact : c.created ≡ length c.idle + length c.in_use + c.closing
  pub bounded : c.created ≤ c.pool_size
  pub once : (n : ℕ) → times n c.idle + times n c.in_use ≤ 1
  pub fresh : (n : ℕ) → c.next_conn ≤ n → times n c.idle + times n c.in_use ≡ 0

new_pool_client-IsSound : (pool_size : ℕ) → IsSound (new_pool_client pool_size)
new_pool_client-IsSound pool_size = record {
  exact = refl;
  bounded = omega arith;
  once = λ n. omega arith;
  fresh = λ n h. refl;
}

Step-IsSound : {c d : PoolClient} → Step c d → IsSound c → IsSound d
Step-IsSound {c} (dial opened room) s = record {
  exact = omega (arith, s.exact);
  bounded = omega arith;
  once = λ n. ground (arith, s.once n, s.fresh c.next_conn (omega arith));
  fresh = λ n h. ground (arith, s.fresh n (omega arith));
}
Step-IsSound (dial_fail opened room) s = record {
  exact = s.exact;
  bounded = s.bounded;
  once = s.once;
  fresh = s.fresh;
}
Step-IsSound (wait e) s = record {
  exact = s.exact;
  bounded = s.bounded;
  once = s.once;
  fresh = s.fresh;
}
Step-IsSound {c} (take n rest others e w) s = record {
  exact = omega (arith, s.exact, ap length e);
  bounded = s.bounded;
  once = λ m. ground (arith, s.once m, ap (times m) e);
  fresh = λ m h. ground (arith, s.fresh m h, ap (times m) e);
}
Step-IsSound {c} (fail xs n ys e) s = record {
  exact = omega (arith, s.exact, length-middle n c.in_use xs ys e);
  bounded = s.bounded;
  once = λ m. omega (arith, s.once m, times-middle m n c.in_use xs ys e);
  fresh = λ m h. omega (arith, s.fresh m h, times-middle m n c.in_use xs ys e);
}
Step-IsSound {c} (count_off others e) s = record {
  exact = omega (arith, s.exact);
  bounded = omega (arith, s.bounded);
  once = s.once;
  fresh = s.fresh;
}
Step-IsSound {c} (put xs n ys e room) s = record {
  exact = omega (arith, s.exact, length-middle n c.in_use xs ys e, length-append c.idle (n ∷ []));
  bounded = s.bounded;
  once = λ m.
      omega (arith, s.once m, times-middle m n c.in_use xs ys e, times-append m c.idle (n ∷ []));
  fresh = λ m h.
      omega (arith, s.fresh m h, times-middle m n c.in_use xs ys e, times-append m c.idle (n ∷ []));
}
Step-IsSound {c} (drop xs n ys e full) s =
    absurd (omega (arith, s.exact, s.bounded, length-middle n c.in_use xs ys e))

IsSound-Steps : {c d : PoolClient} → IsSound c → Steps c d → IsSound d
IsSound-Steps s stay = s
IsSound-Steps s (next steps step) = Step-IsSound step (IsSound-Steps s steps)

-- However the calls interleave, from a new client on: created is the number of the connections that
-- are idle, in use or just closed; it is at most the size of the pool; and no connection is used by
-- two calls, or by one while it is idle.
pub Steps-IsSound :
    (pool_size : ℕ) {c : PoolClient} → Steps (new_pool_client pool_size) c → IsSound c
Steps-IsSound pool_size steps = IsSound-Steps (new_pool_client-IsSound pool_size) steps
