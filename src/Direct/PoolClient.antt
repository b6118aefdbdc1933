-- ===== src/Direct/PoolClient.antt =====
-- pkg/direct/pool_client.go: the connections that the calls of a pooled client share.
-- A connection is a number. A step is what one goroutine does under the mutex, or with the channel:
-- calls may come between any two. What a call sends and receives is that of Exchange, and Close is
-- left out.
pub mod Sound
pub mod Stuck
mod Samples
use nmid.Prelude.{
  ℕ, zero, suc, ◌+◌, ◌-◌, ◌≤◌, ◌<◌, ◌≡◌, ◌⊎◌, [], ◌∷◌, ◌++◌, ◌==◌, Bool, true, false, List, length,
  if◌then◌else◌,
}

-- `idle` is the channel conns, `in_use` the connections of the calls that run, `closing` the calls
-- that have closed a connection and not yet counted it off, and `waiting` those in getConn's loop.
pub record PoolClient : Type 0 where
  pub pool_size : ℕ
  pub created : ℕ
  pub dial_err : Bool
  pub idle : List ℕ
  pub in_use : List ℕ
  pub closing : ℕ
  pub waiting : ℕ
  pub next_conn : ℕ

-- The size of the pool, when it is not given.
abbrev default_size : ℕ
default_size = 32

abbrev pub new_pool_client : ℕ → PoolClient
new_pool_client pool_size = record {
  pool_size = if pool_size == 0 then default_size else pool_size;
  created = 0;
  dial_err = false;
  idle = [];
  in_use = [];
  closing = 0;
  waiting = 0;
  next_conn = 0;
}

-- The states after each step.
module _ (c : PoolClient) where
  abbrev pub dials : PoolClient
  dials = record c {
    created = c.created + 1;
    in_use = c.next_conn ∷ c.in_use;
    next_conn = c.next_conn + 1;
  }

  abbrev pub dial_fails : PoolClient
  dial_fails = record c { dial_err = true; waiting = c.waiting + 1 }

  abbrev pub waits : PoolClient
  waits = record c { waiting = c.waiting + 1 }

  abbrev pub takes : ℕ → List ℕ → ℕ → PoolClient
  takes n rest others = record c { idle = rest; in_use = n ∷ c.in_use; waiting = others }

  abbrev pub fails : List ℕ → PoolClient
  fails others = record c { in_use = others; closing = c.closing + 1 }

  abbrev pub counts_off : ℕ → PoolClient
  counts_off others = record c { closing = others; created = c.created - 1 }

  abbrev pub puts : ℕ → List ℕ → PoolClient
  puts n others = record c { idle = c.idle ++ n ∷ []; in_use = others }

  abbrev pub drops : List ℕ → PoolClient
  drops others = record c { in_use = others }

-- getConn: dial makes a connection, or meets an error and keeps it; after an error, or when there
-- are as many as the pool may have, the call waits and takes what comes back. Call: on an error it
-- closes its connection and then counts it off; if not it puts it back, and putConn closes what finds
-- no room.
pub data Step : PoolClient → PoolClient → Type 0 where
  dial : {c : PoolClient} → c.dial_err ≡ false → c.created < c.pool_size → Step c (dials c)
  dial_fail :
      {c : PoolClient} → c.dial_err ≡ false → c.created < c.pool_size → Step c (dial_fails c)
  wait : {c : PoolClient} → (c.dial_err ≡ true) ⊎ (c.pool_size ≤ c.created) → Step c (waits c)
  take :
      {c : PoolClient} (n : ℕ) (rest : List ℕ) (others : ℕ)
      → c.idle ≡ n ∷ rest
      → c.waiting ≡ suc others
      → Step c (takes c n rest others)
  fail :
      {c : PoolClient} (xs : List ℕ) (n : ℕ) (ys : List ℕ)
      → c.in_use ≡ xs ++ n ∷ ys
      → Step c (fails c (xs ++ ys))
  count_off : {c : PoolClient} (others : ℕ) → c.closing ≡ suc others → Step c (counts_off c others)
  put :
      {c : PoolClient} (xs : List ℕ) (n : ℕ) (ys : List ℕ)
      → c.in_use ≡ xs ++ n ∷ ys
      → length c.idle < c.pool_size
      → Step c (puts c n (xs ++ ys))
  drop :
      {c : PoolClient} (xs : List ℕ) (n : ℕ) (ys : List ℕ)
      → c.in_use ≡ xs ++ n ∷ ys
      → c.pool_size ≤ length c.idle
      → Step c (drops c (xs ++ ys))

-- Any number of steps.
pub data Steps : PoolClient → PoolClient → Type 0 where
  stay : {c : PoolClient} → Steps c c
  next : {c d e : PoolClient} → Steps c d → Step d e → Steps c e
