-- ===== src/Client/Pool.antt =====
-- pkg/client/pool_client.go: the clients that the calls of a pool borrow.
-- A client is whether its connection is set. A step is what one goroutine does under the mutex or with
-- the channel, and a connection may be lost at any time. What Do sends and receives is that of Calls;
-- Close and Stats are left out.
pub mod Sound
pub mod Stuck
mod Samples
use nmid.Prelude.{
  ℕ, zero, suc, ◌+◌, ◌-◌, ◌≤◌, ◌<◌, ◌≡◌, [], ◌∷◌, ◌++◌, ◌==◌, Bool, true, false, List,
}
use nmid.Prelude.{length, if◌then◌else◌}

-- `clients` is the channel, `borrowed` the clients of the calls that run; `starting`, `dialing` and
-- `waiting` are the calls at the start of getOrCreate, in Start, and at the channel.
pub record PoolClient : Type 0 where
  pub pool_size : ℕ
  pub created : ℕ
  pub clients : List Bool
  pub borrowed : List Bool
  pub starting : ℕ
  pub dialing : ℕ
  pub waiting : ℕ

-- The size of the pool, when it is not given.
abbrev default_size : ℕ
default_size = 32

abbrev pub new_pool_client : ℕ → PoolClient
new_pool_client pool_size = record {
  pool_size = if pool_size == 0 then default_size else pool_size;
  created = 0;
  clients = [];
  borrowed = [];
  starting = 0;
  dialing = 0;
  waiting = 0;
}

module _ (p : PoolClient) where
  abbrev pub calls : PoolClient
  calls = record p { starting = p.starting + 1 }

  -- The first phase of getOrCreate.
  abbrev pub reserves : ℕ → PoolClient
  reserves others = record p { starting = others; created = p.created + 1; dialing = p.dialing + 1 }

  abbrev pub finds_full : ℕ → PoolClient
  finds_full others = record p { starting = others; waiting = p.waiting + 1 }

  abbrev pub dials : ℕ → PoolClient
  dials others = record p { dialing = others; borrowed = true ∷ p.borrowed }

  abbrev pub dial_fails : ℕ → PoolClient
  dial_fails others = record p {
    dialing = others;
    created = p.created - 1;
    waiting = p.waiting + 1;
  }

  -- The second phase: a client that is dead is counted off, and the call starts again.
  abbrev pub takes : List Bool → ℕ → PoolClient
  takes rest others = record p { clients = rest; waiting = others; borrowed = true ∷ p.borrowed }

  abbrev pub takes_dead : List Bool → ℕ → PoolClient
  takes_dead rest others = record p {
    clients = rest;
    waiting = others;
    created = p.created - 1;
    starting = p.starting + 1;
  }

  -- put
  abbrev pub puts : List Bool → PoolClient
  puts others = record p { borrowed = others; clients = p.clients ++ true ∷ [] }

  abbrev pub counts_off : List Bool → PoolClient
  counts_off others = record p { borrowed = others; created = p.created - 1 }

pub data Step (p : PoolClient) : PoolClient → Type 0 where
  call : Step p (calls p)
  reserve :
      (others : ℕ) → p.starting ≡ suc others → p.created < p.pool_size → Step p (reserves p others)
  find_full :
      (others : ℕ)
      → p.starting ≡ suc others
      → p.pool_size ≤ p.created
      → Step p (finds_full p others)
  dial : (others : ℕ) → p.dialing ≡ suc others → Step p (dials p others)
  dial_fail : (others : ℕ) → p.dialing ≡ suc others → Step p (dial_fails p others)
  take :
      (rest : List Bool) (others : ℕ)
      → p.clients ≡ true ∷ rest
      → p.waiting ≡ suc others
      → Step p (takes p rest others)
  take_dead :
      (rest : List Bool) (others : ℕ)
      → p.clients ≡ false ∷ rest
      → p.waiting ≡ suc others
      → Step p (takes_dead p rest others)
  lose_idle :
      (xs ys : List Bool)
      → p.clients ≡ xs ++ true ∷ ys
      → Step p (record p { clients = xs ++ false ∷ ys })
  lose_borrowed :
      (xs ys : List Bool)
      → p.borrowed ≡ xs ++ true ∷ ys
      → Step p (record p { borrowed = xs ++ false ∷ ys })
  put :
      (xs ys : List Bool)
      → p.borrowed ≡ xs ++ true ∷ ys
      → length p.clients < p.pool_size
      → Step p (puts p (xs ++ ys))
  put_full :
      (xs ys : List Bool)
      → p.borrowed ≡ xs ++ true ∷ ys
      → p.pool_size ≤ length p.clients
      → Step p (counts_off p (xs ++ ys))
  put_dead : (xs ys : List Bool) → p.borrowed ≡ xs ++ false ∷ ys → Step p (counts_off p (xs ++ ys))

pub data Steps (p : PoolClient) : PoolClient → Type 0 where
  stay : Steps p p
  next : {q r : PoolClient} → Steps p q → Step q r → Steps p r
