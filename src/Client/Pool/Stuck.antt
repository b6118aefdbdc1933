-- ===== src/Client/Pool/Stuck.antt =====
-- Calls of a pool of clients that cannot connect (pkg/client/pool_client.go).
use nmid.Prelude.{ℕ, ◌+◌, ◌≤◌, ◌≡◌, [], ◌∷◌, ◌++◌, List, Bool, true, false}
use nmid.Prelude.{arith}
use nmid.Client.Pool.{PoolClient, Step, call, reserve, find_full}
use nmid.Client.Pool.{dial, dial_fail, take, take_dead, lose_idle, lose_borrowed, put, put_full}
use nmid.Client.Pool.{put_dead}

-- Steps in which no dial succeeds.
pub data Offline (p : PoolClient) : PoolClient → Type 0 where
  stays : Offline p p
  goes_on : {q r : PoolClient} → Offline p q → Step q r → r.borrowed ≡ [] → Offline p r

-- There is no client.
record IsEmpty (waiting : ℕ) (p : PoolClient) : Type 0 where
  no_clients : p.clients ≡ []
  no_borrowed : p.borrowed ≡ []
  still : waiting ≤ p.waiting

not_nil : (b : Bool) (xs ys : List Bool) → [] ≡ xs ++ b ∷ ys → ⊥
not_nil b [] ys e = cc
not_nil b (x ∷ xs) ys e = cc

Step-IsEmpty : {w : ℕ} {p q : PoolClient} → Step p q → q.borrowed ≡ [] → IsEmpty w p → IsEmpty w q
Step-IsEmpty call b s = record { no_clients = s.no_clients; no_borrowed = b; still = s.still }
Step-IsEmpty (reserve others e h) b s = record {
  no_clients = s.no_clients;
  no_borrowed = b;
  still = s.still;
}
Step-IsEmpty (find_full others e h) b s = record {
  no_clients = s.no_clients;
  no_borrowed = b;
  still = omega (arith, s.still);
}
Step-IsEmpty (dial others e) b s = absurd cc
Step-IsEmpty (dial_fail others e) b s = record {
  no_clients = s.no_clients;
  no_borrowed = b;
  still = omega (arith, s.still);
}
Step-IsEmpty (take rest others e w) b s = absurd cc
Step-IsEmpty (take_dead rest others e w) b s =
    let none = s.no_clients in absurd (ground (arith, none, e))
Step-IsEmpty (lose_idle xs ys e) b s = absurd (not_nil true xs ys (rw s.no_clients at e))
Step-IsEmpty (lose_borrowed xs ys e) b s = absurd (not_nil true xs ys (rw s.no_borrowed at e))
Step-IsEmpty (put xs ys e h) b s = absurd (not_nil true xs ys (rw s.no_borrowed at e))
Step-IsEmpty (put_full xs ys e h) b s = absurd (not_nil true xs ys (rw s.no_borrowed at e))
Step-IsEmpty (put_dead xs ys e) b s = absurd (not_nil false xs ys (rw s.no_borrowed at e))

-- The calls that have not returned, where no client is borrowed.
abbrev pub in_progress : PoolClient → ℕ
in_progress p = p.starting + p.dialing + p.waiting

abbrev pub new_calls : {p q : PoolClient} → Step p q → ℕ
new_calls call = 1
new_calls _ = 0

-- The calls that came on the way.
abbrev pub made : {p q : PoolClient} → Offline p q → ℕ
made stays = 0
made (goes_on run st rests) = made run + new_calls st

Step-in_progress :
    {w : ℕ} {p q : PoolClient} (st : Step p q)
    → q.borrowed ≡ []
    → IsEmpty w p
    → in_progress q ≡ in_progress p + new_calls st
Step-in_progress call b s = omega arith
Step-in_progress (reserve others e h) b s = omega (arith, e)
Step-in_progress (find_full others e h) b s = omega (arith, e)
Step-in_progress (dial others e) b s = absurd cc
Step-in_progress (dial_fail others e) b s = omega (arith, e)
Step-in_progress (take rest others e w) b s = absurd cc
Step-in_progress (take_dead rest others e w) b s = omega (arith, w)
Step-in_progress (lose_idle xs ys e) b s = omega arith
Step-in_progress (lose_borrowed xs ys e) b s = omega arith
Step-in_progress (put xs ys e h) b s = omega arith
Step-in_progress (put_full xs ys e h) b s = omega arith
Step-in_progress (put_dead xs ys e) b s = omega arith

-- From a pool without clients, as long as no dial succeeds, no call returns, with an error or without:
-- the calls that have not returned are those of before and all that came since, and a call that has
-- come to wait goes on waiting.
pub Offline-waits :
    {p q : PoolClient}
    → p.clients ≡ []
    → p.borrowed ≡ []
    → (run : Offline p q) → (p.waiting ≤ q.waiting) × (in_progress q ≡ in_progress p + made run)
Offline-waits {p = p} c b run = ((go run).still, all run)
  where
    go : {q : PoolClient} → Offline p q → IsEmpty p.waiting q
    go stays = record { no_clients = c; no_borrowed = b; still = omega arith }
    go (goes_on r st rests) = Step-IsEmpty st rests (go r)

    all : {q : PoolClient} (run : Offline p q) → in_progress q ≡ in_progress p + made run
    all stays = omega arith
    all (goes_on r st rests) = omega (arith, all r, Step-in_progress st rests (go r))
