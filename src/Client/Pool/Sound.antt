-- ===== src/Client/Pool/Sound.antt =====
-- What holds of a pool of clients (pkg/client/pool_client.go) at all times.
use nmid.Prelude.{ℕ, ◌+◌, ◌≤◌, ◌≡◌, refl, ap, [], ◌∷◌, ◌++◌, List, Bool, true, false, length}
use nmid.Prelude.{length-append, arith}
use nmid.Client.Pool.{
  PoolClient, new_pool_client, Step, Steps, stay, next, call, reserve, find_full,
}
use nmid.Client.Pool.{dial, dial_fail, take, take_dead, lose_idle, lose_borrowed, put, put_full}
use nmid.Client.Pool.{put_dead}

-- The count is that of the clients that exist or are being made, within the size of the pool, so that
-- a borrowed client always finds room in the channel.
pub record IsExact (p : PoolClient) : Type 0 where
  pub exact : p.created ≡ length p.clients + length p.borrowed + p.dialing
  pub bounded : p.created ≤ p.pool_size
  pub room : length p.clients + length p.borrowed ≤ p.pool_size

length-middle :
    (b c : Bool) (l xs ys : List Bool)
    → l ≡ xs ++ b ∷ ys
    → (length l ≡ length (xs ++ ys) + 1) × (length (xs ++ c ∷ ys) ≡ length (xs ++ ys) + 1)
length-middle b c l xs ys e = rw e (
  omega (arith, length-append xs (b ∷ ys), length-append xs ys),
  omega (arith, length-append xs (c ∷ ys), length-append xs ys),
)

sound :
    (p : PoolClient)
    → p.created ≡ length p.clients + length p.borrowed + p.dialing
    → p.created ≤ p.pool_size
    → IsExact p
sound p e h = record { exact = e; bounded = h; room = omega arith }

Step-IsExact : {p q : PoolClient} → Step p q → IsExact p → IsExact q
Step-IsExact call s = sound _ s.exact s.bounded
Step-IsExact (reserve others e h) s = sound _ (omega (arith, s.exact)) (omega arith)
Step-IsExact (find_full others e h) s = sound _ s.exact s.bounded
Step-IsExact (dial others e) s = sound _ (omega (arith, s.exact)) s.bounded
Step-IsExact (dial_fail others e) s = sound _ (omega (arith, s.exact)) (omega (arith, s.bounded))
Step-IsExact (take rest others e w) s = sound _ (omega (arith, s.exact, ap length e)) s.bounded
Step-IsExact (take_dead rest others e w) s =
    sound _ (omega (arith, s.exact, ap length e)) (omega (arith, s.bounded))
Step-IsExact {p = p} (lose_idle xs ys e) s =
    let both = length-middle true false p.clients xs ys e in
    sound _ (omega (arith, s.exact, both.0, both.1)) s.bounded
Step-IsExact {p = p} (lose_borrowed xs ys e) s =
    let both = length-middle true false p.borrowed xs ys e in
    sound _ (omega (arith, s.exact, both.0, both.1)) s.bounded
Step-IsExact {p = p} (put xs ys e h) s =
    let both = length-middle true false p.borrowed xs ys e in
    sound _ (omega (arith, s.exact, both.0, length-append p.clients (true ∷ []))) s.bounded
Step-IsExact {p = p} (put_full xs ys e h) s =
    let both = length-middle true false p.borrowed xs ys e in
    sound _ (omega (arith, s.exact, both.0)) (omega (arith, s.bounded))
Step-IsExact {p = p} (put_dead xs ys e) s =
    let both = length-middle false false p.borrowed xs ys e in
    sound _ (omega (arith, s.exact, both.0)) (omega (arith, s.bounded))

-- However the calls of a pool of clients interleave, and whenever connections are lost, created is
-- the number of the clients that are idle, borrowed or being made, it is at most the size of the pool,
-- and the idle and the borrowed clients together fit into the channel.
pub Steps-IsExact :
    (pool_size : ℕ) {p : PoolClient} → Steps (new_pool_client pool_size) p → IsExact p
Steps-IsExact pool_size stay = sound _ refl (omega arith)
Steps-IsExact pool_size (next r st) = Step-IsExact st (Steps-IsExact pool_size r)
