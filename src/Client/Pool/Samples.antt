-- ===== src/Client/Pool/Samples.antt =====
-- A pool of one client.
use nmid.Prelude.{◌+◌, ◌≤◌, ◌≡◌, refl, arith}
use nmid.Client.Pool.{PoolClient, new_pool_client, Steps, stay, next, call, reserve, dial}
use nmid.Client.Pool.{dial_fail, calls, reserves, dials, dial_fails}
use nmid.Client.Pool.Sound.{IsExact, Steps-IsExact}
use nmid.Client.Pool.Stuck.{Offline, stays, goes_on, in_progress, made, Offline-waits}

abbrev start : PoolClient
start = new_pool_client 1

abbrev dialing : PoolClient
dialing = reserves (calls start) 0

to_dialing : Steps start dialing
to_dialing = next (next stay call) (reserve 0 refl (omega arith))

Steps-IsExact_example : IsExact (dials dialing 0)
Steps-IsExact_example = Steps-IsExact 1 (next to_dialing (dial 0 refl))

-- The first call waits, and another one comes.
fails_once : Offline dialing (calls (dial_fails dialing 0))
fails_once = goes_on (goes_on stays (dial_fail 0 refl) refl) call refl

Offline-waits_example :
    (dialing.waiting ≤ (calls (dial_fails dialing 0)).waiting)
    × (in_progress (calls (dial_fails dialing 0)) ≡ in_progress dialing + made fails_once)
Offline-waits_example = Offline-waits refl refl fails_once
