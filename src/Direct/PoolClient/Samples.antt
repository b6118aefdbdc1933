-- ===== src/Direct/PoolClient/Samples.antt =====
-- A pool of one connection, and one that cannot dial.
use nmid.Prelude.{refl, [], arith}
use nmid.Direct.PoolClient.{PoolClient, Steps, new_pool_client, dials, puts, dial_fails, waits}
use nmid.Direct.PoolClient.{dial, wait, put, stay, next}
use nmid.Prelude.{inl}
use nmid.Direct.PoolClient.Sound.{IsSound, Steps-IsSound}
use nmid.Direct.PoolClient.Stuck.{IsStuck, Steps-IsStuck}

abbrev one : PoolClient
one = new_pool_client 1

abbrev one_put : PoolClient
one_put = puts (dials one) 0 []

one_put-Steps : Steps one one_put
one_put-Steps = next (next stay (dial refl (omega arith))) (put [] 0 [] refl (omega arith))

Steps-IsSound_example : IsSound one_put
Steps-IsSound_example = Steps-IsSound 1 one_put-Steps

abbrev unreachable : PoolClient
unreachable = dial_fails one

unreachable-IsStuck : IsStuck unreachable
unreachable-IsStuck = record { dial_err = refl; idle = refl; in_use = refl }

Steps-IsStuck_example : IsStuck (waits unreachable)
Steps-IsStuck_example = Steps-IsStuck unreachable-IsStuck (next stay (wait (inl refl)))
