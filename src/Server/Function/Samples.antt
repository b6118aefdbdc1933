-- ===== src/Server/Function/Samples.antt =====
-- The registry at two workers of one function.
use nmid.Prelude.{
  ◌∷◌, [], ◌≡◌, Bool, Option, some, none, List, length, arith, bytes_eq, bytes_eq_refl,
}
use nmid.Wire.{Bytes, ok}
use nmid.Table.{load, store}
use nmid.Server.Function.{SWorker, FuncMap, new_func_map, Chance, Best, best_loop, add_func}
use nmid.Server.Function.{clean_worker_func}
use nmid.Server.Function.Registry.{IsValid}
use nmid.Server.Function.Registry.Runs.{Op, adds_func, run, run-new_func_map}
use nmid.Server.Function.View.{workers_of, minus}
use nmid.Server.Function.View.{workers_of-clean_worker_func}
use nmid.Server.Function.Balance.{PicksFrom, Answers, best_loop-Answers}

abbrev echo : Bytes
echo = b'e' ∷ b'c' ∷ b'h' ∷ b'o' ∷ []

abbrev first_worker : SWorker
first_worker = record { worker_id = b'1' ∷ []; weight = 0 }

abbrev second_worker : SWorker
second_worker = record { worker_id = b'2' ∷ []; weight = 3 }

abbrev registrations : List Op
registrations = adds_func (some first_worker) echo ∷ adds_func (some second_worker) echo ∷ []

abbrev two_workers : FuncMap
two_workers = run registrations new_func_map

two_workers-IsValid : IsValid two_workers
two_workers-IsValid = run-new_func_map registrations

abbrev pick_first : List SWorker → Option SWorker
pick_first [] = none
pick_first (w ∷ ws) = some w

abbrev first_chance : Chance
first_chance = record { draw = λ i. 7; pick = pick_first }

first_chance-PicksFrom : PicksFrom first_chance
first_chance-PicksFrom [] w e = cc
first_chance-PicksFrom (v ∷ ws) w e = (0, e)

-- The second worker alone is connected.
abbrev second_live : Bytes → Bool
second_live worker_id = bytes_eq worker_id (b'2' ∷ [])

run-new_func_map_example : IsValid (run registrations new_func_map)
run-new_func_map_example = run-new_func_map registrations

workers_of-clean_worker_func_example :
    workers_of echo (clean_worker_func (b'1' ∷ []) two_workers)
    ≡ minus (b'1' ∷ []) (workers_of echo two_workers)
workers_of-clean_worker_func_example =
    workers_of-clean_worker_func (b'1' ∷ []) echo two_workers-IsValid

few_workers : length (workers_of echo two_workers) ≡ 2
unfolding workers_of add_func load store
few_workers = ground (arith, bytes_eq_refl echo)

best_loop-Answers_example :
    (b : Best) × (best_loop first_chance second_live echo 3 0 two_workers [] ≡ some (ok b))
    × Answers second_live (workers_of echo two_workers) b.worker
    × IsValid b.map
best_loop-Answers_example =
    best_loop-Answers first_chance first_chance-PicksFrom second_live echo 3 0 two_workers []
      two_workers-IsValid (omega (arith, few_workers))
