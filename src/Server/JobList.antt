-- ===== src/Server/JobList.antt =====
-- pkg/server/job.go: jobs that are linked to each other.
-- The heap holds a job at each address, and a pointer is an address or none, which is nil. Size is a
-- uint32. What sets and reads no link is left out of Job, and so are the locks: each function is one
-- step.
pub mod Chain
pub mod Queue
mod Samples
use nmid.Prelude.{
  ℕ, zero, suc, ◌+◌, ◌-◌, ◌%◌, ◌^◌, ◌==◌, ltb, Bool, true, false, not, ◌||◌, if◌then◌else◌,
}
use nmid.Prelude.{Option, none, some, bytes_eq}
use nmid.Wire.{Bytes, Outcome, ok, panics, ◌>>=◌}

pub record Job : Type 0 where
  pub job_id : Bytes
  pub client_id : Bytes
  pub worker_id : Bytes
  pub status : ℕ
  pub func_name : Bytes
  pub params : Bytes
  pub prev : Option ℕ
  pub next : Option ℕ

abbrev pub Heap : Type 0
Heap = ℕ → Job

pub record JobList : Type 0 where
  pub heap : Heap
  pub head : Option ℕ
  pub size : ℕ

abbrev pub new_job_list : Heap → JobList
new_job_list heap = record { heap = heap; head = none; size = 0 }

-- Assignments to a job.
abbrev pub put : ℕ → Job → Heap → Heap
put p job heap = λ q. if q == p then job else heap q

abbrev pub set_prev : ℕ → Option ℕ → Heap → Heap
set_prev p prev heap = put p (record (heap p) { prev = prev }) heap

abbrev pub set_next : ℕ → Option ℕ → Heap → Heap
set_next p next heap = put p (record (heap p) { next = next }) heap

unfoldable pub set_job_client : ℕ → Bytes → JobList → JobList
set_job_client p id jl = record jl { heap = put p (record (jl.heap p) { client_id = id }) jl.heap }

unfoldable pub set_job_worker : ℕ → Bytes → JobList → JobList
set_job_worker p id jl = record jl { heap = put p (record (jl.heap p) { worker_id = id }) jl.heap }

-- The loop to the tail; on fuel, none when it is out.
unfoldable pub find_tail : ℕ → Heap → ℕ → Option ℕ
find_tail zero heap p = none
find_tail (suc fuel) heap p = elim (heap p).next [ none ↦ some p | some q ↦ find_tail fuel heap q ]

-- The assignments that put `p` behind the tail.
abbrev pub link : ℕ → ℕ → Heap → Heap
link p tail heap = set_next tail (some p) (set_prev p (some tail) (set_next p none heap))

abbrev pub grown : JobList → JobList
grown jl = record jl { size = (jl.size + 1) % 2 ^ 32 }

-- The first job of a list.
abbrev pub alone : ℕ → JobList → JobList
alone p jl = record jl { heap = set_next p none (set_prev p none jl.heap); head = some p }

-- PushList of a job that is not nil; none when the fuel is out.
unfoldable pub push_list : ℕ → ℕ → JobList → Option JobList
push_list fuel p jl = if jl.size == 0 then some (grown (alone p jl)) else elim jl.head [
  | none ↦ some (grown (alone p jl))
  | some head ↦ elim (find_tail fuel jl.heap head) [
    | none ↦ none
    | some tail ↦ some (grown (record jl { heap = link p tail jl.heap }))
  ]
]

-- The part of PopList behind its tests: the job loses its links.
abbrev pub unlink : ℕ → Heap → Heap
unlink p heap = set_next p none (set_prev p none heap)

abbrev pub shrunk : JobList → JobList
shrunk jl = record jl { size = (jl.size + 2 ^ 32 - 1) % 2 ^ 32 }

-- A first job with another behind it, or none where the links say otherwise.
abbrev pub second : Job → Option ℕ
second job = elim job.prev [ none ↦ job.next | some p ↦ none ]

unfoldable pub pop_list : JobList → Option ℕ × JobList
pop_list jl = if jl.size == 0 then (none, jl) else elim jl.head [
  | none ↦ (none, jl)
  | some p ↦
      if ltb 1 jl.size
      then elim (second (jl.heap p)) [
        | none ↦ (none, jl)
        | some q ↦ (
          some p,
          shrunk (record jl { heap = unlink p (set_prev q none jl.heap); head = some q }),
        )
      ]
      else (some p, shrunk (record jl { heap = unlink p jl.heap }))
]

-- The loops of DeListJob and GetListJob: the address of the job; they look at no more than Size + 1
-- jobs.
unfoldable pub find_job : ℕ → Bytes → Heap → Option ℕ → Option ℕ
find_job turns job_id heap none = none
find_job zero job_id heap (some p) = none
find_job (suc turns) job_id heap (some p) =
    let rest = find_job turns job_id heap (heap p).next in
    if bytes_eq (heap p).job_id job_id then some p else rest

-- DeListJob's assignments: through a nil neighbour they panic.
unfoldable pub bypass : ℕ → Heap → Outcome Heap
bypass p heap = elim (heap p).prev [
  | none ↦ panics
  | some before ↦
      let heap' = set_next before (heap p).next heap in
      elim (heap p).next [ none ↦ panics | some after ↦ ok (set_prev after (heap p).prev heap') ]
]

unfoldable pub de_list_job : Bytes → JobList → Outcome (Bool × JobList)
de_list_job job_id jl = if jl.size == 0 then ok (false, jl) else elim jl.head [
  | none ↦ ok (false, jl)
  | some head ↦ elim (find_job (jl.size + 1) job_id jl.heap (some head)) [
    | none ↦ ok (true, jl)
    | some p ↦ (do heap ← bypass p jl.heap; ok (true, record jl { heap = heap }))
  ]
]

unfoldable pub get_list_job : Bytes → JobList → Option ℕ
get_list_job job_id jl = if jl.size == 0 then none else elim jl.head [
  | none ↦ none
  | some head ↦ find_job (jl.size + 1) job_id jl.heap (some head)
]

-- DelListStatsJob: the neighbours of a job with the status are linked to each other.
abbrev pub join : Option ℕ → Option ℕ → Heap → Heap
join none none heap = heap
join none (some after) heap = set_prev after none heap
join (some before) none heap = set_next before none heap
join (some before) (some after) heap =
    set_prev after (some before) (set_next before (some after) heap)

unfoldable pub del_loop : ℕ → ℕ → Bool → Heap → Option ℕ → Heap × ℕ
del_loop turns status several heap none = (heap, 0)
del_loop zero status several heap (some p) = (heap, 0)
del_loop (suc turns) status several heap (some p) =
    let hit = (heap p).status == status in
    let heap' =
      if hit then (if several then join (heap p).prev (heap p).next heap else heap) else heap in
    let rest = del_loop turns status several heap' (heap' p).next in
    (rest.0, if hit then rest.1 + 1 else rest.1)

unfoldable pub del_list_stats_job : ℕ → JobList → ℕ × JobList
del_list_stats_job status jl = if jl.size == 0 then (0, jl) else elim jl.head [
  | none ↦ (0, jl)
  | some head ↦
      let done = del_loop jl.size status (ltb 1 jl.size) jl.heap (some head) in
      (done.1, record jl { heap = done.0; size = (jl.size + 2 ^ 32 - done.1) % 2 ^ 32 })
]
