-- ===== src/Server/JobList/Queue.antt =====
-- PushList and PopList of pkg/server/job.go, against a queue of jobs.
use native.Mathlib.Nat.{mod-eq_of_lt}
use nmid.Prelude.{
  ℕ, suc, ◌+◌, ◌-◌, ◌%◌, ◌^◌, ◌<◌, ◌≤◌, ◌≡◌, refl, ap, [], ◌∷◌, ◌++◌, ◌==◌, ltb, true, false, List,
}
use nmid.Prelude.{Option, none, some, arith, length}
use nmid.Server.JobList.{
  Heap, JobList, link, unlink, set_prev, push_list, pop_list, alone, grown, second,
}
use nmid.Server.JobList.Chain.{
  last, Chain, Apart, Distinct, put-Chain, find_tail-Chain, link-Chain, length-snoc, Distinct-snoc,
}

-- The links from Head; an empty list may still have one.
abbrev pub Linked : Heap → Option ℕ → List ℕ → Type 0
Linked heap head [] = Unit
Linked heap head (x ∷ xs) = Chain heap none (x ∷ xs) head

-- The list holds exactly these jobs, in this order.
pub record IsList (jl : JobList) (xs : List ℕ) : Type 0 where
  pub size : jl.size ≡ length xs
  pub distinct : Distinct xs
  pub linked : Linked jl.heap jl.head xs

small_suc : (n : ℕ) → n + 1 < 2 ^ 32 → (n + 1) % 2 ^ 32 ≡ n + 1
small_suc n h = mod-eq_of_lt h

push_list-IsList :
    (fuel p : ℕ) (xs : List ℕ) (jl : JobList)
    → IsList jl xs
    → Apart p xs
    → length xs < fuel
    → length xs + 1 < 2 ^ 32
    → (jl' : JobList) × (push_list fuel p jl ≡ some jl') × IsList jl' (xs ++ p ∷ [])
unfolding push_list
push_list-IsList fuel p [] jl is a h small =
    let e : jl.size ≡ 0 = is.size in
    (
      grown (alone p jl),
      rw (e, push_list) refl,
      record {
        size = omega (arith, e);
        distinct = (tt, tt);
        linked = (refl, ground arith, ground arith);
      },
    )
push_list-IsList fuel p (x ∷ xs) jl is a h small =
    let busy : (jl.size == 0) ≡ false = ground (arith, is.size) in
    let head : jl.head ≡ some x = is.linked.0 in
    let found =
      find_tail-Chain fuel x xs jl.heap none (omega arith) (refl, is.linked.1, is.linked.2) in
    (
      grown (record jl { heap = link p (last x xs) jl.heap; head = some x }),
      rw (busy, push_list)
          (rw head (
            rw found (
              ap (λ h. some (grown (record jl { heap = link p (last x xs) jl.heap; head = h })))
                head))),
      record {
        size = omega (arith, is.size, length-snoc xs p);
        distinct = Distinct-snoc p (x ∷ xs) a is.distinct;
        linked =
            link-Chain p x xs jl.heap none (some x) a is.distinct (refl, is.linked.1, is.linked.2);
      },
    )

-- What PopList gives for these jobs, and the jobs that are left.
abbrev pub first : List ℕ → Option ℕ
first [] = none
first (x ∷ xs) = some x

abbrev pub others : List ℕ → List ℕ
others [] = []
others (x ∷ xs) = xs

unlink-Chain :
    (x y : ℕ) (ys : List ℕ) (heap : Heap)
    → Distinct (x ∷ y ∷ ys)
    → Chain heap none (x ∷ y ∷ ys) (some x)
    → Chain (unlink x (set_prev y none heap)) none (y ∷ ys) (some y)
unlink-Chain x y ys heap d c =
    let h₁ = set_prev y none heap in
    let h₂ = set_prev x none h₁ in
    let next : (unlink x h₁ y).next ≡ (heap y).next = ground (arith, d.0.0) in
    let c₁ =
      put-Chain y (record (heap y) { prev = none }) heap (some y) (heap y).next ys d.1.0 c.2.2 in
    let c₂ = put-Chain x (record (h₁ x) { prev = none }) h₁ (some y) (heap y).next ys d.0.1 c₁ in
    let c₃ = put-Chain x (record (h₂ x) { next = none }) h₂ (some y) (heap y).next ys d.0.1 c₂ in
    (refl, ground (arith, d.0.0), rw next c₃)

shrunk_size : (n : ℕ) → n < 2 ^ 32 → (suc n + 2 ^ 32 - 1) % 2 ^ 32 ≡ n
shrunk_size n h = omega arith

pop_list-IsList :
    (xs : List ℕ) (jl : JobList)
    → IsList jl xs
    → length xs < 2 ^ 32
    → ((pop_list jl).0 ≡ first xs) × IsList (pop_list jl).1 (others xs)
unfolding pop_list
pop_list-IsList [] jl is small =
    let e : (jl.size == 0) ≡ true = ground (arith, is.size) in rw (e, pop_list) (refl, is)
pop_list-IsList (x ∷ []) jl is small =
    let e : (jl.size == 0) ≡ false = ground (arith, is.size) in
    let one : ltb 1 jl.size ≡ false = ground (arith, is.size) in
    rw (e, pop_list)
      (rw is.linked.0
        (rw one (refl, record { size = omega (arith, is.size); distinct = tt; linked = tt })))
pop_list-IsList (x ∷ y ∷ ys) jl is small =
    let e : (jl.size == 0) ≡ false = ground (arith, is.size) in
    let more : ltb 1 jl.size ≡ true = ground (arith, is.size) in
    let next : second (jl.heap x) ≡ some y = ground (arith, is.linked.1, is.linked.2.0) in
    let linked = unlink-Chain x y ys jl.heap is.distinct (refl, is.linked.1, is.linked.2) in
    rw (e, pop_list)
      (rw is.linked.0 (
        rw more (
          rw next (
            refl,
            record { size = omega (arith, is.size); distinct = is.distinct.1; linked = linked },
          ))))

-- A call of the list.
pub data Op : Type 0 where
  pushes : ℕ → Op
  pops : Op

-- The calls on the list, with what each PopList gives; none when a loop is out of fuel.
abbrev popped : Option ℕ → Option (List (Option ℕ) × JobList) → Option (List (Option ℕ) × JobList)
popped answer none = none
popped answer (some (answers, jl)) = some (answer ∷ answers, jl)

unfoldable pub run : ℕ → List Op → JobList → Option (List (Option ℕ) × JobList)
run fuel [] jl = some ([], jl)
run fuel (pushes p ∷ ops) jl = elim (push_list fuel p jl) [
  | none ↦ none
  | some jl' ↦ run fuel ops jl'
]
run fuel (pops ∷ ops) jl = popped (pop_list jl).0 (run fuel ops (pop_list jl).1)

-- The same calls on a queue: what the pops give, and what is left.
abbrev pub answers : List Op → List ℕ → List (Option ℕ)
answers [] xs = []
answers (pushes p ∷ ops) xs = answers ops (xs ++ p ∷ [])
answers (pops ∷ ops) xs = first xs ∷ answers ops (others xs)

abbrev pub left : List Op → List ℕ → List ℕ
left [] xs = xs
left (pushes p ∷ ops) xs = left ops (xs ++ p ∷ [])
left (pops ∷ ops) xs = left ops (others xs)

-- No job is pushed while it is in the list.
abbrev pub IsFresh : List Op → List ℕ → Type 0
IsFresh [] xs = Unit
IsFresh (pushes p ∷ ops) xs = Apart p xs × IsFresh ops (xs ++ p ∷ [])
IsFresh (pops ∷ ops) xs = IsFresh ops (others xs)

length-others : (xs : List ℕ) → length (others xs) ≤ length xs
length-others [] = omega arith
length-others (x ∷ xs) = omega arith

-- Whatever calls of PushList and PopList are made on a list, they answer as a queue does, and the links
-- lead through what is left of the queue; if no job is pushed that is in the list, and there are never as
-- many as 2 ^ 32 jobs. One turn more than there can be jobs is enough for the loop to the tail.
pub run-IsList :
    (fuel : ℕ) (ops : List Op) (xs : List ℕ) (jl : JobList)
    → IsList jl xs
    → IsFresh ops xs
    → length xs + length ops < fuel
    → length xs + length ops < 2 ^ 32
    → (jl' : JobList) × (run fuel ops jl ≡ some (answers ops xs, jl')) × IsList jl' (left ops xs)
unfolding run
run-IsList fuel [] xs jl is fresh h small = (jl, refl, is)
run-IsList fuel (pushes p ∷ ops) xs jl is fresh h small =
    let (jl₁, pushed, is₁) = push_list-IsList fuel p xs jl is fresh.0 (omega arith) (omega arith) in
    let (jl₂, ran, is₂) =
      run-IsList fuel ops (xs ++ p ∷ []) jl₁ is₁ fresh.1 (omega (arith, length-snoc xs p))
        (omega (arith, length-snoc xs p)) in
    (jl₂, rw (pushed, run) ran, is₂)
run-IsList fuel (pops ∷ ops) xs jl is fresh h small =
    let (answer, is₁) = pop_list-IsList xs jl is (omega arith) in
    let (jl₂, ran, is₂) =
      run-IsList fuel ops (others xs) (pop_list jl).1 is₁ fresh (omega (arith, length-others xs))
        (omega (arith, length-others xs)) in
    (jl₂, rw (answer, ran) refl, is₂)
