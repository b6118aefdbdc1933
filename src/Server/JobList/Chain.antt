-- ===== src/Server/JobList/Chain.antt =====
-- The jobs that the links of pkg/server/job.go lead through.
use nmid.Prelude.{ℕ, zero, suc, ◌+◌, ◌<◌, ◌≡◌, refl, [], ◌∷◌, ◌++◌, ◌==◌, false, List}
use nmid.Prelude.{Option, none, some, arith, length}
use nmid.Server.JobList.{Job, Heap, put, link, find_tail}

-- From `cur` the Next links lead through exactly these jobs, and the Prev links back to `prev`.
abbrev pub Chain : Heap → Option ℕ → List ℕ → Option ℕ → Type 0
Chain heap prev [] cur = cur ≡ none
Chain heap prev (x ∷ xs) cur =
    (cur ≡ some x) × ((heap x).prev ≡ prev) × Chain heap (some x) xs (heap x).next

-- The job is none of these.
abbrev pub Apart : ℕ → List ℕ → Type 0
Apart p [] = Unit
Apart p (x ∷ xs) = ((x == p) ≡ false) × Apart p xs

abbrev pub Distinct : List ℕ → Type 0
Distinct [] = Unit
Distinct (x ∷ xs) = Apart x xs × Distinct xs

abbrev pub last : ℕ → List ℕ → ℕ
last x [] = x
last x (y ∷ ys) = last y ys

pub put-Chain :
    (p : ℕ) (job : Job) (heap : Heap) (prev cur : Option ℕ) (xs : List ℕ)
    → Apart p xs
    → Chain heap prev xs cur
    → Chain (put p job heap) prev xs cur
put-Chain p job heap prev cur [] apart c = c
put-Chain p job heap prev cur (x ∷ xs) apart c =
    rw apart.0 (c.0, c.1, put-Chain p job heap (some x) (heap x).next xs apart.1 c.2)

pub find_tail-Chain :
    (fuel x : ℕ) (xs : List ℕ) (heap : Heap) (prev : Option ℕ)
    → length xs < fuel
    → Chain heap prev (x ∷ xs) (some x)
    → find_tail fuel heap x ≡ some (last x xs)
unfolding find_tail
find_tail-Chain zero x xs heap prev h c = absurd (omega arith)
find_tail-Chain (suc fuel) x [] heap prev h c = rw (c.2, find_tail) refl
find_tail-Chain (suc fuel) x (y ∷ ys) heap prev h c =
    rw (c.2.0, find_tail)
      (find_tail-Chain fuel y ys heap (some x) (omega arith) (refl, c.2.1, c.2.2))

pub Apart-last : (p x : ℕ) (xs : List ℕ) → Apart p (x ∷ xs) → (last x xs == p) ≡ false
Apart-last p x [] a = a.0
Apart-last p x (y ∷ ys) a = Apart-last p y ys a.1

pub flip : (p q : ℕ) → (p == q) ≡ false → (q == p) ≡ false
flip p q e = ground (arith, e)

pub link-Chain :
    (p x : ℕ) (xs : List ℕ) (heap : Heap) (prev cur : Option ℕ)
    → Apart p (x ∷ xs)
    → Distinct (x ∷ xs)
    → Chain heap prev (x ∷ xs) cur
    → Chain (link p (last x xs) heap) prev (x ∷ (xs ++ p ∷ [])) cur
link-Chain p x [] heap prev cur a d c =
    (c.0, ground (arith, a.0, c.1), (ground (arith, a.0), ground (arith, a.0), ground (arith, a.0)))
link-Chain p x (y ∷ ys) heap prev cur a d c =
    let rest = link-Chain p y ys heap (some x) (heap x).next a.1 d.1 c.2 in
    let kept : link p (last y ys) heap x ≡ heap x = ground (arith, a.0, Apart-last x y ys d.0) in
    (c.0, rw kept c.1, rw kept rest)

pub length-snoc : (xs : List ℕ) (p : ℕ) → length (xs ++ p ∷ []) ≡ length xs + 1
length-snoc [] p = omega arith
length-snoc (x ∷ xs) p = omega (arith, length-snoc xs p)

Apart-snoc : (p x : ℕ) (xs : List ℕ) → Apart x xs → (p == x) ≡ false → Apart x (xs ++ p ∷ [])
Apart-snoc p x [] a e = (e, tt)
Apart-snoc p x (y ∷ ys) a e = (a.0, Apart-snoc p x ys a.1 e)

pub Distinct-snoc : (p : ℕ) (xs : List ℕ) → Apart p xs → Distinct xs → Distinct (xs ++ p ∷ [])
Distinct-snoc p [] a d = (tt, tt)
Distinct-snoc p (x ∷ xs) a d = (Apart-snoc p x xs d.0 (flip x p a.0), Distinct-snoc p xs a.1 d.1)
