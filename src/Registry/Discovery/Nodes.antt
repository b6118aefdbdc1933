-- ===== src/Registry/Discovery/Nodes.antt =====
-- The nodes of the cluster that pkg/registry/discovery/discovery.go asks: shuffle, newSelf,
-- tryAppendSeedNodes, pickNode and switchNode.
use nmid.Prelude.{
  ℕ, zero, suc, ◌+◌, ◌-◌, ◌≤◌, ◌<◌, ◌≡◌, ◌⊎◌, refl, ap, ◌∙◌, [], ◌∷◌, ◌==◌, Bool, List,
}
use nmid.Prelude.{some, if◌then◌else◌, bytes_eq, arith, inl, inr, length, get_elem?, set}
use nmid.Wire.{Bytes}
use nmid.Registry.Discovery.{swap, shuffle_loop, shuffle}

-- How often a host is among the nodes.
abbrev pub count_of : Bytes → List Bytes → ℕ
count_of x [] = 0
count_of x (y ∷ ys) = if bytes_eq x y then count_of x ys + 1 else count_of x ys

abbrev pub one_if : Bool → ℕ
one_if b = if b then 1 else 0

count_of-set :
    (x a b : Bytes) (xs : List Bytes) (i : ℕ)
    → get_elem? xs i ≡ some a
    → count_of x (set xs i b) + one_if (bytes_eq x a) ≡ count_of x xs + one_if (bytes_eq x b)
count_of-set x a b [] i e = ground (arith, e)
count_of-set x a b (y ∷ ys) zero e = ground (arith, e)
count_of-set x a b (y ∷ ys) (suc i) e = ground (arith, count_of-set x a b ys i e)

length-set : (xs : List Bytes) (i : ℕ) (b : Bytes) → length (set xs i b) ≡ length xs
length-set [] i b = refl
length-set (y ∷ ys) zero b = refl
length-set (y ∷ ys) (suc i) b = ap suc (length-set ys i b)

-- The node at an index, after another one was set.
get_elem?-set :
    (xs : List Bytes) (i j : ℕ) (b : Bytes)
    → j < length xs
    → get_elem? (set xs i b) j ≡ (if i == j then some b else get_elem? xs j)
get_elem?-set [] i j b h = absurd (omega arith)
get_elem?-set (y ∷ ys) zero zero b h = ground arith
get_elem?-set (y ∷ ys) zero (suc j) b h = ground arith
get_elem?-set (y ∷ ys) (suc i) zero b h = ground arith
get_elem?-set (y ∷ ys) (suc i) (suc j) b h = ground (arith, get_elem?-set ys i j b)

pub get_elem?_total :
    (xs : List Bytes) (i : ℕ) → i < length xs → (a : Bytes) × (get_elem? xs i ≡ some a)
get_elem?_total [] i h = absurd (omega arith)
get_elem?_total (y ∷ ys) zero h = (y, refl)
get_elem?_total (y ∷ ys) (suc i) h = get_elem?_total ys i (omega arith)

-- The same hosts, each as often.
pub record IsShuffled (xs ys : List Bytes) : Type 0 where
  pub count : (x : Bytes) → count_of x ys ≡ count_of x xs
  pub length : length ys ≡ length xs

swap-IsShuffled :
    (xs : List Bytes) (i j : ℕ)
    → i < length xs
    → j < length xs
    → (ys : List Bytes) × (swap xs i j ≡ some ys) × IsShuffled xs ys
unfolding swap
swap-IsShuffled xs i j h k =
    let (a, p) = get_elem?_total xs i h in
    let (b, q) = get_elem?_total xs j k in
    let there : get_elem? (set xs i b) j ≡ some b = ground (arith, get_elem?-set xs i j b k, q) in
    (
      set (set xs i b) j a,
      rw (p, q) refl,
      record {
        count =
            λ x. omega (arith, count_of-set x a b xs i p, count_of-set x b a (set xs i b) j there);
        length = length-set (set xs i b) j a ∙ length-set xs i b;
      },
    )

shuffle_loop-IsShuffled :
    (draw : ℕ → ℕ) (i : ℕ) (xs : List Bytes)
    → ((k : ℕ) → draw k ≤ k)
    → i < length xs ⊎ (i ≡ 0)
    → (ys : List Bytes) × (shuffle_loop draw i xs ≡ some ys) × IsShuffled xs ys
unfolding shuffle_loop
shuffle_loop-IsShuffled draw zero xs d h = (xs, refl, record { count = λ x. refl; length = refl })
shuffle_loop-IsShuffled draw (suc i) xs d (inr h) = absurd (omega arith)
shuffle_loop-IsShuffled draw (suc i) xs d (inl h) =
    let (ys, swapped, first) =
      swap-IsShuffled xs (suc i) (draw (suc i)) h (omega (arith, d (suc i), h)) in
    let (zs, ran, rest) =
      shuffle_loop-IsShuffled draw i ys d (inl (omega (arith, first.length, h))) in
    (
      zs,
      rw (swapped, shuffle_loop) ran,
      record { count = λ x. rest.count x ∙ first.count x; length = rest.length ∙ first.length },
    )

-- shuffle neither panics nor loses, doubles or makes up a node, whatever is drawn; if r.Int31n draws
-- from its range.
pub shuffle-IsShuffled :
    (draw : ℕ → ℕ) (nodes : List Bytes)
    → ((k : ℕ) → draw k ≤ k)
    → (nodes' : List Bytes) × (shuffle draw nodes ≡ some nodes') × IsShuffled nodes nodes'
unfolding shuffle
shuffle-IsShuffled draw [] d = shuffle_loop-IsShuffled draw 0 [] d (inr refl)
shuffle-IsShuffled draw (n ∷ nodes) d =
    shuffle_loop-IsShuffled draw (length (n ∷ nodes) - 1) (n ∷ nodes) d (inl (omega arith))
