-- ===== src/Registry/Discovery/Changes.antt =====
-- What newSelf and tryAppendSeedNodes of pkg/registry/discovery/discovery.go make of the nodes.
use nmid.Prelude.{ℕ, ◌≤◌, ◌≡◌, refl, ◌∙◌, [], ◌∷◌, ◌++◌, ◌==◌, true, false, Bool, List, ◌||◌, ◌&&◌}
use nmid.Prelude.{◌⊎◌, sym, bytes_eq}
use nmid.Prelude.{Option, some, bytes_eq_iff, arith, inl, inr, Bool-cases, length}
use nmid.Wire.{Bytes}
use nmid.Table.{Table, load}
use nmid.Registry.Discovery.{
  Discovery, Instance, known, count_olds, old_nodes, zone_hosts, new_self, missing_seeds,
  try_append_seed_nodes,
}
use nmid.Registry.Discovery.Nodes.{IsShuffled, shuffle-IsShuffled}

-- Every node is among the old ones.
abbrev all_known : List Bytes → List Bytes → Bool
all_known olds [] = true
all_known olds (n ∷ nodes) = known n olds && all_known olds nodes

count_olds_lem :
    (olds nodes : List Bytes)
    → (count_olds olds nodes ≤ length nodes)
      × ((length nodes == count_olds olds nodes) ≡ all_known olds nodes)
unfolding count_olds
count_olds_lem olds [] = (omega arith, ground arith)
count_olds_lem olds (n ∷ nodes) =
    let (le, same) = count_olds_lem olds nodes in
    elim (Bool-cases (known n olds)) [
      | inl e ↦ rw (e, count_olds) (omega (arith, le), ground (arith, le, same))
      | inr e ↦ rw (e, count_olds) (omega (arith, le), ground (arith, le, same))
    ]

abbrev pub IsIn : Bytes → List Bytes → Type 0
IsIn x [] = ⊥
IsIn x (y ∷ ys) = (y ≡ x) ⊎ IsIn x ys

known_sound : (x : Bytes) (ys : List Bytes) → known x ys ≡ true → IsIn x ys
unfolding known
known_sound x [] e = cc
known_sound x (y ∷ ys) e = elim (Bool-cases (bytes_eq y x)) [
  | inl same ↦ inl (ground (arith, bytes_eq_iff y x, same))
  | inr other ↦ inr (known_sound x ys (rw (other, known) at e))
]

known_complete : (x : Bytes) (ys : List Bytes) → known x ys ≡ false → IsIn x ys → ⊥
unfolding known
known_complete x [] e is = is
known_complete x (y ∷ ys) e (inl same) = ground (arith, bytes_eq_iff y x, same, e)
known_complete x (y ∷ ys) e (inr is) = elim (Bool-cases (bytes_eq y x)) [
  | inl same ↦ ground (arith, e, same)
  | inr other ↦ known_complete x ys (rw (other, known) at e) is
]

all_known_sound :
    (olds nodes : List Bytes)
    → all_known olds nodes ≡ true
    → (x : Bytes) → IsIn x nodes
    → IsIn x olds
all_known_sound olds [] e x is = absurd is
all_known_sound olds (n ∷ nodes) e x (inl same) =
    rw (sym same) (known_sound n olds (ground (arith, e)))
all_known_sound olds (n ∷ nodes) e x (inr is) = all_known_sound olds nodes (ground (arith, e)) x is

find_new :
    (olds nodes : List Bytes)
    → all_known olds nodes ≡ false
    → (x : Bytes) × IsIn x nodes × (IsIn x olds → ⊥)
find_new olds [] e = absurd cc
find_new olds (n ∷ nodes) e = elim (Bool-cases (known n olds)) [
  | inr new ↦ (n, inl refl, known_complete n olds new)
  | inl old ↦
      let (x, is, is_not) = find_new olds nodes (ground (arith, old, e)) in (x, inr is, is_not)
]

-- What newSelf makes of the client with these nodes, where it finds these hosts.
abbrev pub Renewed : List Bytes → List Bytes → Discovery → Discovery → Type 0
Renewed olds found d d' =
    (((x : Bytes) → IsIn x found → IsIn x olds) × (d' ≡ d))
    ⊎ ((x : Bytes) × IsIn x found
        × (IsIn x olds → ⊥)
        × (nodes : List Bytes) × (d' ≡ record d { node = some nodes })
        × IsShuffled found nodes)

-- newSelf does not panic. If each host of the client's zone is a node already it changes nothing, also
-- when some of the nodes are hosts no more; if one is not, the nodes become the hosts of the zone, each
-- as often as it was there, in some order. The random numbers are drawn from their range.
pub new_self-Renewed :
    (parse : Bytes → Option Bytes) (draw : ℕ → ℕ) (zones : Table (List Instance))
    (inss : List Instance) (d : Discovery)
    → ((k : ℕ) → draw k ≤ k)
    → load d.c.zone zones ≡ some inss
    → (d' : Discovery) × (new_self parse draw zones d ≡ some d')
      × Renewed (old_nodes d) (zone_hosts parse inss) d d'
unfolding new_self
new_self-Renewed parse draw zones inss d range e =
    let hosts = zone_hosts parse inss in
    let olds = old_nodes d in
    let (le, same) = count_olds_lem olds hosts in
    let (nodes, shuffled, is) = shuffle-IsShuffled draw hosts range in
    elim (Bool-cases (all_known olds hosts)) [
      | inl all ↦
          (d, rw (e, new_self) (rw (same, all) refl), inl (all_known_sound olds hosts all, refl))
      | inr new ↦
          let (x, there, is_new) = find_new olds hosts new in
          (
            record d { node = some nodes },
            rw (e, new_self) (rw (same, new) (rw shuffled refl)),
            inr (x, there, is_new, nodes, refl, is),
          )
    ]

known-append : (x : Bytes) (xs ys : List Bytes) → known x (xs ++ ys) ≡ (known x xs || known x ys)
unfolding known
known-append x [] ys = refl
known-append x (y ∷ xs) ys = ground (arith, known-append x xs ys)

known-missing_seeds :
    (x : Bytes) (nodes seeds : List Bytes)
    → (known x nodes || known x (missing_seeds nodes seeds)) ≡ (known x nodes || known x seeds)
unfolding known missing_seeds
known-missing_seeds x nodes [] = refl
known-missing_seeds x nodes (s ∷ seeds) = elim (Bool-cases (known s nodes)) [
  | inl e ↦
      rw (e, missing_seeds) (ground (arith, e, known-missing_seeds x nodes seeds, bytes_eq_iff s x))
  | inr e ↦
      rw (e, missing_seeds) (ground (arith, e, known-missing_seeds x nodes seeds, bytes_eq_iff s x))
]

-- Once there are nodes, tryAppendSeedNodes keeps them in their places and puts seeds behind them, and
-- a host is then a node exactly if it was one or is a seed.
pub known-try_append_seed_nodes :
    (nodes : List Bytes) (d : Discovery)
    → d.node ≡ some nodes
    → (added : List Bytes) × (try_append_seed_nodes d ≡ record d { node = some (nodes ++ added) })
      × ((x : Bytes) → known x (nodes ++ added) ≡ (known x nodes || known x d.c.nodes))
unfolding try_append_seed_nodes
known-try_append_seed_nodes nodes d e = (
  missing_seeds nodes d.c.nodes,
  rw e refl,
  λ x. known-append x nodes (missing_seeds nodes d.c.nodes) ∙ known-missing_seeds x nodes d.c.nodes,
)
