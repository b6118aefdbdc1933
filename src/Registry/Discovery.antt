-- ===== src/Registry/Discovery.antt =====
-- pkg/registry/discovery/discovery.go: a client of a discovery cluster.
-- A call of the cluster is its answer. The parsing of URLs and the tests of a code (ecode) are
-- libraries'. A resolver is a key; `events` says which resolvers have an event that waits in their
-- channel. A random number is an argument. Each function is one step; contexts, tickers, JSON and the
-- parameters of the requests are left out, and so are the fields that nothing here reads.
pub mod Nodes
pub mod Rotation
pub mod Changes
pub mod Watch
pub mod Twice
pub mod Register
pub mod Polls
mod Samples
use nmid.Prelude.{
  ℕ, zero, suc, ◌+◌, ◌-◌, ◌%◌, ◌^◌, ◌≡◌, [], ◌∷◌, ◌++◌, ◌==◌, ltb, Bool, true, false, not, List,
}
use nmid.Prelude.{Option, none, some, if◌then◌else◌, length, get_elem?, set, bytes_eq, ◌||◌}
use nmid.Wire.{Bytes}
use nmid.Table.{Table, load, store, delete}

pub record Instance : Type 0 where
  pub service_id : Bytes
  pub addrs : List Bytes

pub record InstancesInfo : Type 0 where
  pub instances : Table (List Instance)
  pub last_ts : ℕ

pub record Config : Type 0 where
  pub nodes : List Bytes
  pub zone : Bytes

pub record AppInfo : Type 0 where
  pub resolver : List ℕ
  pub zone_ins : Option InstancesInfo
  pub last_ts : ℕ

pub record Discovery : Type 0 where
  pub c : Config
  pub node : Option (List Bytes)
  pub node_idx : ℕ
  pub apps : Table AppInfo
  pub registered : Table {0} Unit
  pub last_host : Bytes
  pub next_resolver : ℕ
  pub events : ℕ → Bool

-- The state that NewRegistry starts from.
abbrev pub new_discovery : Config → Discovery
new_discovery c = record {
  c = c;
  node = none;
  node_idx = 0;
  apps = [];
  registered = [];
  last_host = [];
  next_resolver = 0;
  events = λ r. false;
}

-- The swap of shuffle's callers, and its loop from `i` down; `draw` stands for r.Int31n.
abbrev swapped : List Bytes → ℕ → ℕ → Option Bytes → Option Bytes → Option (List Bytes)
swapped nodes i j (some a) (some b) = some (set (set nodes i b) j a)
swapped nodes i j (some a) none = none
swapped nodes i j none b = none

unfoldable pub swap : List Bytes → ℕ → ℕ → Option (List Bytes)
swap nodes i j = swapped nodes i j (get_elem? nodes i) (get_elem? nodes j)

unfoldable pub shuffle_loop : (ℕ → ℕ) → ℕ → List Bytes → Option (List Bytes)
shuffle_loop draw zero nodes = some nodes
shuffle_loop draw (suc i) nodes = elim (swap nodes (suc i) (draw (suc i))) [
  | none ↦ none
  | some nodes' ↦ shuffle_loop draw i nodes'
]

-- shuffle of the nodes; none where an index is out of range, which panics.
unfoldable pub shuffle : (ℕ → ℕ) → List Bytes → Option (List Bytes)
shuffle draw nodes = shuffle_loop draw (length nodes - 1) nodes

unfoldable pub known : Bytes → List Bytes → Bool
known n [] = false
known n (o ∷ olds) = if bytes_eq o n then true else known n olds

-- The number of nodes that are among the old ones.
unfoldable pub count_olds : List Bytes → List Bytes → ℕ
count_olds olds [] = 0
count_olds olds (n ∷ nodes) =
    let rest = count_olds olds nodes in if known n olds then rest + 1 else rest

abbrev pub old_nodes : Discovery → List Bytes
old_nodes d = elim d.node [ none ↦ [] | some nodes ↦ nodes ]

-- The hosts of the addresses that are URLs.
unfoldable pub hosts : (Bytes → Option Bytes) → List Bytes → List Bytes
hosts parse [] = []
hosts parse (addr ∷ addrs) =
    let rest = hosts parse addrs in elim (parse addr) [ none ↦ rest | some host ↦ host ∷ rest ]

unfoldable pub zone_hosts : (Bytes → Option Bytes) → List Instance → List Bytes
zone_hosts parse [] = []
zone_hosts parse (ins ∷ inss) = hosts parse ins.addrs ++ zone_hosts parse inss

-- newSelf; none where shuffle panics.
unfoldable pub new_self :
    (Bytes → Option Bytes) → (ℕ → ℕ) → Table (List Instance) → Discovery → Option Discovery
new_self parse draw zones d = elim (load d.c.zone zones) [
  | none ↦ some d
  | some inss ↦
      let nodes = zone_hosts parse inss in
      if length nodes == count_olds (old_nodes d) nodes then some d else elim (shuffle draw nodes) [
        | none ↦ none
        | some nodes' ↦ some (record d { node = some nodes' })
      ]
]

-- The seed nodes that are not there.
unfoldable pub missing_seeds : List Bytes → List Bytes → List Bytes
missing_seeds nodes [] = []
missing_seeds nodes (seed ∷ seeds) =
    let rest = missing_seeds nodes seeds in if known seed nodes then rest else seed ∷ rest

unfoldable pub try_append_seed_nodes : Discovery → Discovery
try_append_seed_nodes d = elim d.node [
  | none ↦ d
  | some nodes ↦ record d { node = some (nodes ++ missing_seeds nodes d.c.nodes) }
]

-- pickNode; `draw` stands for rand.Intn of the number of configured nodes, none for a panic.
unfoldable pub pick_node : ℕ → Discovery → Option Bytes
pick_node draw d = elim d.node [
  | none ↦ get_elem? d.c.nodes draw
  | some [] ↦ get_elem? d.c.nodes draw
  | some (n ∷ nodes) ↦ get_elem? (n ∷ nodes) (d.node_idx % length (n ∷ nodes))
]

-- switchNode; the index is a uint64.
unfoldable pub switch_node : Discovery → Discovery
switch_node d = record d { node_idx = (d.node_idx + 1) % 2 ^ 64 }

-- Build: the resolver's key. An app that is watched already gives the resolver an event at once.
abbrev pub with_event : ℕ → (ℕ → Bool) → ℕ → Bool
with_event r events = λ k. if k == r then true else events k

unfoldable pub build : Bytes → Discovery → ℕ × Discovery
build appid d =
    let r = d.next_resolver in
    let d' = record d { next_resolver = r + 1 } in
    elim (load appid d.apps) [
      | none ↦ (
        r,
        record d' {
          apps = store appid (record { resolver = r ∷ []; zone_ins = none; last_ts = 0 }) d.apps;
        },
      )
      | some app ↦ (
        r,
        record d' {
          apps = store appid (record app { resolver = r ∷ app.resolver }) d.apps;
          events = with_event r d.events;
        },
      )
    ]

-- Fetch of a resolver of the app.
unfoldable pub fetch : Bytes → Discovery → Option InstancesInfo
fetch id d = elim (load id d.apps) [ none ↦ none | some app ↦ app.zone_ins ]

abbrev without : ℕ → List ℕ → List ℕ
without r [] = []
without r (k ∷ ks) = let rest = without r ks in if k == r then rest else k ∷ rest

-- Close of a resolver.
unfoldable pub close : Bytes → ℕ → Discovery → Discovery
close id r d = elim (load id d.apps) [
  | none ↦ d
  | some app ↦ record d {
    apps = store id (record app { resolver = without r app.resolver }) d.apps;
  }
]
