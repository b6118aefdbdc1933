-- ===== src/Registry/Discovery/Samples.antt =====
-- A client of a cluster of three nodes, and one app.
use nmid.Prelude.{
  ℕ, ◌%◌, ◌<◌, ◌≡◌, refl, [], ◌∷◌, Bool, Option, none, some, arith, get_elem?, bytes_eq_refl, ◌==◌,
}
use nmid.Wire.{Bytes}
use native.Mathlib.Nat.{mod-le}
use nmid.Table.{load, IsUnique}
use nmid.Registry.Discovery.{
  Discovery, Instance, InstancesInfo, new_discovery, pick_node, new_self, old_nodes, zone_hosts,
}
use nmid.Registry.Discovery.Register.{coded, duplication, register_new, request}
use nmid.Registry.Discovery.Rotation.{switched, pick_node-switched}
use nmid.Registry.Discovery.Changes.{Renewed, new_self-Renewed}
use nmid.Registry.Discovery.Twice.{ticks, ends, all_happen, register_new-again}

abbrev echo : Bytes
echo = b'e' ∷ b'c' ∷ b'h' ∷ b'o' ∷ []

abbrev sh : Bytes
sh = b's' ∷ b'h' ∷ []

abbrev seed : Bytes
seed = b'1' ∷ []

abbrev new_client : Discovery
new_client = new_discovery (record { nodes = seed ∷ []; zone = sh })

abbrev client : Discovery
client = record new_client {
  node = some ((b'1' ∷ []) ∷ (b'2' ∷ []) ∷ (b'3' ∷ []) ∷ []);
  node_idx = 5;
}

abbrev instance_2 : Instance
instance_2 = record { service_id = echo; addrs = (b'2' ∷ []) ∷ [] }

abbrev info : InstancesInfo
info = record { instances = (sh, instance_2 ∷ []) ∷ (echo, []) ∷ []; last_ts = 7 }

abbrev takes_all : Bytes → Option Bytes
takes_all addr = some addr

abbrev halves : ℕ → ℕ
halves k = k % 2

abbrev is_zero : ℕ → Bool
is_zero code = code == 0

no_rest : IsUnique ((echo, info) ∷ [])
unfolding load
no_rest = (refl, tt)

in_zone : load sh info.instances ≡ some (instance_2 ∷ [])
unfolding load
in_zone = ground (arith, bytes_eq_refl sh)

taken : (register_new is_zero echo (coded 0) client).1 ≡ none
unfolding register_new request load
taken = ground arith

pick_node-switched_example :
    (k : ℕ) × (k < 3)
    × (pick_node 0 (switched k client) ≡ get_elem? ((b'1' ∷ []) ∷ (b'2' ∷ []) ∷ (b'3' ∷ []) ∷ []) 1)
pick_node-switched_example =
    pick_node-switched (b'1' ∷ []) ((b'2' ∷ []) ∷ (b'3' ∷ []) ∷ []) 1 0 client refl (omega arith)
      (omega arith)

new_self-Renewed_example :
    (d' : Discovery) × (new_self takes_all halves info.instances client ≡ some d')
    × Renewed (old_nodes client) (zone_hosts takes_all (instance_2 ∷ [])) client d'
new_self-Renewed_example =
    new_self-Renewed takes_all halves info.instances (instance_2 ∷ []) client (λ k. mod-le k 2)
      in_zone

register_new-again_example :
    let d =
      all_happen is_zero is_zero
        (ticks (coded 0) (coded 0) ∷ ends (coded 0) ∷ [])
        (register_new is_zero echo (coded 0) client).0 in
    register_new is_zero echo (coded 0) d ≡ (d, some duplication)
register_new-again_example =
    register_new-again is_zero is_zero echo (coded 0) (coded 0)
      (ticks (coded 0) (coded 0) ∷ ends (coded 0) ∷ []) client taken
