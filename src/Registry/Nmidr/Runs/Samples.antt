-- ===== src/Registry/Nmidr/Runs/Samples.antt =====
-- A client of one node, and an instance that it registers.
use nmid.Prelude.{ℕ, ◌≡◌, refl, ◌==◌, [], ◌∷◌, Bool, true, Option, none, some}
use nmid.Wire.{Bytes}
use nmid.Table.{load, store, Table}
use nmid.Registry.Nmidr.{Config, Instance, Nmidr, coded, Resolver, InstancesInfo, ServiceInfo}
use nmid.Registry.Nmidr.{new_registry, register, do_register, post, pick_master_node, outcome}
use nmid.Registry.Nmidr.{register_params, register_url}
use nmid.Registry.Nmidr.Resolve.{panics, build}
use nmid.Registry.Nmidr.Keeps.{AllOwn}
use nmid.Registry.Nmidr.Runs.{Reach, here, next, registers, build-Reach, Reach-AllOwn}

abbrev node : Bytes
node = b'n' ∷ []

abbrev name : Bytes
name = b's' ∷ []

abbrev config : Config
config = record { nodes = node ∷ []; region = []; zone = name; env = []; host = node }

abbrev instance_one : Instance
instance_one = record {
  service_id = name;
  inflow_addr = [];
  outflow_addr = [];
  addrs = node ∷ [];
  version = [];
  metadata = none;
  status = 0;
}

-- The codes that stand for OK and for NothingFound.
abbrev is_zero : ℕ → Bool
is_zero code = code == 0

abbrev is_missing : ℕ → Bool
is_missing code = code == 404

abbrev client : Nmidr
client = new_registry config

abbrev registered_one : Nmidr
registered_one = record client {
  registered = (name, tt) ∷ [];
  requests =
      record { url = register_url; node = node; params = register_params config instance_one } ∷ [];
}

reach : Reach is_zero is_missing client registered_one
unfolding new_registry register do_register post pick_master_node outcome load store
reach = next (registers instance_one 0 (coded 0 tt)) here refl

build-Reach_example : build name registered_one ≡ panics
build-Reach_example = build-Reach is_zero is_missing config name reach

Reach-AllOwn_example : AllOwn config registered_one.requests
Reach-AllOwn_example = Reach-AllOwn is_zero is_missing config reach

-- A resolver with an event, of a service that the server knows an instance of.
abbrev resolver_one : Resolver
resolver_one = record { sid = name; event = 0 }

abbrev service_one : ServiceInfo
service_one = record { resolver = (name, resolver_one) ∷ []; instances = none; last_ts = 0 }

abbrev informed : Nmidr
informed = record client { services = some ((name, service_one) ∷ []); events = λ r. true }

abbrev known : Table (Option InstancesInfo)
known = (name, some (record { instances = (name, instance_one ∷ []) ∷ []; last_ts = 7 })) ∷ []
