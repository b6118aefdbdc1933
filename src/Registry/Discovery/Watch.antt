-- ===== src/Registry/Discovery/Watch.antt =====
-- What a resolver of pkg/registry/discovery/discovery.go fetches after a broadcast.
use nmid.Prelude.{◌≡◌, refl, [], ◌∷◌, ◌==◌, true, false, not, ◌&&◌, Bool}
use nmid.Prelude.{
  Option, none, some, if◌then◌else◌, bytes_eq, bytes_eq_iff, arith, Option-cases, inl, inr,
}
use nmid.Wire.{Bytes}
use nmid.Table.{Table, load, load-store, IsUnique}
use nmid.Registry.Discovery.{Discovery, InstancesInfo, fetch}
use nmid.Registry.Discovery.Polls.{broadcast, broadcast_one, pruned_info, instance_count}

-- Somebody watches the app.
abbrev pub watched : Bytes → Discovery → Bool
watched id d = elim (load id d.apps) [ none ↦ false | some app ↦ true ]

-- What a resolver of the app fetches, when the answer gives it `v`.
abbrev pub news : InstancesInfo → Bool → Option InstancesInfo → Option InstancesInfo
news v watching old =
    if not (instance_count v.instances == 0) && watching then some (pruned_info v) else old

fetch-broadcast_one :
    (id j : Bytes) (v : InstancesInfo) (d : Discovery)
    → fetch j (broadcast_one id v d)
      ≡ (if bytes_eq id j then news v (watched j d) (fetch j d) else fetch j d)
unfolding fetch broadcast_one
fetch-broadcast_one id j v d = elim (Option-cases (load id d.apps)) [
  | inl e ↦ ground (arith, e, bytes_eq_iff id j)
  | inr (app, e) ↦ ground (
    arith,
    e,
    bytes_eq_iff id j,
    load-store id j (record app { last_ts = v.last_ts; zone_ins = some (pruned_info v) }) d.apps,
  )
]

watched-broadcast_one :
    (id j : Bytes) (v : InstancesInfo) (d : Discovery)
    → watched j (broadcast_one id v d) ≡ watched j d
unfolding broadcast_one
watched-broadcast_one id j v d = elim (Option-cases (load id d.apps)) [
  | inl e ↦ ground (arith, e)
  | inr (app, e) ↦ ground (
    arith,
    e,
    bytes_eq_iff id j,
    load-store id j (record app { last_ts = v.last_ts; zone_ins = some (pruned_info v) }) d.apps,
  )
]

-- What an answer makes of the fetch of app `j`.
abbrev pub fetched :
    Bytes → Table InstancesInfo → Bool → Option InstancesInfo → Option InstancesInfo
fetched j apps watching old = elim (load j apps) [ none ↦ old | some v ↦ news v watching old ]

-- After the broadcast of an answer, a resolver fetches for its app the answer's instances, without
-- the zones that have none, if the app is watched and the answer has instances for it; and what it
-- fetched before if not.
pub fetch-broadcast :
    (j : Bytes) (apps : Table InstancesInfo) (d : Discovery)
    → IsUnique apps
    → fetch j (broadcast apps d) ≡ fetched j apps (watched j d) (fetch j d)
unfolding broadcast load
fetch-broadcast j [] d u = refl
fetch-broadcast j ((id, v) ∷ apps) d u =
    let d' = broadcast_one id v d in
    ground (
      arith,
      fetch-broadcast j apps d' u.1,
      fetch-broadcast_one id j v d,
      watched-broadcast_one id j v d,
      bytes_eq_iff id j,
      u.0,
    )
