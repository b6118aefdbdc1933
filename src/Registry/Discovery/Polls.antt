-- ===== src/Registry/Discovery/Polls.antt =====
-- pkg/registry/discovery/discovery.go: what the client polls of the cluster, and tells its resolvers.
use nmid.Prelude.{ℕ, ◌+◌, [], ◌∷◌, ◌==◌, Bool, true, false, not, List}
use nmid.Prelude.{Option, none, some, if◌then◌else◌, length, bytes_eq}
use nmid.Wire.{Bytes}
use nmid.Table.{Table, load, store}
use nmid.Registry.Discovery.{Discovery, AppInfo, Instance, InstancesInfo, with_event}
use nmid.Registry.Discovery.Register.{Failure, http_error, code_error, server_err}

-- The start of polls: the node that it asks, when that is not the last one, makes each app start
-- anew.
abbrev restarted : Table AppInfo → Table AppInfo
restarted [] = []
restarted ((id, app) ∷ apps) = (id, record app { last_ts = 0 }) ∷ restarted apps

unfoldable pub poll_host : Bytes → Discovery → Discovery
poll_host host d =
    if bytes_eq host d.last_host then d else record d { last_host = host; apps = restarted d.apps }

-- The answer of a poll.
pub data PollAnswer : Type 0 where
  poll_failed : PollAnswer
  polled : ℕ → Table (Option InstancesInfo) → PollAnswer

-- The apps of an answer, none where one has no data or no timestamp.
unfoldable pub checked : Table (Option InstancesInfo) → Option (Table InstancesInfo)
checked [] = some []
checked ((id, none) ∷ answer) = none
checked ((id, some v) ∷ answer) =
    let rest = checked answer in
    if v.last_ts == 0 then none else elim rest [ none ↦ none | some apps ↦ some ((id, v) ∷ apps) ]

abbrev no_apps : Table AppInfo → Bool
no_apps [] = true
no_apps (app ∷ apps) = false

-- The rest of polls: the apps of the answer, and the error.
unfoldable pub polls :
    (ℕ → Bool)
    → (ℕ → Bool)
    → Bytes
    → PollAnswer
    → Discovery
    → Discovery × Table InstancesInfo × Option Failure
polls is_ok is_not_modified host answer d =
    let d' = poll_host host d in
    if no_apps d'.apps then (d', [], none) else elim answer [
      | poll_failed ↦ (d', [], some http_error)
      | polled code apps ↦
          if not (is_ok code)
          then (d', [], if is_not_modified code then none else some (code_error code))
          else elim (checked apps) [
            | none ↦ (d', [], some server_err)
            | some infos ↦ (d', infos, none)
          ]
    ]

-- broadcast: the zones without instances are dropped.
abbrev pub pruned : Table (List Instance) → Table (List Instance)
pruned [] = []
pruned ((zone, []) ∷ zones) = pruned zones
pruned ((zone, ins ∷ inss) ∷ zones) = (zone, ins ∷ inss) ∷ pruned zones

abbrev pub pruned_info : InstancesInfo → InstancesInfo
pruned_info v = record v { instances = pruned v.instances }

unfoldable pub instance_count : Table (List Instance) → ℕ
instance_count [] = 0
instance_count ((zone, inss) ∷ zones) = length inss + instance_count zones

abbrev with_events : List ℕ → (ℕ → Bool) → ℕ → Bool
with_events [] events = events
with_events (r ∷ rs) events = with_event r (with_events rs events)

unfoldable pub broadcast_one : Bytes → InstancesInfo → Discovery → Discovery
broadcast_one id v d = if instance_count v.instances == 0 then d else elim (load id d.apps) [
  | none ↦ d
  | some app ↦ record d {
    apps = store id (record app { last_ts = v.last_ts; zone_ins = some (pruned_info v) }) d.apps;
    events = with_events app.resolver d.events;
  }
]

unfoldable pub broadcast : Table InstancesInfo → Discovery → Discovery
broadcast [] d = d
broadcast ((id, v) ∷ apps) d = broadcast apps (broadcast_one id v d)
