-- ===== src/Registry/Nmidr/Resolve.antt =====
-- pkg/registry/nmidr/nmidr.go: the resolvers of a client and the event channels between them.
pub mod Empty
use nmid.Prelude.{ℕ, ◌+◌, List, [], ◌∷◌, ◌==◌, ◌&&◌, ◌||◌, Bool, true, false, Option, none, some}
use nmid.Prelude.{if◌then◌else◌, not, bytes_eq, ◌⊎◌, inl, inr}
use nmid.Wire.{Bytes}
use nmid.Table.{Table, load, store, delete}
use nmid.Registry.Discovery.Register.{Failure}
use nmid.Registry.Nmidr.{Nmidr, Resolver, ServiceInfo, InstancesInfo, Answer, post, service_params}
use nmid.Registry.Nmidr.{fetch_all_url, watch_url}

-- ReturnWatch
pub record ReturnWatch : Type 0 where
  pub w_type : ℕ
  pub w_key : Bytes

-- How a call of a resolver ends: it waits for a channel, or panics, or returns.
pub data Turn (A : Type 0) : Type 0 where
  blocks panics : Turn A
  returns : A → Nmidr → Turn A

abbrev pub with_event : ℕ → Bool → (ℕ → Bool) → ℕ → Bool
with_event r set events = λ k. if k == r then set else events k

-- service.resolver[r.sid] = *r, in a service that may be new.
abbrev new_service : ServiceInfo
new_service = record { resolver = []; instances = none; last_ts = 0 }

abbrev with_resolver : Resolver → ServiceInfo → ServiceInfo
with_resolver r service = record service { resolver = store r.sid r service.resolver }

-- The once of Build: the first service is the one that is watched.
abbrev watch_first : Bytes → Option Bytes → Option Bytes
watch_first sid none = some sid
watch_first sid (some first) = some first

-- Build. An assignment to the nil map panics; a service that is known gets an event at once.
unfoldable pub build : Bytes → Nmidr → Turn Resolver
build sid nr =
    let r : Resolver = record { sid = sid; event = nr.next_event } in
    let nr' = record nr { next_event = nr.next_event + 1; watched = watch_first sid nr.watched } in
    elim nr.services [
      | none ↦ panics
      | some services ↦ elim (load sid services) [
        | none ↦
            returns r
              (record nr' { services = some (store sid (with_resolver r new_service) services) })
        | some service ↦ returns r (record nr' {
          services = some (store sid (with_resolver r service) services);
          events = with_event r.event true nr.events;
        })
      ]
    ]

-- The instances that Fetch returns, which it makes and does not fill.
abbrev pub no_instances : InstancesInfo
no_instances = record { instances = []; last_ts = 0 }

-- The entry of the service in the answer is kept in the service; a null in its place is read through
-- a nil pointer.
unfoldable pub keep_info :
    Resolver → Table (Option InstancesInfo) → Nmidr → Turn (Option InstancesInfo × Bool)
keep_info r answer nr = elim (load r.sid answer) [
  | none ↦ returns (some no_instances, true) nr
  | some info ↦ elim nr.services [
    | none ↦ returns (some no_instances, true) nr
    | some services ↦ elim (load r.sid services) [
      | none ↦ returns (some no_instances, true) nr
      | some service ↦ elim info [
        | none ↦ panics
        | some known ↦
            returns (some no_instances, true)
              (record nr {
                services = some (
                    store r.sid (record service { instances = some known; last_ts = known.last_ts })
                      services);
              })
      ]
    ]
  ]
]

-- The end of Watch: a change of the service gives an event, if the channel has room for it.
unfoldable pub give_event : Resolver → ReturnWatch → Nmidr → Turn (Unit {0})
give_event r change nr =
    if (change.w_type == 0 || change.w_type == 1) && bytes_eq change.w_key r.sid
    then (if nr.events r.event
        then blocks
        else returns tt (record nr { events = with_event r.event true nr.events }))
    else returns tt nr

module _ (is_ok : ℕ → Bool) where
  -- doFetchAll and doWatch
  unfoldable pub do_fetch_all :
      Bytes
      → ℕ
      → Answer (Table (Option InstancesInfo))
      → Nmidr
      → Option (Nmidr × (Failure ⊎ Table (Option InstancesInfo)))
  do_fetch_all sid draw answer nr =
      post is_ok fetch_all_url (service_params nr.conf sid) draw answer nr

  unfoldable pub do_watch :
      Bytes → ℕ → Answer ReturnWatch → Nmidr → Option (Nmidr × (Failure ⊎ ReturnWatch))
  do_watch sid draw answer nr = post is_ok watch_url (service_params nr.conf sid) draw answer nr

  -- Fetch: it takes an event, or waits for one.
  unfoldable pub fetch :
      Resolver
      → ℕ
      → Answer (Table (Option InstancesInfo))
      → Nmidr
      → Turn (Option InstancesInfo × Bool)
  fetch r draw answer nr =
      if not (nr.events r.event)
      then blocks
      else elim (do_fetch_all r.sid draw answer
          (record nr { events = with_event r.event false nr.events })) [
            | none ↦ panics
            | some (nr', inl e) ↦ returns (none, false) nr'
            | some (nr', inr infos) ↦ keep_info r infos nr'
          ]

  -- Watch
  unfoldable pub watch : Resolver → ℕ → Answer ReturnWatch → Nmidr → Turn (Unit {0})
  watch r draw answer nr = elim (do_watch r.sid draw answer nr) [
    | none ↦ panics
    | some (nr', inl e) ↦ returns tt nr'
    | some (nr', inr change) ↦ give_event r change nr'
  ]

-- Close of a resolver.
unfoldable pub close : Resolver → Nmidr → Nmidr
close r nr = elim nr.services [
  | none ↦ nr
  | some services ↦ elim (load r.sid services) [
    | none ↦ nr
    | some service ↦ record nr {
      services =
          some (store r.sid (record service { resolver = delete r.sid service.resolver }) services);
    }
  ]
]
