-- ===== src/Registry/Nmidr/Resolve/Empty.antt =====
-- What Fetch of pkg/registry/nmidr/nmidr.go returns, and what it keeps.
use nmid.Prelude.{ℕ, ◌≡◌, refl, Bool, true, false, Option, none, some, Option-cases, not}
use nmid.Prelude.{◌⊎◌, inl, inr, arith, Bool-cases, get_elem?}
use nmid.Table.{Table, load, store}
use nmid.Registry.Discovery.Register.{Failure}
use nmid.Registry.Nmidr.{Nmidr, Answer, Resolver, InstancesInfo, ServiceInfo, post}
use nmid.Registry.Nmidr.{pick_master_node}
use nmid.Registry.Nmidr.Resolve.{Turn, blocks, panics, returns, fetch, keep_info, do_fetch_all}
use nmid.Registry.Nmidr.Resolve.{no_instances, with_event}

-- No instances, and the service has no event that waits.
abbrev pub IsEmpty : Resolver → Turn (Option InstancesInfo × Bool) → Type 0
IsEmpty r blocks = Unit
IsEmpty r panics = Unit
IsEmpty r (returns p nr) =
    ((p ≡ (none, false)) ⊎ (p ≡ (some no_instances, true))) × (nr.events r.event ≡ false)

keep_info-IsEmpty :
    (r : Resolver) (infos : Table (Option InstancesInfo)) (nr : Nmidr)
    → nr.events r.event ≡ false
    → IsEmpty r (keep_info r infos nr)
unfolding keep_info
keep_info-IsEmpty r infos nr taken = elim (Option-cases (load r.sid infos)) [
  | inl absent ↦ rw (absent, keep_info) (inr refl, taken)
  | inr (info, there) ↦
      rw (there, keep_info)
        (elim (Option-cases nr.services) [
          | inl bare ↦ rw (bare, keep_info) (inr refl, taken)
          | inr (services, made) ↦
              rw (made, keep_info)
                (elim (Option-cases (load r.sid services)) [
                  | inl unknown ↦ rw (unknown, keep_info) (inr refl, taken)
                  | inr (service, known) ↦ rw (known, keep_info) (go info services service)
                ])
        ])
]
  where
    go :
        (info : Option InstancesInfo) (services : Table ServiceInfo) (service : ServiceInfo)
        → IsEmpty r (elim info [
          | none ↦ panics
          | some known ↦
              returns
                (some no_instances, true)
                (record nr {
                  services = some (
                      store r.sid
                        (record service { instances = some known; last_ts = known.last_ts })
                        services);
                })
        ])
    go none services service = tt
    go (some known) services service = (inr refl, taken)

post-events :
    (is_ok : ℕ → Bool) (r : Resolver) (draw : ℕ) (answer : Answer (Table (Option InstancesInfo)))
    (nr : Nmidr) (asked : Nmidr × (Failure ⊎ Table (Option InstancesInfo)))
    → do_fetch_all is_ok r.sid draw answer nr ≡ some asked
    → asked.0.events ≡ nr.events
unfolding do_fetch_all post pick_master_node
post-events is_ok r draw answer nr asked e = elim (Option-cases (get_elem? nr.conf.nodes draw)) [
  | inl out ↦ absurd (ground (arith, e, out))
  | inr (node, found) ↦ ground (arith, e, found)
]

-- Fetch waits for an event, or panics, or returns no instance: nothing and false where the server
-- could not be asked, else an information without instances and true. When it returns, the event is
-- taken.
pub fetch-IsEmpty :
    (is_ok : ℕ → Bool) (r : Resolver) (draw : ℕ) (answer : Answer (Table (Option InstancesInfo)))
    (nr : Nmidr)
    → IsEmpty r (fetch is_ok r draw answer nr)
unfolding fetch
fetch-IsEmpty is_ok r draw answer nr = elim (Bool-cases (not (nr.events r.event))) [
  | inl waits ↦ rw (waits, fetch) tt
  | inr ready ↦
      let nr₁ = record nr { events = with_event r.event false nr.events } in
      rw (ready, fetch)
        (elim (Option-cases (do_fetch_all is_ok r.sid draw answer nr₁)) [
          | inl out ↦ rw (out, fetch) tt
          | inr ((asked, result), p) ↦ rw (p, fetch) (go result asked (taken asked result p))
        ])
]
  where
    taken :
        (asked : Nmidr) (result : Failure ⊎ Table (Option InstancesInfo))
        → do_fetch_all is_ok r.sid draw answer
            (record nr { events = with_event r.event false nr.events })
          ≡ some (asked, result)
        → asked.events r.event ≡ false
    taken asked result p =
        let same : asked.events ≡ with_event r.event false nr.events =
          post-events is_ok r draw answer _ (asked, result) p in
        rw same (ground arith)

    go :
        (result : Failure ⊎ Table (Option InstancesInfo)) (asked : Nmidr)
        → asked.events r.event ≡ false
        → IsEmpty r (elim result [
          | inl x ↦ returns (none, false) asked
          | inr infos ↦ keep_info r infos asked
        ])
    go (inl x) asked t = (inl refl, t)
    go (inr infos) asked t = keep_info-IsEmpty r infos asked t
