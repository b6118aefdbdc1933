-- ===== src/Registry/Discovery/Twice.antt =====
-- Register of pkg/registry/discovery/discovery.go, and what cancels it.
use nmid.Prelude.{ℕ, ◌≡◌, refl, [], ◌∷◌, Bool, List}
use nmid.Prelude.{none, some, bytes_eq_refl, arith, Option-cases, inl, inr}
use nmid.Wire.{Bytes}
use nmid.Table.{load, store, load-store}
use nmid.Registry.Discovery.{Discovery}
use nmid.Registry.Discovery.Register.{Answer, call_failed, coded, duplication}
use nmid.Registry.Discovery.{switch_node}
use nmid.Registry.Discovery.Register.{request, register_new, tick, cancelled}

module _ (is_ok is_nothing_found : ℕ → Bool) where
  request-registered :
      (answer : Answer) (d : Discovery) → (request is_ok answer d).0.registered ≡ d.registered
  unfolding request switch_node
  request-registered call_failed d = refl
  request-registered (coded code) d = refl

  -- What happens to a registered instance: its ticks, and its end.
  pub data Event : Type 0 where
    ticks : Answer → Answer → Event
    ends : Answer → Event

  abbrev pub happens : Event → Discovery → Discovery
  happens (ticks answer again) d = tick is_ok is_nothing_found answer again d
  happens (ends answer) d = cancelled is_ok answer d

  abbrev pub all_happen : List Event → Discovery → Discovery
  all_happen [] d = d
  all_happen (event ∷ events) d = all_happen events (happens event d)

  happens-registered : (event : Event) (d : Discovery) → (happens event d).registered ≡ d.registered
  unfolding tick cancelled
  happens-registered (ends answer) d = request-registered answer d
  happens-registered (ticks answer again) d =
      ground
        (arith, request-registered answer d, request-registered again (request is_ok answer d).0)

  all_happen-registered :
      (events : List Event) (d : Discovery) → (all_happen events d).registered ≡ d.registered
  all_happen-registered [] d = refl
  all_happen-registered (event ∷ events) d =
      ground (arith, all_happen-registered events (happens event d), happens-registered event d)

  module _ (id : Bytes) where
    -- An instance that is registered has its id in the map.
    registered-register_new :
        (answer : Answer) (d : Discovery)
        → (register_new is_ok id answer d).1 ≡ none
        → load id (register_new is_ok id answer d).0.registered ≡ some tt
    unfolding register_new
    registered-register_new answer d e =
        let d₁ = record d { registered = store id tt d.registered } in
        elim (Option-cases (load id d.registered)) [
          | inl new ↦ elim (Option-cases (request is_ok answer d₁).1) [
            | inl fine ↦ ground (
              arith,
              new,
              fine,
              request-registered answer d₁,
              load-store id id tt d.registered,
              bytes_eq_refl id,
            )
            | inr (failure, bad) ↦ ground (arith, e, new, bad)
          ]
          | inr (there, old) ↦ ground (arith, e, old)
        ]

    register_new_there :
        (answer : Answer) (d : Discovery)
        → load id d.registered ≡ some tt
        → register_new is_ok id answer d ≡ (d, some duplication)
    unfolding register_new
    register_new_there answer d e = rw (e, register_new) refl

    -- Once Register has registered an instance, it refuses every further instance of that id as a
    -- duplicate and changes nothing, whatever the cluster answered in between, and even when the
    -- first one has been cancelled.
    pub register_new-again :
        (answer again : Answer) (events : List Event) (d : Discovery)
        → (register_new is_ok id answer d).1 ≡ none
        → let d' = all_happen events (register_new is_ok id answer d).0 in
          register_new is_ok id again d' ≡ (d', some duplication)
    register_new-again answer again events d e =
        let first = (register_new is_ok id answer d).0 in
        register_new_there again (all_happen events first)
          (rw (all_happen-registered events first) (registered-register_new answer d e))
