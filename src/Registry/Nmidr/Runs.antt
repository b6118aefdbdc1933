-- ===== src/Registry/Nmidr/Runs.antt =====
-- Runs of a client of pkg/registry/nmidr/nmidr.go: its calls, ticks and ends in any order.
mod Samples
use nmid.Prelude.{
  ℕ, ◌≡◌, refl, ◌∙◌, List, [], ◌∷◌, Bool, true, false, Option, none, some, Option-cases,
}
use nmid.Prelude.{◌⊎◌, inl, inr, arith, bytes_eq_refl, Bool-cases, not, ◌==◌, ◌&&◌, ◌||◌, bytes_eq}
use nmid.Wire.{Bytes}
use nmid.Table.{Table, load, store, delete, load-store}
use nmid.Registry.Discovery.Register.{Failure, duplication}
use nmid.Registry.Nmidr.{
  Config, Instance, Nmidr, Answer, Plain, Resolver, InstancesInfo, new_registry,
}
use nmid.Registry.Nmidr.{register, tick, log_off, post, service_params}
use nmid.Registry.Nmidr.Keeps.{AllOwn, Keeps, Keeps-refl, Keeps-same, Keeps-trans, post-Keeps}
use nmid.Registry.Nmidr.Keeps.{log_off-Keeps, tick-Keeps, Registers, refused, done, failed}
use nmid.Registry.Nmidr.Keeps.{register-Registers, service_params-HasConf}
use nmid.Registry.Nmidr.Resolve.{ReturnWatch, Turn, blocks, panics, returns, build, fetch, watch}
use nmid.Registry.Nmidr.Resolve.{close, keep_info, do_fetch_all, do_watch}
use nmid.Registry.Nmidr.Resolve.{give_event, with_event, no_instances}

-- What may happen at a client: its calls, those of resolvers, and the ticks and the ends of the
-- instances' goroutines.
pub data Op : Type 0 where
  registers : Instance → ℕ → Plain → Op
  ticks : Instance → ℕ → Plain → ℕ → Plain → Op
  ends : Instance → ℕ → Plain → Op
  builds : Bytes → Op
  fetches : Resolver → ℕ → Answer (Table (Option InstancesInfo)) → Op
  watches : Resolver → ℕ → Answer ReturnWatch → Op
  closes : Resolver → Op

abbrev pub client_behind : {A : Type 0} → Turn A → Option Nmidr
client_behind blocks = none
client_behind panics = none
client_behind (returns a nr) = some nr

abbrev pub registered_behind : Option (Nmidr × Option Failure) → Option Nmidr
registered_behind none = none
registered_behind (some (nr, e)) = some nr

module _ (is_ok is_nothing_found : ℕ → Bool) where
  -- none where the call panics or waits for ever.
  abbrev pub run : Op → Nmidr → Option Nmidr
  run (registers ins draw answer) nr =
      registered_behind (register is_ok is_nothing_found ins draw answer nr)
  run (ticks ins draw answer draw' again) nr =
      tick is_ok is_nothing_found ins draw answer draw' again nr
  run (ends ins draw answer) nr = log_off is_ok is_nothing_found ins draw answer nr
  run (builds sid) nr = client_behind (build sid nr)
  run (fetches r draw answer) nr = client_behind (fetch is_ok r draw answer nr)
  run (watches r draw answer) nr = client_behind (watch is_ok r draw answer nr)
  run (closes r) nr = some (close r nr)

  -- The clients that runs lead to.
  pub data Reach (nr : Nmidr) : Nmidr → Type 0 where
    here : Reach nr nr
    next : {a b : Nmidr} (op : Op) → Reach nr a → run op a ≡ some b → Reach nr b

  -- A client as NewRegistry makes it, but for what it has registered and asked for.
  record IsBare (conf : Config) (nr : Nmidr) : Type 0 where
    conf_kept : nr.conf ≡ conf
    no_services : nr.services ≡ none
    own : AllOwn conf nr.requests

  module _ (conf : Config) where
    Keeps-IsBare : {a b : Nmidr} → Keeps a b → IsBare conf a → IsBare conf b
    Keeps-IsBare {a = a} {b = b} k bare = record {
      conf_kept = k.conf ∙ bare.conf_kept;
      no_services = k.services ∙ bare.no_services;
      own = rw bare.conf_kept at (k.own (rw bare.conf_kept bare.own));
    }

    registered-IsBare :
        {a : Nmidr} (t : Table (Unit {0}))
        → IsBare conf a
        → IsBare conf (record a { registered = t })
    registered-IsBare t bare = record {
      conf_kept = bare.conf_kept;
      no_services = bare.no_services;
      own = bare.own;
    }

    events-IsBare :
        {a : Nmidr} (events : ℕ → Bool) → IsBare conf a → IsBare conf (record a { events = events })
    events-IsBare events bare = record {
      conf_kept = bare.conf_kept;
      no_services = bare.no_services;
      own = bare.own;
    }

    Registers-IsBare :
        (ins : Instance) (a : Nmidr) (r : Nmidr × Option Failure)
        → Registers is_ok is_nothing_found ins a r
        → IsBare conf a
        → IsBare conf r.0
    Registers-IsBare ins a r (refused p) bare = bare
    Registers-IsBare ins a r (done asked k) bare = Keeps-IsBare k (registered-IsBare _ bare)
    Registers-IsBare ins a r (failed asked e k new) bare =
        registered-IsBare _ (Keeps-IsBare k (registered-IsBare _ bare))

    give_event-IsBare :
        (r : Resolver) (change : ReturnWatch) (a b : Nmidr)
        → client_behind (give_event r change a) ≡ some b
        → IsBare conf a
        → IsBare conf b
    unfolding give_event
    give_event-IsBare r change a b e bare =
        elim (Bool-cases
          ((change.w_type == 0 || change.w_type == 1) && bytes_eq change.w_key r.sid)) [
            | inr other ↦ let same : b ≡ a = ground (arith, e, other) in rw same bare
            | inl ours ↦ elim (Bool-cases (a.events r.event)) [
              | inl full ↦ absurd (ground (arith, e, ours, full))
              | inr room ↦
                  let same : b ≡ record a { events = with_event r.event true a.events } =
                    ground (arith, e, ours, room) in
                  rw same (events-IsBare _ bare)
            ]
          ]

    watch-IsBare :
        (r : Resolver) (draw : ℕ) (answer : Answer ReturnWatch) (a b : Nmidr)
        → client_behind (watch is_ok r draw answer a) ≡ some b
        → IsBare conf a
        → IsBare conf b
    unfolding watch do_watch
    watch-IsBare r draw answer a b e bare =
        elim (Option-cases (do_watch is_ok r.sid draw answer a)) [
          | inl out ↦ absurd (ground (arith, e, out))
          | inr ((asked, result), p) ↦
              go result asked
                (post-Keeps is_ok is_nothing_found _ _ draw answer a (asked, result)
                  (service_params-HasConf a.conf r.sid) p)
                (ground (arith, e, p))
        ]
      where
        go :
            (result : Failure ⊎ ReturnWatch) (asked : Nmidr)
            → Keeps a asked
            → client_behind {A = Unit {0}}
                (elim result [ inl x ↦ returns tt asked | inr change ↦ give_event r change asked ])
              ≡ some b
            → IsBare conf b
        go (inl x) asked k q = Keeps-IsBare (Keeps-same q) (Keeps-IsBare k bare)
        go (inr change) asked k q = give_event-IsBare r change asked b q (Keeps-IsBare k bare)

    -- Without services nothing is kept.
    keep_info-IsBare :
        (r : Resolver) (infos : Table (Option InstancesInfo)) (a b : Nmidr)
        → client_behind (keep_info r infos a) ≡ some b
        → IsBare conf a
        → IsBare conf b
    unfolding keep_info
    keep_info-IsBare r infos a b e bare = elim (Option-cases (load r.sid infos)) [
      | inl absent ↦ Keeps-IsBare (Keeps-same (ground (arith, e, absent))) bare
      | inr (info, there) ↦
          let bare₁ = bare.no_services in
          Keeps-IsBare (Keeps-same (ground (arith, e, there, bare₁))) bare
    ]

    fetch-IsBare :
        (r : Resolver) (draw : ℕ) (answer : Answer (Table (Option InstancesInfo))) (a b : Nmidr)
        → client_behind (fetch is_ok r draw answer a) ≡ some b
        → IsBare conf a
        → IsBare conf b
    unfolding fetch do_fetch_all
    fetch-IsBare r draw answer a b e bare = elim (Bool-cases (not (a.events r.event))) [
      | inl waits ↦ absurd (ground (arith, e, waits))
      | inr ready ↦
          let a₁ = record a { events = with_event r.event false a.events } in
          elim (Option-cases (do_fetch_all is_ok r.sid draw answer a₁)) [
            | inl out ↦ absurd (ground (arith, e, ready, out))
            | inr ((asked, result), p) ↦
                go result asked
                  (post-Keeps is_ok is_nothing_found _ _ draw answer a₁ (asked, result)
                    (service_params-HasConf a.conf r.sid) p)
                  (ground (arith, e, ready, p))
          ]
    ]
      where
        go :
            (result : Failure ⊎ Table (Option InstancesInfo)) (asked : Nmidr)
            → Keeps (record a { events = with_event r.event false a.events }) asked
            → client_behind {A = Option InstancesInfo × Bool} (elim result [
              | inl x ↦ returns (none, false) asked
              | inr infos ↦ keep_info r infos asked
            ])
              ≡ some b
            → IsBare conf b
        go (inl x) asked k q = Keeps-IsBare (Keeps-same q) (Keeps-IsBare k (events-IsBare _ bare))
        go (inr infos) asked k q =
            keep_info-IsBare r infos asked b q (Keeps-IsBare k (events-IsBare _ bare))

    run-IsBare : (op : Op) (a b : Nmidr) → run op a ≡ some b → IsBare conf a → IsBare conf b
    unfolding build close
    run-IsBare (ticks ins draw answer draw' again) a b e bare =
        Keeps-IsBare (tick-Keeps is_ok is_nothing_found ins draw draw' answer again a b e) bare
    run-IsBare (ends ins draw answer) a b e bare =
        Keeps-IsBare (log_off-Keeps is_ok is_nothing_found ins draw answer a b e) bare
    run-IsBare (fetches r draw answer) a b e bare = fetch-IsBare r draw answer a b e bare
    run-IsBare (watches r draw answer) a b e bare = watch-IsBare r draw answer a b e bare
    run-IsBare (builds sid) a b e bare =
        let bare₁ = bare.no_services in absurd (ground (arith, e, bare₁))
    run-IsBare (closes r) a b e bare =
        let bare₁ = bare.no_services in Keeps-IsBare (Keeps-same (ground (arith, e, bare₁))) bare
    run-IsBare (registers ins draw answer) a b e bare =
        elim (Option-cases (register is_ok is_nothing_found ins draw answer a)) [
          | inl out ↦ absurd (ground (arith, e, out))
          | inr (r, p) ↦
              let same : b ≡ r.0 = ground (arith, e, p) in
              rw same (
                Registers-IsBare ins a r
                  (register-Registers is_ok is_nothing_found ins draw answer a r p) bare)
        ]

    Reach-IsBare : {b : Nmidr} → Reach (new_registry conf) b → IsBare conf b
    unfolding new_registry
    Reach-IsBare here = record { conf_kept = refl; no_services = refl; own = tt }
    Reach-IsBare (next {a = a} {b = b} op r e) = run-IsBare op a b e (Reach-IsBare r)

    -- Whatever has happened at a client that NewRegistry made, Build panics for every service.
    pub build-Reach :
        (sid : Bytes) {nr : Nmidr} → Reach (new_registry conf) nr → build sid nr ≡ panics
    unfolding build
    build-Reach sid r = let none_there = (Reach-IsBare r).no_services in ground (arith, none_there)

    -- Whatever has happened at a client that NewRegistry made, each request that it has made went to
    -- a node of the configuration and named its region, zone, environment and host, and none had the
    -- status 0.
    pub Reach-AllOwn : {nr : Nmidr} → Reach (new_registry conf) nr → AllOwn conf nr.requests
    Reach-AllOwn r = (Reach-IsBare r).own
