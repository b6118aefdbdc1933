-- ===== src/Registry/Nmidr/Keeps.antt =====
-- What the calls of a client of pkg/registry/nmidr/nmidr.go ask for, and what they leave as it was.
use nmid.Prelude.{ℕ, ◌≡◌, ◌≢◌, refl, ◌∙◌, List, [], ◌∷◌, Bool, Option, none, some, Option-cases}
use nmid.Prelude.{◌⊎◌, inl, inr, arith, ◌==◌, Bool-cases, get_elem?}
use nmid.Wire.{Bytes}
use nmid.Table.{load, store, delete}
use nmid.Registry.Discovery.Register.{
  Failure, code_error, duplication, http_error, server_err, marshal_error,
}
use nmid.Registry.Nmidr.{Config, Instance, Nmidr, Request, Params, Url, Answer, Plain}
use nmid.Registry.Nmidr.{post, do_register, do_renew, do_log_off, register}
use nmid.Registry.Nmidr.{renewed, tick, log_off}
use nmid.Registry.Nmidr.{new_params, register_params, instance_params, service_params}
use nmid.Registry.Nmidr.{pick_master_node}

-- The parameters name the region, zone, environment and host of the configuration, and no status
-- is 0.
abbrev pub HasConf : Config → Params → Type 0
HasConf conf params =
    (params.region ≡ conf.region)
    × (params.zone ≡ conf.zone)
    × (params.env ≡ conf.env)
    × (params.hostname ≡ conf.host)
    × (params.status ≢ some 0)

-- A request that goes to a node of the configuration.
abbrev pub IsOwn : Config → Request → Type 0
IsOwn conf req =
    ((draw : ℕ) × (get_elem? conf.nodes draw ≡ some req.node)) × HasConf conf req.params

abbrev pub AllOwn : Config → List Request → Type 0
AllOwn conf [] = Unit
AllOwn conf (req ∷ reqs) = IsOwn conf req × AllOwn conf reqs

-- What a call leaves as it was, and the requests that it makes.
pub record Keeps (nr nr' : Nmidr) : Type 0 where
  pub conf : nr'.conf ≡ nr.conf
  pub registered : nr'.registered ≡ nr.registered
  pub services : nr'.services ≡ nr.services
  pub own : AllOwn nr.conf nr.requests → AllOwn nr.conf nr'.requests

pub Keeps-refl : (nr : Nmidr) → Keeps nr nr
Keeps-refl nr = record { conf = refl; registered = refl; services = refl; own = λ o. o }

pub Keeps-same : {nr nr' : Nmidr} → some nr ≡ some nr' → Keeps nr nr'
Keeps-same {nr = nr} {nr' = nr'} e = let same : nr' ≡ nr = cc in rw same (Keeps-refl nr)

pub Keeps-trans : {a b c : Nmidr} → Keeps a b → Keeps b c → Keeps a c
Keeps-trans {b = b} {c = c} f g = record {
  conf = g.conf ∙ f.conf;
  registered = g.registered ∙ f.registered;
  services = g.services ∙ f.services;
  own = λ o.
      let mid : AllOwn b.conf b.requests = rw f.conf (f.own o) in
      let last : AllOwn b.conf c.requests = g.own mid in rw f.conf at last;
}

register_params-HasConf : (conf : Config) (ins : Instance) → HasConf conf (register_params conf ins)
unfolding register_params new_params
register_params-HasConf conf ins = (
  refl,
  refl,
  refl,
  refl,
  λ e. elim (Bool-cases (ins.status == 0)) [
    | inl unset ↦ ground (arith, e, unset)
    | inr set ↦ ground (arith, e, set)
  ],
)

instance_params-HasConf : (conf : Config) (ins : Instance) → HasConf conf (instance_params conf ins)
unfolding instance_params new_params
instance_params-HasConf conf ins = (refl, refl, refl, refl, λ e. cc)

pub service_params-HasConf : (conf : Config) (sid : Bytes) → HasConf conf (service_params conf sid)
unfolding service_params new_params
service_params-HasConf conf sid = (refl, refl, refl, refl, λ e. cc)

module _ (is_ok is_nothing_found : ℕ → Bool) where
  pub post-Keeps :
      {A : Type 0} (url : Url) (params : Params) (draw : ℕ) (answer : Answer A) (nr : Nmidr)
      (asked : Nmidr × (Failure ⊎ A))
      → HasConf nr.conf params
      → post is_ok url params draw answer nr ≡ some asked
      → Keeps nr asked.0
  unfolding post pick_master_node
  post-Keeps url params draw answer nr asked has e =
      elim (Option-cases (get_elem? nr.conf.nodes draw)) [
        | inl out ↦ absurd (ground (arith, e, out))
        | inr (node, found) ↦
            let same : asked.0 ≡ record nr {
              requests = record { url = url; node = node; params = params } ∷ nr.requests;
            } =
              ground (arith, e, found) in
            rw same (record {
              conf = refl;
              registered = refl;
              services = refl;
              own = λ o. (((draw, found), has), o);
            })
      ]

  module _ (ins : Instance) where
    do_register-Keeps :
        (draw : ℕ) (answer : Plain) (nr : Nmidr) (asked : Nmidr × (Failure ⊎ Unit {0}))
        → do_register is_ok is_nothing_found ins draw answer nr ≡ some asked
        → Keeps nr asked.0
    unfolding do_register
    do_register-Keeps draw answer nr asked e =
        post-Keeps _ _ draw answer nr asked (register_params-HasConf nr.conf ins) e

    pub log_off-Keeps :
        (draw : ℕ) (answer : Plain) (nr nr' : Nmidr)
        → log_off is_ok is_nothing_found ins draw answer nr ≡ some nr'
        → Keeps nr nr'
    unfolding log_off do_log_off
    log_off-Keeps draw answer nr nr' e =
        elim (Option-cases (do_log_off is_ok is_nothing_found ins draw answer nr)) [
          | inl out ↦ absurd (ground (arith, e, out))
          | inr (asked, p) ↦
              let same : nr' ≡ asked.0 = ground (arith, e, p) in
              rw same (post-Keeps _ _ draw answer nr asked (instance_params-HasConf nr.conf ins) p)
        ]

    renewed-Keeps :
        (draw : ℕ) (answer : Plain) (nr nr' : Nmidr) (r : Failure ⊎ Unit {0})
        → renewed is_ok is_nothing_found ins draw answer nr r ≡ some nr'
        → Keeps nr nr'
    unfolding renewed
    renewed-Keeps draw answer nr nr' (inl (code_error code)) e =
        elim (Bool-cases (is_nothing_found code)) [
          | inr other ↦ Keeps-same (ground (arith, e, other))
          | inl missing ↦
              elim (Option-cases (do_register is_ok is_nothing_found ins draw answer nr)) [
                | inl out ↦ absurd (ground (arith, e, missing, out))
                | inr (asked, p) ↦
                    let same : nr' ≡ asked.0 = ground (arith, e, missing, p) in
                    rw same (do_register-Keeps draw answer nr asked p)
              ]
        ]
    renewed-Keeps draw answer nr nr' (inl http_error) e = Keeps-same e
    renewed-Keeps draw answer nr nr' (inl duplication) e = Keeps-same e
    renewed-Keeps draw answer nr nr' (inl server_err) e = Keeps-same e
    renewed-Keeps draw answer nr nr' (inl marshal_error) e = Keeps-same e
    renewed-Keeps draw answer nr nr' (inr done) e = Keeps-same e

    pub tick-Keeps :
        (draw draw' : ℕ) (answer again : Plain) (nr nr' : Nmidr)
        → tick is_ok is_nothing_found ins draw answer draw' again nr ≡ some nr'
        → Keeps nr nr'
    unfolding tick do_renew
    tick-Keeps draw draw' answer again nr nr' e =
        elim (Option-cases (do_renew is_ok is_nothing_found ins draw answer nr)) [
          | inl out ↦ absurd (ground (arith, e, out))
          | inr (asked, p) ↦
              Keeps-trans
                (post-Keeps _ _ draw answer nr asked (instance_params-HasConf nr.conf ins) p)
                (renewed-Keeps draw' again asked.0 nr' asked.1 (ground (arith, e, p)))
        ]

    -- Register refuses an id that it knows, and otherwise changes nothing but the requests and, where
    -- it succeeds, the ids.
    pub data Registers (nr : Nmidr) : Nmidr × Option Failure → Type 0 where
      refused : load ins.service_id nr.registered ≡ some tt → Registers nr (nr, some duplication)
      done :
          (asked : Nmidr)
          → Keeps (record nr { registered = store ins.service_id tt nr.registered }) asked
          → Registers nr (asked, none)
      failed :
          (asked : Nmidr) (e : Failure)
          → Keeps (record nr { registered = store ins.service_id tt nr.registered }) asked
          → load ins.service_id nr.registered ≡ none
          → Registers nr
              (record asked { registered = delete ins.service_id asked.registered }, some e)

    pub register-Registers :
        (draw : ℕ) (answer : Plain) (nr : Nmidr) (r : Nmidr × Option Failure)
        → register is_ok is_nothing_found ins draw answer nr ≡ some r
        → Registers nr r
    unfolding register
    register-Registers draw answer nr r e =
        elim (Option-cases (load ins.service_id nr.registered)) [
          | inr (there, p) ↦
              let same : r ≡ (nr, some duplication) = ground (arith, e, p) in rw same (refused p)
          | inl new ↦
              let nr₁ = record nr { registered = store ins.service_id tt nr.registered } in
              elim (Option-cases (do_register is_ok is_nothing_found ins draw answer nr₁)) [
                | inl out ↦ absurd (ground (arith, e, new, out))
                | inr ((asked, inr fine), p) ↦
                    let same : r ≡ (asked, none) = ground (arith, e, new, p) in
                    rw same (done asked (do_register-Keeps draw answer nr₁ (asked, inr fine) p))
                | inr ((asked, inl x), p) ↦
                    let same : r ≡ (
                      record asked { registered = delete ins.service_id asked.registered },
                      some x,
                    ) =
                      ground (arith, e, new, p) in
                    rw same
                      (failed asked x (do_register-Keeps draw answer nr₁ (asked, inl x) p) new)
              ]
        ]
