-- ===== src/Registry/Nmidr.antt =====
-- pkg/registry/nmidr/nmidr.go: a client of the registry server of nmid, and what it asks of it.
-- A call of the server is its answer; the tests of a code (ecode) are a library's. A random number is
-- an argument. A run that panics is none. The parameters of a request are a record with a field for
-- each key of url.Values, and a number stands for its decimal text. Contexts and log lines are left
-- out.
pub mod Keeps
pub mod Runs
pub mod Resolve
use nmid.Prelude.{ℕ, List, [], ◌∷◌, ◌==◌, Bool, true, false, Option, none, some, if◌then◌else◌}
use nmid.Prelude.{get_elem?, ◌⊎◌, inl, inr}
use nmid.Wire.{Bytes}
use nmid.Table.{Table, load, store, delete}
use nmid.Registry.Discovery.Register.{Failure, http_error, code_error, duplication}

pub record Config : Type 0 where
  pub nodes : List Bytes
  pub region : Bytes
  pub zone : Bytes
  pub env : Bytes
  pub host : Bytes

-- The metadata is its JSON, none where it is nil or json.Marshal fails.
pub record Instance : Type 0 where
  pub service_id : Bytes
  pub inflow_addr : Bytes
  pub outflow_addr : Bytes
  pub addrs : List Bytes
  pub version : Bytes
  pub metadata : Option Bytes
  pub status : ℕ

pub record Params : Type 0 where
  pub region : Bytes
  pub zone : Bytes
  pub env : Bytes
  pub hostname : Bytes
  pub service_id : Bytes
  pub inflow_addr : Bytes
  pub outflow_addr : Bytes
  pub addrs : List Bytes
  pub version : Bytes
  pub metadata : Bytes
  pub status : Option ℕ

-- The URLs.
pub data Url : Type 0 where
  register_url logoff_url watch_url renew_url fetch_all_url : Url

pub record Request : Type 0 where
  pub url : Url
  pub node : Bytes
  pub params : Params

pub record InstancesInfo : Type 0 where
  pub instances : Table (List Instance)
  pub last_ts : ℕ

-- A resolver is its service and the number of its channel.
pub record Resolver : Type 0 where
  pub sid : Bytes
  pub event : ℕ

pub record ServiceInfo : Type 0 where
  pub resolver : Table Resolver
  pub instances : Option InstancesInfo
  pub last_ts : ℕ

-- The client. `services` is none where the map is nil; `events` says which channels, of size one, have
-- an event; `watched` is the service whose watch has been started; the requests stand newest first.
pub record Nmidr : Type 0 where
  pub conf : Config
  pub services : Option (Table ServiceInfo)
  pub registered : Table {0} Unit
  pub events : ℕ → Bool
  pub next_event : ℕ
  pub watched : Option Bytes
  pub requests : List Request

-- NewRegistry
unfoldable pub new_registry : Config → Nmidr
new_registry conf = record {
  conf = conf;
  services = none;
  registered = [];
  events = λ r. false;
  next_event = 0;
  watched = none;
  requests = [];
}

-- pickMasterNode; rand.Intn panics where there are no nodes.
unfoldable pub pick_master_node : ℕ → Config → Option Bytes
pick_master_node draw conf = get_elem? conf.nodes draw

-- newParams
unfoldable pub new_params : Config → Params
new_params c = record {
  region = c.region;
  zone = c.zone;
  env = c.env;
  hostname = c.host;
  service_id = [];
  inflow_addr = [];
  outflow_addr = [];
  addrs = [];
  version = [];
  metadata = [];
  status = none;
}

-- What a call of the server comes to: the client's error, or the code of the answer and its data.
pub data Answer (A : Type 0) : Type 0 where
  call_failed : Answer A
  coded : ℕ → A → Answer A

-- The end of each function that makes a request: its error or its data.
unfoldable pub outcome : {A : Type 0} → (ℕ → Bool) → Answer A → Failure ⊎ A
outcome is_ok call_failed = inl http_error
outcome is_ok (coded code data_of) = if is_ok code then inr data_of else inl (code_error code)

unfoldable pub post :
    {A : Type 0} → (ℕ → Bool) → Url → Params → ℕ → Answer A → Nmidr → Option (Nmidr × (Failure ⊎ A))
post is_ok url params draw answer nr = elim (pick_master_node draw nr.conf) [
  | none ↦ none
  | some node ↦ some (
    record nr { requests = record { url = url; node = node; params = params } ∷ nr.requests },
    outcome is_ok answer,
  )
]

abbrev metadata_text : Option Bytes → Bytes
metadata_text none = []
metadata_text (some text) = text

-- The parameters of doRegister: a status that is not set is sent as 1.
unfoldable pub register_params : Config → Instance → Params
register_params conf ins = record (new_params conf) {
  inflow_addr = ins.inflow_addr;
  outflow_addr = ins.outflow_addr;
  service_id = ins.service_id;
  addrs = ins.addrs;
  version = ins.version;
  metadata = metadata_text ins.metadata;
  status = some (if ins.status == 0 then 1 else ins.status);
}

-- The parameters of doRenew and doLogOff.
unfoldable pub instance_params : Config → Instance → Params
instance_params conf ins = record (new_params conf) {
  inflow_addr = ins.inflow_addr;
  outflow_addr = ins.outflow_addr;
  service_id = ins.service_id;
}

-- The parameters of doFetchAll and doWatch.
unfoldable pub service_params : Config → Bytes → Params
service_params conf sid = record (new_params conf) { service_id = sid }

-- Answers without data.
abbrev pub Plain : Type 0
Plain = Answer (Unit {0})

module _ (is_ok is_nothing_found : ℕ → Bool) where
  unfoldable pub do_register : Instance → ℕ → Plain → Nmidr → Option (Nmidr × (Failure ⊎ Unit {0}))
  do_register ins draw answer nr =
      post is_ok register_url (register_params nr.conf ins) draw answer nr

  unfoldable pub do_renew : Instance → ℕ → Plain → Nmidr → Option (Nmidr × (Failure ⊎ Unit {0}))
  do_renew ins draw answer nr = post is_ok renew_url (instance_params nr.conf ins) draw answer nr

  unfoldable pub do_log_off : Instance → ℕ → Plain → Nmidr → Option (Nmidr × (Failure ⊎ Unit {0}))
  do_log_off ins draw answer nr = post is_ok logoff_url (instance_params nr.conf ins) draw answer nr

  -- Register, up to the start of its goroutine.
  unfoldable pub register : Instance → ℕ → Plain → Nmidr → Option (Nmidr × Option Failure)
  register ins draw answer nr = elim (load ins.service_id nr.registered) [
    | some there ↦ some (nr, some duplication)
    | none ↦
        elim (do_register ins draw answer
          (record nr { registered = store ins.service_id tt nr.registered })) [
            | none ↦ none
            | some (nr', inr done) ↦ some (nr', none)
            | some (nr', inl e) ↦
                some (record nr' { registered = delete ins.service_id nr'.registered }, some e)
          ]
  ]

  -- What follows doRenew in the goroutine: an instance that is not found is registered again.
  unfoldable pub renewed : Instance → ℕ → Plain → Nmidr → Failure ⊎ Unit {0} → Option Nmidr
  renewed ins draw answer nr (inl (code_error code)) =
      if is_nothing_found code
      then elim (do_register ins draw answer nr) [ none ↦ none | some asked ↦ some asked.0 ]
      else some nr
  renewed ins draw answer nr _ = some nr

  -- A tick of the goroutine of Register, and its end.
  unfoldable pub tick : Instance → ℕ → Plain → ℕ → Plain → Nmidr → Option Nmidr
  tick ins draw answer draw' again nr = elim (do_renew ins draw answer nr) [
    | none ↦ none
    | some (nr', r) ↦ renewed ins draw' again nr' r
  ]

  unfoldable pub log_off : Instance → ℕ → Plain → Nmidr → Option Nmidr
  log_off ins draw answer nr = elim (do_log_off ins draw answer nr) [
    | none ↦ none
    | some asked ↦ some asked.0
  ]
