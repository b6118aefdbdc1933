-- ===== src/Registry/Discovery/Register.antt =====
-- pkg/registry/discovery/discovery.go: what the client asks the cluster for an instance.
use nmid.Prelude.{ℕ, Bool}
use nmid.Prelude.{Option, none, some, if◌then◌else◌}
use nmid.Wire.{Bytes}
use nmid.Table.{load, store, delete}
use nmid.Registry.Discovery.{Discovery, switch_node}

-- What a call of the cluster comes to: the client's error, or the code of the answer.
pub data Answer : Type 0 where
  call_failed : Answer
  coded : ℕ → Answer

-- What the functions return for an error.
pub data Failure : Type 0 where
  http_error : Failure
  code_error : ℕ → Failure
  duplication : Failure
  server_err : Failure
  marshal_error : Failure

-- The request that register, renew, cancel and set make of the node, and its error.
unfoldable pub request : (ℕ → Bool) → Answer → Discovery → Discovery × Option Failure
request is_ok call_failed d = (switch_node d, some http_error)
request is_ok (coded code) d = (d, if is_ok code then none else some (code_error code))

abbrev pub register : (ℕ → Bool) → Answer → Discovery → Discovery × Option Failure
register is_ok answer d = request is_ok answer d

abbrev pub renew : (ℕ → Bool) → Answer → Discovery → Discovery × Option Failure
renew is_ok answer d = request is_ok answer d

abbrev pub cancel : (ℕ → Bool) → Answer → Discovery → Discovery × Option Failure
cancel is_ok answer d = request is_ok answer d

-- set; `marshals` says whether the metadata, where there is some, can be put into JSON.
unfoldable pub set_info : (ℕ → Bool) → Bool → Answer → Discovery → Discovery × Option Failure
set_info is_ok marshals answer d =
    if marshals then request is_ok answer d else (d, some marshal_error)

-- Register.
unfoldable pub register_new : (ℕ → Bool) → Bytes → Answer → Discovery → Discovery × Option Failure
register_new is_ok service_id answer d = elim (load service_id d.registered) [
  | some there ↦ (d, some duplication)
  | none ↦
      let asked =
        register is_ok answer (record d { registered = store service_id tt d.registered }) in
      elim asked.1 [
        | none ↦ (asked.0, none)
        | some e ↦ (record asked.0 { registered = delete service_id asked.0.registered }, some e)
      ]
]

-- The goroutine of Register: a tick renews the instance, and registers it when it is not found.
unfoldable pub tick : (ℕ → Bool) → (ℕ → Bool) → Answer → Answer → Discovery → Discovery
tick is_ok is_nothing_found answer again d =
    let renewed = renew is_ok answer d in
    elim renewed.1 [
      | some (code_error code) ↦
          if is_nothing_found code then (register is_ok again renewed.0).0 else renewed.0
      | some e ↦ renewed.0
      | none ↦ renewed.0
    ]

-- The end of the goroutine, when the instance is cancelled.
unfoldable pub cancelled : (ℕ → Bool) → Answer → Discovery → Discovery
cancelled is_ok answer d = (cancel is_ok answer d).0
