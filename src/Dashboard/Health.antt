-- ===== src/Dashboard/Health.antt =====
-- pkg/dashboard/health.go: the targets of the health checker, its requests and its goroutines.
-- A result is a cell of `results`, to which the map `targets` and the goroutines point. Each part of
-- a goroutine between two locks is one step. The answer of the target and the times are arguments.
-- An interval below zero is taken as 0, which is replaced like it.
pub mod Cells
pub mod Checked
pub mod Twice
mod Samples
use nmid.Prelude.{
  ℕ, ◌-◌, List, [], ◌∷◌, ◌++◌, Bool, true, false, Option, none, some, ltb, leb, ◌&&◌,
}
use nmid.Prelude.{if◌then◌else◌, get_elem?, set, length}
use nmid.Wire.{Bytes}
use nmid.Table.{Table, load, store, delete}

pub record HealthCheckResult : Type 0 where
  pub url : Bytes
  pub status_code : ℕ
  pub response_time : ℕ
  pub is_up : Bool
  pub last_checked_at : ℕ
  pub error_message : Bytes
  pub check_interval_ms : ℕ

-- Where a goroutine stands: before the test of startChecking, before that of checkHealth, or with a
-- request and the result that it will write to.
pub data Position : Type 0 where
  confirming reading : Position
  requesting : ℕ → Position

pub record Checker : Type 0 where
  pub target : Bytes
  pub position : Position

pub record HealthChecker : Type 0 where
  pub targets : Table ℕ
  pub results : List HealthCheckResult
  pub checkers : List Checker

unfoldable pub new_health_checker : HealthChecker
new_health_checker = record { targets = []; results = []; checkers = [] }

abbrev pub new_result : Bytes → ℕ → HealthCheckResult
new_result url interval_ms = record {
  url = url;
  status_code = 0;
  response_time = 0;
  is_up = false;
  last_checked_at = 0;
  error_message = [];
  check_interval_ms = interval_ms;
}

-- An assignment to the fields of a result, which another function gives.
abbrev pub assign :
    ℕ → (HealthCheckResult → HealthCheckResult) → List HealthCheckResult → List HealthCheckResult
assign id f results = elim (get_elem? results id) [ none ↦ results | some r ↦ set results id (f r) ]

abbrev pub with_interval : ℕ → HealthCheckResult → HealthCheckResult
with_interval interval_ms r = record r { check_interval_ms = interval_ms }

-- AddTarget: a new target gets a goroutine.
unfoldable pub add_target : Bytes → ℕ → HealthChecker → HealthChecker
add_target url interval_ms hc = elim (load url hc.targets) [
  | some id ↦ record hc { results = assign id (with_interval interval_ms) hc.results }
  | none ↦ record {
    targets = store url (length hc.results) hc.targets;
    results = hc.results ++ new_result url interval_ms ∷ [];
    checkers = record { target = url; position = confirming } ∷ hc.checkers;
  }
]

unfoldable pub remove_target : Bytes → HealthChecker → HealthChecker
remove_target url hc = record hc { targets = delete url hc.targets }

unfoldable pub get_result : Bytes → HealthChecker → Option HealthCheckResult
get_result url hc = elim (load url hc.targets) [ none ↦ none | some id ↦ get_elem? hc.results id ]

-- What the GET of the target comes to.
pub data Response : Type 0 where
  fails : Bytes → Response
  responds : ℕ → Response

unfoldable pub updated : Response → ℕ → ℕ → HealthCheckResult → HealthCheckResult
updated (fails message) took now r = record r {
  response_time = took;
  last_checked_at = now;
  is_up = false;
  error_message = message;
  status_code = 0;
}
updated (responds code) took now r = record r {
  response_time = took;
  last_checked_at = now;
  status_code = code;
  is_up = leb 200 code && ltb code 400;
  error_message = [];
}

-- One part of a goroutine: the checker behind it, without the goroutine, and where that one then
-- stands, none when it has returned.
unfoldable pub advance :
    Response → ℕ → ℕ → Bytes → Position → HealthChecker → HealthChecker × Option Position
advance resp took now url confirming hc = elim (load url hc.targets) [
  | none ↦ (hc, none)
  | some id ↦ (hc, some reading)
]
advance resp took now url reading hc = elim (load url hc.targets) [
  | none ↦ (hc, some confirming)
  | some id ↦ (hc, some (requesting id))
]
advance resp took now url (requesting result) hc = elim (load url hc.targets) [
  | none ↦ (hc, some confirming)
  | some id ↦
      (record hc { results = assign result (updated resp took now) hc.results }, some confirming)
]

-- What requestTargets is asked: by GET, by POST with the body if it can be decoded, by DELETE with
-- the url, or by another method.
pub data Asks : Type 0 where
  gets : Asks
  posts : Option (Bytes × ℕ) → Asks
  deletes : Bytes → Asks
  others : Asks

abbrev pub default_interval : ℕ → ℕ
default_interval interval_ms = if ltb interval_ms 100 then 5000 else interval_ms

-- requestTargets: the status of the answer and the checker behind it.
unfoldable pub request_targets : Asks → HealthChecker → ℕ × HealthChecker
request_targets gets hc = (200, hc)
request_targets (posts none) hc = (400, hc)
request_targets (posts (some (url, interval_ms))) hc =
    (201, add_target url (default_interval interval_ms) hc)
request_targets (deletes []) hc = (400, hc)
request_targets (deletes (c ∷ cs)) hc = (200, remove_target (c ∷ cs) hc)
request_targets others hc = (405, hc)

-- getTargets: the result, or none, which is answered with the status 404.
unfoldable pub get_targets : Bytes → HealthChecker → Option HealthCheckResult
get_targets url hc = get_result url hc
