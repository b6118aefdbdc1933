-- ===== src/Dashboard/Health/Twice.antt =====
-- A target that is deleted and added again while its goroutine waits (pkg/dashboard/health.go).
use nmid.Prelude.{ℕ, ◌+◌, ◌≤◌, ◌≡◌, List, [], ◌∷◌, none, some, length}
use nmid.Prelude.{bytes_eq, bytes_eq_refl, if◌then◌else◌, arith}
use nmid.Wire.{Bytes}
use nmid.Table.{load, delete, IsUnique, load-store, load-delete}
use nmid.Dashboard.Health.{
  HealthChecker, Checker, new_result, add_target, remove_target, get_result,
}
use nmid.Dashboard.Health.{request_targets, posts, deletes}
use nmid.Dashboard.Health.Cells.{last_result}

-- The goroutines that check a url.
abbrev pub count_checkers : Bytes → List Checker → ℕ
count_checkers url [] = 0
count_checkers url (c ∷ cs) =
    let rest = count_checkers url cs in if bytes_eq c.target url then rest + 1 else rest

-- DELETE and then POST.
abbrev pub delete_and_post : Bytes → ℕ → HealthChecker → HealthChecker
delete_and_post url interval_ms hc =
    (request_targets (posts (some (url, interval_ms))) (request_targets (deletes url) hc).1).1

-- If a target is deleted and added again with an interval of at least 100 ms before its goroutine
-- has seen that it was gone, one goroutine more than before checks it, and GetResult gives a new
-- result for it, which has not been checked.
pub count_checkers-delete_and_post :
    (c : ℕ) (cs : Bytes) (interval_ms : ℕ) (hc : HealthChecker)
    → IsUnique hc.targets
    → 100 ≤ interval_ms
    → let hc' = delete_and_post (c ∷ cs) interval_ms hc in
      (count_checkers (c ∷ cs) hc'.checkers ≡ count_checkers (c ∷ cs) hc.checkers + 1)
      × (get_result (c ∷ cs) hc' ≡ some (new_result (c ∷ cs) interval_ms))
unfolding request_targets add_target remove_target get_result
count_checkers-delete_and_post c cs interval_ms hc unique h =
    let url = c ∷ cs in
    let gone : load url (delete url hc.targets) ≡ none =
      ground (arith, load-delete url url hc.targets unique, bytes_eq_refl url) in
    let at_end = last_result hc.results (new_result url interval_ms) (length hc.results) in
    let there = load-store url url (length hc.results) (delete url hc.targets) in
    (
      ground (arith, gone, bytes_eq_refl url),
      ground (arith, gone, there, bytes_eq_refl url, at_end),
    )
