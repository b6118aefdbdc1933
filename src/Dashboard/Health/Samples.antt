-- ===== src/Dashboard/Health/Samples.antt =====
-- A health checker with one target.
use nmid.Prelude.{◌+◌, ◌≡◌, refl, [], ◌∷◌, some, arith, bytes_eq_refl}
use nmid.Wire.{Bytes}
use nmid.Table.{load, store}
use nmid.Dashboard.Health.{HealthChecker, new_health_checker, add_target, request_targets, posts}
use nmid.Dashboard.Health.{new_result, Position, confirming, reading, requesting, responds, advance}
use nmid.Dashboard.Health.{updated, get_result}
use nmid.Dashboard.Health.Checked.{Reach, here, next, asked, moved, IsWatched, Reach-IsWatched}
use nmid.Dashboard.Health.Twice.{count_checkers, delete_and_post, count_checkers-delete_and_post}

abbrev url : Bytes
url = b'u' ∷ []

abbrev added : HealthChecker
added = record {
  targets = (url, 0) ∷ [];
  results = new_result url 5000 ∷ [];
  checkers = record { target = url; position = confirming } ∷ [];
}

abbrev at : Position → HealthChecker
at p = record added { checkers = record { target = url; position = p } ∷ [] }

-- The answer has the status 204.
abbrev answered : HealthChecker
answered = record added { results = updated (responds 204) 3 9 (new_result url 5000) ∷ [] }

reach : Reach new_health_checker answered
unfolding new_health_checker request_targets add_target load store advance updated
reach =
    let r₁ : Reach new_health_checker added =
      next here (asked new_health_checker (posts (some (url, 7)))) in
    let r₂ : Reach new_health_checker (at reading) = next r₁ (
      moved added added [] [] url confirming (some reading) (responds 0) 0 0 refl
        (ground (arith, bytes_eq_refl url))) in
    let r₃ : Reach new_health_checker (at (requesting 0)) = next r₂ (
      moved (at reading) (at reading) [] [] url reading (some (requesting 0)) (responds 0) 0 0 refl
        (ground (arith, bytes_eq_refl url))) in
    next r₃ (
      moved (at (requesting 0)) (record answered { checkers = (at (requesting 0)).checkers }) [] []
        url (requesting 0) (some confirming) (responds 204) 3 9 refl
        (ground (arith, bytes_eq_refl url)))

Reach-IsWatched_example : IsWatched url answered
unfolding load
Reach-IsWatched_example = Reach-IsWatched url 0 reach (ground (arith, bytes_eq_refl url))

count_checkers-delete_and_post_example :
    (count_checkers url (delete_and_post url 100 added).checkers
      ≡ count_checkers url added.checkers + 1)
    × (get_result url (delete_and_post url 100 added) ≡ some (new_result url 100))
unfolding load
count_checkers-delete_and_post_example =
    count_checkers-delete_and_post b'u' [] 100 added (refl, tt) (omega arith)
