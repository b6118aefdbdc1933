-- ===== src/Dashboard/Health/Checked.antt =====
-- The health checker under requests and goroutines in any order (pkg/dashboard/health.go).
use nmid.Prelude.{ℕ, ◌≤◌, ◌≡◌, refl, List, [], ◌∷◌, ◌++◌, Bool, true, false, ◌||◌}
use nmid.Prelude.{Option, none, some, Option-cases, get_elem?, length, arith}
use nmid.Prelude.{bytes_eq, eq_of_bytes_eq, inl, inr, Bool-cases, ◌⊎◌, ◌==◌, ◌∙◌}
use nmid.Wire.{Bytes}
use nmid.Table.{Table, load, delete, IsUnique, load-store, load-delete, store-IsUnique}
use nmid.Table.{delete-IsUnique}
use nmid.Dashboard.Health.{HealthCheckResult, HealthChecker, Checker, Position, confirming, reading}
use nmid.Dashboard.Health.{requesting, new_health_checker, new_result, assign, with_interval}
use nmid.Dashboard.Health.{add_target, remove_target, get_result, Response, updated}
use nmid.Dashboard.Health.{advance, Asks, gets, posts, deletes, others, default_interval}
use nmid.Dashboard.Health.{request_targets}
use nmid.Dashboard.Health.Cells.{
  IsRight, Keeps, assign-found, assign-IsRight, updated-Keeps, last_result, in_range,
}

-- The goroutine behind its part, or none when it has returned.
abbrev pub standing : Bytes → Option Position → List Checker → List Checker
standing url none checkers = checkers
standing url (some p) checkers = record { target = url; position = p } ∷ checkers

-- A request, or a part of one of the goroutines.
pub data Step : HealthChecker → HealthChecker → Type 0 where
  asked : (hc : HealthChecker) (asks : Asks) → Step hc (request_targets asks hc).1
  moved :
      (hc hc' : HealthChecker) (xs ys : List Checker) (url : Bytes) (p : Position)
      (q : Option Position) (resp : Response) (took now : ℕ)
      → hc.checkers ≡ xs ++ record { target = url; position = p } ∷ ys
      → advance resp took now url p hc ≡ (hc', q)
      → Step hc (record hc' { checkers = xs ++ standing url q ys })

pub data Reach (hc : HealthChecker) : HealthChecker → Type 0 where
  here : Reach hc hc
  next : {a b : HealthChecker} → Reach hc a → Step a b → Reach hc b

-- A goroutine that checks the url.
abbrev pub is_checked : Bytes → List Checker → Bool
is_checked url [] = false
is_checked url (c ∷ cs) = bytes_eq c.target url || is_checked url cs

-- What GetResult gives.
abbrev pub IsWatched : Bytes → HealthChecker → Type 0
IsWatched url hc =
    (r : HealthCheckResult) × (get_result url hc ≡ some r)
    × (r.url ≡ url)
    × IsRight r
    × (is_checked url hc.checkers ≡ true)

-- Every target has a result for its url, and is checked.
pub record IsSound (hc : HealthChecker) : Type 0 where
  pub unique : IsUnique hc.targets
  pub results_right :
      (id : ℕ) (r : HealthCheckResult) → get_elem? hc.results id ≡ some r → IsRight r
  pub found :
      (url : Bytes) (id : ℕ)
      → load url hc.targets ≡ some id
      → (r : HealthCheckResult) × (get_elem? hc.results id ≡ some r) × (r.url ≡ url)
  pub checked :
      (url : Bytes) (id : ℕ) → load url hc.targets ≡ some id → is_checked url hc.checkers ≡ true

-- An assignment through a pointer leaves the checker sound.
assigned-IsSound :
    (f : HealthCheckResult → HealthCheckResult) (id : ℕ) (hc : HealthChecker)
    → Keeps f
    → IsSound hc
    → IsSound (record hc { results = assign id f hc.results })
assigned-IsSound f id hc keeps s = record {
  unique = s.unique;
  results_right = assign-IsRight f keeps hc.results id s.results_right;
  found = λ url j e.
      let (r, p, q) = s.found url j e in
      let (r', p', q') = assign-found f keeps hc.results id s.results_right j r p in
      (r', p', q' ∙ q);
  checked = s.checked;
}

module _ (hc : HealthChecker) (s : IsSound hc) where
  -- The maps that agree on what they have are enough.
  fewer-IsSound :
      (targets : Table ℕ)
      → IsUnique targets
      → ((url : Bytes) (id : ℕ) → load url targets ≡ some id → load url hc.targets ≡ some id)
      → IsSound (record hc { targets = targets })
  fewer-IsSound targets unique fewer = record {
    unique = unique;
    results_right = s.results_right;
    found = λ url id e. s.found url id (fewer url id e);
    checked = λ url id e. s.checked url id (fewer url id e);
  }

  remove_target-IsSound : (url : Bytes) → IsSound (remove_target url hc)
  unfolding remove_target
  remove_target-IsSound url =
      fewer-IsSound (delete url hc.targets) (delete-IsUnique url hc.targets s.unique)
        (λ j id e. ground (arith, load-delete url j hc.targets s.unique, e))

  add_target-IsSound :
      (url : Bytes) (interval_ms : ℕ) → 100 ≤ interval_ms → IsSound (add_target url interval_ms hc)
  unfolding add_target
  add_target-IsSound url interval_ms h = elim (Option-cases (load url hc.targets)) [
    | inr (id, there) ↦
        rw (there, add_target)
          (assigned-IsSound (with_interval interval_ms) id hc (λ r right. (refl, (right.0, h))) s)
    | inl new ↦
        rw (new, add_target)
          (record {
            unique = store-IsUnique url (length hc.results) hc.targets s.unique;
            results_right = λ j r e. elim (Bool-cases (j == length hc.results)) [
              | inl last ↦
                  let eq : r ≡ new_result url interval_ms =
                    ground
                      (arith, e, last, last_result hc.results (new_result url interval_ms) j) in
                  rw eq (refl, h)
              | inr old ↦
                  s.results_right j r
                    (ground (arith, e, old, last_result hc.results (new_result url interval_ms) j))
            ];
            found = λ k j e. elim (Bool-cases (bytes_eq url k)) [
              | inl same ↦
                  let eq : j ≡ length hc.results =
                    ground (arith, e, same, load-store url k (length hc.results) hc.targets) in
                  (
                    new_result url interval_ms,
                    ground (arith, eq, last_result hc.results (new_result url interval_ms) j),
                    eq_of_bytes_eq url k same,
                  )
              | inr other ↦
                  let (r, p, q) =
                    s.found k j
                      (ground (arith, e, other, load-store url k (length hc.results) hc.targets)) in
                  (
                    r,
                    ground (
                      arith,
                      p,
                      in_range hc.results r j p,
                      last_result hc.results (new_result url interval_ms) j,
                    ),
                    q,
                  )
            ];
            checked = λ k j e. elim (Bool-cases (bytes_eq url k)) [
              | inl same ↦ ground (arith, same)
              | inr other ↦
                  let old : load k hc.targets ≡ some j =
                    ground (arith, e, other, load-store url k (length hc.results) hc.targets) in
                  ground (arith, other, s.checked k j old)
            ];
          })
  ]

is_checked-append :
    (url : Bytes) (xs ys : List Checker)
    → is_checked url (xs ++ ys) ≡ (is_checked url xs || is_checked url ys)
is_checked-append url [] ys = refl
is_checked-append url (x ∷ xs) ys = ground (arith, is_checked-append url xs ys)

-- A goroutine that goes on is still there.
still_checked :
    (k url : Bytes) (p q : Position) (xs ys : List Checker)
    → is_checked k (xs ++ record { target = url; position = p } ∷ ys) ≡ true
    → is_checked k (xs ++ record { target = url; position = q } ∷ ys) ≡ true
still_checked k url p q xs ys e = ground (
  arith,
  e,
  is_checked-append k xs (record { target = url; position = p } ∷ ys),
  is_checked-append k xs (record { target = url; position = q } ∷ ys),
)

-- One that returns was not the goroutine of another url.
checked_without :
    (k url : Bytes) (p : Position) (xs ys : List Checker)
    → bytes_eq url k ≡ false
    → is_checked k (xs ++ record { target = url; position = p } ∷ ys) ≡ true
    → is_checked k (xs ++ ys) ≡ true
checked_without k url p xs ys other e = ground (
  arith,
  e,
  other,
  is_checked-append k xs (record { target = url; position = p } ∷ ys),
  is_checked-append k xs ys,
)

-- What one part of a goroutine leaves: it returns only where its url is no target.
record Advanced (url : Bytes) (hc hc' : HealthChecker) (q : Option Position) : Type 0 where
  sound : IsSound hc'
  targets : hc'.targets ≡ hc.targets
  stays : ((q ≡ none) × (load url hc.targets ≡ none)) ⊎ ((p : Position) × (q ≡ some p))

module _ (resp : Response) (took now : ℕ) (url : Bytes) (hc : HealthChecker) (s : IsSound hc) where
  same-Advanced :
      (hc' : HealthChecker) (q : Option Position) (p : Position)
      → ◌≡◌ {A = HealthChecker × Option Position} (hc, some p) (hc', q)
      → Advanced url hc hc' q
  same-Advanced hc' q p e =
      let same : hc' ≡ hc = cc in
      let goes_on : q ≡ some p = cc in
      rw same (record { sound = s; targets = refl; stays = inr (p, goes_on) })

  advance-Advanced :
      (p : Position) (hc' : HealthChecker) (q : Option Position)
      → advance resp took now url p hc ≡ (hc', q)
      → Advanced url hc hc' q
  unfolding advance
  advance-Advanced confirming hc' q e = elim (Option-cases (load url hc.targets)) [
    | inl gone ↦
        let same : hc' ≡ hc = ground (arith, e, gone) in
        let ended : q ≡ none = ground (arith, e, gone) in
        rw same (record { sound = s; targets = refl; stays = inl (ended, gone) })
    | inr (id, there) ↦ same-Advanced hc' q reading (ground (arith, e, there))
  ]
  advance-Advanced reading hc' q e = elim (Option-cases (load url hc.targets)) [
    | inl gone ↦ same-Advanced hc' q confirming (ground (arith, e, gone))
    | inr (id, there) ↦ same-Advanced hc' q (requesting id) (ground (arith, e, there))
  ]
  advance-Advanced (requesting result) hc' q e = elim (Option-cases (load url hc.targets)) [
    | inl gone ↦ same-Advanced hc' q confirming (ground (arith, e, gone))
    | inr (id, there) ↦
        let hc₁ = record hc { results = assign result (updated resp took now) hc.results } in
        let same : hc' ≡ hc₁ = ground (arith, e, there) in
        let goes_on : q ≡ some confirming = ground (arith, e, there) in
        rw same (record {
          sound =
              assigned-IsSound (updated resp took now) result hc (updated-Keeps resp took now) s;
          targets = refl;
          stays = inr (confirming, goes_on);
        })
  ]

checkers-IsSound :
    (hc : HealthChecker) (checkers : List Checker)
    → IsSound hc
    → ((url : Bytes) (id : ℕ) → load url hc.targets ≡ some id → is_checked url checkers ≡ true)
    → IsSound (record hc { checkers = checkers })
checkers-IsSound hc checkers s checked = record {
  unique = s.unique;
  results_right = s.results_right;
  found = s.found;
  checked = checked;
}

moved-IsSound :
    (hc hc' : HealthChecker) (xs ys : List Checker) (url : Bytes) (p : Position)
    (q : Option Position)
    → IsSound hc
    → Advanced url hc hc' q
    → hc.checkers ≡ xs ++ record { target = url; position = p } ∷ ys
    → IsSound (record hc' { checkers = xs ++ standing url q ys })
moved-IsSound hc hc' xs ys url p q s a e =
    checkers-IsSound hc' (xs ++ standing url q ys) a.sound λ k id there.
      let there₁ : load k hc.targets ≡ some id = rw a.targets at there in
      let was : is_checked k (xs ++ record { target = url; position = p } ∷ ys) ≡ true =
        rw e at (s.checked k id there₁) in
      elim a.stays [
        | inr (p', goes_on) ↦ rw goes_on (still_checked k url p p' xs ys was)
        | inl (ended, gone) ↦ rw ended (elim (Bool-cases (bytes_eq url k)) [
          | inl same ↦ absurd (ground (arith, gone, there₁, eq_of_bytes_eq url k same))
          | inr other ↦ checked_without k url p xs ys other was
        ])
      ]

Step-IsSound : {a b : HealthChecker} → Step a b → IsSound a → IsSound b
unfolding request_targets
Step-IsSound (asked hc gets) s = s
Step-IsSound (asked hc others) s = s
Step-IsSound (asked hc (posts none)) s = s
Step-IsSound (asked hc (posts (some (url, interval_ms)))) s =
    add_target-IsSound hc s url (default_interval interval_ms) (ground arith)
Step-IsSound (asked hc (deletes [])) s = s
Step-IsSound (asked hc (deletes (c ∷ cs))) s = remove_target-IsSound hc s (c ∷ cs)
Step-IsSound (moved hc hc' xs ys url p q resp took now e f) s =
    moved-IsSound hc hc' xs ys url p q s (advance-Advanced resp took now url hc s p hc' q f) e

Reach-IsSound : {b : HealthChecker} → Reach new_health_checker b → IsSound b
unfolding new_health_checker load
Reach-IsSound here = record {
  unique = tt;
  results_right = λ id r e. absurd cc;
  found = λ url id e. absurd cc;
  checked = λ url id e. absurd cc;
}
Reach-IsSound (next r st) = Step-IsSound st (Reach-IsSound r)

-- However requests and goroutines interleave, each target has a result for its url, which is up
-- exactly with a status from 200 to 399 and has an interval of at least 100 ms, and a goroutine that
-- checks the target.
pub Reach-IsWatched :
    {hc : HealthChecker} (url : Bytes) (id : ℕ)
    → Reach new_health_checker hc
    → load url hc.targets ≡ some id
    → IsWatched url hc
unfolding get_result
Reach-IsWatched {hc = hc} url id reach there =
    let s = Reach-IsSound reach in
    let (r, p, q) = s.found url id there in
    (r, ground (arith, there, p), q, s.results_right id r p, s.checked url id there)
