-- ===== src/Dashboard/Health/Cells.antt =====
-- The results that the health checker points to (pkg/dashboard/health.go).
use nmid.Prelude.{ℕ, zero, suc, ◌≤◌, ◌≡◌, refl, List, [], ◌∷◌, ◌++◌, false, ltb, leb}
use nmid.Prelude.{some, Option-cases, ◌&&◌, get_elem?, set, length, arith, inl, inr}
use nmid.Prelude.{if◌then◌else◌, Bool-cases, ◌==◌, ◌∙◌, ap}
use nmid.Dashboard.Health.{HealthCheckResult, assign, updated, Response, fails, responds}

-- A result is up exactly with a status from 200 to 399, and its interval is not below 100.
abbrev pub IsRight : HealthCheckResult → Type 0
IsRight r =
    (r.is_up ≡ (leb 200 r.status_code && ltb r.status_code 400)) × (100 ≤ r.check_interval_ms)

-- An assignment that keeps the url and leaves a right result.
abbrev pub Keeps : (HealthCheckResult → HealthCheckResult) → Type 0
Keeps f = (r : HealthCheckResult) → IsRight r → ((f r).url ≡ r.url) × IsRight (f r)

pub set_lem :
    {A : Type 0} (xs : List A) (i j : ℕ) (x y : A)
    → get_elem? xs i ≡ some x
    → get_elem? (set xs i y) j ≡ (if i == j then some y else get_elem? xs j)
set_lem [] i j x y e = absurd cc
set_lem (z ∷ xs) zero zero x y e = ground arith
set_lem (z ∷ xs) zero (suc j) x y e = ground arith
set_lem (z ∷ xs) (suc i) zero x y e = ground arith
set_lem (z ∷ xs) (suc i) (suc j) x y e = ground (arith, set_lem xs i j x y e)

module _ (f : HealthCheckResult → HealthCheckResult) (keeps : Keeps f)
    (results : List HealthCheckResult) (id : ℕ) where
  assign_at :
      (x : HealthCheckResult)
      → get_elem? results id ≡ some x
      → (j : ℕ)
      → get_elem? (assign id f results) j ≡ (if id == j then some (f x) else get_elem? results j)
  assign_at x p j = ground (arith, p, set_lem results id j x (f x) p)

  pub assign-found :
      ((j : ℕ) (r : HealthCheckResult) → get_elem? results j ≡ some r → IsRight r)
      → (j : ℕ) (r : HealthCheckResult) → get_elem? results j ≡ some r
      → (r' : HealthCheckResult) × (get_elem? (assign id f results) j ≡ some r') × (r'.url ≡ r.url)
  assign-found right j r e = elim (Option-cases (get_elem? results id)) [
    | inl out ↦ (r, ground (arith, out, e), refl)
    | inr (x, p) ↦ elim (Bool-cases (id == j)) [
      | inl same ↦
          let eq : x ≡ r = ground (arith, p, e, same) in
          (
            f x,
            ground (arith, same, assign_at x p j),
            (keeps x (right id x p)).0 ∙ ap (λ t. t.url) eq,
          )
      | inr other ↦ (r, ground (arith, e, other, assign_at x p j), refl)
    ]
  ]

  pub assign-IsRight :
      ((j : ℕ) (r : HealthCheckResult) → get_elem? results j ≡ some r → IsRight r)
      → (j : ℕ) (r : HealthCheckResult) → get_elem? (assign id f results) j ≡ some r
      → IsRight r
  assign-IsRight right j r e = elim (Option-cases (get_elem? results id)) [
    | inl out ↦ right j r (ground (arith, out, e))
    | inr (x, p) ↦ elim (Bool-cases (id == j)) [
      | inl same ↦
          let eq : r ≡ f x = ground (arith, e, same, assign_at x p j) in
          rw eq (keeps x (right id x p)).1
      | inr other ↦ right j r (ground (arith, e, other, assign_at x p j))
    ]
  ]

pub updated-Keeps : (resp : Response) (took now : ℕ) → Keeps (updated resp took now)
unfolding updated
updated-Keeps (fails message) took now r h = (refl, (refl, h.1))
updated-Keeps (responds code) took now r h = (refl, (refl, h.1))

-- A new target: its result is the last.
pub last_result :
    (results : List HealthCheckResult) (r : HealthCheckResult) (j : ℕ)
    → get_elem? (results ++ r ∷ []) j
      ≡ (if j == length results then some r else get_elem? results j)
last_result [] r zero = refl
last_result [] r (suc j) = ground arith
last_result (x ∷ xs) r zero = ground arith
last_result (x ∷ xs) r (suc j) = ground (arith, last_result xs r j)

pub in_range :
    (results : List HealthCheckResult) (r : HealthCheckResult) (j : ℕ)
    → get_elem? results j ≡ some r
    → (j == length results) ≡ false
in_range [] r j e = absurd cc
in_range (x ∷ xs) r zero e = ground arith
in_range (x ∷ xs) r (suc j) e = ground (arith, in_range xs r j e)
