-- ===== src/Wire/Bind.antt =====
-- What a chain of calls that ended with a value tells of its first call.
use nmid.Prelude.{◌≡◌, refl}
use nmid.Wire.{Outcome, ok, err, panics, ◌>>=◌}

module _ {A B : Type 0} {next : A → Outcome B} {b : B} where
  pub first_value :
      (first : Outcome A) → (first >>= next) ≡ ok b → (a : A) × (next a ≡ ok b) × (first ≡ ok a)
  first_value panics ran = cc
  first_value (err e) ran = cc
  first_value (ok a) ran = (a, ran, refl)
