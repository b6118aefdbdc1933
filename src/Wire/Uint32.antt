-- ===== src/Wire/Uint32.antt =====
-- Four bytes and the uint32 that they stand for.
use nmid.Prelude.{
  ℕ, ◌+◌, ◌<◌, ◌^◌, ◌≡◌, refl, ap, List, [], ◌∷◌, ◌++◌, arith, length, length-append,
}
use nmid.Wire.{Bytes, IsUint32, ok, be32, uint32}

pub length-be32 : (v : ℕ) → length (be32 v) ≡ 4
unfolding be32
length-be32 v = refl

pub uint32-be32 : (v : ℕ) (rest : Bytes) → IsUint32 v → uint32 (be32 v ++ rest) ≡ ok v
unfolding uint32 be32
uint32-be32 v rest h = ap ok (omega arith)

-- The library's law at bytes, as the arithmetic tactics take it.
pub length-append_bytes : (xs ys : Bytes) → length (xs ++ ys) ≡ length xs + length ys
length-append_bytes xs ys = length-append xs ys

pub ruleset sizes = (arith, length-append_bytes, length-be32)
