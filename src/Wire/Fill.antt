-- ===== src/Wire/Fill.antt =====
-- Filling a fresh buffer from the left: each write lands behind what was written before.
use nmid.Prelude.{ℕ, suc, ◌+◌, ◌-◌, ◌≤◌, ◌≡◌, refl, sym, ap, [], ◌∷◌, ◌++◌, arith}
use nmid.Prelude.{
  leb, length, take, drop, replicate, length-append, length-replicate, length-take_le, take-length,
}
use nmid.Prelude.{take-append, drop-append, drop-replicate, ◌&&◌, true}
use native.Mathlib.Nat.{le_refl}
use mathlib.Core.List.{append_assoc, append-nil}
use nmid.Wire.{Bytes, Outcome, ok, ◌>>=◌, copy_to, copy_into, be32, put_uint32, make}

-- A buffer whose front is written, with `m` zero bytes left.
abbrev pub filled : Bytes → ℕ → Bytes
filled pre m = pre ++ replicate m 0

drop_past : (pre : Bytes) (n m : ℕ) → drop (length pre + n) (filled pre m) ≡ replicate (m - n) 0
drop_past [] n m = rw (zero_add n) (drop-replicate n m 0)
  where
    zero_add : (k : ℕ) → 0 + k ≡ k
    zero_add k = omega arith
drop_past (x ∷ pre) n m = rw (suc_add (length pre) n) (drop_past pre n m)
  where
    suc_add : (k j : ℕ) → suc k + j ≡ suc (k + j)
    suc_add k j = omega arith

length-filled : (pre : Bytes) (m : ℕ) → length (filled pre m) ≡ length pre + m
length-filled pre m = omega (arith, length-append pre (replicate m 0), length-replicate {A = ℕ} m 0)

within :
    (pre : Bytes) (n m : ℕ)
    → n ≤ m
    → leb (length pre) (length pre + n) && leb (length pre + n) (length (filled pre m)) ≡ true
within pre n m h = rw length-filled (ground arith)

four_wide : (n : ℕ) → leb 4 (n + 4 - n) ≡ true
four_wide n = ground arith

-- PutUint32 at the end of the written part.
pub put_uint32-filled :
    (pre : Bytes) (m v : ℕ)
    → 4 ≤ m
    → put_uint32 (filled pre m) (length pre) (length pre + 4) v
      ≡ ok (filled (pre ++ be32 v) (m - 4))
unfolding put_uint32 be32
put_uint32-filled pre m v h =
    rw (within pre 4 m h, put_uint32)
      (rw (four_wide (length pre))
        (rw (take-append pre, drop_past pre 4 m) (ap ok (sym (append_assoc pre _ _)))))

-- copy onto a slice of the same length replaces it.
pub copy_to_full : (dst src : Bytes) → length dst ≡ length src → copy_to dst src ≡ src
unfolding copy_to
copy_to_full dst src h = rw (h, take-length src, drop_all dst src h) (append-nil src)
  where
    drop_all : (xs ys : Bytes) → length xs ≡ length ys → drop (length ys) xs ≡ []
    drop_all [] [] e = refl
    drop_all [] (y ∷ ys) e = refl
    drop_all (x ∷ xs) [] e = absurd (omega arith)
    drop_all (x ∷ xs) (y ∷ ys) e = drop_all xs ys (omega arith)

width :
    (pre : Bytes) (n m : ℕ)
    → n ≤ m
    → length (take (length pre + n - length pre) (replicate {A = ℕ} m 0)) ≡ n
width pre n m h =
    rw (sub_self (length pre))
      (length-take_le n (replicate m 0) (rw (length-replicate {A = ℕ} m 0) h))
  where
    sub_self : (k : ℕ) → k + n - k ≡ n
    sub_self k = omega arith

-- copy to the end of the written part, of a source that fills its target.
pub copy_into-filled :
    (pre src : Bytes) (m : ℕ)
    → length src ≤ m
    → copy_into (filled pre m) (length pre) (length pre + length src) src
      ≡ ok (filled (pre ++ src) (m - length src))
unfolding copy_into
copy_into-filled pre src m h =
    rw (within pre (length src) m h, copy_into)
      (rw (take-append pre, drop-append pre, drop_past pre (length src) m)
        (rw (copy_to_full _ src (width pre (length src) m h))
          (ap ok (sym (append_assoc pre src _)))))

-- The same as rules for a chain of writes that goes on as `k`, at the positions that the code
-- computes.
pub put_then :
    {A : Type 0} (pre : Bytes) (m s e v : ℕ) (k : Bytes → Outcome A) {r : Outcome A}
    → s ≡ length pre
    → e ≡ s + 4
    → 4 ≤ m
    → k (filled (pre ++ be32 v) (m - 4)) ≡ r
    → (put_uint32 (filled pre m) s e v >>= k) ≡ r
put_then pre m s e v k p q h t = rw (q, p) (rw (put_uint32-filled pre m v h) t)

pub copy_then :
    {A : Type 0} (pre src : Bytes) (m s e : ℕ) (k : Bytes → Outcome A) {r : Outcome A}
    → s ≡ length pre
    → e ≡ s + length src
    → length src ≤ m
    → k (filled (pre ++ src) (m - length src)) ≡ r
    → (copy_into (filled pre m) s e src >>= k) ≡ r
copy_then pre src m s e k p q h t = rw (q, p) (rw (copy_into-filled pre src m h) t)

-- The last write fills the buffer.
pub copy_last :
    (pre src : Bytes) (m s : ℕ) {r : Bytes}
    → s ≡ length pre
    → m ≡ length src
    → pre ++ src ≡ r
    → copy_into (filled pre m) s (length (filled pre m)) src ≡ ok r
copy_last pre src m s p q t =
    rw (p, length-filled, q)
      (rw (copy_into-filled pre src (length src) (le_refl (length src)))
        (rw (sub_self (length src)) (rw (append-nil (pre ++ src)) (ap ok t))))
  where
    sub_self : (n : ℕ) → n - n ≡ 0
    sub_self n = omega arith

-- `make n` before the first write.
pub filled-nil : (n : ℕ) → make n ≡ filled [] n
unfolding make
filled-nil n = refl

-- The last write at given bounds, in a chain that goes on as `k`.
pub copy_end :
    {A : Type 0} (pre src : Bytes) (m s e : ℕ) (k : Bytes → Outcome A) {r : Outcome A}
    → s ≡ length pre
    → e ≡ s + length src
    → m ≡ length src
    → k (pre ++ src) ≡ r
    → (copy_into (filled pre m) s e src >>= k) ≡ r
copy_end pre src m s e k p q l t =
    copy_then pre src m s e k p q (omega arith)
      (rw (l, sub_self (length src), append-nil (pre ++ src)) t)
  where
    sub_self : (n : ℕ) → n - n ≡ 0
    sub_self n = omega arith
