-- ===== src/Wire/Scan.antt =====
-- Reading a buffer from the left: `At buf s rest` says that `rest` is what `buf` holds from `s` on.
use nmid.Prelude.{ℕ, zero, suc, ◌+◌, ◌-◌, ◌≡◌, refl, ap, [], ◌∷◌, ◌++◌, arith}
use nmid.Prelude.{leb, length, drop, length-append, take-append, ◌&&◌, true, drop-append}
use nmid.Wire.{Bytes, ◌>>=◌, IsUint32, Outcome, ok, slice, be32, uint32_at}
use nmid.Wire.Uint32.{length-be32, uint32-be32}
use mathlib.Core.List.{append-nil}

pub record At (buf : Bytes) (s : ℕ) (rest : Bytes) : Type 0 where
  pub holds : drop s buf ≡ rest
  pub fits : s + length rest ≡ length buf

pub At-start : {buf xs : Bytes} → buf ≡ xs → At buf 0 xs
At-start e = record { holds = e; fits = rw e (omega arith) }

drop-drop : (s n : ℕ) (xs : Bytes) → drop (s + n) xs ≡ drop n (drop s xs)
drop-drop zero n xs = rw (zero_add n)
  where
    zero_add : (k : ℕ) → 0 + k ≡ k
    zero_add k = omega arith
drop-drop (suc s) n [] = rw (suc_add s n) (drop_nil n)
  where
    suc_add : (k j : ℕ) → suc k + j ≡ suc (k + j)
    suc_add k j = omega arith

    drop_nil : (k : ℕ) → [] ≡ drop {A = ℕ} k []
    drop_nil zero = refl
    drop_nil (suc k) = refl
drop-drop (suc s) n (x ∷ xs) = rw (suc_add s n) (drop-drop s n xs)
  where
    suc_add : (k j : ℕ) → suc k + j ≡ suc (k + j)
    suc_add k j = omega arith

pub At-slice :
    {buf : Bytes} (s e : ℕ) (xs rest : Bytes)
    → At buf s (xs ++ rest)
    → e ≡ s + length xs
    → slice buf s e ≡ ok xs
unfolding slice
At-slice {buf} s e xs rest a p =
    rw (in_range, slice) (rw (a.holds, width) (ap ok (take-append xs rest)))
  where
    in_range : leb s e && leb e (length buf) ≡ true
    in_range = ground (arith, a.fits, length-append xs rest)

    width : e - s ≡ length xs
    width = omega arith

pub At-next :
    {buf : Bytes} (s e : ℕ) (xs rest : Bytes)
    → At buf s (xs ++ rest)
    → e ≡ s + length xs
    → At buf e rest
At-next {buf} s e xs rest a p = record {
  holds = rw (p, drop-drop s (length xs) buf, a.holds) (drop-append xs rest);
  fits = omega (arith, a.fits, length-append xs rest);
}

pub At-uint32 :
    {buf : Bytes} (s e v : ℕ) (rest : Bytes)
    → At buf s (be32 v ++ rest)
    → e ≡ s + 4
    → IsUint32 v
    → uint32_at buf s e ≡ ok v
unfolding uint32_at
At-uint32 {buf} s e v rest a p h =
    rw (At-slice s e (be32 v) rest a (rw (length-be32 v) p), uint32_at)
      (rw (append-nil (be32 v)) at (uint32-be32 v [] h))

-- The same as rules for a chain of reads that goes on as `k`.
pub scan_uint32 :
    {A : Type 0} (buf : Bytes) (s e v : ℕ) (rest : Bytes) (k : ℕ → Outcome A) {r : Outcome A}
    → At buf s (be32 v ++ rest)
    → e ≡ s + 4
    → IsUint32 v
    → (At buf e rest → k v ≡ r)
    → (uint32_at buf s e >>= k) ≡ r
scan_uint32 buf s e v rest k a p h t =
    rw (At-uint32 s e v rest a p h) (t (At-next s e (be32 v) rest a (rw (length-be32 v) p)))

pub scan_slice :
    {A : Type 0} (buf : Bytes) (s e : ℕ) (xs rest : Bytes) (k : Bytes → Outcome A) {r : Outcome A}
    → At buf s (xs ++ rest)
    → e ≡ s + length xs
    → (At buf e rest → k xs ≡ r)
    → (slice buf s e >>= k) ≡ r
scan_slice buf s e xs rest k a p t = rw (At-slice s e xs rest a p) (t (At-next s e xs rest a p))

-- The slice up to the end of the buffer.
pub scan_last :
    {A : Type 0} (buf : Bytes) (s : ℕ) (xs : Bytes) (k : Bytes → Outcome A) {r : Outcome A}
    → At buf s xs
    → k xs ≡ r
    → (slice buf s (length buf) >>= k) ≡ r
scan_last buf s xs k a t =
    scan_slice buf s (length buf) xs [] k (rw (append-nil xs) a) (omega (arith, a.fits)) (λ _. t)
