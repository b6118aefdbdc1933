-- ===== src/Wire/Frame.antt =====
-- A frame: the type of the sender, the packet type, the content's length, the content.
use nmid.Prelude.{
  ℕ, ◌≡◌, refl, [], ◌++◌, arith, length, if◌then◌else◌, leb, take, drop, ◌==◌, true, take-append,
  drop-append, length-append,
}
use nmid.Wire.{Bytes, IsUint32, Outcome, ok, err, eof, unexpected_eof, ◌>>=◌, be32, uint32_at}
use nmid.Wire.Uint32.{sizes}
use nmid.Wire.Scan.{At-start, At-next, scan_uint32}
use mathlib.Core.List.{append_assoc, append-nil}

abbrev pub frame_bytes : ℕ → ℕ → Bytes → Bytes
frame_bytes conn_type data_type content =
    be32 conn_type ++ (be32 data_type ++ (be32 (length content) ++ content))

-- io.ReadFull of `n` bytes from a stream that ends behind the given bytes: what was read, and what
-- is left.
unfoldable pub read_full : ℕ → Bytes → Outcome (Bytes × Bytes)
read_full n stream =
    if leb n (length stream)
    then ok (take n stream, drop n stream)
    else if length stream == 0
    then err eof
    else err unexpected_eof

pub read_full-append :
    (xs rest : Bytes) (n : ℕ) → n ≡ length xs → read_full n (xs ++ rest) ≡ ok (xs, rest)
unfolding read_full
read_full-append xs rest n e = rw (e, in_reach) (rw (take-append xs rest, drop-append xs rest) refl)
  where
    in_reach : leb (length xs) (length (xs ++ rest)) ≡ true
    in_reach = ground (arith, length-append xs rest)

-- A frame behind which the stream goes on: the twelve bytes of the header, then the content.
abbrev pub header_bytes : ℕ → ℕ → ℕ → Bytes
header_bytes conn_type data_type n = be32 conn_type ++ (be32 data_type ++ be32 n)

pub frame-split :
    (conn_type data_type : ℕ) (content rest : Bytes)
    → frame_bytes conn_type data_type content ++ rest
      ≡ header_bytes conn_type data_type (length content) ++ (content ++ rest)
frame-split conn_type data_type content rest = simp append_assoc

pub length-header : (conn_type data_type n : ℕ) → 12 ≡ length (header_bytes conn_type data_type n)
length-header conn_type data_type n = omega sizes

pub read_header :
    (conn_type data_type : ℕ) (content rest : Bytes)
    → read_full 12 (frame_bytes conn_type data_type content ++ rest)
      ≡ ok (header_bytes conn_type data_type (length content), content ++ rest)
read_header conn_type data_type content rest =
    rw (frame-split conn_type data_type content rest)
      (read_full-append _ _ 12 (length-header conn_type data_type (length content)))

-- The numbers of a header, and the sender and the length alone.
module _ {A : Type 0} (conn_type data_type n : ℕ)
    (fit : IsUint32 conn_type × IsUint32 data_type × IsUint32 n) where
  pub parse_header :
      (k : ℕ → ℕ → ℕ → Outcome A)
      → (do
        a ← uint32_at (header_bytes conn_type data_type n) 0 4
        b ← uint32_at (header_bytes conn_type data_type n) 4 8
        c ← uint32_at (header_bytes conn_type data_type n) 8 12
        k a b c)
        ≡ k conn_type data_type n
  parse_header k = scan_uint32 _ _ _ _ _ _ (At-start refl) (omega sizes) fit.0 λ a.
      scan_uint32 _ _ _ _ _ _ a (omega sizes) fit.1
        λ a. scan_uint32 _ _ _ n [] _ (rw append-nil a) (omega sizes) fit.2 λ _. refl

  pub parse_sender :
      (k : ℕ → ℕ → Outcome A)
      → (do
        a ← uint32_at (header_bytes conn_type data_type n) 0 4
        c ← uint32_at (header_bytes conn_type data_type n) 8 12
        k a c)
        ≡ k conn_type n
  parse_sender k = scan_uint32 _ _ _ _ _ _ (At-start refl) (omega sizes) fit.0 λ a.
      let a₂ = At-next 4 8 (be32 data_type) (be32 n) a (omega sizes) in
      scan_uint32 _ _ _ n [] _ (rw append-nil a₂) (omega sizes) fit.2 λ _. refl
