-- ===== src/Direct/Proto/Total.antt =====
-- The unpacking functions of pkg/direct/proto.go on any bytes.
use nmid.Prelude.{ℕ, ◌+◌, ◌≢◌, ltb, length, arith, Bool-cases, inl, inr, ◌≡◌, ◌≤◌, [], ◌∷◌}
use nmid.Prelude.{refl, ◌-◌, take, drop, length-take_le, length-drop}
use nmid.Wire.{Bytes, ok, panics, slice, uint32, uint32_at}
use nmid.Direct.Proto.{unpack_call, unpack_service, unpack_reply}

slice_in_range :
    (buf : Bytes) (s e : ℕ)
    → s ≤ e
    → e ≤ length buf
    → (xs : Bytes) × (slice buf s e ≡ ok xs) × (length xs ≡ e - s)
unfolding slice
slice_in_range buf s e p q = (
  take (e - s) (drop s buf),
  ground arith,
  length-take_le (e - s) (drop s buf) (omega (arith, length-drop s buf)),
)

uint32_total : (xs : Bytes) → length xs ≡ 4 → (v : ℕ) × (uint32 xs ≡ ok v)
unfolding uint32
uint32_total [] e = absurd (omega arith)
uint32_total (a ∷ []) e = absurd (omega arith)
uint32_total (a ∷ b ∷ []) e = absurd (omega arith)
uint32_total (a ∷ b ∷ c ∷ []) e = absurd (omega arith)
uint32_total (a ∷ b ∷ c ∷ d ∷ rest) e = (_, refl)

pub uint32_at_total :
    (buf : Bytes) (s : ℕ) → s + 4 ≤ length buf → (v : ℕ) × (uint32_at buf s (s + 4) ≡ ok v)
unfolding uint32_at
uint32_at_total buf s h =
    let (xs, e, size) = slice_in_range buf s (s + 4) (omega arith) h in
    let (v, e') = uint32_total xs (omega arith) in (v, rw (e, uint32_at) e')

unpack_service_total :
    (content : Bytes) (slen : ℕ)
    → 4 + slen + 4 ≤ length content
    → unpack_service content slen ≢ panics
unfolding unpack_service
unpack_service_total content slen h e =
    let (service, e₁, size₁) = slice_in_range content 4 (4 + slen) (omega arith) (omega arith) in
    let (plen, e₂) = uint32_at_total content (4 + slen) h in
    elim (Bool-cases (ltb (length content) (4 + slen + 4 + plen))) [
      | inl short ↦ ground (arith, e, e₁, e₂, short)
      | inr whole ↦
          let (payload, e₃, size₃) =
            slice_in_range content (4 + slen + 4) (4 + slen + 4 + plen) (omega arith)
              (ground arith) in
          ground (arith, e, e₁, e₂, e₃, whole)
    ]

-- UnpackCall of any bytes ends with a call or an error: no index is out of range.
pub unpack_call_total : (content : Bytes) → unpack_call content ≢ panics
unfolding unpack_call
unpack_call_total content e = elim (Bool-cases (ltb (length content) 8)) [
  | inl short ↦ ground (arith, e, short)
  | inr long ↦
      let (slen, e₁) = uint32_at_total content 0 (ground arith) in
      elim (Bool-cases (ltb (length content) (4 + slen + 4))) [
        | inl cut ↦ ground (arith, e, long, e₁, cut)
        | inr whole ↦
            unpack_service_total content slen (ground arith) (ground (arith, e, long, e₁, whole))
      ]
]

-- UnpackReply of any bytes ends with a reply or an error: no index is out of range.
pub unpack_reply_total : (content : Bytes) → unpack_reply content ≢ panics
unfolding unpack_reply
unpack_reply_total content e = elim (Bool-cases (ltb (length content) 8)) [
  | inl short ↦ ground (arith, e, short)
  | inr long ↦
      let (status, e₁) = uint32_at_total content 0 (ground arith) in
      let (dlen, e₂) = uint32_at_total content 4 (ground arith) in
      elim (Bool-cases (ltb (length content) (8 + dlen))) [
        | inl cut ↦ ground (arith, e, long, e₁, e₂, cut)
        | inr whole ↦
            let (xs, e₃, size) = slice_in_range content 8 (8 + dlen) (omega arith) (ground arith) in
            ground (arith, e, long, e₁, e₂, e₃, whole)
      ]
]
