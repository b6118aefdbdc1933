-- ===== src/Security/Admission.antt =====
-- Which addresses NewConnect keeps.
use nmid.Prelude.{Bool, true, false, Option, some, List, [], ◌∷◌}
use nmid.Prelude.{bytes_eq, bytes_eq_iff, arith, ◌≡◌, ◌↔◌, ◌⊎◌, refl, inl, inr, ℕ, zero, suc}
use nmid.Prelude.{get_elem?, Option-cases, Bool-cases}
use nmid.Wire.{Bytes}
use nmid.Security.{AddressList, listed_address, in_masks, do_white_list, do_black_list, new_connect}

find_address :
    (ip : Bytes) (xs : List Bytes)
    → listed_address ip xs ≡ true
    → (i : ℕ) × (get_elem? xs i ≡ some ip)
unfolding listed_address
find_address ip [] e = ground arith
find_address ip (a ∷ xs) e = elim (Bool-cases (bytes_eq a ip)) [
  | inl same ↦ (0, ground (arith, same, bytes_eq_iff a ip))
  | inr other ↦ let (i, e') = find_address ip xs (ground (arith, e, other)) in (suc i, e')
]

has_address :
    (ip : Bytes) (xs : List Bytes) (i : ℕ) → get_elem? xs i ≡ some ip → listed_address ip xs ≡ true
unfolding listed_address
has_address ip [] i e = cc
has_address ip (a ∷ xs) zero e = ground (arith, e, bytes_eq_iff a ip)
has_address ip (a ∷ xs) (suc i) e = ground (arith, has_address ip xs i e)

module _ (contains : Bytes → Bytes → Option Bool) where
  -- An address is on a list if it is one of its addresses, or in one of its masks.
  abbrev pub Covers : Bytes → AddressList → Type 0
  Covers ip config =
      ((i : ℕ) × (get_elem? config.addresses i ≡ some ip))
      ⊎ ((i : ℕ) × (mask : Bytes) × (get_elem? config.masks i ≡ some mask)
          × (contains mask ip ≡ some true))

  find_mask :
      (ip : Bytes) (masks : List Bytes)
      → in_masks contains ip masks ≡ true
      → (i : ℕ) × (mask : Bytes) × (get_elem? masks i ≡ some mask) × (contains mask ip ≡ some true)
  unfolding in_masks
  find_mask ip [] e = ground arith
  find_mask ip (mask ∷ masks) e = elim (Option-cases (contains mask ip)) [
    | inr (true, known) ↦ (0, mask, refl, known)
    | inr (false, known) ↦
        let (i, m, p, q) = find_mask ip masks (ground (arith, e, known)) in (suc i, m, p, q)
    | inl bad ↦ let (i, m, p, q) = find_mask ip masks (ground (arith, e, bad)) in (suc i, m, p, q)
  ]

  has_mask :
      (ip : Bytes) (masks : List Bytes) (i : ℕ) (mask : Bytes)
      → get_elem? masks i ≡ some mask
      → contains mask ip ≡ some true
      → in_masks contains ip masks ≡ true
  unfolding in_masks
  has_mask ip [] i mask e q = cc
  has_mask ip (m ∷ masks) zero mask e q =
      let same : m ≡ mask = cc in
      let known : contains m ip ≡ some true = rw same q in ground (arith, known)
  has_mask ip (m ∷ masks) (suc i) mask e q =
      let rest = has_mask ip masks i mask e q in
      elim (Option-cases (contains m ip)) [
        | inl bad ↦ ground (arith, bad, rest)
        | inr (true, known) ↦ ground (arith, known, rest)
        | inr (false, known) ↦ ground (arith, known, rest)
      ]

  covered :
      (ip : Bytes) (config : AddressList)
      → (listed_address ip config.addresses ≡ true) ⊎ (in_masks contains ip config.masks ≡ true)
      → Covers ip config
  covered ip config (inl e) = inl (find_address ip config.addresses e)
  covered ip config (inr e) = inr (find_mask ip config.masks e)

  covers :
      (ip : Bytes) (config : AddressList)
      → Covers ip config
      → (listed_address ip config.addresses ≡ true) ⊎ (in_masks contains ip config.masks ≡ true)
  covers ip config (inl (i, e)) = inl (has_address ip config.addresses i e)
  covers ip config (inr (i, mask, e, q)) = inr (has_mask ip config.masks i mask e q)

  passes :
      (config : AddressList) (ip : Bytes)
      → (config.enable ≡ false)
        ⊎ ((listed_address ip config.addresses ≡ true) ⊎ (in_masks contains ip config.masks ≡ true))
      → (config.enable ≡ false) ⊎ Covers ip config
  passes config ip (inl off) = inl off
  passes config ip (inr on) = inr (covered ip config on)

  passed :
      (config : AddressList) (ip : Bytes)
      → (config.enable ≡ false) ⊎ Covers ip config
      → (config.enable ≡ false)
        ⊎ ((listed_address ip config.addresses ≡ true) ⊎ (in_masks contains ip config.masks ≡ true))
  passed config ip (inl off) = inl off
  passed config ip (inr on) = inr (covers ip config on)

  -- NewConnect keeps a connection if and only if the white list is off or covers its address, and the
  -- black list is off or covers its address.
  pub new_connect_iff :
      (white black : AddressList) (ip : Bytes)
      → (new_connect contains white black ip ≡ true)
        ↔ (((white.enable ≡ false) ⊎ Covers ip white) × ((black.enable ≡ false) ⊎ Covers ip black))
  unfolding new_connect do_white_list do_black_list
  new_connect_iff white black ip = (
    λ kept. (passes white ip (ground (arith, kept)), passes black ip (ground (arith, kept))),
    λ both. ground (arith, passed white ip both.0, passed black ip both.1),
  )
