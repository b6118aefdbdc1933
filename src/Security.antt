-- ===== src/Security.antt =====
-- pkg/security: the white list and the black list of addresses, and their use in NewConnect
-- (pkg/server/connect.go).
-- net.ParseCIDR and Contains are parameters: `contains mask ip` is none where the mask is no CIDR.
pub mod Admission
pub mod Samples
use nmid.Prelude.{Bool, true, false, not, ◌&&◌, if◌then◌else◌, Option, none, some, List, [], ◌∷◌}
use nmid.Prelude.{bytes_eq}
use nmid.Wire.{Bytes}

-- One of the two lists of the configuration: whether it is used, its addresses, and its masks.
pub record AddressList : Type 0 where
  pub enable : Bool
  pub addresses : List Bytes
  pub masks : List Bytes

unfoldable pub listed_address : Bytes → List Bytes → Bool
listed_address ip [] = false
listed_address ip (a ∷ rest) = if bytes_eq a ip then true else listed_address ip rest

module _ (contains : Bytes → Bytes → Option Bool) where
  -- The loop over the masks: whether it returns early.
  unfoldable pub in_masks : Bytes → List Bytes → Bool
  in_masks ip [] = false
  in_masks ip (mask ∷ masks) =
      let rest = in_masks ip masks in
      elim (contains mask ip) [ none ↦ rest | some b ↦ if b then true else rest ]

  unfoldable pub do_white_list : AddressList → Bytes → Bool
  do_white_list config ip =
      if not config.enable
      then true
      else if listed_address ip config.addresses
      then true
      else in_masks ip config.masks

  unfoldable pub do_black_list : AddressList → Bytes → Bool
  do_black_list config ip =
      if not config.enable
      then false
      else if listed_address ip config.addresses
      then false
      else not (in_masks ip config.masks)

  -- The two tests of NewConnect: whether it keeps the connection.
  unfoldable pub new_connect : AddressList → AddressList → Bytes → Bool
  new_connect white black ip =
      if white.enable && not (do_white_list white ip)
      then false
      else not (black.enable && do_black_list black ip)
