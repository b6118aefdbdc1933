-- ===== src/Security/Samples.antt =====
-- An address on the black list alone, with masks that cover themselves.
use nmid.Prelude.{Bool, true, false, Option, some, [], ◌∷◌, ◌≡◌, ◌↔◌, ◌⊎◌, bytes_eq}
use nmid.Wire.{Bytes}
use nmid.Security.{AddressList, new_connect}
use nmid.Security.Admission.{Covers, new_connect_iff}

abbrev same_address : Bytes → Bytes → Option Bool
same_address mask ip = some (bytes_eq mask ip)

abbrev threat : Bytes
threat = b'6' ∷ b'.' ∷ b'6' ∷ []

abbrev no_white_list : AddressList
no_white_list = record { enable = false; addresses = []; masks = [] }

abbrev black_list : AddressList
black_list = record { enable = true; addresses = threat ∷ []; masks = [] }

new_connect_iff_example : (new_connect same_address no_white_list black_list threat ≡ true) ↔ (
    ((false ≡ false) ⊎ Covers same_address threat no_white_list)
    × ((true ≡ false) ⊎ Covers same_address threat black_list))
new_connect_iff_example = new_connect_iff same_address no_white_list black_list threat
