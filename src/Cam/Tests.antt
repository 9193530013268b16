-- ===== src/Cam/Tests.antt =====
-- Key commands on an empty memory.
use carl9170fw.Base.{◌≡◌, refl, [], ◌∷◌, replicate, inr, arith}
use carl9170fw.Cam.{Cam, SetKey, set_key, disable_cam_user, enable_cam_user, disable_key}
use carl9170fw.Cam.Keys.{Stores, set_key-Stores, key_row, set_key-other_keys}

abbrev empty : Cam
empty = record { roll_call_l = 0; roll_call_h = 0; rows = λ r. replicate 4 0 }

abbrev command : SetKey
command = record {
  user = 33;
  key_id = 1;
  type = 4;
  mac_addr = 1 ∷ 2 ∷ 3 ∷ 4 ∷ 5 ∷ 6 ∷ [];
  key = 11 ∷ 22 ∷ 33 ∷ 44 ∷ [];
}

set_key-Stores_example : Stores command empty (set_key command empty)
set_key-Stores_example = set_key-Stores command empty

set_key-other_keys_example : (set_key command empty).rows (key_row 33 0) ≡ replicate 4 0
set_key-other_keys_example =
    set_key-other_keys command empty 33 0 (omega arith) (omega arith)
      (inr (λ e. absurd (omega arith))) (omega arith)

-- The user is enabled, its address and its type are where the hardware looks for them, and the user
-- can be disabled again.
enabled : (set_key command empty).roll_call_h ≡ 2
unfolding set_key disable_cam_user enable_cam_user
enabled = refl

address_row : (set_key command empty).rows 14 ≡ 0x300 ∷ 0 ∷ 0 ∷ 0 ∷ []
unfolding set_key disable_cam_user enable_cam_user
address_row = refl

type_of : (set_key command empty).rows 25 ≡ 0x40 ∷ 0 ∷ 0 ∷ 0 ∷ []
unfolding set_key disable_cam_user enable_cam_user
type_of = refl

disabled : (disable_key 33 (set_key command empty)).roll_call_h ≡ 0
unfolding disable_key set_key disable_cam_user enable_cam_user
disabled = refl
