-- ===== src/Print/Tests.antt =====
-- Some numbers, printed.
use carl9170fw.Base.{◌≡◌, refl, [], ◌∷◌, some, true}
use carl9170fw.Print.{print_u, print_d, print_x, div_out, out_dgt}

-- "90210", "C0FFEE", "-1" and, for 1000000000, "a00000000".
plain : print_u 90210 ≡ some (57 ∷ 48 ∷ 50 ∷ 49 ∷ 48 ∷ [])
unfolding print_u div_out out_dgt
plain = refl

upper : print_x true 0xc0ffee ≡ some (67 ∷ 48 ∷ 70 ∷ 70 ∷ 69 ∷ 69 ∷ [])
unfolding print_x div_out out_dgt
upper = refl

negative : print_d 0xffffffff ≡ some (45 ∷ 49 ∷ [])
unfolding print_d div_out out_dgt
negative = refl

too_long : print_u 1000000000 ≡ some (97 ∷ 48 ∷ 48 ∷ 48 ∷ 48 ∷ 48 ∷ 48 ∷ 48 ∷ 48 ∷ [])
unfolding print_u div_out out_dgt
too_long = refl
