-- ===== src/DigitSum/Cases.antt =====
-- Runs of `addproc_1_svc`, and its theorems at concrete numbers.
use computer_networks_assign.Prelude.{◌≡◌, refl, true, false, some, [], ◌∷◌, arith}
use computer_networks_assign.Prelude.Int.{pos, negsuc, ◌+ℤ◌}
use computer_networks_assign.DigitSum.{rem10, quot10, digit_loop, addproc}
use computer_networks_assign.DigitSum.Laws.{signed, value, sum, addproc_digits}

-- 123 and -45: 6 - 9.
addproc_run : addproc (pos 123) (negsuc 44) ≡ some (negsuc 2)
unfolding addproc digit_loop rem10 quot10 ◌+ℤ◌
addproc_run = refl

addproc_digits_example :
    addproc (signed false (value (3 ∷ 2 ∷ 1 ∷ []))) (signed true (value (5 ∷ 4 ∷ [])))
    ≡ some (signed false (sum (3 ∷ 2 ∷ 1 ∷ [])) +ℤ signed true (sum (5 ∷ 4 ∷ [])))
addproc_digits_example =
    addproc_digits false true (3 ∷ 2 ∷ 1 ∷ []) (5 ∷ 4 ∷ []) (omega arith) (omega arith)
      (omega arith) (omega arith)
