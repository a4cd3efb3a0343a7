-- ===== src/Hamming/Cases.antt =====
-- The code of four bits, and an error in it.
use computer_networks_assign.Prelude.{ℕ, ◌≡◌, refl, none, some, List, [], ◌∷◌, set, inl}
use computer_networks_assign.Hamming.{
  find_r, is_power_from, unprocessed_from, bit, positions_from, count_ones, process_from, generate,
  find_redun, correction_from, check,
}
use computer_networks_assign.Hamming.Carrying.{data_of, data_of-generate}
use computer_networks_assign.Hamming.Coding.{IsCode, generate_total, check_corrects}

abbrev four_bits : List ℕ
four_bits = b'1' ∷ b'0' ∷ b'1' ∷ b'1' ∷ []

abbrev four_code : List ℕ
four_code = b'0' ∷ b'1' ∷ b'1' ∷ b'0' ∷ b'0' ∷ b'1' ∷ b'1' ∷ []

four_run : generate four_bits ≡ some four_code
unfolding generate find_r unprocessed_from is_power_from process_from positions_from count_ones bit
four_run = refl

check_corrects_example :
    (check four_code ≡ some (0, four_code)) × (check (set four_code 4 b'1') ≡ some (5, four_code))
check_corrects_example =
    check_corrects four_bits four_code 4 b'0' b'1' four_run refl (inl (refl, refl))

generate_total_example : (code : List ℕ) × (generate four_bits ≡ some code) × IsCode code
generate_total_example = generate_total four_bits

-- Two errors in five bits can point behind the end.
two_errors : check (b'0' ∷ b'1' ∷ b'0' ∷ b'1' ∷ b'0' ∷ []) ≡ none
unfolding check find_redun correction_from positions_from count_ones bit
two_errors = refl

data_of-generate_example : data_of 1 four_code ≡ four_bits
data_of-generate_example = data_of-generate four_bits four_code four_run
