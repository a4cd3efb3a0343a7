-- ===== src/TickTock/Cases.antt =====
-- Texts and times, and the theorems of the clock driver there.
use computer_networks_assign.Prelude.{ℕ, ◌+◌, ◌≡◌, refl, some, List, [], ◌∷◌, ◌++◌, arith}
use computer_networks_assign.Prelude.Int.{negsuc}
use computer_networks_assign.DigitSum.{rem10, quot10}
use computer_networks_assign.TickTock.{
  digits_loop, digit_char, finish, negated, reverse, itoa, readme, writeme, to_int,
}
use computer_networks_assign.TickTock.Places.{Decimal, sign}
use computer_networks_assign.TickTock.Decimal.{itoa-Decimal, writeme-readme}

itoa_run : itoa (negsuc 119) ≡ some (b'-' ∷ b'1' ∷ b'2' ∷ b'0' ∷ [])
unfolding itoa digits_loop digit_char finish negated reverse rem10 quot10
itoa_run = refl

-- The least `int` stays negative, and its digits are characters below '0'.
itoa_least :
    itoa (negsuc 0x7fffffff)
    ≡ some (b'-' ∷ b'.' ∷ b'/' ∷ b',' ∷ b')' ∷ b',' ∷ b'(' ∷ b'-' ∷ b'*' ∷ b',' ∷ b'(' ∷ [])
unfolding itoa digits_loop digit_char finish negated reverse rem10 quot10
itoa_least = refl

-- One second past the 31 bits.
readme_2038 : to_int 0x80000000 ≡ negsuc 0x7fffffff
unfolding to_int
readme_2038 = refl

itoa-Decimal_example :
    (text : List ℕ) × (itoa (negsuc 41) ≡ some (sign (negsuc 41) ++ text)) × Decimal (0 + 42) text
itoa-Decimal_example = itoa-Decimal (negsuc 41) (omega arith)

writeme-readme_example :
    (text : List ℕ) × (readme 1600000000 100 ≡ some (100, text))
    × Decimal 1600000000 text
    × (writeme text 5 ≡ (5, 1600000000))
writeme-readme_example = writeme-readme 1600000000 100 5 (omega arith)
