-- ===== src/TickTock/Decimal.antt =====
-- The text of a number, and the number of a text.
use mathlib.Core.List
use mathlib.Core.Path.{subst}
use computer_networks_assign.Prelude.{
  ℕ, zero, suc, ◌+◌, ◌-◌, ◌*◌, ◌%◌, ◌^◌, ◌≤◌, ◌<◌, inl, ◌≡◌, refl, ap, ◌∙◌, true, false, some, List,
  [], ◌∷◌, ◌++◌, length, length-append, arith,
}
use computer_networks_assign.Prelude.Int.{ℤ, pos, negsuc, pos_part, neg_part}
use computer_networks_assign.TickTock.{
  digits_loop, loop_fuel, negated, finish, itoa, atoi, to_int, readme, writeme,
}
use computer_networks_assign.TickTock.Reversal.{reverse_lem}
use computer_networks_assign.TickTock.Places.{
  Fits, digits_loop-Digits, value_from, atoi_from-append, sign, Decimal, Digits-Decimal,
  atoi-Decimal,
}

Fits-ten : (n : ℕ) → n < 2 ^ 31 → Fits 10 n
Fits-ten n h = omega arith

finish_plain : (ds : List ℕ) → length ds ≤ 10 → finish false ds ≡ some (List.reverse ds)
unfolding finish
finish_plain ds h = ground (arith, reverse_lem ds)

finish_minus : (ds : List ℕ) → length ds ≤ 10 → finish true ds ≡ some (b'-' ∷ List.reverse ds)
unfolding finish
finish_minus ds h = ground (
  arith,
  length-append ds (b'-' ∷ []),
  reverse_lem (ds ++ b'-' ∷ []) ∙ List.reverse-append ds (b'-' ∷ []),
)

itoa_of_pos :
    (n : ℕ) (ds : List ℕ)
    → digits_loop loop_fuel (pos (suc n)) [] ≡ some ds
    → itoa (pos (suc n)) ≡ finish false ds
unfolding itoa
itoa_of_pos n ds e = ground (arith, e)

negated_lem : (n : ℕ) → n + 1 < 2 ^ 31 → negated (negsuc n) ≡ pos (suc n)
unfolding negated
negated_lem n h = ground arith

itoa_of_negsuc :
    (n : ℕ) (ds : List ℕ)
    → n + 1 < 2 ^ 31
    → digits_loop loop_fuel (pos (suc n)) [] ≡ some ds
    → itoa (negsuc n) ≡ finish true ds
unfolding itoa
itoa_of_negsuc n ds h e = ground (arith, e, negated_lem n h)

-- For every `int` but the least, `itoa` stays within the buffer and writes a `-` if it is negative, and
-- then the decimal text of the magnitude without leading zeros: its digits give the magnitude by place
-- value, and there are at most ten.
pub itoa-Decimal :
    (num : ℤ)
    → pos_part num + neg_part num < 2 ^ 31
    → (text : List ℕ) × (itoa num ≡ some (sign num ++ text))
      × Decimal (pos_part num + neg_part num) text
unfolding itoa value_from
itoa-Decimal (pos zero) h = (
  b'0' ∷ [],
  refl,
  record { number = refl; digits = omega arith; leading = inl refl; short = omega arith },
)
itoa-Decimal (pos (suc n)) h =
    let (ds, run, d) =
      digits_loop-Digits loop_fuel 10 (suc n) [] (omega arith) (omega arith)
        (Fits-ten (suc n) (omega arith)) in
    (
      List.reverse ds,
      itoa_of_pos n ds run ∙ finish_plain ds d.short,
      subst (λ m. Decimal m (List.reverse ds)) (omega arith)
          (Digits-Decimal (suc n) ds (omega arith) d),
    )
itoa-Decimal (negsuc n) h =
    let (ds, run, d) =
      digits_loop-Digits loop_fuel 10 (suc n) [] (omega arith) (omega arith)
        (Fits-ten (suc n) (omega arith)) in
    (
      List.reverse ds,
      itoa_of_negsuc n ds (omega arith) run ∙ finish_minus ds d.short,
      subst (λ m. Decimal m (List.reverse ds)) (omega arith)
          (Digits-Decimal (suc n) ds (omega arith) d),
    )

-- A clock that is before 2038 reads as a decimal text; written back, this text sets the clock to the
-- time that was read. What the two calls return is the length that was asked for.
pub writeme-readme :
    (tv_sec len len' : ℕ)
    → tv_sec < 2 ^ 31
    → (text : List ℕ) × (readme tv_sec len ≡ some (len, text))
      × Decimal tv_sec text
      × (writeme text len' ≡ (len', tv_sec))
unfolding readme writeme to_int
writeme-readme tv_sec len len' h =
    let (text, run, d) = itoa-Decimal (pos tv_sec) (omega arith) in
    let d' : Decimal tv_sec text = subst (λ m. Decimal m text) (omega arith) d in
    (text, ground (arith, run), d', ap (λ n. (len', n)) (atoi-Decimal tv_sec text (omega arith) d'))

-- A text that ends with a newline, as a shell writes it, sets another time: `atoi` takes the newline
-- for a digit of value -38.
writeme_newline :
    (text : List ℕ) (len : ℕ)
    → writeme (text ++ 10 ∷ []) len ≡ (len, (atoi text * 10 + 2 ^ 32 - 38) % 2 ^ 32)
unfolding writeme atoi
writeme_newline text len = ap (λ n. (len, n)) (atoi_from-append 0 text 10 ∙ omega arith)
