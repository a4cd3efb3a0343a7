-- ===== src/DigitSum/Laws.antt =====
-- `addproc_1_svc` adds up the decimal digits of its two arguments.
use native.Mathlib.Nat.{add-zero, zero-add, add_assoc}
use mathlib.Core.Path.{ap₂}
use computer_networks_assign.Prelude.{
  sym, ℕ, zero, suc, ◌+◌, ◌*◌, ◌/◌, ◌%◌, ◌^◌, ◌≤◌, ◌<◌, ◌≡◌, refl, ◌∙◌, ap, Bool, true, false, some,
  List, [], ◌∷◌, length, All, arith, Bool-cases, inl, inr, ◌==◌,
}
use computer_networks_assign.Prelude.Int.{ℤ, pos, neg_ℕ, ◌+ℤ◌, is_zero}
use computer_networks_assign.DigitSum.{rem10, quot10, digit_loop, loop_fuel, addproc}

-- The number with these decimal digits, the units first.
abbrev pub value : List ℕ → ℕ
value [] = 0
value (d ∷ ds) = d + 10 * value ds

abbrev pub sum : List ℕ → ℕ
sum [] = 0
sum (d ∷ ds) = d + sum ds

abbrev pub IsDigit : ℕ → Type 0
IsDigit d = d < 10

-- `n`, or -n
abbrev pub signed : Bool → ℕ → ℤ
signed true n = neg_ℕ n
signed false n = pos n

sum-eq-zero : (ds : List ℕ) → value ds ≡ 0 → sum ds ≡ 0
sum-eq-zero [] h = refl
sum-eq-zero (d ∷ ds) h = omega (arith, sum-eq-zero ds (omega arith))

is_zero-signed : (b : Bool) (n : ℕ) → is_zero (signed b n) ≡ (n == 0)
is_zero-signed true zero = refl
is_zero-signed true (suc n) = ground arith
is_zero-signed false n = refl

quot10-signed : (b : Bool) (n : ℕ) → quot10 (signed b n) ≡ signed b (n / 10)
unfolding quot10
quot10-signed true zero = refl
quot10-signed true (suc n) = ap neg_ℕ (omega arith)
quot10-signed false n = refl

rem10-signed : (b : Bool) (n : ℕ) → rem10 (signed b n) ≡ signed b (n % 10)
unfolding rem10
rem10-signed true zero = refl
rem10-signed true (suc n) = ap neg_ℕ (omega arith)
rem10-signed false n = refl

pub +ℤ-signed : (b : Bool) (m n : ℕ) → signed b m +ℤ signed b n ≡ signed b (m + n)
unfolding ◌+ℤ◌
+ℤ-signed true zero zero = refl
+ℤ-signed true zero (suc n) = ground arith
+ℤ-signed true (suc m) zero = ground arith
+ℤ-signed true (suc m) (suc n) = ground arith
+ℤ-signed false m n = ground arith

signed_zero : (b : Bool) → signed b 0 ≡ pos 0
signed_zero true = refl
signed_zero false = refl

digit_loop-signed :
    (fuel : ℕ) (b : Bool) (ds : List ℕ) (a : ℕ)
    → All IsDigit ds
    → length ds < fuel
    → digit_loop fuel (signed b (value ds)) (signed b a) ≡ some (signed b (a + sum ds))
unfolding digit_loop
digit_loop-signed zero b ds a h lt = elim lt [ ]
digit_loop-signed (suc fuel) b [] a h lt =
    ground (arith, is_zero-signed b 0, ap (signed b) (add-zero a))
digit_loop-signed (suc fuel) b (d ∷ ds) a h lt = elim (Bool-cases (n == 0)) [
  | inl e ↦
      let none_left : sum (d ∷ ds) ≡ 0 = sum-eq-zero (d ∷ ds) (ground arith) in
      ground (
        arith,
        is_zero-signed b n,
        ap (λ k. signed b (a + k)) none_left,
        ap (signed b) (add-zero a),
      )
  | inr e ↦ ground (
    arith,
    is_zero-signed b n,
    quot10-signed b n ∙ ap (signed b) tens,
    ap (◌+ℤ◌ (signed b a)) (rem10-signed b n ∙ ap (signed b) units) ∙ +ℤ-signed b a d,
    digit_loop-signed fuel b ds (a + d) h.1 (omega arith),
    ap (signed b) (add_assoc a d (sum ds)),
  )
]
  where
    n : ℕ
    n = value (d ∷ ds)

    tens : n / 10 ≡ value ds
    tens = omega arith

    units : n % 10 ≡ d
    units = omega arith

-- For numbers of at most 19 digits, of either sign: each loop ends and adds up its digits, with the
-- sign of the number, and the reply is the sum of the two.
pub addproc_digits :
    (b c : Bool) (ds es : List ℕ)
    → All IsDigit ds
    → All IsDigit es
    → length ds < loop_fuel
    → length es < loop_fuel
    → addproc (signed b (value ds)) (signed c (value es))
      ≡ some (signed b (sum ds) +ℤ signed c (sum es))
unfolding addproc
addproc_digits b c ds es hd he ld le = ground (
  arith,
  digit_loop-signed loop_fuel b ds 0 hd ld,
  digit_loop-signed loop_fuel c es 0 he le,
  ap (signed b) (zero-add (sum ds)),
  ap (signed c) (zero-add (sum es)),
  signed_zero b,
  signed_zero c,
)

abbrev pow10 : ℕ → ℕ
pow10 zero = 1
pow10 (suc k) = 10 * pow10 k

digits_of :
    (k n : ℕ) → n < pow10 k → (ds : List ℕ) × All IsDigit ds × (length ds ≡ k) × (value ds ≡ n)
digits_of zero n h = ([], tt, refl, omega arith)
digits_of (suc k) n h =
    let (ds, digits, size, same) = digits_of k (n / 10) (omega arith) in
    (n % 10 ∷ ds, (omega arith, digits), omega arith, omega arith)

-- The service replies to every pair of 64-bit numbers: the loops run at most 19 times.
pub addproc_total :
    (b c : Bool) (m n : ℕ)
    → m ≤ 2 ^ 63
    → n ≤ 2 ^ 63
    → (r : ℤ) × (addproc (signed b m) (signed c n) ≡ some r)
addproc_total b c m n hm hn =
    let (ds, hd, ld, vd) = digits_of 19 m (omega arith) in
    let (es, he, le, ve) = digits_of 19 n (omega arith) in
    (
      signed b (sum ds) +ℤ signed c (sum es),
      ap₂ (λ x y. addproc (signed b x) (signed c y)) (sym vd) (sym ve)
          ∙ addproc_digits b c ds es hd he (omega arith) (omega arith),
    )
