-- ===== src/TickTock/Places.antt =====
-- The digits of a number: by what the loop of tickTock.c writes, by place value, and by `atoi`.
use mathlib.Core.List
use computer_networks_assign.Prelude.{
  append-nil, append_assoc, ℕ, zero, suc, ◌+◌, ◌-◌, ◌*◌, ◌/◌, ◌%◌, ◌^◌, ◌≤◌, ◌<◌, ◌⊎◌, inr, ◌≡◌,
  refl, ap, sym, ◌∙◌, some, List, [], ◌∷◌, ◌++◌, length, length-append, All, All-append, arith,
}
use computer_networks_assign.Prelude.Int.{ℤ, pos, negsuc}
use computer_networks_assign.DigitSum.{rem10, quot10}
use computer_networks_assign.TickTock.{digit_char, digits_loop, atoi_step, atoi_from, atoi}
use computer_networks_assign.TickTock.Reversal.{length-reverse}

-- `n` has at most `k` decimal digits.
abbrev pub Fits : ℕ → ℕ → Type 0
Fits zero n = n ≡ 0
Fits (suc k) n = Fits k (n / 10)

abbrev pub IsDigit : ℕ → Type 0
IsDigit c = (b'0' ≤ c) × (c ≤ b'9')

-- The number of a text with the lowest digit first.
unfoldable pub low_first : List ℕ → ℕ
low_first [] = 0
low_first (c ∷ cs) = c - b'0' + 10 * low_first cs

-- The last of the digits, if there is one, is not 0.
abbrev pub EndsNonzero : List ℕ → Type 0
EndsNonzero [] = Unit {0}
EndsNonzero (c ∷ []) = b'1' ≤ c
EndsNonzero (c ∷ d ∷ ds) = EndsNonzero (d ∷ ds)

-- What the loop writes for `n`.
pub record Digits (k n : ℕ) (ds : List ℕ) : Type 0 where
  pub number : low_first ds ≡ n
  pub digits : All IsDigit ds
  pub short : length ds ≤ k
  pub some_of : 0 < n → 0 < length ds
  pub ends : EndsNonzero ds

EndsNonzero-cons :
    (n : ℕ) (ds : List ℕ)
    → low_first ds ≡ suc n / 10
    → EndsNonzero ds
    → EndsNonzero ((suc n % 10 + b'0') ∷ ds)
unfolding low_first
EndsNonzero-cons n [] number ends = omega (arith, number)
EndsNonzero-cons n (d ∷ ds) number ends = ends

Fits-zero : (k : ℕ) → Fits k 0
Fits-zero zero = refl
Fits-zero (suc k) = Fits-zero k

pub digits_loop-Digits :
    (fuel k n : ℕ) (str : List ℕ)
    → k < fuel
    → length str + k ≤ 39
    → Fits k n
    → (ds : List ℕ) × (digits_loop fuel (pos n) str ≡ some (str ++ ds)) × Digits k n ds
unfolding digits_loop rem10 quot10 digit_char low_first
digits_loop-Digits zero k n str h room fits = elim h [ ]
digits_loop-Digits (suc fuel) k zero str h room fits = (
  [],
  ap some (sym (append-nil str)),
  record { number = refl; digits = tt; short = omega arith; some_of = (λ p. p); ends = tt },
)
digits_loop-Digits (suc fuel) zero (suc n) str h room fits = absurd (omega (arith, fits))
digits_loop-Digits (suc fuel) (suc k) (suc n) str h room fits =
    let c = suc n % 10 + b'0' in
    let (ds, run, d) =
      digits_loop-Digits fuel k (suc n / 10) (str ++ c ∷ []) (omega arith)
        (omega (arith, length-append str (c ∷ []))) fits in
    (
      c ∷ ds,
      ground (arith, run, append_assoc str (c ∷ []) ds),
      record {
        number = omega (arith, d.number);
        digits = (omega arith, d.digits);
        short = omega (arith, d.short);
        some_of = λ p. omega arith;
        ends = EndsNonzero-cons n ds d.number d.ends;
      },
    )

-- The number of a decimal text, by place value, whatever its size.
unfoldable pub value_from : ℕ → List ℕ → ℕ
value_from a [] = a
value_from a (c ∷ cs) = value_from (a * 10 + (c - b'0')) cs

abbrev pub value : List ℕ → ℕ
value = value_from 0

value_from-append :
    (a : ℕ) (xs : List ℕ) (c : ℕ) → value_from a (xs ++ c ∷ []) ≡ value_from a xs * 10 + (c - b'0')
unfolding value_from
value_from-append a [] c = refl
value_from-append a (x ∷ xs) c = value_from-append (a * 10 + (x - b'0')) xs c

value-reverse : (ds : List ℕ) → value (List.reverse ds) ≡ low_first ds
unfolding value_from low_first
value-reverse [] = refl
value-reverse (c ∷ cs) =
    rw (List.reverse-cons c cs)
      (omega (arith, value_from-append 0 (List.reverse cs) c, value-reverse cs))

-- `atoi` wraps around.
atoi_from-value_from :
    (a res : ℕ) (text : List ℕ)
    → res ≡ a % 2 ^ 32
    → All IsDigit text
    → atoi_from res text ≡ value_from a text % 2 ^ 32
unfolding atoi_from value_from
atoi_from-value_from a res [] h digits = h
atoi_from-value_from a res (c ∷ cs) h digits =
    atoi_from-value_from (a * 10 + (c - b'0')) (atoi_step res c) cs
      (omega (arith, h, digits.0.0, digits.0.1)) digits.1

pub atoi_from-append :
    (res : ℕ) (xs : List ℕ) (c : ℕ) → atoi_from res (xs ++ c ∷ []) ≡ atoi_step (atoi_from res xs) c
unfolding atoi_from
atoi_from-append res [] c = refl
atoi_from-append res (x ∷ xs) c = atoi_from-append (atoi_step res x) xs c

All-reverse : (ds : List ℕ) → All IsDigit ds → All IsDigit (List.reverse ds)
All-reverse [] h = tt
All-reverse (c ∷ cs) h =
    rw (List.reverse-cons c cs)
      (All-append IsDigit (List.reverse cs) (c ∷ []) (All-reverse cs h.1) (h.0, tt))

abbrev pub sign : ℤ → List ℕ
sign (pos n) = []
sign (negsuc n) = b'-' ∷ []

abbrev pub Leading : List ℕ → Type 0
Leading [] = ⊥
Leading (c ∷ cs) = b'1' ≤ c

-- The decimal text of the number `n`: digits, of which the first is not 0 unless it is the only one, and
-- whose number by place value is `n`.
pub record Decimal (n : ℕ) (text : List ℕ) : Type 0 where
  pub number : value text ≡ n
  pub digits : All IsDigit text
  pub leading : (text ≡ b'0' ∷ []) ⊎ Leading text
  pub short : length text ≤ 10

Leading-append : (xs ys : List ℕ) → Leading xs → Leading (xs ++ ys)
Leading-append [] ys h = absurd h
Leading-append (x ∷ xs) ys h = h

Leading-reverse : (ds : List ℕ) → 0 < length ds → EndsNonzero ds → Leading (List.reverse ds)
Leading-reverse [] some_of h = absurd (omega (arith, some_of))
Leading-reverse (c ∷ []) some_of h = h
Leading-reverse (c ∷ d ∷ ds) some_of h =
    rw (List.reverse-cons c (d ∷ ds))
      (Leading-append (List.reverse (d ∷ ds)) (c ∷ []) (Leading-reverse (d ∷ ds) (omega arith) h))

pub Digits-Decimal : (n : ℕ) (ds : List ℕ) → 0 < n → Digits 10 n ds → Decimal n (List.reverse ds)
Digits-Decimal n ds h d = record {
  number = value-reverse ds ∙ d.number;
  digits = All-reverse ds d.digits;
  leading = inr (Leading-reverse ds (d.some_of h) d.ends);
  short = omega (arith, length-reverse ds, d.short);
}

pub atoi-Decimal : (n : ℕ) (text : List ℕ) → n < 2 ^ 32 → Decimal n text → atoi text ≡ n
unfolding atoi
atoi-Decimal n text h d =
    atoi_from-value_from 0 0 text (omega arith) d.digits ∙ omega (arith, d.number)
