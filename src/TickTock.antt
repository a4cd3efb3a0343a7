-- ===== src/TickTock.antt =====
-- The clock driver Device_driver_Assignment_11/Device-Dirvers-2/MY/TickTock/tickTock.c: its own `itoa`
-- and `atoi`, and the read and write of its file. An `int` wraps, as the kernel is compiled.
use computer_networks_assign.Prelude.{
  ℕ, zero, suc, ◌+◌, ◌-◌, ◌*◌, ◌%◌, ◌^◌, Bool, true, false, Option, none, some, List, [], ◌∷◌, ◌++◌,
  length, get_elem?, set, ltb, leb, if◌then◌else◌,
}
use computer_networks_assign.Prelude.Int.{ℤ, pos, negsuc, neg_ℕ, is_neg, is_zero}
use computer_networks_assign.DigitSum.{rem10, quot10}
pub mod Reversal
pub mod Places
pub mod Decimal
mod Cases

-- The size of the buffer that `readme` allocates.
abbrev pub buffer_size : ℕ
buffer_size = 40

-- `str[i++] = c`, where `str` is what is written so far; `none` is a write behind the buffer.
abbrev pub put : List ℕ → ℕ → Option (List ℕ)
put str c = if ltb (length str) buffer_size then some (str ++ c ∷ []) else none

-- `(rem > 9)? (rem-10) + 'a' : rem + '0'`, as a `char`
unfoldable pub digit_char : ℤ → ℕ
digit_char (pos r) = if ltb 9 r then (r - 10 + b'a') % 256 else (r + b'0') % 256
digit_char (negsuc r) = (b'0' + 256 - (r + 1)) % 256

-- `while (num != 0)`; `none` also stands for fuel that ran out.
unfoldable pub digits_loop : ℕ → ℤ → List ℕ → Option (List ℕ)
digits_loop zero num str = none
digits_loop (suc fuel) num str = elim (is_zero num) [
  | true ↦ some str
  | false ↦ elim (put str (digit_char (rem10 num))) [
    | none ↦ none
    | some str' ↦ digits_loop fuel (quot10 num) str'
  ]
]

-- An `int` has at most 10 decimal digits.
abbrev pub loop_fuel : ℕ
loop_fuel = 11

-- `swap(*(str+start), *(str+end))`
unfoldable pub swap : List ℕ → ℕ → ℕ → List ℕ
swap str start last = elim (get_elem? str start) [
  | none ↦ str
  | some a ↦ elim (get_elem? str last) [ none ↦ str | some b ↦ set (set str start b) last a ]
]

-- `while (start < end)`; each round takes two from the distance, so its fuel is enough.
unfoldable pub reverse_loop : ℕ → List ℕ → ℕ → ℕ → List ℕ
unfolding swap
reverse_loop zero str start last = str
reverse_loop (suc fuel) str start last =
    let rest = reverse_loop fuel (swap str start last) (start + 1) (last - 1) in
    if ltb start last then rest else str

unfoldable pub reverse : List ℕ → List ℕ
unfolding reverse_loop
reverse str = reverse_loop (length str) str 0 (length str - 1)

-- `num = -num`, which leaves the least `int` as it is.
unfoldable pub negated : ℤ → ℤ
negated (pos n) = neg_ℕ n
negated (negsuc n) = if ltb (n + 1) (2 ^ 31) then pos (n + 1) else negsuc n

-- The sign and the terminator behind the digits, and the reversal.
unfoldable pub finish : Bool → List ℕ → Option (List ℕ)
finish is_negative str = elim (if is_negative then put str b'-' else some str) [
  | none ↦ none
  | some str' ↦ if ltb (length str') buffer_size then some (reverse str') else none
]

-- `itoa`: the text before the terminator.
unfoldable pub itoa : ℤ → Option (List ℕ)
itoa num =
    if is_zero num
    then some (b'0' ∷ [])
    else elim (digits_loop loop_fuel (if is_neg num then negated num else num) []) [
      | none ↦ none
      | some str ↦ finish (is_neg num) str
    ]

-- `res*10 + str[i] - '0'`, as a residue; the text holds no NUL.
abbrev pub atoi_step : ℕ → ℕ → ℕ
atoi_step res c = (res * 10 + c + 2 ^ 32 - b'0') % 2 ^ 32

unfoldable pub atoi_from : ℕ → List ℕ → ℕ
atoi_from res [] = res
atoi_from res (c ∷ cs) = atoi_from (atoi_step res c) cs

unfoldable pub atoi : List ℕ → ℕ
unfolding atoi_from
atoi str = atoi_from 0 str

-- The `int` that a `long` is cut to.
unfoldable pub to_int : ℕ → ℤ
to_int t = if ltb (t % 2 ^ 32) (2 ^ 31) then pos (t % 2 ^ 32) else negsuc (2 ^ 32 - t % 2 ^ 32 - 1)

-- `readme` at the time `tv_sec`: what it returns, and the bytes that it copies to the user's buffer,
-- however many were asked for.
unfoldable pub readme : ℕ → ℕ → Option (ℕ × List ℕ)
readme tv_sec len = elim (itoa (to_int tv_sec)) [ none ↦ none | some b ↦ some (len, b) ]

-- `writeme`: what it returns, and the time that is set.
unfoldable pub writeme : List ℕ → ℕ → ℕ × ℕ
unfolding atoi
writeme buff len = (len, atoi buff)
