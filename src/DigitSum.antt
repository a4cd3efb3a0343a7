-- ===== src/DigitSum.antt =====
-- The digit-sum service of Hamming_code_RPC_Assignment_19/rpc/rpc_practice: `addproc_1_svc` of
-- digsum_server.c. A `long` is an integer; nothing here comes near its bounds.
use computer_networks_assign.Prelude.{ℕ, zero, suc, ◌+◌, ◌/◌, ◌%◌, true, false, Option, none, some}
use computer_networks_assign.Prelude.Int.{ℤ, pos, negsuc, neg_ℕ, ◌+ℤ◌, is_zero}
pub mod Laws
mod Cases

-- `n % 10` and `n / 10` round towards 0.
unfoldable pub rem10 : ℤ → ℤ
rem10 (pos n) = pos (n % 10)
rem10 (negsuc n) = neg_ℕ ((n + 1) % 10)

unfoldable pub quot10 : ℤ → ℤ
quot10 (pos n) = pos (n / 10)
quot10 (negsuc n) = neg_ℕ ((n + 1) / 10)

-- `while(n) { sm+=n%10; n/=10; }`; `none` means that the fuel ran out.
unfoldable pub digit_loop : ℕ → ℤ → ℤ → Option ℤ
digit_loop zero n sm = none
digit_loop (suc fuel) n sm = elim (is_zero n) [
  | true ↦ some sm
  | false ↦ digit_loop fuel (quot10 n) (sm +ℤ rem10 n)
]

-- A 64-bit `long` has at most 19 decimal digits.
abbrev pub loop_fuel : ℕ
loop_fuel = 20

unfoldable pub addproc : ℤ → ℤ → Option ℤ
addproc num1 num2 = elim (digit_loop loop_fuel num1 (pos 0)) [
  | none ↦ none
  | some sm1 ↦ elim (digit_loop loop_fuel num2 (pos 0)) [
    | none ↦ none
    | some sm2 ↦ some (sm1 +ℤ sm2)
  ]
]
