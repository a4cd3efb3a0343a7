-- ===== src/Hamming.antt =====
-- The Hamming code, Hamming_code_RPC_Assignment_19/Hamming_Code: hamming_code_gen.cpp makes a code, and
-- hamming_code_check.cpp corrects one. A character is its code.
use computer_networks_assign.Prelude.{
  ℕ, zero, suc, ◌+◌, ◌-◌, ◌*◌, ◌/◌, ◌%◌, ◌^◌, Bool, true, false, not, ◌||◌, Option, none, some,
  List, [], ◌∷◌, length, get_elem?, set, ltb, leb, ◌==◌, if◌then◌else◌,
}
pub mod Parity
pub mod Lengths
pub mod Process
pub mod Coding
pub mod Carrying
mod Cases

-- `'*'`
abbrev pub star : ℕ
star = 42

-- The loop of `find_length` from `r` on, for at most `fuel` rounds.
unfoldable pub find_r : ℕ → ℕ → ℕ → Option ℕ
find_r zero len r = none
find_r (suc fuel) len r = if leb (len + r + 1) (2 ^ r) then some r else find_r fuel len (r + 1)

-- The same loop of `find_redun_len`.
unfoldable pub find_redun : ℕ → ℕ → ℕ → Option ℕ
find_redun zero len r = none
find_redun (suc fuel) len r = if leb len (2 ^ r) then some r else find_redun fuel len (r + 1)

-- Whether `log2(n)` is a whole number: a power from 2 ^ k on, of which `left` are tried.
unfoldable pub is_power_from : ℕ → ℕ → ℕ → Bool
is_power_from n k zero = false
is_power_from n k (suc left) = 2 ^ k == n || is_power_from n (k + 1) left

abbrev pub is_power : ℕ → Bool
is_power n = is_power_from n 0 n

-- `inp[index]`, which is 0 at the end.
abbrev pub char_at : List ℕ → ℕ → ℕ
char_at s i = elim (get_elem? s i) [ none ↦ 0 | some c ↦ c ]

-- The loop of `generate_unprocessed_code` from `sz` on, with `left` characters left.
unfoldable pub unprocessed_from : List ℕ → ℕ → ℕ → ℕ → List ℕ
unprocessed_from inp index sz zero = []
unprocessed_from inp index sz (suc left) =
    if is_power (sz + 1)
    then star ∷ unprocessed_from inp index (sz + 1) left
    else char_at inp index ∷ unprocessed_from inp (index + 1) (sz + 1) left

abbrev pub generate_unprocessed_code : List ℕ → ℕ → List ℕ
generate_unprocessed_code inp len = unprocessed_from inp 0 0 len

-- The bit `k` of a number: `n & (1 << k)` is not 0.
unfoldable pub bit : ℕ → ℕ → ℕ
bit zero n = n % 2
bit (suc k) n = bit k (n / 2)

-- The loop of `find_positions` from `i` on, for the bit `k`.
unfoldable pub positions_from : ℕ → ℕ → ℕ → List ℕ
positions_from k i zero = []
positions_from k i (suc left) =
    let rest = positions_from k (i + 1) left in if bit k (i + 1) == 1 then i ∷ rest else rest

abbrev pub find_positions : ℕ → ℕ → List ℕ
find_positions k len = positions_from k 0 len

-- The `cnt` of `get_parity_bit`; the positions are below the length.
unfoldable pub count_ones : List ℕ → List ℕ → ℕ
count_ones [] s = 0
count_ones (p ∷ ps) s = (if char_at s p == b'1' then 1 else 0) + count_ones ps s

abbrev pub get_parity_bit : List ℕ → List ℕ → ℕ
get_parity_bit positions s = if count_ones positions s % 2 == 0 then 0 else 1

-- `res[i] = c`; behind the end it is undefined.
abbrev pub store : List ℕ → ℕ → ℕ → Option (List ℕ)
store res i c = if ltb i (length res) then some (set res i c) else none

-- The loop of `process_string` from `i` on, with `left` bits left.
unfoldable pub process_from : ℕ → ℕ → List ℕ → Option (List ℕ)
process_from i zero res = some res
process_from i (suc left) res =
    elim (store res (2 ^ i - 1) (get_parity_bit (find_positions i (length res)) res + b'0')) [
      | none ↦ none
      | some res' ↦ process_from (i + 1) left res'
    ]

-- `main` of hamming_code_gen.cpp: the code of `inp`.
unfoldable pub generate : List ℕ → Option (List ℕ)
generate inp = elim (find_r (length inp + 2) (length inp) 0) [
  | none ↦ none
  | some r ↦ process_from 0 r (generate_unprocessed_code inp (length inp + r))
]

-- The loop of `correction` from `i` on.
unfoldable pub correction_from : ℕ → ℕ → List ℕ → ℕ → ℕ
correction_from i zero s position = position
correction_from i (suc left) s position =
    if get_parity_bit (find_positions i (length s)) s == 1
    then correction_from (i + 1) left s (position + 2 ^ i)
    else correction_from (i + 1) left s position

-- `main` of hamming_code_check.cpp: the position, and the code that is printed.
unfoldable pub check : List ℕ → Option (ℕ × List ℕ)
check inp = elim (find_redun (length inp + 1) (length inp) 0) [
  | none ↦ none
  | some r ↦
      let position = correction_from 0 r inp 0 in
      if position == 0
      then some (0, inp)
      else elim (store inp (position - 1)
          (if char_at inp (position - 1) == b'1' then b'0' else b'1')) [
            | none ↦ none
            | some inp' ↦ some (position, inp')
          ]
]
