-- ===== src/Chksum.antt =====
-- The checksum of RAW_Sockets_Assignment_20/IP_Spoofing/sender.c, with a 32-bit sum. It is compared
-- with that of Checksum.antt.
use computer_networks_assign.Prelude.{
  ℕ, zero, suc, ◌+◌, ◌-◌, ◌%◌, ◌/◌, ◌^◌, Option, none, some, List, get_elem?,
}
use computer_networks_assign.Checksum.{word_at}
pub mod Padding
mod Cases

-- `for(sum = 0;len > 1;len -= 2) sum += *buf++; if (len == 1) sum += *(unsigned char*)buf;`
unfoldable pub chksum_sum : List ℕ → ℕ → ℕ → ℕ → Option ℕ
chksum_sum buf sum p zero = some sum
chksum_sum buf sum p (suc zero) = elim (get_elem? buf p) [
  | none ↦ none
  | some b ↦ some ((sum + b) % 2 ^ 32)
]
chksum_sum buf sum p (suc (suc n)) = elim (word_at buf p) [
  | none ↦ none
  | some w ↦ chksum_sum buf ((sum + w) % 2 ^ 32) (p + 2) n
]

-- The folds of the carries, and `result = ~sum`
unfoldable pub chksum_fold : ℕ → ℕ
chksum_fold sum0 =
    let sum1 = (sum0 / 2 ^ 16 + sum0 % 2 ^ 16) % 2 ^ 32 in
    let sum2 = (sum1 + sum1 / 2 ^ 16) % 2 ^ 32 in (2 ^ 32 - 1 - sum2) % 2 ^ 16

unfoldable pub chksum : List ℕ → ℕ → Option ℕ
unfolding chksum_fold
chksum b len = elim (chksum_sum b 0 0 len) [ none ↦ none | some sum ↦ some (chksum_fold sum) ]
