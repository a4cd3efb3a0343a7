-- ===== src/Checksum.antt =====
-- The Internet checksum of the raw-socket senders: `csum` of
-- RAW_Sockets_Assignment_20/packet_sniffing/udp_sender.c, over a buffer of bytes.
use computer_networks_assign.Prelude.{
  ℕ, zero, suc, ◌+◌, ◌-◌, ◌*◌, ◌/◌, ◌%◌, ◌^◌, Option, none, some, List, get_elem?, set, ◌==◌,
  if◌then◌else◌,
}
use computer_networks_assign.Prelude.Int.{ℤ, pos, negsuc, eqz}
pub mod Words
pub mod Laws
mod Cases

-- `*ptr` as an `unsigned short`, on a little-endian machine; `none` is a read outside the buffer.
unfoldable pub word_at : List ℕ → ℕ → Option ℕ
word_at buf p = elim (get_elem? buf p) [
  | none ↦ none
  | some lo ↦ elim (get_elem? buf (p + 1)) [ none ↦ none | some hi ↦ some (lo + 256 * hi) ]
]

-- The variables of `csum` after its loop.
pub record Sum : Type 0 where
  pub sum : ℕ
  pub ptr : ℕ
  pub nbytes : ℤ

-- `while(nbytes>=1) { sum+=*ptr++; nbytes-=2; }`, with `sum` a 64-bit `long`.
unfoldable pub csum_loop : List ℕ → ℕ → ℕ → ℕ → Option Sum
csum_loop buf sum ptr zero = some (record { sum = sum; ptr = ptr; nbytes = pos 0 })
csum_loop buf sum ptr (suc zero) = elim (word_at buf ptr) [
  | none ↦ none
  | some w ↦ some (record { sum = (sum + w) % 2 ^ 64; ptr = ptr + 2; nbytes = negsuc 0 })
]
csum_loop buf sum ptr (suc (suc n)) = elim (word_at buf ptr) [
  | none ↦ none
  | some w ↦ csum_loop buf ((sum + w) % 2 ^ 64) (ptr + 2) n
]

-- `if(nbytes==1) { oddbyte=0; *((u_char*)&oddbyte)=*(u_char*)ptr; sum+=oddbyte; }`
unfoldable pub csum_odd : List ℕ → Sum → Option ℕ
csum_odd buf s =
    if eqz s.nbytes (pos 1)
    then elim (get_elem? buf s.ptr) [ none ↦ none | some b ↦ some ((s.sum + b) % 2 ^ 64) ]
    else some s.sum

-- The two folds of the carries, and `answer=(short)~sum` as an `unsigned short`.
unfoldable pub csum_fold : ℕ → ℕ
csum_fold sum0 =
    let sum1 = (sum0 / 2 ^ 16 + sum0 % 2 ^ 16) % 2 ^ 64 in
    let sum2 = (sum1 + sum1 / 2 ^ 16) % 2 ^ 64 in (2 ^ 64 - 1 - sum2) % 2 ^ 16

unfoldable pub csum : List ℕ → ℕ → Option ℕ
csum buf nbytes = elim (csum_loop buf 0 0 nbytes) [
  | none ↦ none
  | some s ↦ elim (csum_odd buf s) [ none ↦ none | some sum ↦ some (csum_fold sum) ]
]

-- `iph->check = c`: the 16-bit field at offset `p` takes the bytes of `c`.
unfoldable pub store_check : List ℕ → ℕ → ℕ → List ℕ
store_check buf p c = set (set buf p (c % 256)) (p + 1) (c / 256)
