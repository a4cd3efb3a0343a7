-- ===== src/Chksum/Padding.antt =====
-- Even and odd numbers of bytes.
use computer_networks_assign.Prelude.{
  get_elem?-append, get_elem?-append_last, ℕ, zero, suc, ◌+◌, ◌*◌, ◌%◌, ◌^◌, ◌≤◌, ◌<◌, ◌≡◌, some,
  List, [], ◌∷◌, ◌++◌, get_elem?, length, arith,
}
use computer_networks_assign.Checksum.{word_at, csum_fold, csum}
use computer_networks_assign.Checksum.Words.{
  IsBytes, byte_at, byte_at-lt, sum_words, word_at-some, double,
}
use computer_networks_assign.Checksum.Laws.{csum_even, sum_words-le}
use computer_networks_assign.Chksum.{chksum_sum, chksum_fold, chksum}

chksum_sum_even :
    (buf : List ℕ) (sum p k : ℕ)
    → IsBytes buf
    → p + double k ≤ length buf
    → sum + 65535 * k < 2 ^ 32
    → chksum_sum buf sum p (double k) ≡ some (sum + sum_words buf p k)
unfolding chksum_sum sum_words
chksum_sum_even buf sum p zero b h small = ground arith
chksum_sum_even buf sum p (suc k) b h small = ground (
  arith,
  word_at-some buf p (omega arith),
  byte_at-lt buf p b,
  byte_at-lt buf (p + 1) b,
  chksum_sum_even buf (sum + (byte_at buf p + 256 * byte_at buf (p + 1))) (p + 2) k b (omega arith)
      (omega (arith, byte_at-lt buf p b, byte_at-lt buf (p + 1) b)),
)

folds_agree : (s : ℕ) → s < 2 ^ 32 → chksum_fold s ≡ csum_fold s
unfolding chksum_fold csum_fold
folds_agree s h = omega arith

-- Over `2 * k` bytes within the buffer, `k` at most 65537, the two checksums are the same.
chksum-csum :
    (buf : List ℕ) (k : ℕ)
    → IsBytes buf
    → double k ≤ length buf
    → k ≤ 65537
    → chksum buf (double k) ≡ csum buf (double k)
unfolding chksum
chksum-csum buf k b h small = ground (
  arith,
  chksum_sum_even buf 0 0 k b (omega arith) (omega arith),
  csum_even buf k b h small,
  folds_agree (sum_words buf 0 k) (omega (arith, sum_words-le buf 0 k b)),
)

last_word :
    (buf : List ℕ) (p : ℕ) → p + 1 ≡ length buf → word_at (buf ++ 0 ∷ []) p ≡ get_elem? buf p
unfolding word_at
last_word buf p h =
    ground
      (arith, get_elem?-append buf (0 ∷ []) p (omega arith), get_elem?-append_last buf 0 (p + 1) h)

word_at-append :
    (buf : List ℕ) (p : ℕ) → p + 1 < length buf → word_at (buf ++ 0 ∷ []) p ≡ word_at buf p
unfolding word_at
word_at-append buf p h =
    ground (
      arith,
      get_elem?-append buf (0 ∷ []) p (omega arith),
      get_elem?-append buf (0 ∷ []) (p + 1) h,
    )

chksum_sum_padded :
    (buf : List ℕ) (sum p k : ℕ)
    → p + suc (double k) ≡ length buf
    → chksum_sum buf sum p (suc (double k))
      ≡ chksum_sum (buf ++ 0 ∷ []) sum p (suc (suc (double k)))
unfolding chksum_sum
chksum_sum_padded buf sum p zero h = ground (arith, last_word buf p (omega arith))
chksum_sum_padded buf sum p (suc k) h =
    let w = byte_at buf p + 256 * byte_at buf (p + 1) in
    ground (
      arith,
      word_at-some buf p (omega arith),
      word_at-append buf p (omega arith),
      chksum_sum_padded buf ((sum + w) % 2 ^ 32) (p + 2) k (omega arith),
    )

-- Over an odd number of bytes, all those of the buffer, the checksum is that of the bytes padded with a
-- zero.
chksum_padded :
    (buf : List ℕ) (k : ℕ)
    → suc (double k) ≡ length buf
    → chksum buf (suc (double k)) ≡ chksum (buf ++ 0 ∷ []) (double (suc k))
unfolding chksum
chksum_padded buf k h = ground (arith, chksum_sum_padded buf 0 0 k (omega arith))
