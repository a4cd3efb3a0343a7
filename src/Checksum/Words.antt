-- ===== src/Checksum/Words.antt =====
-- A buffer as its sequence of 16-bit words, and the loop of `csum` as their sum.
use computer_networks_assign.Prelude.{
  ℕ, zero, suc, ◌+◌, ◌*◌, ◌^◌, ◌≤◌, ◌<◌, ◌≡◌, refl, none, some, List, [], ◌∷◌, get_elem?,
  get_elem?_above, length, All, arith,
}
use computer_networks_assign.Prelude.Int.{pos}
use computer_networks_assign.Checksum.{word_at, csum_loop}

-- Each item is a byte.
abbrev pub IsBytes : List ℕ → Type 0
IsBytes buf = All (λ b. b < 256) buf

-- The sum of the first `k` words from offset `p`, without wrap; a byte out of range counts as 0.
abbrev pub byte_at : List ℕ → ℕ → ℕ
byte_at buf p = elim (get_elem? buf p) [ none ↦ 0 | some b ↦ b ]

unfoldable pub sum_words : List ℕ → ℕ → ℕ → ℕ
sum_words buf p zero = 0
sum_words buf p (suc k) = byte_at buf p + 256 * byte_at buf (p + 1) + sum_words buf (p + 2) k

pub byte_at-lt : (buf : List ℕ) (p : ℕ) → IsBytes buf → byte_at buf p < 256
byte_at-lt [] p h = omega arith
byte_at-lt (b ∷ bs) zero h = h.0
byte_at-lt (b ∷ bs) (suc p) h = byte_at-lt bs p h.1

get_elem?_byte : (buf : List ℕ) (p : ℕ) → p < length buf → get_elem? buf p ≡ some (byte_at buf p)
get_elem?_byte [] p h = elim h [ ]
get_elem?_byte (b ∷ bs) zero h = refl
get_elem?_byte (b ∷ bs) (suc p) h = get_elem?_byte bs p (omega arith)

pub word_at-some :
    (buf : List ℕ) (p : ℕ)
    → p + 1 < length buf
    → word_at buf p ≡ some (byte_at buf p + 256 * byte_at buf (p + 1))
unfolding word_at
word_at-some buf p h =
    ground (arith, get_elem?_byte buf p (omega arith), get_elem?_byte buf (p + 1) (omega arith))

pub word_at-none : (buf : List ℕ) (p : ℕ) → length buf ≤ p + 1 → word_at buf p ≡ none
unfolding word_at
word_at-none buf p h = ground (arith, get_elem?_above buf (p + 1) h)

abbrev pub double : ℕ → ℕ
double zero = 0
double (suc k) = suc (suc (double k))

pub double_lem : (k : ℕ) → double k ≡ 2 * k
double_lem zero = refl
double_lem (suc k) = omega (arith, double_lem k)

-- Below the width of `long` the loop adds up the words.
pub csum_loop_even :
    (buf : List ℕ) (sum p k : ℕ)
    → IsBytes buf
    → p + double k ≤ length buf
    → sum + 65535 * k < 2 ^ 64
    → csum_loop buf sum p (double k)
      ≡ some (record { sum = sum + sum_words buf p k; ptr = p + double k; nbytes = pos 0 })
unfolding csum_loop sum_words
csum_loop_even buf sum p zero b h small = ground arith
csum_loop_even buf sum p (suc k) b h small = ground (
  arith,
  word_at-some buf p (omega arith),
  byte_at-lt buf p b,
  byte_at-lt buf (p + 1) b,
  csum_loop_even buf (sum + (byte_at buf p + 256 * byte_at buf (p + 1))) (p + 2) k b (omega arith)
      (omega (arith, byte_at-lt buf p b, byte_at-lt buf (p + 1) b)),
)
