-- ===== src/Checksum/Laws.antt =====
-- What `csum` returns: the complement of the one's complement sum, and what that is good for.
use computer_networks_assign.Prelude.{
  ℕ, zero, suc, ◌+◌, ◌*◌, ◌/◌, ◌%◌, ◌^◌, ◌≤◌, ◌<◌, ◌≡◌, ◌≢◌, refl, ◌∙◌, ◌⊎◌, inl, inr, All-set, ap,
  Option-cases, none, some, List, [], ◌∷◌, length, length-set, set, arith,
}
use computer_networks_assign.Prelude.Int.{pos, negsuc}
use computer_networks_assign.Checksum.{word_at, csum_loop, csum_odd, csum_fold, csum, store_check}
use computer_networks_assign.Checksum.Words.{
  IsBytes, byte_at, byte_at-lt, sum_words, double, csum_loop_even,
}

pub fold_lt : (s : ℕ) → csum_fold s < 2 ^ 16
unfolding csum_fold
fold_lt s = omega arith

-- Sums of up to 65537 words are below 2 ^ 32, where two folds are enough.
pub fold_complement : (s : ℕ) → s < 2 ^ 32 → (s + csum_fold s) % 65535 ≡ 0
unfolding csum_fold
fold_complement s h = omega arith

pub fold_positive : (s : ℕ) → 0 < s + csum_fold s
unfolding csum_fold
fold_positive s = omega arith

pub fold-eq-zero : (s : ℕ) → 0 < s → s < 2 ^ 32 → s % 65535 ≡ 0 → csum_fold s ≡ 0
unfolding csum_fold
fold-eq-zero s p h e = omega arith

pub sum_words-le : (buf : List ℕ) (p k : ℕ) → IsBytes buf → sum_words buf p k ≤ 65535 * k
unfolding sum_words
sum_words-le buf p zero b = omega arith
sum_words-le buf p (suc k) b =
    omega (arith, byte_at-lt buf p b, byte_at-lt buf (p + 1) b, sum_words-le buf (p + 2) k b)

pub csum_even :
    (buf : List ℕ) (k : ℕ)
    → IsBytes buf
    → double k ≤ length buf
    → k ≤ 65537
    → csum buf (double k) ≡ some (csum_fold (sum_words buf 0 k))
unfolding csum csum_odd
csum_even buf k b h small = ground (arith, csum_loop_even buf 0 0 k b (omega arith) (omega arith))

csum_complement :
    (buf : List ℕ) (k : ℕ)
    → IsBytes buf
    → double k ≤ length buf
    → k ≤ 65537
    → (c : ℕ) × (csum buf (double k) ≡ some c)
      × (c < 2 ^ 16)
      × ((sum_words buf 0 k + c) % 65535 ≡ 0)
csum_complement buf k b h small = (
  csum_fold (sum_words buf 0 k),
  csum_even buf k b h small,
  fold_lt _,
  fold_complement _ (omega (arith, sum_words-le buf 0 k b)),
)

byte_at-set_self : (buf : List ℕ) (p v : ℕ) → p < length buf → byte_at (set buf p v) p ≡ v
byte_at-set_self [] p v h = elim h [ ]
byte_at-set_self (x ∷ xs) zero v h = refl
byte_at-set_self (x ∷ xs) (suc p) v h = byte_at-set_self xs p v (omega arith)

byte_at-set_ne : (buf : List ℕ) (p q v : ℕ) → p ≢ q → byte_at (set buf p v) q ≡ byte_at buf q
byte_at-set_ne [] p q v h = refl
byte_at-set_ne (x ∷ xs) zero zero v h = absurd (h refl)
byte_at-set_ne (x ∷ xs) zero (suc q) v h = refl
byte_at-set_ne (x ∷ xs) (suc p) zero v h = refl
byte_at-set_ne (x ∷ xs) (suc p) (suc q) v h = byte_at-set_ne xs p q v (omega arith)

-- The stored field reads back, and every other byte is as it was.
byte_at-store_low :
    (buf : List ℕ) (p c : ℕ) → p + 1 < length buf → byte_at (store_check buf p c) p ≡ c % 256
unfolding store_check
byte_at-store_low buf p c h =
    byte_at-set_ne (set buf p (c % 256)) (p + 1) p (c / 256) (omega arith)
    ∙ byte_at-set_self buf p (c % 256) (omega arith)

byte_at-store_high :
    (buf : List ℕ) (p c : ℕ) → p + 1 < length buf → byte_at (store_check buf p c) (p + 1) ≡ c / 256
unfolding store_check
byte_at-store_high buf p c h =
    byte_at-set_self (set buf p (c % 256)) (p + 1) (c / 256)
      (omega (arith, length-set buf p (c % 256)))

byte_at-store_ne :
    (buf : List ℕ) (p q c : ℕ) → p ≢ q → p + 1 ≢ q → byte_at (store_check buf p c) q ≡ byte_at buf q
unfolding store_check
byte_at-store_ne buf p q c h k =
    byte_at-set_ne (set buf p (c % 256)) (p + 1) q (c / 256) k ∙ byte_at-set_ne buf p q (c % 256) h

sum_words-store_above :
    (buf : List ℕ) (p c q k : ℕ)
    → p + 2 ≤ q
    → sum_words (store_check buf p c) q k ≡ sum_words buf q k
unfolding sum_words
sum_words-store_above buf p c q zero h = refl
sum_words-store_above buf p c q (suc k) h = omega (
  arith,
  byte_at-store_ne buf p q c (omega arith) (omega arith),
  byte_at-store_ne buf p (q + 1) c (omega arith) (omega arith),
  sum_words-store_above buf p c (q + 2) k (omega arith),
)

-- A checksum stored into a zero word adds itself to the sum.
sum_words-store :
    (buf : List ℕ) (p q j k c : ℕ)
    → q ≡ p + double j
    → j < k
    → p + double k ≤ length buf
    → byte_at buf q ≡ 0
    → byte_at buf (q + 1) ≡ 0
    → sum_words (store_check buf q c) p k ≡ sum_words buf p k + c
unfolding sum_words
sum_words-store buf p q j zero c e lt h lo hi = elim lt [ ]
sum_words-store buf p q zero (suc k) c e lt h lo hi =
    let here : q ≡ p = omega arith in
    ground (
      arith,
      here,
      byte_at-store_low buf q c (omega arith),
      byte_at-store_high buf q c (omega arith),
      sum_words-store_above buf q c (p + 2) k (omega arith),
    )
sum_words-store buf p q (suc j) (suc k) c e lt h lo hi = omega (
  arith,
  byte_at-store_ne buf q p c (omega arith) (omega arith),
  byte_at-store_ne buf q (p + 1) c (omega arith) (omega arith),
  sum_words-store buf (p + 2) q j k c (omega arith) (omega arith) (omega arith) lo hi,
)

store_check-IsBytes :
    (buf : List ℕ) (p c : ℕ) → IsBytes buf → c < 2 ^ 16 → IsBytes (store_check buf p c)
unfolding store_check
store_check-IsBytes buf p c b h =
    All-set _ (set buf p (c % 256)) (p + 1) (c / 256) (All-set _ buf p (c % 256) b (omega arith))
      (omega arith)

length-store_check : (buf : List ℕ) (p c : ℕ) → length (store_check buf p c) ≡ length buf
unfolding store_check
length-store_check buf p c =
    length-set (set buf p (c % 256)) (p + 1) (c / 256) ∙ length-set buf p (c % 256)

-- A sender that clears the check field at word `j`, computes `csum` and stores it there sends a
-- buffer over which `csum` is 0, which is how a receiver verifies it.
pub csum-store_check :
    (buf : List ℕ) (j k c : ℕ)
    → IsBytes buf
    → j < k
    → double k ≤ length buf
    → k ≤ 65536
    → byte_at buf (double j) ≡ 0
    → byte_at buf (double j + 1) ≡ 0
    → csum buf (double k) ≡ some c
    → csum (store_check buf (double j) c) (double k) ≡ some 0
csum-store_check buf j k c b lt h small lo hi e =
    csum_even sent k (store_check-IsBytes buf (double j) c b fits)
      (omega (arith, length-store_check buf (double j) c)) (omega arith)
    ∙ ap some (
        fold-eq-zero (sum_words sent 0 k) (omega (arith, total, positive, is_fold)) bounded
          (ground (arith, total, complement, is_fold)))
  where
    sent : List ℕ
    sent = store_check buf (double j) c

    is_fold : c ≡ csum_fold (sum_words buf 0 k)
    is_fold = ground (arith, csum_even buf k b h (omega arith))

    fits : c < 2 ^ 16
    fits = omega (arith, is_fold, fold_lt (sum_words buf 0 k))

    positive : 0 < sum_words buf 0 k + csum_fold (sum_words buf 0 k)
    positive = fold_positive (sum_words buf 0 k)

    complement : (sum_words buf 0 k + csum_fold (sum_words buf 0 k)) % 65535 ≡ 0
    complement = fold_complement _ (omega (arith, sum_words-le buf 0 k b))

    bounded : sum_words sent 0 k < 2 ^ 32
    bounded = omega (arith, sum_words-le sent 0 k (store_check-IsBytes buf (double j) c b fits))

    total : sum_words sent 0 k ≡ sum_words buf 0 k + c
    total = sum_words-store buf 0 (double j) j k c (omega arith) lt (omega arith) lo hi

-- An odd count is rounded up: the loop takes the byte behind the buffer into its last word and the
-- branch that would pad the odd byte with 0 never runs.
csum_loop_odd :
    (buf : List ℕ) (sum p k : ℕ)
    → (csum_loop buf sum p (suc (double k)) ≡ none) × (csum_loop buf sum p (double (suc k)) ≡ none)
      ⊎ ((s q : ℕ) × (csum_loop buf sum p (suc (double k))
            ≡ some (record { sum = s; ptr = q; nbytes = negsuc 0 }))
          × (csum_loop buf sum p (double (suc k))
              ≡ some (record { sum = s; ptr = q; nbytes = pos 0 })))
unfolding csum_loop
csum_loop_odd buf sum p zero = elim (Option-cases (word_at buf p)) [
  | inl e ↦ inl (ground arith, ground arith)
  | inr (w, e) ↦ inr ((sum + w) % 2 ^ 64, p + 2, ground arith, ground arith)
]
csum_loop_odd buf sum p (suc k) = elim (Option-cases (word_at buf p)) [
  | inl e ↦ inl (ground arith, ground arith)
  | inr (w, e) ↦ elim (csum_loop_odd buf ((sum + w) % 2 ^ 64) (p + 2) k) [
    | inl (a, b) ↦ inl (ground arith, ground arith)
    | inr (s, q, a, b) ↦ inr (s, q, ground arith, ground arith)
  ]
]

pub csum_of_odd : (buf : List ℕ) (k : ℕ) → csum buf (suc (double k)) ≡ csum buf (double (suc k))
unfolding csum csum_odd
csum_of_odd buf k = ground (arith, csum_loop_odd buf 0 0 k)
