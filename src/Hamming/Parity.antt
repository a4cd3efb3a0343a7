-- ===== src/Hamming/Parity.antt =====
-- Bits of numbers, and the parities of a code.
use computer_networks_assign.Prelude.{
  ℕ, zero, suc, ◌+◌, ◌*◌, ◌/◌, ◌%◌, ◌^◌, ◌<◌, ◌≡◌, ◌≢◌, ◌⊎◌, inl, inr, refl, sym, ap, ◌∙◌, subst,
  List, [], ◌∷◌, ◌++◌, length, set, ◌==◌, if◌then◌else◌, append_assoc, length-append, arith,
}
use computer_networks_assign.Hamming.{
  char_at, bit, positions_from, find_positions, count_ones, get_parity_bit, correction_from,
}

pub pow_suc : (k : ℕ) → 2 ^ suc k ≡ 2 * 2 ^ k
pow_suc k = omega arith

pub bit_zero : (k : ℕ) → bit k 0 ≡ 0
unfolding bit
bit_zero zero = refl
bit_zero (suc k) = bit_zero k

half : (a b : ℕ) → b ≡ 2 * a → b / 2 ≡ a
half a b e = omega arith

-- A power of two has one bit.
pub bit_same : (k : ℕ) → bit k (2 ^ k) ≡ 1
unfolding bit
bit_same zero = refl
bit_same (suc k) = ap (bit k) (half (2 ^ k) (2 ^ suc k) (pow_suc k)) ∙ bit_same k

pub bit_other : (k j : ℕ) → k ≢ j → bit k (2 ^ j) ≡ 0
unfolding bit
bit_other zero zero h = absurd (h refl)
bit_other zero (suc j) h = even (2 ^ j) (2 ^ suc j) (pow_suc j)
  where
    even : (a b : ℕ) → b ≡ 2 * a → b % 2 ≡ 0
    even a b e = omega arith
bit_other (suc k) zero h = bit_zero k
bit_other (suc k) (suc j) h =
    ap (bit k) (half (2 ^ j) (2 ^ suc j) (pow_suc j)) ∙ bit_other k j (λ e. h (ap suc e))

pub bit_below : (k n : ℕ) → bit k n < 2
unfolding bit
bit_below zero n = omega arith
bit_below (suc k) n = bit_below k (n / 2)

-- Adds to 1 for a '1' whose place has the bit.
abbrev pub one : ℕ → ℕ → ℕ → ℕ
one k place c = if bit k place == 1 then (if c == b'1' then 1 else 0) else 0

-- The ones whose places, counted from `place` on, have the bit `k`.
unfoldable pub ones : ℕ → ℕ → List ℕ → ℕ
ones k place [] = 0
ones k place (c ∷ s) = one k place c + ones k (place + 1) s

pub char_at-middle : (pre suf : List ℕ) (c i : ℕ) → i ≡ length pre → char_at (pre ++ c ∷ suf) i ≡ c
char_at-middle [] suf c zero e = refl
char_at-middle [] suf c (suc i) e = absurd (omega arith)
char_at-middle (p ∷ pre) suf c zero e = absurd (omega arith)
char_at-middle (p ∷ pre) suf c (suc i) e = char_at-middle pre suf c i (omega arith)

count_ones-positions :
    (k i : ℕ) (s pre suf : List ℕ)
    → s ≡ pre ++ suf
    → i ≡ length pre
    → count_ones (positions_from k i (length suf)) s ≡ ones k (i + 1) suf
unfolding count_ones positions_from ones
count_ones-positions k i s pre [] e h = refl
count_ones-positions k i s pre (c ∷ suf) e h =
    let at : char_at s i ≡ c = ap (λ l. char_at l i) e ∙ char_at-middle pre suf c i h in
    let rest =
      count_ones-positions k (i + 1) s (pre ++ c ∷ []) suf (e ∙ sym (append_assoc pre (c ∷ []) suf))
        (omega (arith, h, length-append pre (c ∷ []))) in
    ground (arith, at, rest)

-- What `get_parity_bit` gives of the positions of a bit.
pub parity_ones :
    (k : ℕ) (s : List ℕ) → get_parity_bit (find_positions k (length s)) s ≡ ones k 1 s % 2
parity_ones k s = let e = count_ones-positions k 0 s [] s refl refl in ground (arith, e)

plus_zero : (n : ℕ) → n ≡ n + 0
plus_zero n = omega arith

swapped : (a b c : ℕ) → a + b + c ≡ c + b + a
swapped a b c = omega arith

added : (n a b c d : ℕ) → a + b ≡ c + d → n + a + b ≡ n + c + d
added n a b c d e = omega arith

-- One character in place of another
pub ones-set :
    (k place : ℕ) (s : List ℕ) (i v : ℕ)
    → i < length s
    → ones k place (set s i v) + one k (place + i) (char_at s i)
      ≡ ones k place s + one k (place + i) v
unfolding ones
ones-set k place [] i v h = absurd (omega arith)
ones-set k place (c ∷ s) zero v h =
    subst
      (λ p.
        one k place v + ones k (place + 1) s + one k p c
        ≡ one k place c + ones k (place + 1) s + one k p v)
      (plus_zero place) (swapped (one k place v) (ones k (place + 1) s) (one k place c))
ones-set k place (c ∷ s) (suc i) v h =
    let ih = ones-set k (place + 1) s i v (omega arith) in
    let same : place + 1 + i ≡ place + suc i = omega arith in
    subst
      (λ p.
        one k place c + ones k (place + 1) (set s i v) + one k p (char_at s i)
        ≡ one k place c + ones k (place + 1) s + one k p v)
      same (added (one k place c) _ _ _ _ ih)

-- The number below bit `i`
unfoldable shift : ℕ → ℕ → ℕ
shift zero n = n
shift (suc i) n = shift i (n / 2)

shift_half : (i n : ℕ) → shift i (n / 2) ≡ shift i n / 2
unfolding shift
shift_half zero n = refl
shift_half (suc i) n = shift_half i (n / 2)

bit-shift : (i n : ℕ) → bit i n ≡ shift i n % 2
unfolding bit shift
bit-shift zero n = refl
bit-shift (suc i) n = bit-shift i (n / 2)

weighted : (a h : ℕ) → a + 2 * a * h ≡ a * (2 * h + 1)
weighted a h = ground arith

weighted_even : (a h : ℕ) → 2 * a * h ≡ a * (2 * h)
weighted_even a h = ground arith

odd_step : (a q acc : ℕ) → q % 2 ≡ 1 → acc + a + 2 * a * (q / 2) ≡ acc + a * q
odd_step a q acc e =
    let s : 2 * (q / 2) + 1 ≡ q = omega arith in
    let m : a * (2 * (q / 2) + 1) ≡ a * q = ap (λ n. a * n) s in omega (arith, weighted a (q / 2))

even_step : (a q acc : ℕ) → q % 2 ≡ 0 → acc + 2 * a * (q / 2) ≡ acc + a * q
even_step a q acc e =
    let s : 2 * (q / 2) ≡ q = omega arith in
    let m : a * (2 * (q / 2)) ≡ a * q = ap (λ n. a * n) s in omega (arith, weighted_even a (q / 2))

plus_suc : (i : ℕ) → i + 1 ≡ suc i
plus_suc i = omega arith

stays :
    (i left : ℕ) (s : List ℕ) (acc : ℕ)
    → get_parity_bit (find_positions i (length s)) s ≡ 0
    → correction_from i (suc left) s acc ≡ correction_from (i + 1) left s acc
unfolding correction_from
stays i left s acc e =
    ap
      (λ b.
        if b == 1
        then correction_from (i + 1) left s (acc + 2 ^ i)
        else correction_from (i + 1) left s acc)
      e

adds :
    (i left : ℕ) (s : List ℕ) (acc : ℕ)
    → get_parity_bit (find_positions i (length s)) s ≡ 1
    → correction_from i (suc left) s acc ≡ correction_from (i + 1) left s (acc + 2 ^ i)
unfolding correction_from
adds i left s acc e =
    ap
      (λ b.
        if b == 1
        then correction_from (i + 1) left s (acc + 2 ^ i)
        else correction_from (i + 1) left s acc)
      e

halved : (q q' a b : ℕ) → q' ≡ q / 2 → b ≡ 2 * a → q < b → q' < a
halved q q' a b e f h = omega arith

parity_cases : (q : ℕ) → (q % 2 ≡ 0) ⊎ (q % 2 ≡ 1)
parity_cases q = ground arith

-- A code whose parities are the bits of a number below 2 ^ r has this number as its correction.
correction-bits :
    (i left : ℕ) (s : List ℕ) (p acc : ℕ)
    → ((k : ℕ) → k < i + left → ones k 1 s % 2 ≡ bit k p)
    → shift i p < 2 ^ left
    → correction_from i left s acc ≡ acc + 2 ^ i * shift i p
unfolding correction_from shift
correction-bits i zero s p acc h l =
    let none_left : shift i p ≡ 0 = omega arith in
    sym (ap (λ q. acc + 2 ^ i * q) none_left ∙ omega arith)
correction-bits i (suc left) s p acc h l =
    let e : get_parity_bit (find_positions i (length s)) s ≡ shift i p % 2 =
      parity_ones i s ∙ h i (omega arith) ∙ bit-shift i p in
    let next : shift (i + 1) p ≡ shift i p / 2 =
      ap (λ j. shift j p) (plus_suc i) ∙ shift_half i p in
    let pow : 2 ^ (i + 1) ≡ 2 * 2 ^ i = ap (λ j. 2 ^ j) (plus_suc i) ∙ pow_suc i in
    let small : shift (i + 1) p < 2 ^ left =
      halved (shift i p) (shift (i + 1) p) (2 ^ left) (2 ^ suc left) next (pow_suc left) l in
    let ih : (acc : ℕ) → correction_from (i + 1) left s acc ≡ acc + 2 * 2 ^ i * (shift i p / 2) =
      λ acc.
        correction-bits (i + 1) left s p acc (λ k m. h k (omega arith)) small
        ∙ ap (λ t. acc + t * shift (i + 1) p) pow
        ∙ ap (λ t. acc + 2 * 2 ^ i * t) next in
    elim (parity_cases (shift i p)) [
      | inl even ↦ stays i left s acc (e ∙ even) ∙ ih acc ∙ even_step (2 ^ i) (shift i p) acc even
      | inr odd ↦
          adds i left s acc (e ∙ odd) ∙ ih (acc + 2 ^ i) ∙ odd_step (2 ^ i) (shift i p) acc odd
    ]

pub correction-position :
    (r p : ℕ) (s : List ℕ)
    → ((k : ℕ) → k < r → ones k 1 s % 2 ≡ bit k p)
    → p < 2 ^ r
    → correction_from 0 r s 0 ≡ p
unfolding shift
correction-position r p s h l = correction-bits 0 r s p 0 (λ k m. h k (omega arith)) l ∙ times_one p
  where
    times_one : (p : ℕ) → 0 + 2 ^ 0 * p ≡ p
    times_one p = omega arith
