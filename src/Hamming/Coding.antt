-- ===== src/Hamming/Coding.antt =====
-- A generated code, and its correction.
use computer_networks_assign.Prelude.{
  ℕ, zero, suc, ◌+◌, ◌-◌, ◌*◌, ◌%◌, ◌^◌, ◌<◌, ◌≤◌, ◌≡◌, ◌⊎◌, inl, inr, refl, sym, ap, ◌∙◌, subst,
  none, some, List, [], ◌∷◌, length, get_elem?, get_elem?-set_self, set, ◌==◌, if◌then◌else◌,
  length-set, arith,
}
use computer_networks_assign.Hamming.{
  find_r, find_redun, char_at, generate_unprocessed_code, bit, store, process_from, generate,
  correction_from, check,
}
use computer_networks_assign.Hamming.Lengths.{
  power_pos, power_above, find_r_from, find_redun_least, length-unprocessed_from, unprocessed-free,
}
use computer_networks_assign.Hamming.Parity.{
  bit_zero, bit_below, one, ones, ones-set, correction-position, pow_suc,
}
use computer_networks_assign.Hamming.Process.{IsReady, process_ready}

power_room : (n : ℕ) → 2 * n + 2 ≤ 2 ^ (n + 1)
power_room n =
    let next : n + 1 ≡ suc n = omega arith in
    let doubled : 2 ^ (n + 1) ≡ 2 * 2 ^ n = ap (λ k. 2 ^ k) next ∙ pow_suc n in
    omega (arith, power_above n)

-- A code whose parities are even, of a length that the number of its parity bits fits.
pub record IsCode (code : List ℕ) : Type 0 where
  pub bits : ℕ
  pub enough : length code + 1 ≤ 2 ^ bits
  pub least : (j : ℕ) → j < bits → 2 ^ j < length code
  pub few : bits ≤ length code
  pub even : (k : ℕ) → k < bits → ones k 1 code % 2 ≡ 0

-- The number of parity bits that is found
pub bits_found :
    (inp : List ℕ)
    → (r : ℕ) × (find_r (length inp + 2) (length inp) 0 ≡ some r)
      × (length inp + r + 1 ≤ 2 ^ r)
      × ((j : ℕ) → j < r → 2 ^ j < length inp + r)
bits_found inp =
    let (r, found, big, least) = find_r_from (length inp + 1) (length inp) 0 (room (length inp)) in
    (
      r,
      ap (λ f. find_r f (length inp) 0) (fuel_eq (length inp)) ∙ found,
      big,
      λ j b. within (2 ^ j) j (length inp) r b (least j (omega arith) b),
    )
  where
    fuel_eq : (n : ℕ) → n + 2 ≡ suc (n + 1)
    fuel_eq n = omega arith

    start : (n : ℕ) → n + 1 ≡ 0 + (n + 1)
    start n = omega arith

    room : (n : ℕ) → n + (0 + (n + 1)) + 1 ≤ 2 ^ (0 + (n + 1))
    room n = subst (λ t. n + t + 1 ≤ 2 ^ t) (start n) (omega (arith, power_room n))

    within : (p j len r : ℕ) → j < r → p < len + j + 1 → p < len + r
    within p j len r b h = omega arith

pub generate_step :
    (inp : List ℕ) (r : ℕ)
    → find_r (length inp + 2) (length inp) 0 ≡ some r
    → generate inp ≡ process_from 0 r (generate_unprocessed_code inp (length inp + r))
unfolding generate
generate_step inp r e = ground (arith, e)

-- For every input the loops of hamming_code_gen.cpp end, and it makes a code without a write behind the
-- end of it; with some number of bits, at most its length, two to which is above the length and each
-- smaller power of two below it, the number of ones over the places of each of these bits is even.
pub generate_total : (inp : List ℕ) → (code : List ℕ) × (generate inp ≡ some code) × IsCode code
generate_total inp =
    let (r, found, big, small) = bits_found inp in
    let n = length inp + r in
    let s = generate_unprocessed_code inp n in
    let ready : IsReady n 0 r s = record {
      same_length = length-unprocessed_from inp 0 0 n;
      even = λ k l. absurd (omega arith);
      free = λ j a b. unprocessed-free inp n j (omega (arith, small j (omega arith)));
      fits = λ j b. omega (arith, small j (omega arith));
    } in
    let (code, e, l, even) = process_ready n 0 r s ready in
    (
      code,
      generate_step inp r found ∙ e,
      record {
        bits = r;
        enough = omega arith;
        least = λ j b. subst (λ t. 2 ^ j < t) (sym l) (small j b);
        few = omega arith;
        even = λ k b. even k (omega arith);
      },
    )

one_of_zero : (k q : ℕ) → one k q b'0' ≡ 0
one_of_zero k q = ground arith

one_of_one : (k q : ℕ) → bit k q < 2 → one k q b'1' ≡ bit k q
one_of_one k q h = ground arith

from_zero : (a b c d t : ℕ) → b ≡ 0 → d ≡ t → t < 2 → c % 2 ≡ 0 → a + b ≡ c + d → a % 2 ≡ t
from_zero a b c d t e f h g s = omega arith

from_one : (a b c d t : ℕ) → b ≡ t → d ≡ 0 → t < 2 → c % 2 ≡ 0 → a + b ≡ c + d → a % 2 ≡ t
from_one a b c d t e f h g s = omega arith

flipped_parity :
    (k p : ℕ) (code : List ℕ) (b v : ℕ)
    → p < length code
    → char_at code p ≡ b
    → ((b ≡ b'0') × (v ≡ b'1')) ⊎ ((b ≡ b'1') × (v ≡ b'0'))
    → ones k 1 code % 2 ≡ 0
    → ones k 1 (set code p v) % 2 ≡ bit k (p + 1)
flipped_parity k p code b v l e f even =
    let swap = ones-set k 1 code p v l in
    let low = bit_below k (1 + p) in
    let place_eq : bit k (p + 1) ≡ bit k (1 + p) = ap (bit k) (turned p) in
    elim f [
      | inl (zero_was, one_is) ↦
          from_zero _ _ _ _ _ (ap (one k (1 + p)) (e ∙ zero_was) ∙ one_of_zero k (1 + p))
            (ap (one k (1 + p)) one_is ∙ one_of_one k (1 + p) low) low even swap
          ∙ sym place_eq
      | inr (one_was, zero_is) ↦
          from_one _ _ _ _ _ (ap (one k (1 + p)) (e ∙ one_was) ∙ one_of_one k (1 + p) low)
            (ap (one k (1 + p)) zero_is ∙ one_of_zero k (1 + p)) low even swap
          ∙ sym place_eq
    ]
  where
    turned : (p : ℕ) → p + 1 ≡ 1 + p
    turned p = omega arith

check_step :
    (code : List ℕ) (r : ℕ)
    → find_redun (length code + 1) (length code) 0 ≡ some r
    → (correction_from 0 r code 0 ≡ 0 → check code ≡ some (0, code))
unfolding check
check_step code r e h = ground (arith, e, h)

redun_found :
    (code : List ℕ) (n : ℕ) (c : IsCode code)
    → length code ≡ n
    → find_redun (n + 1) n 0 ≡ some c.bits
redun_found code n c e =
    find_redun_least (n + 1) n 0 c.bits (omega arith) (omega (arith, c.few))
      (omega (arith, c.enough)) (λ j b. subst (λ t. 2 ^ j < t) e (c.least j b))

check_flip_step :
    (s code : List ℕ) (r p : ℕ)
    → find_redun (length s + 1) (length s) 0 ≡ some r
    → correction_from 0 r s 0 ≡ p + 1
    → store s (p + 1 - 1) (if char_at s (p + 1 - 1) == b'1' then b'0' else b'1') ≡ some code
    → check s ≡ some (p + 1, code)
unfolding check
check_flip_step s code r p a b c = ground (arith, a, b, c)

set-set : (s : List ℕ) (p v b : ℕ) → p < length s → char_at s p ≡ b → set (set s p v) p b ≡ s
set-set [] p v b l e = absurd (omega arith)
set-set (c ∷ s) zero v b l e = ap (λ t. t ∷ s) (sym e)
set-set (c ∷ s) (suc p) v b l e = ap (λ t. c ∷ t) (set-set s p v b (omega arith) e)

char_at-set : (s : List ℕ) (p v : ℕ) → p < length s → char_at (set s p v) p ≡ v
char_at-set s p v l = cc (get_elem?-set_self s p v l)

-- The other bit, as the program makes it
abbrev other : ℕ → ℕ
other c = if c == b'1' then b'0' else b'1'

restored : {b v : ℕ} → ((b ≡ b'0') × (v ≡ b'1')) ⊎ ((b ≡ b'1') × (v ≡ b'0')) → other v ≡ b
restored (inl (e, f)) = ap other f ∙ sym e
restored (inr (e, f)) = ap other f ∙ sym e

stored : (s : List ℕ) (p c : ℕ) → p < length s → store s p c ≡ some (set s p c)
stored s p c l = ground arith

store_back :
    (code : List ℕ) (p b v i : ℕ)
    → i ≡ p
    → p < length code
    → char_at code p ≡ b
    → ((b ≡ b'0') × (v ≡ b'1')) ⊎ ((b ≡ b'1') × (v ≡ b'0'))
    → store (set code p v) i (if char_at (set code p v) i == b'1' then b'0' else b'1') ≡ some code
store_back code p b v i eq l e f =
    let at = char_at-set code p v l in
    let size = length-set code p v in
    let back = set-set code p v b l e in
    ap (λ j. store (set code p v) j (other (char_at (set code p v) j))) eq
    ∙ ap (λ c. store (set code p v) p (other c)) at
    ∙ ap (store (set code p v) p) (restored f)
    ∙ stored (set code p v) p b (omega (arith, size))
    ∙ ap some back

some_injective : {A : Type 0} (a b : A) → some a ≡ some b → a ≡ b
some_injective a b e = cc

-- The code is that of `generate_total`.
generate-IsCode : (inp code : List ℕ) → generate inp ≡ some code → IsCode code
generate-IsCode inp code e =
    let (c, f, is) = generate_total inp in subst IsCode (some_injective c code (sym f ∙ e)) is

check-generate : (inp code : List ℕ) → generate inp ≡ some code → check code ≡ some (0, code)
check-generate inp code e =
    let c = generate-IsCode inp code e in
    check_step code c.bits (redun_found code (length code) c refl)
      (correction-position c.bits 0 code (λ k l. c.even k l ∙ sym (bit_zero k)) (power_pos c.bits))

check-flip :
    (inp code : List ℕ) (p b v : ℕ)
    → generate inp ≡ some code
    → get_elem? code p ≡ some b
    → ((b ≡ b'0') × (v ≡ b'1')) ⊎ ((b ≡ b'1') × (v ≡ b'0'))
    → check (set code p v) ≡ some (p + 1, code)
check-flip inp code p b v e at f =
    let c = generate-IsCode inp code e in
    let l : p < length code = within code p b at in
    let here : char_at code p ≡ b = ap (λ o. elim o [ none ↦ 0 | some x ↦ x ]) at in
    let size = length-set code p v in
    check_flip_step (set code p v) code c.bits p
      (redun_found_at (set code p v) (length code) c.bits size
        (redun_found code (length code) c refl))
      (correction-position c.bits (p + 1) (set code p v)
        (λ k m. flipped_parity k p code b v l here f (c.even k m)) (omega (arith, c.enough)))
      (store_back code p b v (p + 1 - 1) (back p) l here f)
  where
    back : (p : ℕ) → p + 1 - 1 ≡ p
    back p = omega arith

    within : (s : List ℕ) (p b : ℕ) → get_elem? s p ≡ some b → p < length s
    within [] p b e = cc
    within (x ∷ s) zero b e = omega arith
    within (x ∷ s) (suc p) b e = omega (arith, within s p b e)

    redun_found_at :
        (s : List ℕ) (n r : ℕ)
        → length s ≡ n
        → find_redun (n + 1) n 0 ≡ some r
        → find_redun (length s + 1) (length s) 0 ≡ some r
    redun_found_at s n r e h = ap (λ m. find_redun (m + 1) m 0) e ∙ h

-- In a code that hamming_code_gen.cpp has made hamming_code_check.cpp finds no errors; and whichever bit
-- of it, one of the parity bits included, is turned over, it finds the position, counted from 1, and
-- prints the code as it was.
pub check_corrects :
    (inp code : List ℕ) (p b v : ℕ)
    → generate inp ≡ some code
    → get_elem? code p ≡ some b
    → ((b ≡ b'0') × (v ≡ b'1')) ⊎ ((b ≡ b'1') × (v ≡ b'0'))
    → (check code ≡ some (0, code)) × (check (set code p v) ≡ some (p + 1, code))
check_corrects inp code p b v e at f = (check-generate inp code e, check-flip inp code p b v e at f)
