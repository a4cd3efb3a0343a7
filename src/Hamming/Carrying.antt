-- ===== src/Hamming/Carrying.antt =====
-- The code carries the message, at the places that are no powers of two.
use computer_networks_assign.Prelude.{
  ℕ, zero, suc, ◌+◌, ◌-◌, ◌^◌, ◌<◌, ◌≤◌, ◌≡◌, inl, inr, refl, sym, ap, ◌∙◌, subst, Bool, true,
  false, some, List, [], ◌∷◌, ◌++◌, append_assoc, length-append, length, set, ltb, ◌==◌, ==_iff,
  if◌then◌else◌, Bool-cases, arith,
}
use native.Mathlib.Nat.{pow-le-pow_right}
use computer_networks_assign.Hamming.{
  is_power_from, is_power, char_at, unprocessed_from, generate_unprocessed_code, process_from,
  generate, get_parity_bit, find_positions,
}
use computer_networks_assign.Hamming.Lengths.{power_pos, power_above, is_power-power}
use computer_networks_assign.Hamming.Parity.{pow_suc, char_at-middle}
use computer_networks_assign.Hamming.Coding.{bits_found, generate_step}

-- The characters at the places, count_less from `place` on, that are no powers of two.
unfoldable pub data_of : ℕ → List ℕ → List ℕ
data_of place [] = []
data_of place (c ∷ s) =
    let rest = data_of (place + 1) s in if is_power place then rest else c ∷ rest

data_of-set :
    (place : ℕ) (s : List ℕ) (i v : ℕ)
    → is_power (place + i) ≡ true
    → data_of place (set s i v) ≡ data_of place s
unfolding data_of
data_of-set place [] i v h = refl
data_of-set place (c ∷ s) zero v h =
    let here : is_power place ≡ true = subst (λ n. is_power n ≡ true) (plain place) h in
    ap (λ b. if b then data_of (place + 1) s else v ∷ data_of (place + 1) s) here
    ∙ sym (ap (λ b. if b then data_of (place + 1) s else c ∷ data_of (place + 1) s) here)
  where
    plain : (n : ℕ) → n + 0 ≡ n
    plain n = omega arith
data_of-set place (c ∷ s) (suc i) v h =
    let rest = data_of-set (place + 1) s i v (subst (λ n. is_power n ≡ true) (moved place i) h) in
    ap (λ t. if is_power place then t else c ∷ t) rest
  where
    moved : (n i : ℕ) → n + suc i ≡ n + 1 + i
    moved n i = omega arith

some_injective : (a b : List ℕ) → some a ≡ some b → a ≡ b
some_injective a b e = cc

power_place : (i : ℕ) → is_power (1 + (2 ^ i - 1)) ≡ true
power_place i =
    subst (λ n. is_power n ≡ true) (back i)
      (is_power-power (2 ^ i) i 0 (2 ^ i) refl (omega arith) (omega (arith, power_above i)))
  where
    back : (i : ℕ) → 2 ^ i ≡ 1 + (2 ^ i - 1)
    back i = omega (arith, power_pos i)

-- The parity bits do not touch the message.
data_of-process_from :
    (i left : ℕ) (res code : List ℕ)
    → process_from i left res ≡ some code
    → data_of 1 code ≡ data_of 1 res
unfolding process_from
data_of-process_from i zero res code e = ap (data_of 1) (sym (some_injective res code e))
data_of-process_from i (suc left) res code e =
    let v = get_parity_bit (find_positions i (length res)) res + b'0' in
    elim (Bool-cases (ltb (2 ^ i - 1) (length res))) [
      | inr outside ↦ absurd (ground arith)
      | inl inside ↦
          data_of-process_from (i + 1) left (set res (2 ^ i - 1) v) code (ground arith)
          ∙ data_of-set 1 res (2 ^ i - 1) v (power_place i)
    ]

-- How many places of `left` ones from `place` on are no powers of two.
unfoldable slots : ℕ → ℕ → ℕ
slots place zero = 0
slots place (suc left) =
    let rest = slots (place + 1) left in if is_power place then rest else suc rest

unfoldable chars_from : List ℕ → ℕ → ℕ → List ℕ
chars_from inp index zero = []
chars_from inp index (suc n) = char_at inp index ∷ chars_from inp (index + 1) n

data_of-unprocessed_from :
    (inp : List ℕ) (index sz left : ℕ)
    → data_of (sz + 1) (unprocessed_from inp index sz left)
      ≡ chars_from inp index (slots (sz + 1) left)
unfolding unprocessed_from slots chars_from data_of
data_of-unprocessed_from inp index sz zero = refl
data_of-unprocessed_from inp index sz (suc left) = elim (Bool-cases (is_power (sz + 1))) [
  | inl power ↦ ground (arith, power, data_of-unprocessed_from inp index (sz + 1) left)
  | inr other ↦ ground (arith, other, data_of-unprocessed_from inp (index + 1) (sz + 1) left)
]

is_power_sound : (n k left : ℕ) → is_power_from n k left ≡ true → (j : ℕ) × (2 ^ j ≡ n)
unfolding is_power_from
is_power_sound n k zero e = absurd (absurd_bool e)
  where
    absurd_bool : false ≡ true → ⊥
    absurd_bool h = cc
is_power_sound n k (suc left) e = elim (Bool-cases (2 ^ k == n)) [
  | inl here ↦ (k, (==_iff (2 ^ k) n).0 here)
  | inr there ↦ is_power_sound n (k + 1) left (ground (arith, e, there))
]

slots_last :
    (place left : ℕ)
    → slots place (suc left) ≡ slots place left + (if is_power (place + left) then 0 else 1)
unfolding slots
slots_last place zero =
    subst (λ t. slots place 1 ≡ 0 + (if is_power t then 0 else 1)) (plain place)
      (elim (Bool-cases (is_power place)) [ inl h ↦ ground (arith, h) | inr h ↦ ground (arith, h) ])
  where
    plain : (n : ℕ) → n ≡ n + 0
    plain n = omega arith
slots_last place (suc left) =
    let ih : slots (place + 1) (suc left)
        ≡ slots (place + 1) left + (if is_power (place + suc left) then 0 else 1) =
      slots_last (place + 1) left
      ∙ ap (λ t. slots (place + 1) left + (if is_power t then 0 else 1)) (moved place left) in
    joined (is_power place) (slots (place + 1) (suc left)) (slots (place + 1) left) _ ih
  where
    moved : (n i : ℕ) → n + 1 + i ≡ n + suc i
    moved n i = omega arith

    joined :
        (b : Bool) (x y z : ℕ) → x ≡ y + z → (if b then x else suc x) ≡ (if b then y else suc y) + z
    joined true x y z e = e
    joined false x y z e = omega arith

power_le : (i j : ℕ) → i ≤ j → 2 ^ i ≤ 2 ^ j
power_le i j h = pow-le-pow_right (omega arith) h

power_lt : (i j : ℕ) → i < j → 2 ^ i < 2 ^ j
power_lt i j h = let l = power_le (suc i) j (omega arith) in omega (arith, pow_suc i, power_pos i)

count_less : (x y z n j r : ℕ) → x ≡ y + z → z ≡ 0 → y + j ≡ n → r ≡ suc j → x + r ≡ suc n
count_less x y z n j r a b c d = omega arith

count_same : (x y z n r : ℕ) → x ≡ y + z → z ≡ 1 → y + r ≡ n → x + r ≡ suc n
count_same x y z n r a b c = omega arith

below_of : (j r n : ℕ) → 2 ^ j ≡ 1 + n → suc n < 2 ^ r → j < r
below_of j r n e l = elim (Bool-cases (ltb j r)) [
  | inl yes_below ↦ ground arith
  | inr not_below ↦ let m = power_le r j (ground (arith, not_below)) in absurd (omega arith)
]

least_of : (j r n : ℕ) → 2 ^ j ≡ 1 + n → ((k : ℕ) → k < r → 2 ^ k ≤ suc n) → j < r → r ≡ suc j
least_of j r n e h l = elim (Bool-cases (ltb (suc j) r)) [
  | inr no_more ↦ ground (arith, no_more)
  | inl more ↦
      let m = h (suc j) (ground (arith, more)) in absurd (omega (arith, pow_suc j, power_pos j))
]

smaller : (j n : ℕ) → 2 ^ j ≤ suc n → is_power (1 + n) ≡ false → 2 ^ j ≤ n
smaller j n h e = elim (Bool-cases (2 ^ j == 1 + n)) [
  | inl same ↦
      let eq = (==_iff (2 ^ j) (1 + n)).0 same in
      let yes_power =
        is_power-power (1 + n) j 0 (1 + n) eq (omega arith) (omega (arith, power_above j)) in
      absurd (true_false (sym yes_power ∙ e))
  | inr differs ↦ ground (arith, differs)
]
  where
    true_false : true ≡ false → ⊥
    true_false h = cc

-- With `r` powers of two up to `n`, there are `n - r` other places.
slots_powers : (n r : ℕ) → ((j : ℕ) → j < r → 2 ^ j ≤ n) → n < 2 ^ r → slots 1 n + r ≡ n
unfolding slots
slots_powers zero zero h l = omega arith
slots_powers zero (suc r) h l = absurd (nought (2 ^ 0) (power_pos 0) (h 0 (omega arith)))
  where
    nought : (a : ℕ) → 1 ≤ a → a ≤ 0 → ⊥
    nought a h l = omega arith
slots_powers (suc n) r h l = elim (Bool-cases (is_power (1 + n))) [
  | inl power ↦
      let (j, e) = is_power_sound (1 + n) 0 (1 + n) power in
      let above : j < r = below_of j r n e l in
      let top : r ≡ suc j = least_of j r n e h above in
      let ih = slots_powers n j (λ k m. omega (arith, power_lt k j m)) (omega arith) in
      count_less _ _ _ _ _ _ (slots_last 1 n) (ap (λ b. if b then 0 else 1) power) ih top
  | inr other ↦
      let ih = slots_powers n r (λ j m. smaller j n (h j m) other) (omega arith) in
      count_same _ _ _ _ _ (slots_last 1 n) (ap (λ b. if b then 0 else 1) other) ih
]

chars_from-middle :
    (inp : List ℕ) (pre suf : List ℕ) (i : ℕ)
    → inp ≡ pre ++ suf
    → i ≡ length pre
    → chars_from inp i (length suf) ≡ suf
unfolding chars_from
chars_from-middle inp pre [] i e h = refl
chars_from-middle inp pre (c ∷ suf) i e h =
    let at : char_at inp i ≡ c = ap (λ l. char_at l i) e ∙ char_at-middle pre suf c i h in
    let rest =
      chars_from-middle inp (pre ++ c ∷ []) suf (i + 1) (e ∙ sym (append_assoc pre (c ∷ []) suf))
        (omega (arith, h, length-append pre (c ∷ []))) in
    cc

-- What hamming_code_gen.cpp makes of an input carries it: the characters at the places that are no powers
-- of two, count_less from 1, are those of the input, in order.
pub data_of-generate : (inp code : List ℕ) → generate inp ≡ some code → data_of 1 code ≡ inp
data_of-generate inp code e =
    let (r, found, big, small) = bits_found inp in
    let n = length inp + r in
    let run : process_from 0 r (generate_unprocessed_code inp n) ≡ some code =
      sym (generate_step inp r found) ∙ e in
    let free : slots 1 n ≡ length inp =
      cancel _ _ r (slots_powers n r (λ j m. omega (arith, small j m)) (omega arith)) in
    data_of-process_from 0 r (generate_unprocessed_code inp n) code run
    ∙ data_of-unprocessed_from inp 0 0 n
    ∙ ap (chars_from inp 0) free
    ∙ chars_from-middle inp [] inp 0 refl refl
  where
    cancel : (a b r : ℕ) → a + r ≡ b + r → a ≡ b
    cancel a b r h = omega arith
