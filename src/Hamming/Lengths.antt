-- ===== src/Hamming/Lengths.antt =====
-- The numbers of bits that the two programs find, and the free places of the unprocessed code.
use computer_networks_assign.Prelude.{
  ℕ, zero, suc, ◌+◌, ◌-◌, ◌^◌, ◌<◌, ◌≤◌, ◌≡◌, inl, inr, refl, sym, ap, subst, ◌∙◌, Bool, true,
  false, some, List, ◌∷◌, length, leb, leb→le, ◌==◌, ==_iff, if◌then◌else◌, Bool-cases, arith,
}
use computer_networks_assign.Hamming.{
  star, find_r, find_redun, is_power_from, is_power, char_at, unprocessed_from,
  generate_unprocessed_code,
}
use computer_networks_assign.Hamming.Parity.{pow_suc}

pub power_pos : (k : ℕ) → 1 ≤ 2 ^ k
power_pos zero = omega arith
power_pos (suc k) = omega (arith, power_pos k, pow_suc k)

pub power_above : (k : ℕ) → k < 2 ^ k
power_above zero = omega arith
power_above (suc k) = omega (arith, power_above k, pow_suc k)

not_leb : (a b : ℕ) → leb a b ≡ false → b < a
not_leb a b h = ground arith

le→leb : (a b : ℕ) → a ≤ b → leb a b ≡ true
le→leb a b h = ground arith

find_r_here : (fuel len r : ℕ) → leb (len + r + 1) (2 ^ r) ≡ true → find_r (suc fuel) len r ≡ some r
unfolding find_r
find_r_here fuel len r h = ap (λ b. if b then some r else find_r fuel len (r + 1)) h

find_r_next :
    (fuel len r : ℕ)
    → leb (len + r + 1) (2 ^ r) ≡ false
    → find_r (suc fuel) len r ≡ find_r fuel len (r + 1)
unfolding find_r
find_r_next fuel len r h = ap (λ b. if b then some r else find_r fuel len (r + 1)) h

-- The first number of bits from `r` on that is enough
pub find_r_from :
    (fuel len r : ℕ)
    → len + (r + fuel) + 1 ≤ 2 ^ (r + fuel)
    → (found : ℕ) × (find_r (suc fuel) len r ≡ some found)
      × (len + found + 1 ≤ 2 ^ found)
      × ((j : ℕ) → r ≤ j → j < found → 2 ^ j < len + j + 1)
find_r_from zero len r h =
    let enough : len + r + 1 ≤ 2 ^ r = subst (λ k. len + k + 1 ≤ 2 ^ k) (plus_zero r) h in
    (r, find_r_here 0 len r (le→leb _ _ enough), enough, λ j a b. absurd (omega arith))
  where
    plus_zero : (n : ℕ) → n + 0 ≡ n
    plus_zero n = omega arith
find_r_from (suc fuel) len r h = elim (Bool-cases (leb (len + r + 1) (2 ^ r))) [
  | inl enough ↦ (
    r,
    find_r_here (suc fuel) len r enough,
    leb→le (len + r + 1) (2 ^ r) enough,
    λ j a b. absurd (omega arith),
  )
  | inr short ↦
      let (found, e, big, least) =
        find_r_from fuel len (r + 1) (subst (λ k. len + k + 1 ≤ 2 ^ k) (moved r fuel) h) in
      (
        found,
        find_r_next (suc fuel) len r short ∙ e,
        big,
        λ j a b. elim (Bool-cases (j == r)) [
          | inl same ↦
              subst (λ k. 2 ^ k < len + k + 1) (sym ((==_iff j r).0 same))
                (not_leb (len + r + 1) (2 ^ r) short)
          | inr differs ↦ least j (later r j a differs) b
        ],
      )
]
  where
    moved : (r fuel : ℕ) → r + suc fuel ≡ r + 1 + fuel
    moved r fuel = omega arith

    later : (r j : ℕ) → r ≤ j → j == r ≡ false → r + 1 ≤ j
    later r j a h = ground arith

find_redun_step :
    (fuel n i : ℕ) (b : Bool)
    → leb n (2 ^ i) ≡ b
    → find_redun (suc fuel) n i ≡ (if b then some i else find_redun fuel n (i + 1))
unfolding find_redun
find_redun_step fuel n i b h = ap (λ b. if b then some i else find_redun fuel n (i + 1)) h

pub find_redun_least :
    (fuel n i r : ℕ)
    → i ≤ r
    → r < i + fuel
    → n ≤ 2 ^ r
    → ((j : ℕ) → j < r → 2 ^ j < n)
    → find_redun fuel n i ≡ some r
find_redun_least zero n i r a b h k = absurd (omega arith)
find_redun_least (suc fuel) n i r a b h k = elim (Bool-cases (i == r)) [
  | inl here ↦
      let eq : i ≡ r = (==_iff i r).0 here in
      find_redun_step fuel n i true (ap (λ t. leb n (2 ^ t)) eq ∙ le→leb n (2 ^ r) h) ∙ ap some eq
  | inr before ↦
      let l : i < r = earlier i r a before in
      find_redun_step fuel n i false (lt→not_leb n (2 ^ i) (k i l))
      ∙ find_redun_least fuel n (i + 1) r (omega arith) (omega arith) h k
]
  where
    earlier : (i r : ℕ) → i ≤ r → i == r ≡ false → i < r
    earlier i r a h = ground arith

    lt→not_leb : (a b : ℕ) → b < a → leb a b ≡ false
    lt→not_leb a b h = ground arith

clash : (m n : ℕ) → m ≡ n → m == n ≡ false → ⊥
clash m n e h = ground arith

pub is_power-power :
    (n j k left : ℕ) → 2 ^ j ≡ n → k ≤ j → j < k + left → is_power_from n k left ≡ true
unfolding is_power_from
is_power-power n j k zero e a b = absurd (omega arith)
is_power-power n j k (suc left) e a b = elim (Bool-cases (2 ^ k == n)) [
  | inl here ↦ ground (arith, here)
  | inr there ↦
      ground (arith, there, is_power-power n j (k + 1) left e (past j k n e a there) (omega arith))
]
  where
    past : (j k n : ℕ) → 2 ^ j ≡ n → k ≤ j → 2 ^ k == n ≡ false → k + 1 ≤ j
    past j k n e a h = elim (Bool-cases (k == j)) [
      | inl same ↦ absurd (clash (2 ^ k) n (ap (λ t. 2 ^ t) ((==_iff k j).0 same) ∙ e) h)
      | inr differs ↦ ground arith
    ]

pub length-unprocessed_from :
    (inp : List ℕ) (index sz left : ℕ) → length (unprocessed_from inp index sz left) ≡ left
unfolding unprocessed_from
length-unprocessed_from inp index sz zero = refl
length-unprocessed_from inp index sz (suc left) = ground (
  arith,
  length-unprocessed_from inp index (sz + 1) left,
  length-unprocessed_from inp (index + 1) (sz + 1) left,
)

unprocessed_from-star :
    (inp : List ℕ) (index sz left i : ℕ)
    → i < left
    → is_power (sz + i + 1) ≡ true
    → char_at (unprocessed_from inp index sz left) i ≡ star
unfolding unprocessed_from
unprocessed_from-star inp index sz zero i l h = absurd (omega arith)
unprocessed_from-star inp index sz (suc left) zero l h =
    let here : is_power (sz + 1) ≡ true = subst (λ n. is_power n ≡ true) (no_offset sz) h in
    ap
      (λ b.
        char_at
          (if b
            then star ∷ unprocessed_from inp index (sz + 1) left
            else char_at inp index ∷ unprocessed_from inp (index + 1) (sz + 1) left)
          0)
      here
  where
    no_offset : (n : ℕ) → n + 0 + 1 ≡ n + 1
    no_offset n = omega arith
unprocessed_from-star inp index sz (suc left) (suc i) l h = elim (Bool-cases (is_power (sz + 1))) [
  | inl power ↦
      ground (
        arith,
        power,
        unprocessed_from-star inp index (sz + 1) left i (omega arith) (shifted sz i h),
      )
  | inr other ↦ ground (
    arith,
    other,
    unprocessed_from-star inp (index + 1) (sz + 1) left i (omega arith) (shifted sz i h),
  )
]
  where
    moved : (n i : ℕ) → n + suc i + 1 ≡ n + 1 + i + 1
    moved n i = omega arith

    shifted : (n i : ℕ) → is_power (n + suc i + 1) ≡ true → is_power (n + 1 + i + 1) ≡ true
    shifted n i h = subst (λ t. is_power t ≡ true) (moved n i) h

-- Every place of a power of two is free.
pub unprocessed-free :
    (inp : List ℕ) (n j : ℕ)
    → 2 ^ j ≤ n
    → char_at (generate_unprocessed_code inp n) (2 ^ j - 1) ≡ star
unprocessed-free inp n j l =
    unprocessed_from-star inp 0 0 n (2 ^ j - 1) (omega (arith, power_pos j)) (
      subst (λ t. is_power t ≡ true) (back j)
        (is_power-power (2 ^ j) j 0 (2 ^ j) refl (omega arith) (omega (arith, power_above j))))
  where
    back : (j : ℕ) → 2 ^ j ≡ 0 + (2 ^ j - 1) + 1
    back j = omega (arith, power_pos j)
