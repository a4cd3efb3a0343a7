-- ===== src/Hamming/Process.antt =====
-- The loop that sets the parity bits.
use computer_networks_assign.Prelude.{
  ℕ, zero, suc, ◌+◌, ◌-◌, ◌%◌, ◌^◌, ◌<◌, ◌≤◌, ◌≡◌, ◌≢◌, inl, inr, refl, sym, ap, ◌∙◌, false, some,
  List, length, get_elem?-set_ne, set, ◌==◌, if◌then◌else◌, length-set, Bool-cases, ==_iff, arith,
}
use computer_networks_assign.Hamming.{
  star, char_at, bit, find_positions, get_parity_bit, process_from,
}
use computer_networks_assign.Hamming.Lengths.{power_pos}
use computer_networks_assign.Hamming.Parity.{bit_same, bit_other, one, ones, parity_ones, ones-set}

one-star : (k p : ℕ) → one k p star ≡ 0
one-star k p = ground arith

one_off : (k p c : ℕ) → bit k p ≡ 0 → one k p c ≡ 0
one_off k p c e = ground (arith, e)

one_on : (k p c : ℕ) → bit k p ≡ 1 → one k p c ≡ (if c == b'1' then 1 else 0)
one_on k p c e = ground (arith, e)

power_inj : (i j : ℕ) → i ≢ j → 2 ^ i ≢ 2 ^ j
power_inj i j h e =
    let a = bit_same j in
    let b = bit_other j i (λ k. h (sym k)) in let c = ap (bit j) e in omega arith

place : (k : ℕ) → 1 + (2 ^ k - 1) ≡ 2 ^ k
place k = omega (arith, power_pos k)

-- What the loop of `process_string` needs of the bits from `i` on.
pub record IsReady (n i left : ℕ) (res : List ℕ) : Type 0 where
  pub same_length : length res ≡ n
  pub even : (k : ℕ) → k < i → ones k 1 res % 2 ≡ 0
  pub free : (j : ℕ) → i ≤ j → j < i + left → char_at res (2 ^ j - 1) ≡ star
  pub fits : (j : ℕ) → j < i + left → 2 ^ j ≤ n

char_at-set_ne : (s : List ℕ) (i j v : ℕ) → i ≢ j → char_at (set s i v) j ≡ char_at s j
char_at-set_ne s i j v h = cc (get_elem?-set_ne s i j v h)

parity_even : (n : ℕ) → (n + (if n % 2 + 48 == 49 then 1 else 0)) % 2 ≡ 0
parity_even n = ground arith

set_free :
    (res : List ℕ) (i v k : ℕ)
    → 2 ^ i ≤ length res
    → char_at res (2 ^ i - 1) ≡ star
    → ones k 1 (set res (2 ^ i - 1) v) ≡ ones k 1 res + one k (2 ^ i) v
set_free res i v k l e =
    let swap = ones-set k 1 res (2 ^ i - 1) v (omega (arith, power_pos i)) in
    let old : one k (1 + (2 ^ i - 1)) (char_at res (2 ^ i - 1)) ≡ 0 =
      ap (one k (1 + (2 ^ i - 1))) e ∙ one-star k (1 + (2 ^ i - 1)) in
    let new : one k (1 + (2 ^ i - 1)) v ≡ one k (2 ^ i) v = ap (λ p. one k p v) (place i) in
    without _ _ _ _ old swap ∙ ap (λ t. ones k 1 res + t) new
  where
    without : (a b c d : ℕ) → b ≡ 0 → a + b ≡ c + d → a ≡ c + d
    without a b c d h k = omega arith

even_next :
    (res : List ℕ) (i v k : ℕ)
    → v ≡ ones i 1 res % 2 + 48
    → ones k 1 (set res (2 ^ i - 1) v) ≡ ones k 1 res + one k (2 ^ i) v
    → (k ≢ i → ones k 1 res % 2 ≡ 0)
    → ones k 1 (set res (2 ^ i - 1) v) % 2 ≡ 0
even_next res i v k e change h = elim (Bool-cases (k == i)) [
  | inl same ↦
      let eq : k ≡ i = (==_iff k i).0 same in
      ap (λ t. t % 2)
        (change
          ∙ ap (λ j. ones j 1 res + one j (2 ^ i) v) eq
          ∙ ap (λ t. ones i 1 res + t)
              (one_on i (2 ^ i) v (bit_same i) ∙ ap (λ c. if c == 49 then 1 else 0) e))
      ∙ parity_even (ones i 1 res)
  | inr differs ↦
      let ne : k ≢ i = λ eq. other k i eq differs in
      ap (λ t. t % 2)
        (change
          ∙ ap (λ t. ones k 1 res + t) (one_off k (2 ^ i) v (bit_other k i ne))
          ∙ plain (ones k 1 res))
      ∙ h ne
]
  where
    plain : (n : ℕ) → n + 0 ≡ n
    plain n = omega arith

    other : (k i : ℕ) → k ≡ i → k == i ≡ false → ⊥
    other k i e f = ground arith

IsReady-next :
    (n i left v : ℕ) (res : List ℕ)
    → IsReady n i (suc left) res
    → v ≡ ones i 1 res % 2 + 48
    → IsReady n (i + 1) left (set res (2 ^ i - 1) v)
IsReady-next n i left v res r e =
    let room : 2 ^ i ≤ length res = omega (arith, r.same_length, r.fits i (omega arith)) in
    let was : char_at res (2 ^ i - 1) ≡ star = r.free i (omega arith) (omega arith) in
    record {
      same_length = length-set res (2 ^ i - 1) v ∙ r.same_length;
      even = λ k l.
          even_next res i v k e (set_free res i v k room was) (λ ne. r.even k (omega (arith, ne)));
      free = λ j l m.
          char_at-set_ne res (2 ^ i - 1) (2 ^ j - 1) v (apart i j l)
          ∙ r.free j (omega arith) (omega arith);
      fits = λ j m. r.fits j (omega arith);
    }
  where
    apart : (i j : ℕ) → i + 1 ≤ j → 2 ^ i - 1 ≢ 2 ^ j - 1
    apart i j l h = power_inj i j (λ e. omega arith) (omega (arith, power_pos i, power_pos j))

process_step :
    (i left v : ℕ) (res : List ℕ)
    → 2 ^ i ≤ length res
    → v ≡ get_parity_bit (find_positions i (length res)) res + 48
    → process_from i (suc left) res ≡ process_from (i + 1) left (set res (2 ^ i - 1) v)
unfolding process_from
process_step i left v res l e = ground (arith, power_pos i)

pub process_ready :
    (n i left : ℕ) (res : List ℕ)
    → IsReady n i left res
    → (code : List ℕ) × (process_from i left res ≡ some code)
      × (length code ≡ n)
      × ((k : ℕ) → k < i + left → ones k 1 code % 2 ≡ 0)
unfolding process_from
process_ready n i zero res r = (res, refl, r.same_length, λ k l. r.even k (omega arith))
process_ready n i (suc left) res r =
    let v = get_parity_bit (find_positions i (length res)) res + 48 in
    let room : 2 ^ i ≤ length res = omega (arith, r.same_length, r.fits i (omega arith)) in
    let (code, e, l, even) =
      process_ready n (i + 1) left (set res (2 ^ i - 1) v)
        (IsReady-next n i left v res r (ap (λ t. t + 48) (parity_ones i res))) in
    (code, process_step i left v res room refl ∙ e, l, λ k m. even k (omega arith))
