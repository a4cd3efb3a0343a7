-- ===== src/TickTock/Reversal.antt =====
-- The reversal in place.
use mathlib.Core.List
use computer_networks_assign.Prelude.{
  ℕ, zero, suc, ◌+◌, ◌-◌, ◌≤◌, ◌<◌, ◌≡◌, refl, ap, ◌&&◌, none, List, [], ◌∷◌, ◌++◌, length,
  length-append, length-set, get_elem?, get_elem?_below, get_elem?_above, get_elem?-set_self,
  get_elem?-set_ne, get_elem?-append, get_elem?-append_last, get_elem?_ext, set, ltb, leb, ◌==◌,
  if◌then◌else◌, arith, Bool-cases, Option-cases, inl, inr,
}
use computer_networks_assign.TickTock.{swap, reverse_loop, reverse}

get_elem?-swap :
    (str : List ℕ) (s e j : ℕ)
    → s < e
    → e < length str
    → get_elem? (swap str s e) j
      ≡ (if j == s then get_elem? str e else if j == e then get_elem? str s else get_elem? str j)
unfolding swap
get_elem?-swap str s e j h k =
    let (a, ea) = get_elem?_below str s (omega arith) in
    let (b, eb) = get_elem?_below str e k in
    ground (
      arith,
      ea,
      eb,
      get_elem?-set_self (set str s b) e a (omega (arith, length-set str s b)),
      get_elem?-set_ne (set str s b) e j a,
      get_elem?-set_self str s b,
      get_elem?-set_ne str s j b,
      length-set str s b,
    )

length-swap : (str : List ℕ) (s e : ℕ) → length (swap str s e) ≡ length str
unfolding swap
length-swap str s e = elim (Option-cases (get_elem? str s)) [
  | inl no_a ↦ ground arith
  | inr (a, ea) ↦ elim (Option-cases (get_elem? str e)) [
    | inl no_b ↦ ground arith
    | inr (b, eb) ↦ ground (arith, length-set (set str s b) e a, length-set str s b)
  ]
]

length-reverse_loop :
    (fuel : ℕ) (str : List ℕ) (s e : ℕ) → length (reverse_loop fuel str s e) ≡ length str
unfolding reverse_loop
length-reverse_loop zero str s e = refl
length-reverse_loop (suc fuel) str s e =
    ground (arith, length-reverse_loop fuel (swap str s e) (s + 1) (e - 1), length-swap str s e)

around : (s e j : ℕ) → s < e → s + 1 + (e - 1) - j ≡ s + e - j
around s e j h = omega arith

-- The items from `s` to `e` change places, and the others stay.
get_elem?-reverse_loop :
    (fuel : ℕ) (str : List ℕ) (s e j : ℕ)
    → e < length str
    → e ≤ s + fuel
    → get_elem? (reverse_loop fuel str s e) j
      ≡ (if leb s j && leb j e then get_elem? str (s + e - j) else get_elem? str j)
unfolding reverse_loop
get_elem?-reverse_loop zero str s e j h k = elim (Bool-cases (leb s j && leb j e)) [
  | inl within ↦ let at : s + e - j ≡ j = ground arith in ground (arith, ap (get_elem? str) at)
  | inr outside ↦ ground arith
]
get_elem?-reverse_loop (suc fuel) str s e j h k = elim (Bool-cases (ltb s e)) [
  | inr met ↦ elim (Bool-cases (leb s j && leb j e)) [
    | inl within ↦ let at : s + e - j ≡ j = ground arith in ground (arith, ap (get_elem? str) at)
    | inr outside ↦ ground arith
  ]
  | inl apart ↦
      let lt : s < e = ground arith in
      let ih =
        get_elem?-reverse_loop fuel (swap str s e) (s + 1) (e - 1) j
          (omega (arith, length-swap str s e)) (omega arith) in
      let at = get_elem?-swap str s e (s + 1 + (e - 1) - j) lt h in
      let at_j = get_elem?-swap str s e j lt h in
      ground (arith, ih, at, at_j, ap (get_elem? str) (around s e j lt))
]

pub length-reverse : (xs : List ℕ) → length (List.reverse xs) ≡ length xs
length-reverse [] = refl
length-reverse (x ∷ xs) =
    rw (List.reverse-cons x xs)
      (omega (arith, length-append (List.reverse xs) (x ∷ []), length-reverse xs))

get_elem?-reverse :
    (xs : List ℕ) (j : ℕ)
    → get_elem? (List.reverse xs) j
      ≡ (if ltb j (length xs) then get_elem? xs (length xs - 1 - j) else none)
get_elem?-reverse [] j = ground arith
get_elem?-reverse (x ∷ xs) j = rw (List.reverse-cons x xs) (elim (Bool-cases (ltb j (length xs))) [
  | inl early ↦
      let at : length (x ∷ xs) - 1 - j ≡ suc (length xs - 1 - j) = ground arith in
      ground (
        arith,
        get_elem?-append (List.reverse xs) (x ∷ []) j,
        length-reverse xs,
        get_elem?-reverse xs j,
        ap (get_elem? (x ∷ xs)) at,
      )
  | inr late ↦ elim (Bool-cases (j == length xs)) [
    | inl last ↦
        let at : length (x ∷ xs) - 1 - j ≡ 0 = ground arith in
        ground (
          arith,
          get_elem?-append_last (List.reverse xs) x j,
          length-reverse xs,
          ap (get_elem? (x ∷ xs)) at,
        )
    | inr behind ↦ ground (
      arith,
      get_elem?_above (List.reverse xs ++ x ∷ []) j,
      length-append (List.reverse xs) (x ∷ []),
      length-reverse xs,
    )
  ]
])

-- `reverse` reverses.
pub reverse_lem : (str : List ℕ) → reverse str ≡ List.reverse str
unfolding reverse
reverse_lem [] = refl
reverse_lem (x ∷ xs) = get_elem?_ext (reverse (x ∷ xs)) (List.reverse (x ∷ xs)) λ j. ground (
  arith,
  get_elem?-reverse_loop (length (x ∷ xs)) (x ∷ xs) 0 (length xs) j (omega arith) (omega arith),
  get_elem?-reverse (x ∷ xs) j,
  get_elem?_above (x ∷ xs) j,
)
