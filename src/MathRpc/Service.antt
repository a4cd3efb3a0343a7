-- ===== src/MathRpc/Service.antt =====
-- What `mathproc_1_svc` answers, request by request, and the requests that kill the server.
use mathlib.Core.List.{Perm}
use mathlib.Core.Option
use computer_networks_assign.Prelude.{
  ◌⊎◌, ◌↔◌, Bool-cases, leb, get_elem?_below, refl, if◌then◌else◌, ℕ, zero, suc, ◌+◌, ◌-◌, ◌^◌, ◌≤◌,
  ◌<◌, ◌≡◌, ◌∙◌, none, some, List, ◌∷◌, ◌++◌, get_elem?, get_elem?_above, length, length-set, All,
  arith, Option-cases, inl, inr,
}
use computer_networks_assign.MathRpc.{
  Operations, slt, rounds, div32, swap_by_sum, compare_swap, sink, sort_rounds, do_sort, do_div,
  mathproc,
}
use computer_networks_assign.MathRpc.Sort.{IsWord, Rises, sort_rounds_sorts}

-- A sort request whose `len` counts the items `x ∷ xs` gets them back in the signed order.
pub mathproc_sorts :
    (o : Operations) (x : ℕ) (xs tail : List ℕ)
    → o.operation ≡ 5
    → o.len ≡ suc (length xs)
    → o.len < 2 ^ 31
    → o.arr ≡ x ∷ xs ++ tail
    → All IsWord (x ∷ xs)
    → (ys : List ℕ) × (mathproc o ≡ some (record o { arr = ys ++ tail }))
      × Rises ys
      × Perm ys (x ∷ xs)
unfolding mathproc do_sort
mathproc_sorts o x xs tail op len fits arr words =
    let (ys, run, rises, perm) = sort_rounds_sorts x xs tail words in
    (ys, ground (arith, run), rises, perm)

-- A division request has no `break`: it sorts the array as well, exactly as a sort request would.
mathproc_div_falls_through :
    (o : Operations) (q : ℕ)
    → o.operation ≡ 4
    → div32 o.op1 o.op2 ≡ some q
    → mathproc o
      ≡ Option.map
          (λ (r : Operations). record r { result = q; operation = 4 })
          (mathproc (record o { operation = 5 }))
unfolding mathproc do_div do_sort
mathproc_div_falls_through o q op e = ground arith

swap_by_sum-length : (arr : List ℕ) (j x y : ℕ) → length (swap_by_sum arr j x y) ≡ length arr
unfolding swap_by_sum
swap_by_sum-length arr j x y = length-set _ j _ ∙ length-set arr (j - 1) _

compare_swap-length :
    (arr arr' : List ℕ) (j : ℕ) → compare_swap arr j ≡ some arr' → length arr' ≡ length arr
unfolding compare_swap
compare_swap-length arr arr' j e = elim (Option-cases (get_elem? arr j)) [
  | inl n ↦ ground arith
  | inr (x, ex) ↦ elim (Option-cases (get_elem? arr (j - 1))) [
    | inl n ↦ ground arith
    | inr (y, ey) ↦ ground (arith, swap_by_sum-length arr j x y)
  ]
]

pub sink-length : (arr arr' : List ℕ) (j : ℕ) → sink arr j ≡ some arr' → length arr' ≡ length arr
unfolding sink
sink-length arr arr' zero e = ground arith
sink-length arr arr' (suc j) e = elim (Option-cases (compare_swap arr (suc j))) [
  | inl n ↦ ground arith
  | inr (mid, m) ↦ sink-length mid arr' j (ground arith) ∙ compare_swap-length arr mid (suc j) m
]

sort_rounds-length :
    (arr arr' : List ℕ) (i n : ℕ) → sort_rounds arr i n ≡ some arr' → length arr' ≡ length arr
unfolding sort_rounds
sort_rounds-length arr arr' i zero e = ground arith
sort_rounds-length arr arr' i (suc n) e = elim (Option-cases (sink arr i)) [
  | inl n ↦ ground arith
  | inr (mid, m) ↦ sort_rounds-length mid arr' (i + 1) n (ground arith) ∙ sink-length arr mid i m
]

abbrev Repeats : Operations → Operations → Type 0
Repeats o r =
    (r.op1 ≡ o.op1)
    × (r.op2 ≡ o.op2)
    × (r.len ≡ o.len)
    × (r.operation ≡ o.operation)
    × (length r.arr ≡ length o.arr)

do_sort-Repeats : (o r : Operations) → do_sort o ≡ some r → Repeats o r
unfolding do_sort
do_sort-Repeats o r e = elim (Option-cases (sort_rounds o.arr 1 (rounds o.len))) [
  | inl n ↦ ground arith
  | inr (arr, m) ↦ ground (arith, sort_rounds-length o.arr arr 1 (rounds o.len) m)
]

do_div-Repeats : (o r : Operations) → do_div o ≡ some r → Repeats o r
unfolding do_div
do_div-Repeats o r e = elim (Option-cases (div32 o.op1 o.op2)) [
  | inl n ↦ ground arith
  | inr (q, m) ↦ ground (arith, do_sort-Repeats (record o { result = q }) r)
]

-- An answer repeats the request's operands, `len` and `operation`, and `arr` keeps its size.
mathproc-Repeats : (o r : Operations) → mathproc o ≡ some r → Repeats o r
unfolding mathproc
mathproc-Repeats o r e = ground (arith, do_div-Repeats o r, do_sort-Repeats o r)

sink_outside : (arr : List ℕ) (i : ℕ) → 0 < i → length arr ≤ i → sink arr i ≡ none
unfolding sink compare_swap
sink_outside arr zero p h = elim p [ ]
sink_outside arr (suc j) p h = ground (arith, get_elem?_above arr (suc j) h)

sort_rounds_outside :
    (arr : List ℕ) (i n : ℕ) → 0 < i → 0 < n → length arr < i + n → sort_rounds arr i n ≡ none
unfolding sort_rounds
sort_rounds_outside arr i zero p q h = elim q [ ]
sort_rounds_outside arr i (suc n) p q h = elim (Option-cases (sink arr i)) [
  | inl e ↦ ground arith
  | inr (mid, e) ↦
      let same : length mid ≡ length arr = sink-length arr mid i e in
      let inside : i < length arr = ground (arith, sink_outside arr i p) in
      ground (arith, sort_rounds_outside mid (i + 1) n (omega arith) (omega arith) (omega arith))
]

-- `len` is not checked against the 20 items: a sort request that counts more than there are runs
-- out of the array.
pub mathproc_overrun :
    (o : Operations)
    → o.operation ≡ 5
    → 1 < o.len
    → o.len < 2 ^ 31
    → length o.arr < o.len
    → mathproc o ≡ none
unfolding mathproc do_sort
mathproc_overrun o op two fits over =
    ground
      (arith, sort_rounds_outside o.arr 1 (o.len - 1) (omega arith) (omega arith) (omega arith))

compare_swap_total :
    (arr : List ℕ) (j : ℕ) → j < length arr → (arr' : List ℕ) × (compare_swap arr j ≡ some arr')
unfolding compare_swap
compare_swap_total arr j h =
    let (x, ex) = get_elem?_below arr j h in
    let (y, ey) = get_elem?_below arr (j - 1) (omega arith) in
    (if slt x y then swap_by_sum arr j x y else arr, ground arith)

sink_total : (arr : List ℕ) (j : ℕ) → j < length arr → (arr' : List ℕ) × (sink arr j ≡ some arr')
unfolding sink
sink_total arr zero h = (arr, refl)
sink_total arr (suc j) h =
    let (mid, m) = compare_swap_total arr (suc j) h in
    let same : length mid ≡ length arr = compare_swap-length arr mid (suc j) m in
    let (arr', e) = sink_total mid j (omega arith) in (arr', ground arith)

sort_rounds_total :
    (arr : List ℕ) (i n : ℕ)
    → i + n ≤ length arr
    → (arr' : List ℕ) × (sort_rounds arr i n ≡ some arr')
unfolding sort_rounds
sort_rounds_total arr i zero h = (arr, refl)
sort_rounds_total arr i (suc n) h =
    let (mid, m) = sink_total arr i (omega arith) in
    let same : length mid ≡ length arr = sink-length arr mid i m in
    let (arr', e) = sort_rounds_total mid (i + 1) n (omega arith) in (arr', ground arith)

-- A sort request whose count lies within the array is always answered.
pub mathproc_sort_total :
    (o : Operations)
    → o.operation ≡ 5
    → 0 < length o.arr
    → o.len ≤ length o.arr
    → length o.arr < 2 ^ 31
    → (r : Operations) × (mathproc o ≡ some r)
unfolding mathproc do_sort
mathproc_sort_total o op some_items fits small =
    let (arr, e) = sort_rounds_total o.arr 1 (rounds o.len) (ground arith) in
    (record o { arr = arr }, ground arith)

answered_not : (o : Operations) → ((r : Operations) × (mathproc o ≡ some r)) → mathproc o ≡ none → ⊥
answered_not o (r, e) h = cc

le-or-lt : (a b : ℕ) → (a ≤ b) ⊎ (b < a)
le-or-lt a b = elim (Bool-cases (leb a b)) [
  | inl h ↦ inl (ground arith)
  | inr h ↦ inr (ground arith)
]

-- Exactly when a sort request whose positive count is above 1 is answered: when the count is at most
-- the number of items of `arr`. It is not checked; a larger one runs out of the array.
pub mathproc_sort_answered :
    (o : Operations)
    → o.operation ≡ 5
    → 1 < o.len
    → o.len < 2 ^ 31
    → 0 < length o.arr
    → length o.arr < 2 ^ 31
    → ((r : Operations) × (mathproc o ≡ some r)) ↔ (o.len ≤ length o.arr)
mathproc_sort_answered o op two fits some_items small = (
  (λ answered. elim (le-or-lt o.len (length o.arr)) [
    | inl le ↦ le
    | inr over ↦ absurd (answered_not o answered (mathproc_overrun o op two fits over))
  ]),
  (λ le. mathproc_sort_total o op some_items le small),
)
