-- ===== src/MathRpc/Cases.antt =====
-- Requests to the service, and its theorems at them.
use mathlib.Core.List.{Perm}
use computer_networks_assign.Prelude.{
  ℕ, ◌-◌, ◌^◌, ◌≡◌, ◌↔◌, ◌≤◌, length, refl, some, List, [], ◌∷◌, ◌++◌, arith,
}
use computer_networks_assign.MathRpc.{
  Operations, div32, swap_by_sum, compare_swap, sink, sort_rounds, do_sort, do_div, mathproc,
}
use computer_networks_assign.MathRpc.Sort.{Rises}
use computer_networks_assign.MathRpc.Service.{mathproc_sorts, mathproc_sort_answered}

-- Four items of which the first three are counted; the pattern of -1 comes second.
abbrev request : ℕ → ℕ → Operations
request operation len = record {
  op1 = 2 ^ 32 - 7;
  op2 = 2;
  arr = 5 ∷ (2 ^ 32 - 1) ∷ 3 ∷ 0 ∷ [];
  len = len;
  result = 0;
  operation = operation;
}

abbrev sorted : List ℕ
sorted = (2 ^ 32 - 1) ∷ 3 ∷ 5 ∷ 0 ∷ []

mathproc_sort_run : mathproc (request 5 3) ≡ some (record (request 5 3) { arr = sorted })
unfolding mathproc do_sort sort_rounds sink compare_swap swap_by_sum
mathproc_sort_run = refl

-- -7 / 2 is -3, and the array comes back sorted.
mathproc_div_run :
    mathproc (request 4 3) ≡ some (record (request 4 3) { arr = sorted; result = 2 ^ 32 - 3 })
unfolding mathproc do_div div32 do_sort sort_rounds sink compare_swap swap_by_sum
mathproc_div_run = refl

mathproc_sorts_example :
    (ys : List ℕ) × (mathproc (request 5 3) ≡ some (record (request 5 3) { arr = ys ++ 0 ∷ [] }))
    × Rises ys
    × Perm ys (5 ∷ (2 ^ 32 - 1) ∷ 3 ∷ [])
mathproc_sorts_example =
    mathproc_sorts (request 5 3) 5 ((2 ^ 32 - 1) ∷ 3 ∷ []) (0 ∷ []) refl refl (omega arith) refl
      (omega arith)

mathproc_sort_answered_example :
    ((r : Operations) × (mathproc (request 5 21) ≡ some r)) ↔ (21 ≤ length (request 5 21).arr)
mathproc_sort_answered_example =
    mathproc_sort_answered (request 5 21) refl (omega arith) (omega arith) (omega arith)
      (omega arith)
