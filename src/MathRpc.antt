-- ===== src/MathRpc.antt =====
-- The arithmetic and sorting service of Hamming_code_RPC_Assignment_19/rpc/rpc_math:
-- `mathproc_1_svc` of MathSpec_server.c (MathServer.c repeats it) over `struct operations` of
-- MathSpec.h. An `int` is its 32-bit pattern, and arithmetic on it wraps round.
use mathlib.Core.Option
use computer_networks_assign.Prelude.{
  ℕ, zero, suc, ◌+◌, ◌-◌, ◌*◌, ◌/◌, ◌%◌, ◌^◌, Bool, true, false, not, ◌&&◌, Option, none, some,
  List, get_elem?, set, ltb, leb, ◌==◌, if◌then◌else◌,
}
pub mod Sort
pub mod Service
mod Cases

-- `struct operations`; `arr` has 20 items.
pub record Operations : Type 0 where
  pub op1 : ℕ
  pub op2 : ℕ
  pub arr : List ℕ
  pub len : ℕ
  pub result : ℕ
  pub operation : ℕ

unfoldable pub add32 : ℕ → ℕ → ℕ
add32 a b = (a + b) % 2 ^ 32

unfoldable pub sub32 : ℕ → ℕ → ℕ
sub32 a b = (a + 2 ^ 32 - b) % 2 ^ 32

unfoldable pub mul32 : ℕ → ℕ → ℕ
mul32 a b = (a * b) % 2 ^ 32

-- The order of two signed words is that of their keys.
abbrev pub key : ℕ → ℕ
key w = (w + 2 ^ 31) % 2 ^ 32

abbrev pub slt : ℕ → ℕ → Bool
slt a b = ltb (key a) (key b)

abbrev pub is_negative : ℕ → Bool
is_negative w = leb (2 ^ 31) w

abbrev pub magnitude : ℕ → ℕ
magnitude w = if is_negative w then 2 ^ 32 - w else w

-- `a / b` on signed words. `none` is the trap that kills the server: a division by 0, and that of
-- the least `int` by -1.
unfoldable pub div32 : ℕ → ℕ → Option ℕ
div32 a b =
    if b == 0
    then none
    else if (a == 2 ^ 31) && (b == 2 ^ 32 - 1)
    then none
    else some (
        if is_negative a
        then if is_negative b
          then magnitude a / magnitude b
          else (2 ^ 32 - magnitude a / magnitude b) % 2 ^ 32
        else if is_negative b
        then (2 ^ 32 - magnitude a / magnitude b) % 2 ^ 32
        else magnitude a / magnitude b)

-- The three assignments that swap `arr[j]`, now `x`, with `arr[j-1]`, now `y`.
unfoldable pub swap_by_sum : List ℕ → ℕ → ℕ → ℕ → List ℕ
unfolding add32 sub32
swap_by_sum arr j x y =
    let s = add32 x y in let a = sub32 s y in let b = sub32 s a in set (set arr (j - 1) a) j b

-- `if(rtn.arr[j]<rtn.arr[j-1]) { … }`; `none` is an access outside the array.
unfoldable pub compare_swap : List ℕ → ℕ → Option (List ℕ)
compare_swap arr j = elim (get_elem? arr j) [
  | none ↦ none
  | some x ↦ elim (get_elem? arr (j - 1)) [
    | none ↦ none
    | some y ↦ some (if slt x y then swap_by_sum arr j x y else arr)
  ]
]

-- `for(int j=i;j>0;j--)`
unfoldable pub sink : List ℕ → ℕ → Option (List ℕ)
sink arr zero = some arr
sink arr (suc j) = elim (compare_swap arr (suc j)) [ none ↦ none | some arr' ↦ sink arr' j ]

-- `for(int i=1;i<rtn.len;i++)`, with the rounds that are left.
unfoldable pub sort_rounds : List ℕ → ℕ → ℕ → Option (List ℕ)
sort_rounds arr i zero = some arr
sort_rounds arr i (suc n) = elim (sink arr i) [
  | none ↦ none
  | some arr' ↦ sort_rounds arr' (i + 1) n
]

-- The rounds of the outer loop: none for a `len` that is negative or at most 1.
abbrev pub rounds : ℕ → ℕ
rounds len = if is_negative len then 0 else len - 1

-- case 5
unfoldable pub do_sort : Operations → Option Operations
do_sort o = Option.map (λ arr. record o { arr = arr }) (sort_rounds o.arr 1 (rounds o.len))

-- case 4, which has no `break` and goes on with case 5
unfoldable pub do_div : Operations → Option Operations
do_div o = elim (div32 o.op1 o.op2) [ none ↦ none | some q ↦ do_sort (record o { result = q }) ]

unfoldable pub mathproc : Operations → Option Operations
mathproc o =
    if o.operation == 1
    then some (record o { result = add32 o.op1 o.op2 })
    else if o.operation == 2
    then some (record o { result = sub32 o.op1 o.op2 })
    else if o.operation == 3
    then some (record o { result = mul32 o.op1 o.op2 })
    else if o.operation == 4
    then do_div o
    else if o.operation == 5
    then do_sort o
    else some o
