-- ===== src/MathRpc/Sort.antt =====
-- The nested loops of `mathproc_1_svc` sort the first `len` items in place.
use mathlib.Core.List.{Perm, perm_middle, append-nil}
use mathlib.Core.List.Perm
use computer_networks_assign.Prelude.{
  ℕ, suc, ◌+◌, ◌-◌, ◌^◌, ◌≤◌, ◌<◌, ◌≡◌, refl, ap, ◌∙◌, false, some, List, [], ◌∷◌, ◌++◌, get_elem?,
  set, length, All, if◌then◌else◌, arith, Bool-cases, inl, inr,
}
use computer_networks_assign.MathRpc.{
  key, slt, add32, sub32, swap_by_sum, compare_swap, sink, sort_rounds,
}

abbrev pub IsWord : ℕ → Type 0
IsWord w = w < 2 ^ 32

-- A prefix, last item first, in front of the rest.
abbrev pub rev_onto : List ℕ → List ℕ → List ℕ
rev_onto [] rest = rest
rev_onto (y ∷ r) rest = rev_onto r (y ∷ rest)

get_elem?-rev_onto :
    (r rest : List ℕ) (i k : ℕ)
    → i ≡ length r + k
    → get_elem? (rev_onto r rest) i ≡ get_elem? rest k
get_elem?-rev_onto [] rest i k e = ap (get_elem? rest) (omega arith)
get_elem?-rev_onto (y ∷ r) rest i k e = get_elem?-rev_onto r (y ∷ rest) i (suc k) (omega arith)

set-rev_onto :
    (r rest : List ℕ) (i k v : ℕ)
    → i ≡ length r + k
    → set (rev_onto r rest) i v ≡ rev_onto r (set rest k v)
set-rev_onto [] rest i k v e = ap (λ j. set rest j v) (omega arith)
set-rev_onto (y ∷ r) rest i k v e = set-rev_onto r (y ∷ rest) i (suc k) v (omega arith)

sum_first : (x y : ℕ) → IsWord x → IsWord y → sub32 (add32 x y) y ≡ x
unfolding sub32 add32
sum_first x y hx hy = omega arith

sum_second : (x y : ℕ) → IsWord x → IsWord y → sub32 (add32 x y) x ≡ y
unfolding sub32 add32
sum_second x y hx hy = omega arith

set_pair :
    (r rest : List ℕ) (x y a b : ℕ)
    → set (set (rev_onto r (y ∷ x ∷ rest)) (suc (length r) - 1) a) (suc (length r)) b
      ≡ rev_onto r (a ∷ b ∷ rest)
set_pair r rest x y a b =
    ap (λ l. set l (suc (length r)) b)
      (set-rev_onto r (y ∷ x ∷ rest) (suc (length r) - 1) 0 a (omega arith))
    ∙ set-rev_onto r (a ∷ x ∷ rest) (suc (length r)) 1 b (omega arith)

-- The swap by sums exchanges the two items, whatever overflows.
swap_by_sum_lem :
    (r rest : List ℕ) (x y : ℕ)
    → IsWord x
    → IsWord y
    → swap_by_sum (rev_onto (y ∷ r) (x ∷ rest)) (suc (length r)) x y ≡ rev_onto (x ∷ r) (y ∷ rest)
unfolding swap_by_sum
swap_by_sum_lem r rest x y hx hy =
    rw (sum_first x y hx hy, sum_second x y hx hy) (set_pair r rest x y x y)

compare_swap_lem :
    (r rest : List ℕ) (x y : ℕ)
    → IsWord x
    → IsWord y
    → compare_swap (rev_onto (y ∷ r) (x ∷ rest)) (suc (length r))
      ≡ some (if slt x y then rev_onto (x ∷ r) (y ∷ rest) else rev_onto (y ∷ r) (x ∷ rest))
unfolding compare_swap
compare_swap_lem r rest x y hx hy = ground (
  arith,
  get_elem?-rev_onto r (y ∷ x ∷ rest) (suc (length r)) 1 (omega arith),
  get_elem?-rev_onto r (y ∷ x ∷ rest) (suc (length r) - 1) 0 (omega arith),
  swap_by_sum_lem r rest x y hx hy,
)

-- What one pass of the inner loop does to the item behind a prefix.
abbrev pub bubble : List ℕ → ℕ → List ℕ → List ℕ
bubble [] x rest = x ∷ rest
bubble (y ∷ r) x rest = bubble r (if slt x y then x else y) ((if slt x y then y else x) ∷ rest)

sink-bubble :
    (r rest : List ℕ) (x : ℕ)
    → All IsWord r
    → IsWord x
    → sink (rev_onto r (x ∷ rest)) (length r) ≡ some (bubble r x rest)
unfolding sink
sink-bubble [] rest x h hx = refl
sink-bubble (y ∷ r) rest x h hx = elim (Bool-cases (slt x y)) [
  | inl e ↦ ground (arith, compare_swap_lem r rest x y hx h.0, sink-bubble r (y ∷ rest) x h.1 hx)
  | inr e ↦ ground (arith, compare_swap_lem r rest x y hx h.0, sink-bubble r (x ∷ rest) y h.1 h.0)
]

-- Insertion into a prefix that falls towards its tail.
abbrev pub insert_desc : ℕ → List ℕ → List ℕ
insert_desc x [] = x ∷ []
insert_desc x (y ∷ r) = if slt x y then y ∷ insert_desc x r else x ∷ y ∷ r

abbrev pub Falls : List ℕ → Type 0
Falls [] = Unit {0}
Falls (x ∷ []) = Unit {0}
Falls (x ∷ y ∷ r) = (key y ≤ key x) × Falls (y ∷ r)

not-slt : (x y : ℕ) → key y ≤ key x → slt x y ≡ false
not-slt x y h = ground arith

Falls-tail : (x : ℕ) (r : List ℕ) → Falls (x ∷ r) → Falls r
Falls-tail x [] f = tt
Falls-tail x (y ∷ r) f = f.1

bubble_settled : (r rest : List ℕ) (x : ℕ) → Falls (x ∷ r) → bubble r x rest ≡ rev_onto r (x ∷ rest)
bubble_settled [] rest x f = refl
bubble_settled (y ∷ r) rest x f = rw (not-slt x y f.0) (bubble_settled r (x ∷ rest) y f.1)

bubble-insert_desc :
    (r rest : List ℕ) (x : ℕ) → Falls r → bubble r x rest ≡ rev_onto (insert_desc x r) rest
bubble-insert_desc [] rest x f = refl
bubble-insert_desc (y ∷ r) rest x f = elim (Bool-cases (slt x y)) [
  | inl e ↦ rw e (bubble-insert_desc r (y ∷ rest) x (Falls-tail y r f))
  | inr e ↦ rw e (bubble_settled r (x ∷ rest) y f)
]

insert_desc-Falls : (x : ℕ) (r : List ℕ) → Falls r → Falls (insert_desc x r)
insert_desc-Falls x [] f = tt
insert_desc-Falls x (y ∷ []) f = ground arith
insert_desc-Falls x (y ∷ z ∷ r) f = ground (arith, insert_desc-Falls x (z ∷ r) f.1)

insert_desc-IsWord : (x : ℕ) (r : List ℕ) → IsWord x → All IsWord r → All IsWord (insert_desc x r)
insert_desc-IsWord x [] hx h = (hx, tt)
insert_desc-IsWord x (y ∷ r) hx h = ground (arith, insert_desc-IsWord x r hx h.1)

length-insert_desc : (x : ℕ) (r : List ℕ) → length (insert_desc x r) ≡ suc (length r)
length-insert_desc x [] = refl
length-insert_desc x (y ∷ r) = ground (arith, length-insert_desc x r)

insert_desc-perm : (x : ℕ) (r : List ℕ) → Perm (insert_desc x r) (x ∷ r)
insert_desc-perm x [] = Perm.refl _
insert_desc-perm x (y ∷ r) = elim (Bool-cases (slt x y)) [
  | inl e ↦ rw e (Perm.trans (Perm.cons y (insert_desc-perm x r)) (Perm.swap x y r))
  | inr e ↦ rw e (Perm.refl _)
]

abbrev pub insert_all : List ℕ → List ℕ → List ℕ
insert_all r [] = r
insert_all r (x ∷ xs) = insert_all (insert_desc x r) xs

insert_all-Falls : (r xs : List ℕ) → Falls r → Falls (insert_all r xs)
insert_all-Falls r [] f = f
insert_all-Falls r (x ∷ xs) f = insert_all-Falls (insert_desc x r) xs (insert_desc-Falls x r f)

insert_all-perm : (r xs : List ℕ) → Perm (insert_all r xs) (r ++ xs)
insert_all-perm r [] = rw append-nil (Perm.refl r)
insert_all-perm r (x ∷ xs) =
    Perm.trans (insert_all-perm (insert_desc x r) xs) (
      Perm.trans (Perm.append (insert_desc-perm x r) (Perm.refl xs)) (Perm.symm (perm_middle r xs)))

sort_rounds-insert_all :
    (r xs tail : List ℕ) (i : ℕ)
    → i ≡ length r
    → All IsWord r
    → All IsWord xs
    → Falls r
    → sort_rounds (rev_onto r (xs ++ tail)) i (length xs) ≡ some (rev_onto (insert_all r xs) tail)
unfolding sort_rounds
sort_rounds-insert_all r [] tail i e hr hx f = refl
sort_rounds-insert_all r (x ∷ xs) tail i e hr hx f = ground (
  arith,
  e,
  sink-bubble r (xs ++ tail) x hr hx.0,
  bubble-insert_desc r (xs ++ tail) x f,
  sort_rounds-insert_all (insert_desc x r) xs tail (i + 1) (omega (arith, length-insert_desc x r))
      (insert_desc-IsWord x r hx.0 hr) hx.1 (insert_desc-Falls x r f),
)

-- Signed order, along a list.
abbrev pub Rises : List ℕ → Type 0
Rises [] = Unit {0}
Rises (x ∷ []) = Unit {0}
Rises (x ∷ y ∷ r) = (key x ≤ key y) × Rises (y ∷ r)

rev_onto-Rises :
    (x : ℕ) (r acc : List ℕ) → Falls (x ∷ r) → Rises (x ∷ acc) → Rises (rev_onto r (x ∷ acc))
rev_onto-Rises x [] acc f h = h
rev_onto-Rises x (y ∷ r) acc f h = rev_onto-Rises y r (x ∷ acc) f.1 (f.0, h)

rev_onto-Rises_nil : (r : List ℕ) → Falls r → Rises (rev_onto r [])
rev_onto-Rises_nil [] f = tt
rev_onto-Rises_nil (x ∷ r) f = rev_onto-Rises x r [] f tt

rev_onto-perm : (r acc : List ℕ) → Perm (rev_onto r acc) (r ++ acc)
rev_onto-perm [] acc = Perm.refl acc
rev_onto-perm (y ∷ r) acc = Perm.trans (rev_onto-perm r (y ∷ acc)) (perm_middle r acc)

rev_onto-append : (r acc tail : List ℕ) → rev_onto r (acc ++ tail) ≡ rev_onto r acc ++ tail
rev_onto-append [] acc tail = refl
rev_onto-append (y ∷ r) acc tail = rev_onto-append r (y ∷ acc) tail

-- The loops sort the first items in the signed order and leave the others as they were.
pub sort_rounds_sorts :
    (x : ℕ) (xs tail : List ℕ)
    → All IsWord (x ∷ xs)
    → (ys : List ℕ) × (sort_rounds (x ∷ xs ++ tail) 1 (length xs) ≡ some (ys ++ tail))
      × Rises ys
      × Perm ys (x ∷ xs)
sort_rounds_sorts x xs tail h =
    let sorted = insert_all (x ∷ []) xs in
    (
      rev_onto sorted [],
      sort_rounds-insert_all (x ∷ []) xs tail 1 refl (h.0, tt) h.1 tt
          ∙ ap some (rev_onto-append sorted [] tail),
      rev_onto-Rises_nil sorted (insert_all-Falls (x ∷ []) xs tt),
      Perm.trans (rev_onto-perm sorted []) (rw append-nil (insert_all-perm (x ∷ []) xs)),
    )
