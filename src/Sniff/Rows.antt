-- ===== src/Sniff/Rows.antt =====
-- A dump in rows of sixteen bytes, and the same row by row from a row that has begun.
use computer_networks_assign.Prelude.{
  ℕ, zero, suc, ◌+◌, ◌-◌, ◌*◌, ◌<◌, ◌≤◌, ◌≡◌, refl, sym, ap, ◌∙◌, ◌==◌, if◌then◌else◌, List, [],
  ◌∷◌, ◌++◌, map, length, take, drop, replicate, append_assoc, append-nil, length-append, inl, inr,
  Bool-cases, ==_iff, arith,
}
use computer_networks_assign.Sniff.{print_hex, print_char, gap}

unfoldable pub hexes : List ℕ → List ℕ
hexes [] = []
hexes (b ∷ bs) = print_hex b ++ hexes bs

-- The right-hand column
abbrev pub chars : List ℕ → List ℕ
chars bs = gap ++ (map print_char bs ++ 10 ∷ [])

-- A row of at most sixteen bytes, with spaces for those that are missing.
unfoldable pub row : List ℕ → List ℕ
row bs = replicate 3 32 ++ (hexes bs ++ (replicate (3 * (16 - length bs)) 32 ++ chars bs))

unfoldable pub rows : ℕ → List ℕ → List ℕ
rows zero bs = []
rows (suc fuel) [] = []
rows (suc fuel) (b ∷ bs) = row (take 16 (b ∷ bs)) ++ rows fuel (drop 16 (b ∷ bs))

-- The dump, a row for every sixteen bytes.
unfoldable pub hexdump : List ℕ → List ℕ
hexdump bs = rows (length bs) bs

-- What is printed behind the bytes `cur` of a row when `next` are left.
abbrev pub close : List ℕ → List ℕ → List ℕ
close cur [] = replicate (3 * (16 - length cur)) 32 ++ chars cur
close cur (y ∷ ys) = []

unfoldable pub tail : List ℕ → List ℕ → List ℕ
tail cur [] = []
tail cur (y ∷ ys) =
    let new = tail (y ∷ []) ys in
    let same = tail (cur ++ y ∷ []) ys in
    if length cur == 16
    then chars cur ++ (replicate 3 32 ++ (print_hex y ++ (close (y ∷ []) ys ++ new)))
    else print_hex y ++ (close (cur ++ y ∷ []) ys ++ same)

pub take-front : (xs ys : List ℕ) (n : ℕ) → length xs ≡ n → take n (xs ++ ys) ≡ xs
take-front [] ys zero e = refl
take-front [] ys (suc n) e = absurd (omega arith)
take-front (x ∷ xs) ys zero e = absurd (omega arith)
take-front (x ∷ xs) ys (suc n) e = ap (λ t. x ∷ t) (take-front xs ys n (omega arith))

pub drop-front : (xs ys : List ℕ) (n : ℕ) → length xs ≡ n → drop n (xs ++ ys) ≡ ys
drop-front [] ys zero e = refl
drop-front [] ys (suc n) e = absurd (omega arith)
drop-front (x ∷ xs) ys zero e = absurd (omega arith)
drop-front (x ∷ xs) ys (suc n) e = drop-front xs ys n (omega arith)

take_short : (xs : List ℕ) (n : ℕ) → length xs ≤ n → (take n xs ≡ xs) × (drop n xs ≡ [])
take_short [] zero h = (refl, refl)
take_short [] (suc n) h = (refl, refl)
take_short (x ∷ xs) zero h = absurd (omega arith)
take_short (x ∷ xs) (suc n) h = let t = take_short xs n (omega arith) in (ap (λ k. x ∷ k) t.0, t.1)

rows_nil : (fuel : ℕ) → rows fuel [] ≡ []
unfolding rows
rows_nil zero = refl
rows_nil (suc fuel) = refl

rows_full :
    (cur ys : List ℕ) (fuel : ℕ)
    → length cur ≡ 16
    → rows (suc fuel) (cur ++ ys) ≡ row cur ++ rows fuel ys
unfolding rows
rows_full [] ys fuel l = absurd (omega arith)
rows_full (c ∷ cur) ys fuel l =
    let t = take-front (c ∷ cur) ys 16 l in let d = drop-front (c ∷ cur) ys 16 l in cc

rows_last :
    (cur : List ℕ) (fuel : ℕ) → 1 ≤ length cur → length cur ≤ 16 → rows (suc fuel) cur ≡ row cur
unfolding rows
rows_last [] fuel l l' = absurd (omega arith)
rows_last (c ∷ cur) fuel l l' =
    let t = take_short (c ∷ cur) 16 l' in
    ground (arith, t.0, t.1, rows_nil fuel, append-nil (row (c ∷ cur)))

hexes-append : (xs ys : List ℕ) → hexes (xs ++ ys) ≡ hexes xs ++ hexes ys
unfolding hexes
hexes-append [] ys = refl
hexes-append (x ∷ xs) ys = ap (λ t. print_hex x ++ t) (hexes-append xs ys)

row_then :
    (cur zs : List ℕ)
    → length cur ≡ 16
    → row cur ++ zs ≡ replicate 3 32 ++ (hexes cur ++ (chars cur ++ zs))
unfolding row
row_then cur zs l =
    ap (λ k. (replicate 3 32 ++ (hexes cur ++ (replicate (3 * (16 - k)) 32 ++ chars cur))) ++ zs) l
    ∙ ap (λ t. replicate 3 32 ++ t) (append_assoc (hexes cur) (chars cur) zs)

tail_full :
    (cur ys : List ℕ) (y : ℕ)
    → length cur ≡ 16
    → tail cur (y ∷ ys)
      ≡ chars cur ++ (replicate 3 32 ++ (print_hex y ++ (close (y ∷ []) ys ++ tail (y ∷ []) ys)))
unfolding tail
tail_full cur ys y l = ground arith

tail_same :
    (cur ys : List ℕ) (y : ℕ)
    → length cur < 16
    → tail cur (y ∷ ys) ≡ print_hex y ++ (close (cur ++ y ∷ []) ys ++ tail (cur ++ y ∷ []) ys)
unfolding tail
tail_same cur ys y l = ground arith

tail_end :
    (cur : List ℕ) (fuel : ℕ)
    → length cur ≤ 16
    → 1 ≤ length cur
    → replicate 3 32 ++ (hexes cur ++ (close cur [] ++ tail cur [])) ≡ rows (suc fuel) (cur ++ [])
unfolding row tail
tail_end cur fuel l l' =
    ap (λ t. replicate 3 32 ++ (hexes cur ++ t)) (append-nil (close cur []))
    ∙ sym (ap (rows (suc fuel)) (append-nil cur) ∙ rows_last cur fuel l' l)

-- From a row that has begun with `cur`.
pub tail-rows :
    (cur ys : List ℕ) (fuel : ℕ)
    → length cur ≤ 16
    → 1 ≤ length cur
    → length cur + length ys ≤ fuel
    → replicate 3 32 ++ (hexes cur ++ (close cur ys ++ tail cur ys)) ≡ rows fuel (cur ++ ys)
unfolding hexes
tail-rows cur ys zero l l' f = absurd (omega arith)
tail-rows cur [] (suc fuel) l l' f = tail_end cur fuel l l'
tail-rows cur (y ∷ ys) (suc fuel) l l' f = elim (Bool-cases (length cur == 16)) [
  | inl h ↦
      let l16 : length cur ≡ 16 = (==_iff (length cur) 16).0 h in
      let ih = tail-rows (y ∷ []) ys fuel (omega arith) (omega arith) (omega arith) in
      ap (λ t. replicate 3 32 ++ (hexes cur ++ t)) (tail_full cur ys y l16)
      ∙ ap (λ t. replicate 3 32 ++ (hexes cur ++ (chars cur ++ t))) ih
      ∙ sym (rows_full cur (y ∷ ys) fuel l16 ∙ row_then cur (rows fuel (y ∷ ys)) l16)
  | inr h ↦
      let l15 : length cur < 16 = ground (arith, h) in
      let lc : length (cur ++ y ∷ []) ≡ length cur + 1 = length-append cur (y ∷ []) in
      let ih = tail-rows (cur ++ y ∷ []) ys (suc fuel) (omega arith) (omega arith) (omega arith) in
      let rest = close (cur ++ y ∷ []) ys ++ tail (cur ++ y ∷ []) ys in
      ap (λ t. replicate 3 32 ++ (hexes cur ++ t)) (tail_same cur ys y l15)
      ∙ ap (λ t. replicate 3 32 ++ t)
          (sym (
            ap (λ t. t ++ rest) (hexes-append cur (y ∷ []))
            ∙ append_assoc (hexes cur) (print_hex y) rest))
      ∙ ih
      ∙ ap (rows (suc fuel)) (append_assoc cur (y ∷ []) ys)
]
