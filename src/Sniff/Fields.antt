-- ===== src/Sniff/Fields.antt =====
-- The fields of the headers, whatever lies behind them.
use computer_networks_assign.Prelude.{
  ℕ, zero, suc, ◌+◌, ◌<◌, ◌≤◌, ◌≡◌, refl, ap, ◌∙◌, List, [], ◌∷◌, ◌++◌, length, take, drop,
  length-drop, arith,
}
use computer_networks_assign.Sniff.Packets.{u8, print_ip_header, tcp_fields, udp_fields}

pub u8-append : (xs ys : List ℕ) (i : ℕ) → i < length xs → u8 (xs ++ ys) i ≡ u8 xs i
u8-append [] ys i h = absurd (omega arith)
u8-append (x ∷ xs) ys zero h = refl
u8-append (x ∷ xs) ys (suc i) h = u8-append xs ys i (omega arith)

pub take_within : (xs ys : List ℕ) (n : ℕ) → n ≤ length xs → take n (xs ++ ys) ≡ take n xs
take_within xs ys zero h = refl
take_within [] ys (suc n) h = absurd (omega arith)
take_within (x ∷ xs) ys (suc n) h = ap (λ t. x ∷ t) (take_within xs ys n (omega arith))

pub drop_within : (xs ys : List ℕ) (n : ℕ) → n ≤ length xs → drop n (xs ++ ys) ≡ drop n xs ++ ys
drop_within xs ys zero h = refl
drop_within [] ys (suc n) h = absurd (omega arith)
drop_within (x ∷ xs) ys (suc n) h = drop_within xs ys n (omega arith)

pub taken :
    (xs zs : List ℕ) (n k : ℕ) → n + k ≤ length xs → take k (drop n (xs ++ zs)) ≡ take k (drop n xs)
taken xs zs n k h =
    let l = length-drop n xs in
    ap (take k) (drop_within xs zs n (omega arith)) ∙ take_within (drop n xs) zs k (omega arith)

pub tcp_fields-append :
    (tcp zs : List ℕ) → 20 ≤ length tcp → tcp_fields (tcp ++ zs) ≡ tcp_fields tcp
unfolding tcp_fields
tcp_fields-append tcp zs h =
    let b : (i : ℕ) → i < length tcp → u8 (tcp ++ zs) i ≡ u8 tcp i = u8-append tcp zs in
    let b0 = b 0 (omega arith) in
    let b1 = b 1 (omega arith) in
    let b2 = b 2 (omega arith) in
    let b3 = b 3 (omega arith) in
    let b4 = b 4 (omega arith) in
    let b5 = b 5 (omega arith) in
    let b6 = b 6 (omega arith) in
    let b7 = b 7 (omega arith) in
    let b8 = b 8 (omega arith) in
    let b9 = b 9 (omega arith) in
    let b10 = b 10 (omega arith) in
    let b11 = b 11 (omega arith) in
    let b12 = b 12 (omega arith) in
    let b13 = b 13 (omega arith) in
    let b14 = b 14 (omega arith) in
    let b15 = b 15 (omega arith) in
    let b16 = b 16 (omega arith) in
    let b17 = b 17 (omega arith) in
    let b18 = b 18 (omega arith) in let b19 = b 19 (omega arith) in cc

pub udp_fields-append : (udp zs : List ℕ) → 8 ≤ length udp → udp_fields (udp ++ zs) ≡ udp_fields udp
unfolding udp_fields
udp_fields-append udp zs h =
    let b : (i : ℕ) → i < length udp → u8 (udp ++ zs) i ≡ u8 udp i = u8-append udp zs in
    let b0 = b 0 (omega arith) in
    let b1 = b 1 (omega arith) in
    let b2 = b 2 (omega arith) in
    let b3 = b 3 (omega arith) in
    let b4 = b 4 (omega arith) in
    let b5 = b 5 (omega arith) in let b6 = b 6 (omega arith) in let b7 = b 7 (omega arith) in cc

pub print_ip_header-append :
    (xs zs : List ℕ) → 34 ≤ length xs → print_ip_header (xs ++ zs) ≡ print_ip_header xs
unfolding print_ip_header
print_ip_header-append xs zs h =
    let b : (i : ℕ) → i < length xs → u8 (xs ++ zs) i ≡ u8 xs i = u8-append xs zs in
    let b12 = b 12 (omega arith) in
    let b13 = b 13 (omega arith) in
    let b14 = b 14 (omega arith) in
    let b15 = b 15 (omega arith) in
    let b16 = b 16 (omega arith) in
    let b17 = b 17 (omega arith) in
    let b18 = b 18 (omega arith) in
    let b19 = b 19 (omega arith) in
    let b22 = b 22 (omega arith) in
    let b23 = b 23 (omega arith) in
    let b24 = b 24 (omega arith) in
    let b25 = b 25 (omega arith) in
    let t : (n k : ℕ) → n + k ≤ 34 → take k (drop n (xs ++ zs)) ≡ take k (drop n xs) =
      λ n k l. taken xs zs n k (omega arith) in
    let t0 = take_within xs zs 6 (omega arith) in
    let t6 = t 6 6 (omega arith) in
    let t26 = t 26 4 (omega arith) in let t30 = t 30 4 (omega arith) in cc

pub u8-drop : (n : ℕ) (xs : List ℕ) → u8 xs n ≡ u8 (drop n xs) 0
u8-drop zero xs = refl
u8-drop (suc n) [] = refl
u8-drop (suc n) (x ∷ xs) = u8-drop n xs
