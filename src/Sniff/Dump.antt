-- ===== src/Sniff/Dump.antt =====
-- The loop of `PrintData` against a dump in rows of sixteen bytes.
use computer_networks_assign.Prelude.{
  ℕ, zero, suc, ◌+◌, ◌-◌, ◌%◌, ◌<◌, ◌≤◌, ◌≡◌, refl, sym, ap, ◌∙◌, ◌==◌, some, List, [], ◌∷◌, ◌++◌,
  map, length, take, drop, replicate, get_elem?, append_assoc, length-append, take-append-drop, inl,
  inr, Bool-cases, ==_iff, arith,
}
use computer_networks_assign.Sniff.Rows.{hexes, chars, rows, hexdump, close, tail, tail-rows}
use computer_networks_assign.Sniff.{
  print_hex, print_char, print_chars, end_of_row, start_of_row, last_row, print_from, print_data,
}

get_elem?-middle :
    (pre : List ℕ) (y : ℕ) (post : List ℕ) → get_elem? (pre ++ y ∷ post) (length pre) ≡ some y
get_elem?-middle [] y post = refl
get_elem?-middle (p ∷ pre) y post = get_elem?-middle pre y post

print_chars-middle :
    (bytes pre mid post : List ℕ) (i n : ℕ)
    → bytes ≡ pre ++ (mid ++ post)
    → i ≡ length pre
    → n ≡ length mid
    → print_chars bytes i n ≡ some (map print_char mid)
unfolding print_chars
print_chars-middle bytes pre [] post i zero e a b = refl
print_chars-middle bytes pre [] post i (suc n) e a b = absurd (omega arith)
print_chars-middle bytes pre (m ∷ mid) post i zero e a b = absurd (omega arith)
print_chars-middle bytes pre (m ∷ mid) post i (suc n) e a b = ground (
  arith,
  get_elem?-middle pre m (mid ++ post),
  print_chars-middle bytes (pre ++ m ∷ []) mid post (i + 1) n
      (e ∙ sym (append_assoc pre (m ∷ []) (mid ++ post)))
      (ap (λ k. k + 1) a ∙ sym (length-append pre (m ∷ []))) (omega arith),
)

close-last_row :
    (bytes pre cur ys post : List ℕ) (size i : ℕ)
    → bytes ≡ pre ++ (cur ++ (ys ++ post))
    → length pre % 16 ≡ 0
    → length cur ≤ 16
    → 1 ≤ length cur
    → i + 1 ≡ length pre + length cur
    → size ≡ i + 1 + length ys
    → last_row bytes size i ≡ some (close cur ys)
close-last_row bytes pre cur [] post size i e p l l' a b = ground (
  arith,
  print_chars-middle bytes pre cur post (i - i % 16) (i % 16 + 1) e (omega arith) (omega arith),
)
close-last_row bytes pre cur (y ∷ ys) post size i e p l l' a b = ground arith

print_from_step :
    (bytes : List ℕ) (size i left y : ℕ) (before behind rest : List ℕ)
    → end_of_row bytes i ≡ some before
    → get_elem? bytes i ≡ some y
    → last_row bytes size i ≡ some behind
    → print_from bytes size (i + 1) left ≡ some rest
    → print_from bytes size i (suc left)
      ≡ some (before ++ (start_of_row i ++ (print_hex y ++ (behind ++ rest))))
unfolding print_from
print_from_step bytes size i left y before behind rest a b c d = ground (arith, a, b, c, d)

-- A full row is ended by the next byte.
end_of_row_full :
    (bytes pre cur rest : List ℕ) (i : ℕ)
    → bytes ≡ pre ++ (cur ++ rest)
    → length pre % 16 ≡ 0
    → length cur ≡ 16
    → i ≡ length pre + 16
    → (end_of_row bytes i ≡ some (chars cur)) × (start_of_row i ≡ replicate 3 32)
end_of_row_full bytes pre cur rest i e p l a = (
  ground (arith, print_chars-middle bytes pre cur rest (i - 16) 16 e (omega arith) (sym l)),
  ground arith,
)

end_of_row_same :
    (bytes : List ℕ) (i k p : ℕ)
    → p % 16 ≡ 0
    → k < 16
    → 1 ≤ k
    → i ≡ p + k
    → (end_of_row bytes i ≡ some []) × (start_of_row i ≡ [])
end_of_row_same bytes i k p e l l' a = (ground arith, ground arith)

print_from-tail :
    (bytes pre cur xs post : List ℕ) (size i left : ℕ)
    → bytes ≡ pre ++ (cur ++ (xs ++ post))
    → length pre % 16 ≡ 0
    → length cur ≤ 16
    → 1 ≤ length cur
    → i ≡ length pre + length cur
    → left ≡ length xs
    → size ≡ i + length xs
    → print_from bytes size i left ≡ some (tail cur xs)
unfolding print_from tail
print_from-tail bytes pre cur [] post size i zero e p l l' a n b = refl
print_from-tail bytes pre cur [] post size i (suc left) e p l l' a n b = absurd (omega arith)
print_from-tail bytes pre cur (y ∷ ys) post size i zero e p l l' a n b = absurd (omega arith)
print_from-tail bytes pre cur (y ∷ ys) post size i (suc left) e p l l' a n b =
    elim (Bool-cases (length cur == 16)) [
      | inl h ↦
          let l16 : length cur ≡ 16 = (==_iff (length cur) 16).0 h in
          let e' : bytes ≡ (pre ++ cur) ++ (y ∷ (ys ++ post)) =
            e ∙ sym (append_assoc pre cur (y ∷ (ys ++ post))) in
          let lp : length (pre ++ cur) ≡ length pre + length cur = length-append pre cur in
          let row_end = end_of_row_full bytes pre cur (y ∷ (ys ++ post)) i e p l16 (omega arith) in
          print_from_step bytes size i left y (chars cur) (close (y ∷ []) ys) (tail (y ∷ []) ys)
            row_end.0 (get_middle (pre ++ cur) y (ys ++ post) e' (omega arith))
            (close-last_row bytes (pre ++ cur) (y ∷ []) ys post size i e' (omega arith)
              (omega arith) (omega arith) (omega arith) (omega arith))
            (print_from-tail bytes (pre ++ cur) (y ∷ []) ys post size (i + 1) left e' (omega arith)
              (omega arith) (omega arith) (omega arith) (omega arith) (omega arith))
          ∙ ground (arith, row_end.1, h)
      | inr h ↦
          let l15 : length cur < 16 = ground (arith, h) in
          let e' : bytes ≡ (pre ++ cur) ++ (y ∷ (ys ++ post)) =
            e ∙ sym (append_assoc pre cur (y ∷ (ys ++ post))) in
          let lp : length (pre ++ cur) ≡ length pre + length cur = length-append pre cur in
          let e2 : bytes ≡ pre ++ ((cur ++ y ∷ []) ++ (ys ++ post)) =
            e ∙ ap (λ t. pre ++ t) (sym (append_assoc cur (y ∷ []) (ys ++ post))) in
          let lc : length (cur ++ y ∷ []) ≡ length cur + 1 = length-append cur (y ∷ []) in
          let mid = end_of_row_same bytes i (length cur) (length pre) p l15 l' a in
          print_from_step bytes size i left y [] (close (cur ++ y ∷ []) ys)
            (tail (cur ++ y ∷ []) ys) mid.0
            (get_middle (pre ++ cur) y (ys ++ post) e' (omega arith))
            (close-last_row bytes pre (cur ++ y ∷ []) ys post size i e2 p (omega arith)
              (omega arith) (omega arith) (omega arith))
            (print_from-tail bytes pre (cur ++ y ∷ []) ys post size (i + 1) left e2 p (omega arith)
              (omega arith) (omega arith) (omega arith) (omega arith))
          ∙ ground (arith, mid.1, h)
    ]
  where
    get_middle :
        (front : List ℕ) (z : ℕ) (back : List ℕ)
        → bytes ≡ front ++ z ∷ back
        → i ≡ length front
        → get_elem? bytes i ≡ some z
    get_middle front z back eq k = cc (get_elem?-middle front z back)

length-take : (n : ℕ) (xs : List ℕ) → n ≤ length xs → length (take n xs) ≡ n
length-take zero xs h = refl
length-take (suc n) [] h = absurd (omega arith)
length-take (suc n) (x ∷ xs) h = ap suc (length-take n xs (omega arith))

print_prefix : (xs post : List ℕ) → print_data (xs ++ post) (length xs) ≡ some (hexdump xs)
unfolding print_from hexdump rows hexes tail
print_prefix [] post = refl
print_prefix (x ∷ xs) post =
    print_from_step (x ∷ (xs ++ post)) (suc (length xs)) 0 (length xs) x [] (close (x ∷ []) xs)
      (tail (x ∷ []) xs) refl refl
      (close-last_row (x ∷ (xs ++ post)) [] (x ∷ []) xs post (suc (length xs)) 0 refl (omega arith)
        (omega arith) (omega arith) (omega arith) (omega arith))
      (print_from-tail (x ∷ (xs ++ post)) [] (x ∷ []) xs post (suc (length xs)) 1 (length xs) refl
        (omega arith) (omega arith) (omega arith) (omega arith) (omega arith) (omega arith))
    ∙ ap some (tail-rows (x ∷ []) xs (suc (length xs)) (omega arith) (omega arith) (omega arith))

-- `PrintData` reads no byte behind the `n` that it is called for, and prints them in rows of sixteen:
-- three spaces, the bytes in hexadecimal, spaces for those that the last row lacks, and the characters
-- of the row.
pub print_data-hexdump :
    (bytes : List ℕ) (n : ℕ) → n ≤ length bytes → print_data bytes n ≡ some (hexdump (take n bytes))
print_data-hexdump bytes n h =
    ap (λ b. print_data b n) (sym (take-append-drop n bytes))
    ∙ ap (print_data (take n bytes ++ drop n bytes)) (sym (length-take n bytes h))
    ∙ print_prefix (take n bytes) (drop n bytes)
