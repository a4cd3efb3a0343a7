-- ===== src/IssService/Converting.antt =====
-- What a client of a service gets back: which bytes are converted is decided by one byte of the buffer,
-- that at the client's own index.
use computer_networks_assign.Prelude.{
  ℕ, zero, suc, ◌+◌, ◌-◌, ◌≤◌, ◌<◌, ◌≡◌, ◌≢◌, refl, ap, sym, ◌∙◌, Bool, ◌&&◌, some, List, [], ◌∷◌,
  ◌++◌, map, length, length-append, take, drop, get_elem?, set, ◌==◌, if◌then◌else◌, Bool-cases,
  inl, inr, arith, append_assoc, drop_below,
}
use computer_networks_assign.Prelude.Int.{ℤ, pos}
use computer_networks_assign.Os.{Reply, read, send, Trace, Os, done}
use computer_networks_assign.IssService.{from_a, to_z, convert_one, convert, terminate, talk}

-- A byte that is sent back, where the byte at the client's index is at most 'z' or is not.
unfoldable pub answer : Bool → ℕ → ℕ
answer low c = if from_a c && low then c - 32 else c

get_elem?-middle : (xs ys : List ℕ) (y i : ℕ) → i ≡ length xs → get_elem? (xs ++ y ∷ ys) i ≡ some y
get_elem?-middle [] ys y zero h = refl
get_elem?-middle [] ys y (suc i) h = absurd (omega arith)
get_elem?-middle (x ∷ xs) ys y zero h = absurd (omega arith)
get_elem?-middle (x ∷ xs) ys y (suc i) h = get_elem?-middle xs ys y i (omega arith)

get_elem?-middle_ne :
    (xs ys : List ℕ) (y z i : ℕ)
    → i ≢ length xs
    → get_elem? (xs ++ y ∷ ys) i ≡ get_elem? (xs ++ z ∷ ys) i
get_elem?-middle_ne [] ys y z zero h = absurd (h refl)
get_elem?-middle_ne [] ys y z (suc i) h = refl
get_elem?-middle_ne (x ∷ xs) ys y z zero h = refl
get_elem?-middle_ne (x ∷ xs) ys y z (suc i) h =
    get_elem?-middle_ne xs ys y z i (λ e. h (omega (arith, e)))

set-middle : (xs ys : List ℕ) (y v i : ℕ) → i ≡ length xs → set (xs ++ y ∷ ys) i v ≡ xs ++ v ∷ ys
set-middle [] ys y v zero h = refl
set-middle [] ys y v (suc i) h = absurd (omega arith)
set-middle (x ∷ xs) ys y v zero h = absurd (omega arith)
set-middle (x ∷ xs) ys y v (suc i) h = ap (λ l. x ∷ l) (set-middle xs ys y v i (omega arith))

-- A byte is looked at: the byte at the client's index stays on its side of 'z'.
convert_one_lem :
    (xs ys : List ℕ) (c i j d : ℕ)
    → j ≡ length xs
    → get_elem? (xs ++ c ∷ ys) i ≡ some d
    → convert_one (xs ++ c ∷ ys) i j ≡ some (xs ++ answer (to_z d) c ∷ ys)
unfolding convert_one answer
convert_one_lem xs ys c i j d h e =
    ground (arith, get_elem?-middle xs ys c j h, e, set-middle xs ys c (c - 32) j h)

answer-to_z : (c : ℕ) → to_z (answer (to_z c) c) ≡ to_z c
unfolding answer
answer-to_z c = ground arith

decided :
    (xs ys : List ℕ) (c i d : ℕ)
    → get_elem? (xs ++ c ∷ ys) i ≡ some d
    → (d' : ℕ) × (get_elem? (xs ++ answer (to_z d) c ∷ ys) i ≡ some d') × (to_z d' ≡ to_z d)
decided xs ys c i d e = elim (Bool-cases (i == length xs)) [
  | inl here ↦
      let at : i ≡ length xs = ground arith in
      let same : c ≡ d = ground (arith, get_elem?-middle xs ys c i at) in
      (
        answer (to_z d) c,
        get_elem?-middle xs ys (answer (to_z d) c) i at,
        ground (arith, answer-to_z d, same),
      )
  | inr other ↦
      (d, get_elem?-middle_ne xs ys (answer (to_z d) c) c i (λ at. ground arith) ∙ e, refl)
]

convert_step :
    (buffer buffer' : List ℕ) (i j n : ℕ)
    → convert_one buffer i j ≡ some buffer'
    → convert buffer i j (suc n) ≡ convert buffer' i (j + 1) n
unfolding convert
convert_step buffer buffer' i j n e = ground (arith, e)

convert_none : (buffer : List ℕ) (i j : ℕ) → convert buffer i j 0 ≡ some buffer
unfolding convert
convert_none buffer i j = refl

convert_lem :
    (xs ys : List ℕ) (i j n d : ℕ)
    → j ≡ length xs
    → n ≤ length ys
    → get_elem? (xs ++ ys) i ≡ some d
    → convert (xs ++ ys) i j n ≡ some (xs ++ (map (answer (to_z d)) (take n ys) ++ drop n ys))
convert_lem xs ys i j zero d h k e = convert_none (xs ++ ys) i j
convert_lem xs [] i j (suc n) d h k e = absurd (omega arith)
convert_lem xs (c ∷ ys) i j (suc n) d h k e =
    let (d', e', same) = decided xs ys c i d e in
    let a = answer (to_z d) c in
    let split = append_assoc xs (a ∷ []) ys in
    let rest =
      convert_lem (xs ++ a ∷ []) ys i (j + 1) n d' (omega (arith, h, length-append xs (a ∷ [])))
        (omega arith) (ap (λ l. get_elem? l i) split ∙ e') in
    convert_step (xs ++ c ∷ ys) (xs ++ a ∷ ys) i j n (convert_one_lem xs ys c i j d h e)
    ∙ ap (λ l. convert l i (j + 1) n) (sym split)
    ∙ rest
    ∙ ap (λ b. some ((xs ++ a ∷ []) ++ (map (answer b) (take n ys) ++ drop n ys))) same
    ∙ ap some (append_assoc xs (a ∷ []) (map (answer (to_z d)) (take n ys) ++ drop n ys))

terminated :
    (text buffer : List ℕ) (os : Os) (tr : Trace)
    → length text < length buffer
    → terminate (text ++ drop (length text) buffer) (pos (length text)) os tr
      ≡ done (text ++ 0 ∷ drop (length text + 1) buffer) tr
unfolding terminate
terminated text buffer os tr h =
    let (c, e) = drop_below buffer (length text) h in
    let rest = drop (length text + 1) buffer in
    ground (arith, e, length-append text (c ∷ rest), set-middle text rest c 0 (length text) refl)

take_answers :
    (f : ℕ → ℕ) (text rest ends : List ℕ)
    → take (length text) (map f (take (length text) (text ++ rest)) ++ ends) ≡ map f text
take_answers f [] rest ends = refl
take_answers f (c ∷ text) rest ends = ap (λ l. f c ∷ l) (take_answers f text rest ends)

-- A text of fewer bytes than the buffer has, from the client with the index `i`, which is within the
-- buffer, is answered: its bytes from 'a' on are taken down by 32 if the byte `i` of the buffer, behind
-- the text and its terminator that of an earlier use of the memory, is at most 'z', and else the text
-- comes back as it was.
pub talk-answer :
    (buffer text : List ℕ) (i d : ℕ) (fd : ℤ) (os : Os) (tr : Trace)
    → length text < length buffer
    → (os tr (read fd)).ret ≡ pos (length text)
    → (os tr (read fd)).text ≡ text
    → get_elem? (text ++ 0 ∷ drop (length text + 1) buffer) i ≡ some d
    → (r : Reply) × (talk buffer i fd os tr
        ≡ done tt (
            record { call = send fd (map (answer (to_z d)) text); reply = r }
            ∷ record { call = read fd; reply = os tr (read fd) }
            ∷ tr))
unfolding talk
talk-answer buffer text i d fd os tr h size same e =
    let whole = text ++ 0 ∷ drop (length text + 1) buffer in
    let got : Trace = record { call = read fd; reply = os tr (read fd) } ∷ tr in
    let run =
      convert_lem [] whole i 0 (length text) d refl
        (omega (arith, length-append text (0 ∷ drop (length text + 1) buffer))) e in
    (
      os got (send fd (map (answer (to_z d)) text)),
      ground (
        arith,
        size,
        same,
        terminated text buffer os got h,
        run,
        take_answers (answer (to_z d)) text (0 ∷ drop (length text + 1) buffer)
            (drop (length text) whole),
      ),
    )
