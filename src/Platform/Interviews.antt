-- ===== src/Platform/Interviews.antt =====
-- One student that talks to the platform.
use computer_networks_assign.Prelude.{
  ℕ, ◌≡◌, ◌⊎◌, ◌==◌, if◌then◌else◌, none, some, [], take, drop, ◌↔◌, refl, Bool, true, false, not,
  ◌&&◌, ◌||◌, List, ◌∷◌, length, get_elem?_below, leb, leb→le, Bool-cases, inl, inr, arith,
}
use computer_networks_assign.Prelude.Int.{ℤ, pos, negsuc, ◌+ℤ◌, is_neg}
use computer_networks_assign.Os.{
  Event, Trace, Os, Outcome, done, exited, crashed, read, write, M, ◌>>=◌, ◌>>◌, call,
}
use computer_networks_assign.Sockets.{send_fd}
use computer_networks_assign.Groups.{c_string}
use computer_networks_assign.Platform.{
  Links, Student, graded, graded_or_crash, fits_int, rem5, to_platform, pass_on, interview,
}

abbrev pub HasCrashed : {A : Type 0} → Outcome A → Type 0
HasCrashed (done a tr) = ⊥
HasCrashed (exited n tr) = ⊥
HasCrashed (crashed tr) = Unit {0}

-- There is no 0 among the bytes.
unfoldable pub unterminated : List ℕ → Bool
unterminated [] = true
unterminated (c ∷ cs) = let rest = unterminated cs in if c == 0 then false else rest

-- The number of rounds or the score overflows, or the number of rounds becomes negative.
abbrev pub is_overflow : ℤ → Student → Bool
is_overflow fd st =
    is_neg (st.rounds +ℤ pos 1)
    || (not (fits_int (st.rounds +ℤ pos 1)) || not (fits_int (st.score +ℤ rem5 fd)))

-- A structure with which C leaves the round undefined; the other way is that one of its two texts does
-- not end.
abbrev pub is_bad : ℤ → Student → Bool
is_bad fd st =
    (unterminated (take 100 st.texts) || unterminated (drop 100 st.texts)) || is_overflow fd st

c_string-unterminated :
    (cs : List ℕ)
    → ((unterminated cs ≡ true) × (c_string cs ≡ none))
      ⊎ ((unterminated cs ≡ false) × (s : List ℕ) × (c_string cs ≡ some s))
unfolding unterminated c_string
c_string-unterminated [] = inl (refl, refl)
c_string-unterminated (c ∷ cs) = elim (Bool-cases (c == 0)) [
  | inl ends ↦ inr (ground arith, [], ground arith)
  | inr more ↦ elim (c_string-unterminated cs) [
    | inl (bad, lost) ↦ inl (ground (arith, bad), ground (arith, lost))
    | inr (good, s, read_as) ↦ inr (ground (arith, good), c ∷ s, ground (arith, read_as))
  ]
]

to_platform_safe :
    (s : Links) (fd n : ℤ) (os : Os) (tr : Trace) → HasCrashed (to_platform s fd n os tr) → ⊥
unfolding send_fd
to_platform_safe s fd n os tr h = ground arith

-- With a round that has been counted, which is not negative
pass_on_safe :
    (layout : Student → List ℕ) (s : Links) (fd : ℤ) (st : Student) (os : Os) (tr : Trace) (k : ℕ)
    → length st.sequence ≡ 3
    → st.rounds ≡ pos k
    → HasCrashed (pass_on layout s fd st os tr)
    → ⊥
unfolding pass_on
pass_on_safe layout s fd st os tr k l e h = elim (Bool-cases (leb k 2)) [
  | inl low ↦
      let (n, found) = get_elem?_below st.sequence k (omega (arith, leb→le k 2 low)) in
      to_platform_safe s fd n os tr (ground (arith, found))
  | inr high ↦ ground arith
]

pass_on-crash :
    (layout : Student → List ℕ) (s : Links) (fd : ℤ) (st : Student) (os : Os) (tr : Trace) (z : ℤ)
    → length st.sequence ≡ 3
    → st.rounds ≡ z
    → HasCrashed (pass_on layout s fd st os tr) ↔ (is_neg z ≡ true)
unfolding pass_on
pass_on-crash layout s fd st os tr (pos k) l e =
    (λ h. absurd (pass_on_safe layout s fd st os tr k l e h), λ h. absurd (true_false h))
  where
    true_false : false ≡ true → ⊥
    true_false h = cc
pass_on-crash layout s fd st os tr (negsuc k) l e = (λ h. refl, λ h. ground arith)

-- The round behind what it prints
graded_on : (Student → List ℕ) → Links → ℤ → Student → M (Unit {0})
graded_on layout s fd st = do
  st' ← graded_or_crash (graded fd st)
  call (write fd (layout st'))
  pass_on layout s fd st'

graded_on-crash :
    (layout : Student → List ℕ) (s : Links) (fd : ℤ) (st : Student) (os : Os) (tr : Trace)
    → length st.sequence ≡ 3
    → HasCrashed (graded_on layout s fd st os tr) ↔ (is_overflow fd st ≡ true)
unfolding graded_on
graded_on-crash layout s fd st os tr l =
    elim (Bool-cases (fits_int (st.rounds +ℤ pos 1) && fits_int (st.score +ℤ rem5 fd))) [
      | inr bad ↦ (ground arith, ground arith)
      | inl good ↦
          let st' : Student = record st {
            rounds = st.rounds +ℤ pos 1;
            score = st.score +ℤ rem5 fd;
          } in
          let w = write fd (layout st') in
          let p =
            pass_on-crash layout s fd st' os (record { call = w; reply = os tr w } ∷ tr)
              (st.rounds +ℤ pos 1) l refl in
          (ground (arith, p), ground (arith, p))
    ]

-- Whatever the operating system and the student do, as long as the structure has its three items of
-- `sequence`, a round with a student does what C leaves undefined exactly when one of the two texts that
-- it prints does not end within its 100 bytes, the number of rounds or the score that the student has
-- sent overflows when raised, or the raised number is negative, which indexes `sequence` out of range.
pub interview-crash :
    (parse : List ℕ → Student) (layout : Student → List ℕ) (s : Links) (fd : ℤ) (os : Os)
    (tr : Trace)
    → let st = parse (os tr (read fd)).text in
      length st.sequence ≡ 3
      → HasCrashed (interview parse layout s fd os tr) ↔ (is_bad fd st ≡ true)
unfolding interview graded_on
interview-crash parse layout s fd os tr l =
    let st = parse (os tr (read fd)).text in
    let e : Event = record { call = read fd; reply = os tr (read fd) } in
    let name = c_string-unterminated (take 100 st.texts) in
    let data_of = c_string-unterminated (drop 100 st.texts) in
    elim name [
      | inl (bad, lost) ↦ (ground (arith, bad, lost), ground (arith, bad, lost))
      | inr (good, n, read_as) ↦ elim data_of [
        | inl (bad, lost) ↦ (ground (arith, bad, lost, read_as), ground (arith, bad, lost, read_as))
        | inr (fine, d, read_as2) ↦
            let p = graded_on-crash layout s fd st os (e ∷ tr) l in
            (ground (arith, p), ground (arith, p))
      ]
    ]
