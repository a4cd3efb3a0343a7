-- ===== src/MnServer/Echo.antt =====
-- What the clients of the threads get back.
use computer_networks_assign.Prelude.{
  ℕ, zero, suc, ◌+◌, ◌≤◌, ◌-◌, ◌&&◌, ◌==◌, ltb, leb, All, subst, ◌≡◌, refl, Bool, true, false, ◌||◌,
  not, List, [], ◌∷◌, map, if◌then◌else◌, Bool-cases, inl, inr, arith,
}
use computer_networks_assign.Prelude.Int.{ℤ, pos, negsuc, is_neg, is_zero}
use computer_networks_assign.Os.{Call, Reply, recv, send, pure, Trace, Os, done}
use computer_networks_assign.Os.Bind.{>>=-done}
use computer_networks_assign.Inetd.{Text}
use computer_networks_assign.MnServer.{
  upper, lower, number, conversion, answer_with, func_round, func,
}

-- A text and the descriptor over which it came or went.
pub record Message : Type 0 where
  pub fd : ℤ
  pub text : Text

-- The texts that a trace received, but for failures and ends, and those it sent; the newest first.
abbrev receipt : Call → Reply → List Message → List Message
receipt (recv fd) r ms =
    if is_neg r.ret
    then ms
    else if is_zero r.ret
    then ms
    else record { fd = fd; text = r.text } ∷ ms
receipt c r ms = ms

unfoldable pub received : Trace → List Message
received [] = []
received (e ∷ tr) = receipt e.call e.reply (received tr)

abbrev sending : Call → List Message → List Message
sending (send fd text) ms = record { fd = fd; text = text } ∷ ms
sending c ms = ms

unfoldable pub answered : Trace → List Message
answered [] = []
answered (e ∷ tr) = sending e.call (answered tr)

-- The characters from `first` to the 26th behind it become those from `other` on.
abbrev pub shifted : ℕ → ℕ → ℕ → ℕ
shifted first other c = if leb first c && ltb c (first + 26) then other + (c - first) else c

-- What the threads of each kind make of a character: small letters become capitals, capitals become
-- small, or small letters become the characters from '1' on.
abbrev pub converted : ℕ → ℕ → ℕ
converted kind c =
    if kind == 1
    then shifted b'a' b'A' c
    else if kind == 2
    then shifted b'A' b'a' c
    else shifted b'a' b'1' c

conversion-converted : (kind c : ℕ) → conversion kind c ≡ converted kind c
unfolding upper lower number
conversion-converted kind c = ground arith

map-converted : (kind : ℕ) (cs : List ℕ) → map (conversion kind) cs ≡ map (converted kind) cs
map-converted kind [] = refl
map-converted kind (c ∷ cs) = ground (arith, conversion-converted kind c, map-converted kind cs)

abbrev pub reply_of : ℕ → Message → Message
reply_of kind m = record { fd = m.fd; text = map (converted kind) m.text }

-- All texts came over `fd`, and each was answered over it, with each character converted; nothing else
-- was sent.
abbrev pub Echoes : ℕ → ℤ → Trace → Type 0
Echoes kind fd tr =
    All (λ (m : Message). m.fd ≡ fd) (received tr)
    × (answered tr ≡ map (reply_of kind) (received tr))

func_round-Echoes :
    (kind : ℕ) (fd : ℤ) (more : Bool) (os : Os) (tr tr' : Trace)
    → func_round (conversion kind) fd os tr ≡ done more tr'
    → Echoes kind fd tr
    → Echoes kind fd tr'
unfolding func_round answer_with received answered
func_round-Echoes kind fd more os tr tr' e h =
    let same = map-converted kind (os tr (recv fd)).text in ground (arith, same, h.0, h.1)

-- When a thread of one of the three kinds has returned, or has been left after any number of rounds, all
-- the texts that it received came over its own connection, and over this connection it has answered each
-- of them, in the order of arrival, by the text with the conversion of its kind on each character; it has
-- sent nothing else. This is so if it was so of the trace before, as of the empty one.
pub func-Echoes :
    (kind fuel : ℕ) (fd : ℤ) (more : Bool) (os : Os) (tr tr' : Trace)
    → func (conversion kind) fuel fd os tr ≡ done more tr'
    → Echoes kind fd tr
    → Echoes kind fd tr'
unfolding func
func-Echoes kind zero fd more os tr tr' e h = subst (Echoes kind fd) (ground arith) h
func-Echoes kind (suc fuel) fd more os tr tr' e h =
    let f = conversion kind in
    let (again, mid, first, rest) =
      >>=-done (func_round f fd) (λ more. if more then func f fuel fd else pure false) os tr tr'
        more e in
    let h' = func_round-Echoes kind fd again os tr mid first h in
    elim (Bool-cases again) [
      | inl on ↦ func-Echoes kind fuel fd more os mid tr' (ground arith) h'
      | inr off ↦ subst (Echoes kind fd) (ground arith) h'
    ]

-- On every byte, small letters after capitals are as small letters alone, and capitals after small
-- letters as capitals alone.
lower-upper : (c : ℕ) → (lower (upper c) ≡ lower c) × (upper (lower c) ≡ upper c)
unfolding lower upper
lower-upper c = (ground arith, ground arith)

-- The receptions on a trace.
abbrev reception : Call → ℕ
reception (recv fd) = 1
reception c = 0

unfoldable pub receptions : Trace → ℕ
receptions [] = 0
receptions (e ∷ tr) = reception e.call + receptions tr

func_round-receptions :
    (f : ℕ → ℕ) (fd : ℤ) (more : Bool) (os : Os) (tr tr' : Trace)
    → func_round f fd os tr ≡ done more tr'
    → (receptions tr' ≡ receptions tr + 1)
      × ((more ≡ true) → is_neg (os tr (recv fd)).ret || not (is_zero (os tr (recv fd)).ret) ≡ true)
unfolding func_round answer_with receptions
func_round-receptions f fd more os tr tr' e = ground arith

is_zero-is_neg : (a : ℤ) → is_zero a ≡ true → is_neg a ≡ false
is_zero-is_neg (pos n) h = refl
is_zero-is_neg (negsuc n) h = absurd (ground arith)

-- When the kernel reports the end of the connection after `k` receptions at the latest, the thread
-- has ended after one round more than there are receptions left: it is not cut off by the fuel.
func_ends :
    (f : ℕ → ℕ) (fuel k : ℕ) (fd : ℤ) (more : Bool) (os : Os) (tr tr' : Trace)
    → ((t : Trace) → k ≤ receptions t → is_zero (os t (recv fd)).ret ≡ true)
    → k ≤ receptions tr + fuel
    → func f (suc fuel) fd os tr ≡ done more tr'
    → more ≡ false
unfolding func
func_ends f zero k fd more os tr tr' closed h e =
    let (again, mid, first, rest) =
      >>=-done (func_round f fd) (λ again. if again then func f 0 fd else pure false) os tr tr' more
        e in
    let (_, on) = func_round-receptions f fd again os tr mid first in
    ground (arith, on, closed tr (omega arith), is_zero-is_neg (os tr (recv fd)).ret)
func_ends f (suc fuel) k fd more os tr tr' closed h e =
    let (again, mid, first, rest) =
      >>=-done (func_round f fd) (λ again. if again then func f (suc fuel) fd else pure false) os tr
        tr' more e in
    let (one, _) = func_round-receptions f fd again os tr mid first in
    elim (Bool-cases again) [
      | inl on ↦ func_ends f fuel k fd more os mid tr' closed (omega arith) (ground arith)
      | inr off ↦ ground arith
    ]
