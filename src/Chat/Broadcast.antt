-- ===== src/Chat/Broadcast.antt =====
-- Who gets a message, and what the table of clients holds.
use mathlib.Core.Path.{subst}
use computer_networks_assign.Prelude.{
  append-nil, ℕ, ◌≤◌, ◌≡◌, refl, ap, ◌∙◌, Bool, true, false, not, ◌&&◌, ◌||◌, some, List, [], ◌∷◌,
  ◌++◌, length, length-append, ◌==◌, if◌then◌else◌, arith, Bool-cases, Option-cases, inl, inr,
}
use computer_networks_assign.Chat.{
  Text, MessageBuf, Server, max_pids, known, is_there, send_other, broadcast, handle,
}

-- The texts of a queue that are for `pid`.
unfoldable pub inbox : ℕ → List MessageBuf → List Text
inbox pid [] = []
inbox pid (m ∷ q) =
    let rest = inbox pid q in if m.mesg_type == pid then m.mesg_text ∷ rest else rest

inbox-append :
    (pid : ℕ) (q : List MessageBuf) (m : MessageBuf)
    → inbox pid (q ++ m ∷ []) ≡ inbox pid q ++ inbox pid (m ∷ [])
unfolding inbox
inbox-append pid [] m = ground arith
inbox-append pid (n ∷ q) m = ground (arith, inbox-append pid q m)

-- No process id is entered twice.
unfoldable pub distinct : List ℕ → Bool
unfolding known
distinct [] = true
distinct (p ∷ ps) = let rest = distinct ps in not (known p ps) && rest

inbox-send_other_ne :
    (m : MessageBuf) (p : ℕ) (q : List MessageBuf) (pid : ℕ)
    → (p == pid) && not (p == m.mesg_type) ≡ false
    → inbox pid (send_other m p q) ≡ inbox pid q
unfolding send_other inbox
inbox-send_other_ne m p q pid h =
    let sent : MessageBuf = record { mesg_type = p; mesg_text = m.mesg_text } in
    elim (Bool-cases (p == m.mesg_type)) [
      | inl own ↦ ground arith
      | inr other ↦ ground (arith, inbox-append pid q sent, append-nil (inbox pid q))
    ]

inbox-send_other_eq :
    (m : MessageBuf) (q : List MessageBuf) (pid : ℕ)
    → pid == m.mesg_type ≡ false
    → inbox pid (send_other m pid q) ≡ inbox pid q ++ m.mesg_text ∷ []
unfolding send_other inbox
inbox-send_other_eq m q pid h =
    let sent : MessageBuf = record { mesg_type = pid; mesg_text = m.mesg_text } in
    ground (arith, inbox-append pid q sent)

broadcast-others :
    (m : MessageBuf) (ps : List ℕ) (q : List MessageBuf) (pid : ℕ)
    → known pid ps && not (pid == m.mesg_type) ≡ false
    → inbox pid (broadcast m ps q) ≡ inbox pid q
unfolding broadcast known
broadcast-others m [] q pid h = refl
broadcast-others m (p ∷ ps) q pid h =
    broadcast-others m ps (send_other m p q) pid (ground arith)
    ∙ inbox-send_other_ne m p q pid (ground arith)

broadcast-reaches :
    (m : MessageBuf) (ps : List ℕ) (q : List MessageBuf) (pid : ℕ)
    → distinct ps ≡ true
    → known pid ps ≡ true
    → pid == m.mesg_type ≡ false
    → inbox pid (broadcast m ps q) ≡ inbox pid q ++ m.mesg_text ∷ []
unfolding broadcast known distinct
broadcast-reaches m [] q pid d h n = ground arith
broadcast-reaches m (p ∷ ps) q pid d h n = elim (Bool-cases (p == pid)) [
  | inl same ↦
      let eq : p ≡ pid = ground arith in
      broadcast-others m ps (send_other m p q) pid (ground arith)
      ∙ ap (λ x. inbox pid (send_other m x q)) eq
      ∙ inbox-send_other_eq m q pid n
  | inr differ ↦
      broadcast-reaches m ps (send_other m p q) pid (ground arith) (ground arith) n
      ∙ ap (λ ts. ts ++ m.mesg_text ∷ []) (inbox-send_other_ne m p q pid (ground arith))
]

-- What a broadcast puts into the inbox of `pid`.
abbrev pub copy : MessageBuf → List ℕ → ℕ → List Text
copy m ps pid = if known pid ps && not (pid == m.mesg_type) then m.mesg_text ∷ [] else []

broadcast-copy :
    (m : MessageBuf) (ps : List ℕ) (q : List MessageBuf) (pid : ℕ)
    → distinct ps ≡ true
    → inbox pid (broadcast m ps q) ≡ inbox pid q ++ copy m ps pid
broadcast-copy m ps q pid d = elim (Bool-cases (known pid ps && not (pid == m.mesg_type))) [
  | inl goes ↦ ground (arith, broadcast-reaches m ps q pid d)
  | inr stays ↦ ground (arith, broadcast-others m ps q pid stays, append-nil (inbox pid q))
]

known-append : (pid p : ℕ) (ps : List ℕ) → known pid (ps ++ p ∷ []) ≡ known pid ps || p == pid
unfolding known
known-append pid p [] = ground arith
known-append pid p (x ∷ ps) = ground (arith, known-append pid p ps)

distinct-append :
    (p : ℕ) (ps : List ℕ) → distinct ps ≡ true → known p ps ≡ false → distinct (ps ++ p ∷ []) ≡ true
unfolding distinct known
distinct-append p [] d h = ground arith
distinct-append p (x ∷ ps) d h = ground (arith, distinct-append p ps, known-append x p ps)

-- A table without repetitions that fits `pids`.
abbrev pub Sound : Server → Type 0
Sound v = (distinct v.pids ≡ true) × (length v.pids ≤ max_pids)

is_there-Sound :
    (pid : ℕ) (v v' : Server)
    → is_there pid v ≡ some v'
    → Sound v
    → Sound v' × (known pid v'.pids ≡ true) × (v'.write_queue ≡ v.write_queue)
unfolding is_there
is_there-Sound pid v v' e s = ground (
  arith,
  distinct-append pid v.pids,
  known-append pid pid v.pids,
  length-append v.pids (pid ∷ []),
)

-- From a sound table, a message that is handled leaves a sound table that holds its sender, and goes
-- once, behind all that was there, to each client of the table but the sender, and to nobody else.
pub handle_delivers :
    (m : MessageBuf) (v v' : Server) (pid : ℕ)
    → handle m v ≡ some v'
    → Sound v
    → Sound v'
      × (known m.mesg_type v'.pids ≡ true)
      × (inbox pid v'.write_queue ≡ inbox pid v.write_queue ++ copy m v'.pids pid)
unfolding handle
handle_delivers m v v' pid e s = elim (Option-cases (is_there m.mesg_type v)) [
  | inl lost ↦ absurd (ground arith)
  | inr (w, there) ↦
      let (sound, member, same) = is_there-Sound m.mesg_type v w there s in
      let result : record w { write_queue = broadcast m w.pids w.write_queue } ≡ v' =
        ground arith in
      subst
        (λ (x : Server).
          Sound x
          × (known m.mesg_type x.pids ≡ true)
          × (inbox pid x.write_queue ≡ inbox pid v.write_queue ++ copy m x.pids pid))
        result
        (
          sound,
          member,
          broadcast-copy m w.pids w.write_queue pid sound.0
              ∙ ap (λ q. inbox pid q ++ copy m w.pids pid) same,
        )
]
