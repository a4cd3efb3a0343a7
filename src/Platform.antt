-- ===== src/Platform.antt =====
-- The second platform of Mid_exam/Q2, r2.c: it takes students from at.c and the other platforms, holds
-- a round with those that talk, and passes them on or to the judge.
use Prim.Native.String.{String}
use computer_networks_assign.Prelude.{
  ℕ, suc, ◌+◌, ◌-◌, ◌%◌, ◌^◌, Bool, true, false, not, ◌&&◌, Option, none, some, List, [], ◌∷◌, ◌++◌,
  length, take, drop, replicate, get_elem?, ltb, leb, if◌then◌else◌,
}
use computer_networks_assign.Prelude.Int.{ℤ, pos, negsuc, neg_ℕ, ◌+ℤ◌, is_neg, is_zero, eqz, ltz}
use computer_networks_assign.Os.{
  socket, unlink, bind, connect, path, af_unix, stream, accept, read, write, close, mkfifo,
  open_file, perror, M, pure, ◌>>=◌, ◌>>◌, ask, sys, call, exit, crash, die_if,
}
use computer_networks_assign.Sockets.{send_fd, recv_fd, serv_listen}
use computer_networks_assign.Inetd.{FdSet, fd_set}
use computer_networks_assign.Groups.{c_string}
use computer_networks_assign.At.{watch, highest, max_students}
pub mod Interviews
pub mod Passing
pub mod Kept
mod Cases

-- `cli_conn` of r2.c, which sets no option.
unfoldable pub cli_conn : String → String → M ℤ
cli_conn name server = do
  fd ← sys (socket af_unix stream)
  die_if (is_neg fd) "socket" 1
  call (unlink name)
  b ← sys (bind fd (path name))
  die_if (not (is_zero b)) "bind" 1
  c ← sys (connect fd (path server))
  die_if (is_neg c) "connect" 1
  pure fd

-- The connections: from at.c and the platforms, and to the platforms (`nufd_r2` is that to R1).
pub record Links : Type 0 where
  pub ufd : ℤ
  pub ufdr1 : ℤ
  pub ufdr3 : ℤ
  pub nufd_r2 : ℤ
  pub nufd_r3 : ℤ

-- `main` before its loop.
unfoldable pub connect_links : M Links
connect_links = do
  ufd ← cli_conn "./csock2" "./fsock2"
  ufdr1 ← cli_conn "./csock4" "./fsock4"
  sfd2 ← serv_listen "./fsock4"
  sfd3 ← serv_listen "./fscok6"
  nufd_r2 ← sys (accept sfd2)
  die_if (is_neg nufd_r2) "af_unix connection R1" 1
  nufd_r3 ← sys (accept sfd3)
  die_if (is_neg nufd_r3) "af_unix connection R3" 1
  ufdr3 ← cli_conn "./csock6" "./fscok6"
  pure (record { ufd = ufd; ufdr1 = ufdr1; ufdr3 = ufdr3; nufd_r2 = nufd_r2; nufd_r3 = nufd_r3 })

-- `struct student`; the texts by their 200 bytes.
pub record Student : Type 0 where
  pub texts : List ℕ
  pub rounds : ℤ
  pub sequence : List ℤ
  pub score : ℤ

abbrev pub fits_int : ℤ → Bool
fits_int z = not (ltz (pos (2 ^ 31 - 1)) z) && not (ltz z (negsuc (2 ^ 31 - 1)))

-- `fd % 5`
abbrev pub rem5 : ℤ → ℤ
rem5 (pos n) = pos (n % 5)
rem5 (negsuc n) = neg_ℕ ((n + 1) % 5)

-- The round is counted, and the score raised. An overflow is undefined.
abbrev pub graded : ℤ → Student → Option Student
graded fd st =
    if fits_int (st.rounds +ℤ pos 1) && fits_int (st.score +ℤ rem5 fd)
    then some (record st { rounds = st.rounds +ℤ pos 1; score = st.score +ℤ rem5 fd })
    else none

abbrev pub graded_or_crash : Option Student → M Student
graded_or_crash none = crash
graded_or_crash (some st) = pure st

abbrev pub forward : ℤ → ℤ → M (Unit {0})
forward channel fd = send_fd channel fd >>= λ p. die_if (is_neg p) "send_fd" 1

-- The structure goes to the judge over a named pipe.
abbrev pub to_judge : List ℕ → M (Unit {0})
to_judge bytes = do
  call (mkfifo "r2toj")
  fd ← sys (open_file "r2toj")
  call (write fd bytes)
  call (close fd)

-- `st.sequence[st.rounds]`; there are three items.
abbrev pub next_platform : Student → ℕ → M ℤ
next_platform st k = elim (get_elem? st.sequence k) [ none ↦ crash | some n ↦ pure n ]

abbrev pub to_platform : Links → ℤ → ℤ → M (Unit {0})
to_platform s fd n =
    if eqz n (pos 1)
    then forward s.nufd_r2 fd
    else if eqz n (pos 3)
    then forward s.nufd_r3 fd
    else pure tt

unfoldable pub pass_on : (Student → List ℕ) → Links → ℤ → Student → M (Unit {0})
pass_on layout s fd st = elim st.rounds [
  | negsuc n ↦ crash
  | pos k ↦ if leb k 2 then (next_platform st k >>= to_platform s fd) else to_judge (layout st)
]

-- `printf("%s ---> %s\n", st.msg.name, st.msg.data)`: each of the two texts of 100 bytes must hold its
-- terminator.
abbrev pub terminated_or_crash : Option (List ℕ) → M (Unit {0})
terminated_or_crash none = crash
terminated_or_crash (some s) = pure tt

abbrev pub show_message : Student → M (Unit {0})
show_message st =
    terminated_or_crash (c_string (take 100 st.texts))
    >> terminated_or_crash (c_string (drop 100 st.texts))

-- A student that talks. What the bytes that are read, and those of the stack behind them, make of the
-- structure, and the bytes that it has, are the compiler's.
unfoldable pub interview : (List ℕ → Student) → (Student → List ℕ) → Links → ℤ → M (Unit {0})
interview parse layout s fd = do
  r ← ask (read fd)
  show_message (parse r.text)
  st ← graded_or_crash (graded fd (parse r.text))
  call (write fd (layout st))
  pass_on layout s fd st

unfoldable pub scan :
    (List ℕ → Student) → (Student → List ℕ) → Links → FdSet → List ℤ → M (Unit {0})
scan parse layout s ready [] = pure tt
scan parse layout s ready (fd ∷ fds) =
    (if ready fd then interview parse layout s fd else pure tt) >> scan parse layout s ready fds

-- The items of `nsfd` below `used`, the 200 bytes of `msg`, and the set for `select`.
pub record Server : Type 0 where
  pub nsfd : List ℤ
  pub msg : List ℕ
  pub rfd : FdSet

abbrev pub started : Server
started = record { nsfd = []; msg = replicate 200 0; rfd = λ fd. false }

-- "Linked with R2" and its terminator
abbrev pub linked_with : List ℕ
linked_with =
    b'L' ∷ b'i' ∷ b'n' ∷ b'k' ∷ b'e' ∷ b'd' ∷ b' ' ∷ b'w' ∷ b'i' ∷ b't' ∷ b'h' ∷ b' ' ∷ b'R' ∷ b'2'
    ∷ 0 ∷ []

-- `nsfd[used] = recv_fd(channel)`. The index is not tested.
abbrev pub new_descriptor : ℤ → Server → M ℤ
new_descriptor channel v = do
  fd ← recv_fd channel
  if ltb (length v.nsfd) max_students then pure tt else crash
  die_if (is_neg fd) "recv_fd" 1
  pure fd

-- A student from at.c is greeted; one from another platform is not.
unfoldable pub from_at : ℤ → Server → M Server
from_at channel v = do
  fd ← new_descriptor channel v
  let msg = take 100 v.msg ++ (linked_with ++ drop 115 v.msg)
  call (write fd msg)
  pure (record v { nsfd = v.nsfd ++ fd ∷ []; msg = msg })

unfoldable pub from_platform : ℤ → Server → M Server
from_platform channel v = do
  fd ← new_descriptor channel v
  pure (record v { nsfd = v.nsfd ++ fd ∷ [] })

-- A round behind `select`, whose result is not tested.
unfoldable pub after_select : (List ℕ → Student) → (Student → List ℕ) → Links → Server → M Server
after_select parse layout s v =
    if v.rfd s.ufd
    then from_at s.ufd v
    else if v.rfd s.ufdr1
    then from_platform s.ufdr1 v
    else if v.rfd s.ufdr3
    then from_platform s.ufdr3 v
    else (scan parse layout s v.rfd v.nsfd >> pure v)

abbrev pub max : ℤ → ℤ → ℤ
max a b = if ltz b a then a else b

-- What `select` leaves in the set, from the highest descriptor and those that are watched.
abbrev pub selected : (ℤ → FdSet → FdSet) → Links → Server → FdSet
selected select s v =
    select (highest v.nsfd (max (max s.ufd s.ufdr1) s.ufdr3))
      (fd_set s.ufdr3 (fd_set s.ufdr1 (fd_set s.ufd (watch v.nsfd v.rfd))))

unfoldable pub round :
    (List ℕ → Student) → (Student → List ℕ) → (ℤ → FdSet → FdSet) → Links → Server → M Server
round parse layout select s v = after_select parse layout s (record v { rfd = selected select s v })
