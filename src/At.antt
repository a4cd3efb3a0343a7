-- ===== src/At.antt =====
-- The server of Mid_exam/Q2 that students connect to, at.c: it takes the three platforms and passes
-- each student to one of them.
use computer_networks_assign.Prelude.{
  ℕ, zero, suc, ◌+◌, ◌%◌, Bool, true, false, Option, none, some, List, [], ◌∷◌, ◌++◌, length, take,
  drop, replicate, ltb, ◌==◌, if◌then◌else◌,
}
use computer_networks_assign.Prelude.Int.{ℤ, is_neg, ltz}
use computer_networks_assign.Os.{
  accept, read, write, perror, M, pure, ◌>>=◌, ◌>>◌, ask, sys, call, exit, crash, die_if,
}
use computer_networks_assign.Sockets.{send_fd, serv_listen, inet_serv_listen}
use computer_networks_assign.Inetd.{FdSet, fd_set}
use computer_networks_assign.Groups.{c_string}
pub mod Routed
mod Cases

-- The socket for students, and the connections to the three platforms.
pub record Links : Type 0 where
  pub sfd : ℤ
  pub nufd_r1 : ℤ
  pub nufd_r2 : ℤ
  pub nufd_r3 : ℤ

abbrev pub accept_platform : ℤ → M ℤ
accept_platform fd = do
  nufd ← sys (accept fd)
  die_if (is_neg nufd) "af_unix connection" 1
  pure nufd

-- `main` before its loop.
unfoldable pub connect_platforms : M Links
connect_platforms = do
  sfd ← inet_serv_listen 8080
  sfd1 ← serv_listen "./fsock1"
  sfd2 ← serv_listen "./fsock2"
  sfd3 ← serv_listen "./fsock3"
  nufd_r1 ← accept_platform sfd1
  nufd_r2 ← accept_platform sfd2
  nufd_r3 ← accept_platform sfd3
  pure (record { sfd = sfd; nufd_r1 = nufd_r1; nufd_r2 = nufd_r2; nufd_r3 = nufd_r3 })

-- The items of `nsfd` below `used`, the 200 bytes of `msg`, and the set for `select`.
pub record Server : Type 0 where
  pub nsfd : List ℤ
  pub msg : List ℕ
  pub rfd : FdSet

abbrev pub started : Server
started = record { nsfd = []; msg = replicate 200 0; rfd = λ fd. false }

-- The set that is given to `select`, and the highest descriptor of it.
unfoldable pub watch : List ℤ → FdSet → FdSet
watch [] rfd = rfd
watch (fd ∷ fds) rfd = watch fds (fd_set fd rfd)

unfoldable pub highest : List ℤ → ℤ → ℤ
highest [] maxfd = maxfd
highest (fd ∷ fds) maxfd = highest fds (if ltz maxfd fd then fd else maxfd)

abbrev pub max_students : ℕ
max_students = 100

-- "Linked" and its terminator
abbrev pub linked : List ℕ
linked = b'L' ∷ b'i' ∷ b'n' ∷ b'k' ∷ b'e' ∷ b'd' ∷ 0 ∷ []

-- `strcpy(msg.data,conf)`; `data` is the second half of `msg`.
abbrev pub confirmed : List ℕ → List ℕ
confirmed msg = take 100 msg ++ (linked ++ drop 107 msg)

-- A student connects. The index is not tested.
unfoldable pub new_student : ℤ → Server → M Server
new_student sfd v = do
  fd ← sys (accept sfd)
  if ltb (length v.nsfd) max_students then pure tt else crash
  die_if (is_neg fd) "accept" 1
  call (write fd (confirmed v.msg))
  pure (record v { nsfd = v.nsfd ++ fd ∷ []; msg = confirmed v.msg })

-- A `struct student` as it is sent: the texts, and `score`; `rounds` is 0, and `sequence` is not set.
pub record Student : Type 0 where
  pub name : List ℕ
  pub text : List ℕ
  pub score : ℕ

-- `strcpy` of both texts: `msg` must hold their terminators, that of the name in its first half.
abbrev pub student_of : List ℕ → Option Student
student_of msg = elim (c_string msg) [
  | none ↦ none
  | some name ↦ elim (c_string (drop 100 msg)) [
    | none ↦ none
    | some text ↦
        if ltb (length name) 100
        then some (record { name = name; text = text; score = length text })
        else none
  ]
]

abbrev pub student_or_crash : Option Student → M Student
student_or_crash none = crash
student_or_crash (some st) = pure st

-- The platform of the student with the index `i`.
abbrev pub route : Links → ℕ → ℤ
route s i = if i % 3 == 0 then s.nufd_r1 else if i % 3 == 1 then s.nufd_r2 else s.nufd_r3

-- The answer to a student is written, and the student is passed on. The bytes of a structure, its padding
-- and what is not set included, are those of `layout`.
unfoldable pub serve_student : (Student → List ℕ) → Links → ℕ → ℤ → List ℕ → M (List ℕ)
serve_student layout s i fd msg = do
  r ← ask (read fd)
  let msg' = r.text ++ drop (length r.text) msg
  st ← student_or_crash (student_of msg')
  call (write fd (layout st))
  p ← send_fd (route s i) fd
  die_if (is_neg p) "send_fd" 1
  pure msg'

-- `for (int i = 0; i < used; i++)`, from `i` on.
unfoldable pub scan : (Student → List ℕ) → Links → FdSet → ℕ → List ℤ → List ℕ → M (List ℕ)
scan layout s ready i [] msg = pure msg
scan layout s ready i (fd ∷ fds) msg =
    (if ready fd then serve_student layout s i fd msg else pure msg)
    >>= scan layout s ready (i + 1) fds

-- A round behind `select`, whose result is not tested.
unfoldable pub after_select : (Student → List ℕ) → Links → Server → M Server
after_select layout s v =
    if v.rfd s.sfd
    then new_student s.sfd v
    else (scan layout s v.rfd 0 v.nsfd v.msg >>= λ msg. pure (record v { msg = msg }))

-- What `select` leaves in the set: every student and the socket for students are watched.
abbrev pub selected : (ℤ → FdSet → FdSet) → Links → Server → FdSet
selected select s v = select (highest v.nsfd s.sfd) (fd_set s.sfd (watch v.nsfd v.rfd))

-- One round of `while (1)`; `select` gets the highest descriptor and the set.
unfoldable pub round : (Student → List ℕ) → (ℤ → FdSet → FdSet) → Links → Server → M Server
round layout select s v = after_select layout s (record v { rfd = selected select s v })
