-- ===== src/Inetd.antt =====
-- The super servers that start services from a configuration file: `sig_handler`, `encrypt` and
-- `main` of INETD_Assignment_18/dynamic_inetd/supserver.c. End_lab_exam/ques_1/nitnetd.c repeats the
-- first two and has a loop of its own (Nitnetd.antt). `port_of` stands for `htons(atoi(tok))`.
use computer_networks_assign.Prelude.{
  ℕ, ◌+◌, ◌-◌, ◌%◌, Bool, true, false, not, ◌&&◌, ◌||◌, Option, none, some, List, [], ◌∷◌, ◌++◌,
  length, get_elem?, ltb, leb, ◌==◌, if◌then◌else◌,
}
use computer_networks_assign.Prelude.Int.{ℤ, pos, negsuc, is_neg, is_zero, eqz, ltz, minus_one}
use computer_networks_assign.Os.{
  af_inet, stream, dgram, loopback_port, socket, setsockopt, bind, listen, accept, close, recvfrom,
  sendto, fork, dup2, execv, perror, M, pure, ◌>>=◌, ◌>>◌, ask, sys, call, exit, crash, die_if,
}
pub mod Encrypt
pub mod Config
pub mod Rearm
mod Cases

abbrev pub Text : Type 0
Text = List ℕ

-- An `fd_set`.
abbrev pub FdSet : Type 0
FdSet = ℤ → Bool

-- `FD_SET(fd,&set)`
abbrev pub fd_set : ℤ → FdSet → FdSet
fd_set fd set x = eqz x fd || set x

-- The items at one index of `type`, `sfd`, `addr` and `operations`.
pub record Service : Type 0 where
  pub is_tcp : Bool
  pub fd : ℤ
  pub port : ℕ
  pub operation : Text

-- The global variables: the services below `used`, the set to wait for, the largest descriptor `m`,
-- and the lines of the configuration file that are still to be read.
pub record Server : Type 0 where
  pub services : List Service
  pub readset : FdSet
  pub m : ℤ
  pub fp : List Text

-- MAXSERVICES, and the size of the line buffer
abbrev pub max_services : ℕ
max_services = 255

abbrev pub line_size : ℕ
line_size = 255

abbrev pub text_eq : Text → Text → Bool
text_eq [] [] = true
text_eq (a ∷ s) (b ∷ t) = a == b && text_eq s t
text_eq _ _ = false

abbrev pub tcp_text : Text
tcp_text = b't' ∷ b'c' ∷ b'p' ∷ []

emit : Text → List Text → List Text
emit [] ts = ts
emit (c ∷ cs) ts = (c ∷ cs) ∷ ts

-- The tokens that `strtok(…," ")` gives, behind those read into `cur`.
unfoldable pub tokens : Text → Text → List Text
unfolding emit
tokens cur [] = emit cur []
tokens cur (c ∷ cs) =
    let rest = tokens (if c == b' ' then [] else cur ++ c ∷ []) cs in
    if c == b' ' then emit cur rest else rest

-- A token that is missing is a null pointer, which `strdup`, `strcmp` and `atoi` follow.
unfoldable pub token : List Text → ℕ → M Text
token ts i = elim (get_elem? ts i) [ none ↦ crash | some t ↦ pure t ]

-- What one line of the file starts: its socket, opened, bound and, for TCP, listening. `used` is the
-- number of services before it.
unfoldable pub config_service : (Text → ℕ) → ℕ → Text → M Service
unfolding token
config_service port_of used buffer = do
  let ts = tokens [] buffer
  kind ← token ts 1
  if ltb used max_services then pure tt else crash
  let tcp = text_eq kind tcp_text
  fd ← sys (socket af_inet (if tcp then stream else dgram))
  die_if (is_neg fd) "socket not created" 0
  o ← sys (setsockopt fd)
  die_if (not (is_zero o)) "setsockopt" 1
  number ← token ts 3
  b ← sys (bind fd (loopback_port (port_of number)))
  die_if (is_neg b) "bind!" 0
  if tcp then call (listen fd 10) else pure tt
  operation ← token ts 4
  pure (record { is_tcp = tcp; fd = fd; port = port_of number; operation = operation })

-- `FD_SET`, the largest descriptor, and `used++`
abbrev pub register : Server → Service → Server
register v s = record v {
  services = v.services ++ s ∷ [];
  readset = fd_set s.fd v.readset;
  m = if ltz v.m s.fd then s.fd else v.m;
}

-- One round of the loop of `sig_handler`, for the line in `buffer`.
unfoldable pub config_line : (Text → ℕ) → Server → Text → M Server
config_line port_of v buffer =
    config_service port_of (length v.services) buffer >>= λ s. pure (register v s)

-- `while(fscanf(fp,"%[^\n]s",buffer)==1)`: an empty line does not match, and stays unread.
unfoldable pub config_lines : (Text → ℕ) → Server → List Text → M Server
config_lines port_of v [] = pure (record v { fp = [] })
config_lines port_of v ([] ∷ lines) = pure (record v { fp = [] ∷ lines })
config_lines port_of v ((c ∷ cs) ∷ lines) =
    if ltb (length (c ∷ cs)) line_size
    then (config_line port_of v (c ∷ cs) >>= λ v'. config_lines port_of v' lines)
    else crash

unfoldable pub sig_handler : (Text → ℕ) → Server → M Server
sig_handler port_of v = config_lines port_of v v.fp

-- `encrypt` on the bytes of a buffer. `strlen` is taken anew in each round, so the loop also stops
-- at a byte that it has just turned into NUL.
unfoldable pub encrypt : Text → Text
encrypt [] = []
encrypt (c ∷ cs) =
    let c' = (c + 256 - b'a' + b'1') % 256 in
    let rest = encrypt cs in if c == 0 then c ∷ cs else if c' == 0 then c' ∷ cs else c' ∷ rest

-- The C string at the start of a buffer.
abbrev pub c_str : Text → Text
c_str [] = []
c_str (c ∷ cs) = let rest = c_str cs in if c == 0 then [] else c ∷ rest

-- The size of `mesg`
abbrev pub mesg_size : ℕ
mesg_size = 1024

-- `mesg[sz] = '\0'` is behind the array when `sz` is 1024.
unfoldable pub reply_encrypted : Service → Text → M (Unit {0})
reply_encrypted s mesg = do
  if ltb (length mesg) mesg_size then pure tt else crash
  n ← sys (sendto s.fd (c_str (encrypt (mesg ++ 0 ∷ []))))
  if is_neg n then call (perror "Send") else pure tt

unfoldable pub serve_udp : Service → M (Unit {0})
unfolding reply_encrypted
serve_udp s = do
  r ← ask (recvfrom s.fd)
  if is_neg r.ret then call (perror "Receive") else reply_encrypted s r.text

-- The child: the connection becomes its input and output, and `execv` does not return.
unfoldable pub child : Service → ℤ → M (Unit {0})
child s nsfd = do
  call (close s.fd)
  call (dup2 nsfd (pos 0))
  call (dup2 nsfd (pos 1))
  call (execv s.operation)
  exit 0

unfoldable pub start_child : Service → ℤ → M (Unit {0})
unfolding child
start_child s nsfd = do
  p ← sys fork
  if is_neg p then call (perror "Fork") else if is_zero p then child s nsfd else call (close nsfd)

unfoldable pub serve_tcp : Service → M (Unit {0})
unfolding start_child
serve_tcp s = do
  nsfd ← sys (accept s.fd)
  if is_neg nsfd then call (perror "Accept") else start_child s nsfd

abbrev pub serve : Service → M (Unit {0})
serve s = if s.is_tcp then serve_tcp s else serve_udp s

-- `if(FD_ISSET(sfd[i],&readset)) … else FD_SET(sfd[i],&readset);`: what is done, and the set behind.
abbrev pub visit : Service → FdSet → M (Unit {0})
visit s set = if set s.fd then serve s else pure tt

abbrev pub rearm : Service → FdSet → FdSet
rearm s set = if set s.fd then set else fd_set s.fd set

-- `for(int i=0;i<used;i++)` over the set that `select` left.
unfoldable pub scan : List Service → FdSet → M FdSet
scan [] set = pure set
scan (s ∷ ss) set = visit s set >> scan ss (rearm s set)

-- The same, with the set kept for the next `select`.
abbrev pub scan_all : Server → FdSet → M Server
scan_all v ready = scan v.services ready >>= λ set. pure (record v { readset = set })

-- One round of the loop of `main`, where `select` returned `r` and left `ready`.
unfoldable pub round : Server → ℤ → FdSet → M Server
round v r ready = if ltz (pos 0) r then scan_all v ready else pure (record v { readset = ready })
