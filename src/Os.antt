-- ===== src/Os.antt =====
-- The system calls of the servers: a program runs against an operating system that answers each call
-- from the calls made so far, and leaves the trace of its calls, the newest first. The operating
-- system is a parameter of every run; what a proof needs of it is a named hypothesis.
use Prim.Native.String.{String}
use computer_networks_assign.Prelude.{ℕ, ◌≡◌, true, false, Bool, List, [], ◌∷◌, if◌then◌else◌}
use computer_networks_assign.Prelude.Int.{ℤ, pos, is_neg, eqz}
pub mod Life
pub mod Bind
pub mod Unseen

pub data Domain : Type 0 where
  af_unix af_inet af_packet : Domain

pub data SockType : Type 0 where
  stream dgram raw : SockType

-- A `struct sockaddr`: a path, or a port on INADDR_ANY or on the loopback interface.
pub data Address : Type 0 where
  path : String → Address
  any_port loopback_port : ℕ → Address

pub data Call : Type 0 where
  socket : Domain → SockType → Call
  setsockopt : ℤ → Call
  unlink : String → Call
  bind connect : ℤ → Address → Call
  listen : ℤ → ℕ → Call
  accept close : ℤ → Call
  -- A message with one descriptor as its SCM_RIGHTS data, over the first descriptor.
  sendmsg : ℤ → ℤ → Call
  recvmsg : ℤ → Call
  -- A datagram, and one sent with the bytes of it.
  recvfrom : ℤ → Call
  sendto : ℤ → List ℕ → Call
  -- The same on a connection.
  recv : ℤ → Call
  read : ℤ → Call
  send : ℤ → List ℕ → Call
  -- `pthread_create` with one of several functions, and a descriptor as its argument.
  thread : ℕ → ℤ → Call
  fork : Call
  -- The status that `waitpid` fills in is the `passed` of its reply.
  waitpid : ℤ → Call
  dup2 : ℤ → ℤ → Call
  execv : List ℕ → Call
  -- `kill` with a signal number.
  kill : ℤ → ℕ → Call
  -- The same to a process group, and a process moved into a group.
  killpg : ℤ → ℕ → Call
  setpgid : ℤ → ℤ → Call
  -- A named pipe made, a file or pipe opened by its name, and bytes written to a descriptor.
  mkfifo open_file : String → Call
  write : ℤ → List ℕ → Call
  -- The `revents` of the descriptors are the `text` of the reply.
  poll : Call
  -- `malloc` of a number of bytes; 0 stands for NULL.
  malloc : ℕ → Call
  -- The hardware address of an interface, the index of one, and addresses from texts, which are the
  -- `text` of the reply.
  ioctl_hwaddr : ℤ → String → Call
  if_nametoindex inet_pton getaddrinfo : String → Call
  -- The first `int` of a System V shared segment.
  shared_int : Call
  perror print : String → Call

-- What a call returns, and what it fills in: an `int`, such as the descriptor that `recvmsg` passes,
-- or the bytes received.
pub record Reply : Type 0 where
  pub ret : ℤ
  pub passed : ℤ
  pub text : List ℕ

pub record Event : Type 0 where
  pub call : Call
  pub reply : Reply

abbrev pub Trace : Type 0
Trace = List Event

abbrev pub Os : Type 0
Os = Trace → Call → Reply

-- A run returns to its caller, ends the process with a status, or does what C leaves undefined, such
-- as a write behind an array.
pub data Outcome (A : Type 0) : Type 0 where
  done : A → Trace → Outcome A
  exited : ℕ → Trace → Outcome A
  crashed : Trace → Outcome A

-- The process has ended.
abbrev pub HasExited : {A : Type 0} → Outcome A → Type 0
HasExited (done a tr) = ⊥
HasExited (exited n tr) = Unit {0}
HasExited (crashed tr) = ⊥

-- The trace that a run leaves.
abbrev pub trace_of : {A : Type 0} → Outcome A → Trace
trace_of (done a tr) = tr
trace_of (exited n tr) = tr
trace_of (crashed tr) = tr

abbrev pub M : Type 0 → Type 0
M A = Os → Trace → Outcome A

abbrev pub pure : {A : Type 0} → A → M A
pure a os tr = done a tr

infixl 5 ◌>>=◌ ◌>>◌
abbrev pub ◌>>=◌ : {A B : Type 0} → M A → (A → M B) → M B
◌>>=◌ m f os tr = elim (m os tr) [
  | done a tr' ↦ f a os tr'
  | exited n tr' ↦ exited n tr'
  | crashed tr' ↦ crashed tr'
]

abbrev pub ◌>>◌ : {B : Type 0} → M (Unit {0}) → M B → M B
m >> k = m >>= λ _. k

-- A call with its whole reply, and with its result alone.
abbrev pub ask : Call → M Reply
ask c os tr = done (os tr c) (record { call = c; reply = os tr c } ∷ tr)

abbrev pub sys : Call → M ℤ
sys c os tr = done (os tr c).ret (record { call = c; reply = os tr c } ∷ tr)

abbrev pub call : Call → M (Unit {0})
call c os tr = done tt (record { call = c; reply = os tr c } ∷ tr)

abbrev pub exit : {A : Type 0} → ℕ → M A
exit n os tr = exited n tr

abbrev pub crash : {A : Type 0} → M A
crash os tr = crashed tr

abbrev pub sigusr1 : ℕ
sigusr1 = 10

abbrev pub sigusr2 : ℕ
sigusr2 = 12

-- `if(failed) { perror(text); exit(status); }`
abbrev pub die_if : Bool → String → ℕ → M (Unit {0})
die_if true text status = call (perror text) >> exit status
die_if false text status = pure tt

abbrev pub perror_then : Bool → String → M (Unit {0})
perror_then true text = call (perror text)
perror_then false text = pure tt
