-- ===== src/MnServer.antt =====
-- The servers on a range of ports, m-n-server-client-NITW-Passport_Assignment_21/m-n-serv_cli/
-- server.c: the functions of its threads, and the loop of its `main` over the listening sockets.
use computer_networks_assign.Prelude.{
  ℕ, zero, suc, ◌+◌, ◌-◌, Bool, true, false, ◌&&◌, Option, none, some, List, [], ◌∷◌, ◌++◌, map,
  length, ltb, leb, ◌==◌, if◌then◌else◌,
}
use computer_networks_assign.Prelude.Int.{ℤ, pos, is_neg, is_zero, ltz}
use computer_networks_assign.Os.{
  af_inet, stream, loopback_port, socket, setsockopt, bind, listen, accept, recv, send, recvfrom,
  sendto, thread, perror, M, pure, ◌>>=◌, ◌>>◌, ask, sys, call, crash, die_if,
}
use computer_networks_assign.Inetd.{Text, FdSet, fd_set}
pub mod Echo
pub mod Ports
pub mod Clients
mod Cases

-- The loop bodies of `func1`, `func2` and `func3` on one byte
unfoldable pub upper : ℕ → ℕ
upper c = if leb b'a' c && leb c b'z' then c - b'a' + b'A' else c

unfoldable pub lower : ℕ → ℕ
lower c = if leb b'A' c && leb c b'Z' then c - b'A' + b'a' else c

unfoldable pub number : ℕ → ℕ
number c = if leb b'a' c && leb c b'z' then c - b'a' + b'1' else c

-- The conversion of the thread function of each kind, 1 to 3.
abbrev pub conversion : ℕ → ℕ → ℕ
conversion kind c = if kind == 1 then upper c else if kind == 2 then lower c else number c

-- The size of `buffer` in each of the three
abbrev pub buffer_size : ℕ
buffer_size = 50

-- `buffer[sz] = '\0'`, the loop, and the answer. With 50 bytes the write is behind the array.
unfoldable pub answer_with : (ℕ → ℕ) → ℤ → Text → M (Unit {0})
answer_with f fd buffer = do
  if ltb (length buffer) buffer_size then pure tt else crash
  n ← sys (send fd (map f buffer))
  if is_neg n then call (perror "Could not send") else pure tt

-- One round of `while(1)`; the result is whether another follows.
unfoldable pub func_round : (ℕ → ℕ) → ℤ → M Bool
unfolding answer_with
func_round f fd = do
  r ← ask (recv fd)
  if is_neg r.ret
      then (call (perror "Could not read") >> pure true)
      else if is_zero r.ret
      then pure false
      else (answer_with f fd r.text >> pure true)

-- `func1`, `func2` and `func3` for at most `fuel` rounds; the result is whether the thread would go
-- on.
unfoldable pub func : (ℕ → ℕ) → ℕ → ℤ → M Bool
func f zero fd = pure true
func f (suc fuel) fd = func_round f fd >>= λ more. if more then func f fuel fd else pure false

-- The body of the first loop of `main`, for one port; `none` is the `continue`.
unfoldable pub open_port : ℕ → M (Option ℤ)
open_port port = do
  fd ← sys (socket af_inet stream)
  if is_neg fd then (call (perror "socket") >> pure none) else do
    o ← sys (setsockopt fd)
    die_if (is_neg o) "setsockopt" 1
    b ← sys (bind fd (loopback_port port))
    die_if (is_neg b) "bind" 1
    l ← sys (listen fd 10)
    die_if (is_neg l) "listen" 1
    pure (some fd)

-- An item of `sfd`, if there is one, before the others.
abbrev pub kept : Option ℤ → List ℤ → List ℤ
kept none fds = fds
kept (some fd) fds = fd ∷ fds

-- `for(int i=port_start;i<=port_end;i++)`, for `n` ports: the first `j` items of `sfd`.
unfoldable pub open_ports : ℕ → ℕ → M (List ℤ)
open_ports port zero = pure []
open_ports port (suc n) =
    open_port port >>= λ o. open_ports (port + 1) n >>= λ fds. pure (kept o fds)

-- The size of `nsfd`
abbrev pub max_clients : ℕ
max_clients = 255

-- The function of the threads, by the first byte of `argv[1]`
abbrev pub func_of : ℕ → ℕ
func_of c = if c == b'1' then 1 else if c == b'2' then 2 else 3

-- `nsfd[ind] = accept(…)` and what follows: the next value of `ind`.
unfoldable pub start_thread : ℕ → ℕ → ℤ → M ℕ
start_thread kind ind fd = do
  nsfd ← sys (accept fd)
  if ltb ind max_clients then pure tt else crash
  if is_neg nsfd
      then (call (perror "Could not accept") >> pure ind)
      else (call (thread (func_of kind) nsfd) >> pure (ind + 1))

abbrev pub visit : ℕ → ℕ → ℤ → FdSet → M ℕ
visit kind ind fd set = if set fd then start_thread kind ind fd else pure ind

abbrev pub rearm : ℤ → FdSet → FdSet
rearm fd set = if set fd then set else fd_set fd set

-- `for(int i=0;i<n;i++)`, with `n` the number of ports: an item of `sfd` that was never filled in is
-- not a descriptor.
unfoldable pub scan : ℕ → ℕ → ℕ → List ℤ → FdSet → M (FdSet × ℕ)
scan kind zero ind fds set = pure (set, ind)
scan kind (suc n) ind [] set = crash
scan kind (suc n) ind (fd ∷ fds) set =
    visit kind ind fd set >>= λ ind'. scan kind n ind' fds (rearm fd set)

-- A request for the range of ports, which is answered even if it could not be read.
unfoldable pub tell_ports : ℤ → Text → M (Unit {0})
tell_ports rsfd reply = do
  r ← sys (recvfrom rsfd)
  if is_neg r then call (perror "receive") else pure tt
  n ← sys (sendto rsfd (reply ++ 0 ∷ []))
  if is_neg n then call (perror "send") else pure tt

abbrev pub visit_raw : ℤ → Text → FdSet → M (Unit {0})
visit_raw rsfd reply set = if set rsfd then tell_ports rsfd reply else pure tt

-- One round of `while(1)`, where `select` returned `r` and left `ready`.
unfoldable pub round : ℕ → ℕ → ℤ → Text → ℕ → List ℤ → ℤ → FdSet → M (FdSet × ℕ)
round kind n rsfd reply ind fds r ready =
    if ltz (pos 0) r
    then visit_raw rsfd reply ready >> scan kind n ind fds (rearm rsfd ready)
    else pure (ready, ind)
