-- ===== src/IssService.antt =====
-- A service of the self-starting servers, RAW_Sockets_Assignment_20/Swyamabhoo_server_with_tracer/
-- service.c: its start, the signal by which it hands its socket to iss.c, and the loop of `main`.
use computer_networks_assign.Prelude.{
  ℕ, zero, suc, ◌+◌, ◌-◌, Bool, true, false, not, ◌&&◌, ◌||◌, Option, none, some, List, [], ◌∷◌,
  ◌++◌, length, take, drop, get_elem?, set, ltb, leb, if◌then◌else◌,
}
use computer_networks_assign.Prelude.Int.{ℤ, pos, negsuc, is_neg, is_zero, eqz, ltz}
use computer_networks_assign.Os.{
  af_unix, af_inet, stream, path, loopback_port, socket, setsockopt, bind, connect, listen, accept,
  sendmsg, recvmsg, read, send, perror, print, M, pure, ◌>>=◌, ◌>>◌, ask, sys, call, exit, crash,
  die_if,
}
use computer_networks_assign.Inetd.{FdSet, fd_set}
use computer_networks_assign.Tracer.{int_bytes}
pub mod Converting
pub mod Starting
pub mod Watching
pub mod Introducing
mod Cases

-- The start: the service tells iss.c its port and its process id, and listens on its port. The two
-- sockets are returned.
unfoldable pub start : ℕ → ℕ → M (ℤ × ℤ)
start port pid = do
  usfd ← sys (socket af_unix stream)
  die_if (is_neg usfd) "fd_pass_socket" 0
  c ← sys (connect usfd (path "/tmp/file.socket"))
  die_if (is_neg c) "connect" 0
  call (send usfd (int_bytes port))
  call (send usfd (int_bytes pid))
  sfd ← sys (socket af_inet stream)
  die_if (is_neg sfd) "tcp_socket" 0
  call (setsockopt sfd)
  b ← sys (bind sfd (loopback_port port))
  die_if (is_neg b) "bind" 1
  l ← sys (listen sfd 10)
  die_if (is_neg l) "listen" 1
  pure (usfd, sfd)

unfoldable pub sig_handler : ℤ → ℤ → M (Unit {0})
sig_handler usfd sfd = do
  s ← sys (sendmsg usfd sfd)
  if is_neg s then call (perror "fd_send") else call (print "File DEscriptor passed")

-- The variables of the loop; the items of `nsfd` below `ind`.
pub record Loop : Type 0 where
  pub nsfd : List ℤ
  pub f : Bool
  pub readset : FdSet
  pub maxfp1 : ℤ

abbrev pub max_clients : ℕ
max_clients = 255

-- A client is entered as `nsfd[ind]`. Neither the index nor the descriptor is tested, and `FD_SET` of a
-- negative one writes before the set.
unfoldable pub enter : ℤ → Loop → M Loop
enter fd v =
    if ltb (length v.nsfd) max_clients && not (is_neg fd)
    then pure (record v {
      nsfd = v.nsfd ++ fd ∷ [];
      readset = fd_set fd v.readset;
      maxfp1 = if ltz v.maxfp1 fd then fd else v.maxfp1;
    })
    else crash

abbrev pub fd_clr : ℤ → FdSet → FdSet
fd_clr fd set x = not (eqz x fd) && set x

-- `if(FD_ISSET(sfd,&readset))`: the first client; after it the socket is not watched any more.
unfoldable pub check_first : ℤ → Loop → M Loop
check_first sfd v =
    if v.readset sfd
    then (do
      fd ← sys (accept sfd)
      v' ← enter fd v
      pure (record v' { readset = fd_clr sfd v'.readset; f = true }))
    else pure (if v.f then v else record v { readset = fd_set sfd v.readset })

-- `if(FD_ISSET(usfd,&readset))`: iss.c passes a client, or has ended.
unfoldable pub check_passed : ℤ → Loop → M Loop
check_passed usfd v =
    if v.readset usfd
    then (do
      m ← ask (recvmsg usfd)
      if is_neg m.ret
          then (call (perror "Could not receive") >> pure v)
          else if is_zero m.ret
          then (call (print "Terminating..") >> exit 0)
          else enter m.passed v)
    else pure (record v { readset = fd_set usfd v.readset })

-- `buffer[j]>='a'` and `buffer[i]<='z'`, of a signed `char`.
abbrev pub from_a : ℕ → Bool
from_a c = leb b'a' c && ltb c 128

abbrev pub to_z : ℕ → Bool
to_z c = leb c b'z' || leb 128 c

-- One round of `for(int j=0;j<sz;j++)`; `none` is an access outside `buffer`.
unfoldable pub convert_one : List ℕ → ℕ → ℕ → Option (List ℕ)
convert_one buffer i j = elim (get_elem? buffer j) [
  | none ↦ none
  | some c ↦
      if from_a c
      then elim (get_elem? buffer i) [
        | none ↦ none
        | some d ↦ some (if to_z d then set buffer j (c - b'a' + b'A') else buffer)
      ]
      else some buffer
]

-- The loop from `j` on, with `n` bytes left, for the client with the index `i`.
unfoldable pub convert : List ℕ → ℕ → ℕ → ℕ → Option (List ℕ)
convert buffer i j zero = some buffer
convert buffer i j (suc n) = elim (convert_one buffer i j) [
  | none ↦ none
  | some buffer' ↦ convert buffer' i (j + 1) n
]

-- `buffer[sz] = '\0'`
unfoldable pub terminate : List ℕ → ℤ → M (List ℕ)
terminate buffer (pos sz) = if ltb sz (length buffer) then pure (set buffer sz 0) else crash
terminate buffer (negsuc n) = crash

abbrev pub or_crash : Option (List ℕ) → M (List ℕ)
or_crash none = crash
or_crash (some buffer) = pure buffer

abbrev pub size_of : ℤ → ℕ
size_of (pos n) = n
size_of (negsuc n) = 0

-- A client is served; `buffer` is what its 50 bytes held before.
unfoldable pub talk : List ℕ → ℕ → ℤ → M (Unit {0})
talk buffer i fd = do
  r ← ask (read fd)
  text ← terminate (r.text ++ drop (length r.text) buffer) r.ret
  converted ← or_crash (convert text i 0 (size_of r.ret))
  call (send fd (take (size_of r.ret) converted))

-- `for(int i=0;i<sto;i++)`, from `i` on, for the clients `fds`.
unfoldable pub scan : List ℕ → ℕ → List ℤ → FdSet → M FdSet
scan buffer i [] set = pure set
scan buffer i (fd ∷ fds) set =
    (if set fd then talk buffer i fd else pure tt)
    >> scan buffer (i + 1) fds (if set fd then set else fd_set fd set)

-- One round of `while(1)`, where `select` returned `r` and left `ready`.
unfoldable pub round : List ℕ → ℤ → ℤ → Loop → ℤ → FdSet → M Loop
round buffer usfd sfd v r ready =
    if ltz (pos 0) r
    then (check_first sfd (record v { readset = ready }) >>= λ v1. check_passed usfd v1 >>= λ v2.
        scan buffer 0 (take (length v.nsfd) v2.nsfd) v2.readset >>= λ set.
        pure (record v2 { readset = set }))
    else pure (record v { readset = ready })
