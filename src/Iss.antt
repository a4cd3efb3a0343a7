-- ===== src/Iss.antt =====
-- The server that listens on behalf of others, RAW_Sockets_Assignment_20/
-- Swyamabhoo_server_with_tracer/iss.c: services hand it their listening sockets when the tracer says
-- so, and get each client back. The loop of `main`.
use computer_networks_assign.Prelude.{
  ℕ, ◌+◌, Bool, true, false, Option, none, some, List, [], ◌∷◌, ◌++◌, length, take, get_elem?, ltb,
  ◌==◌, if◌then◌else◌,
}
use computer_networks_assign.Prelude.Int.{ℤ, pos, negsuc, is_neg, is_zero, ltz}
use computer_networks_assign.Os.{
  accept, recv, read, recvmsg, sendmsg, kill, sigusr1, perror, M, pure, ◌>>=◌, ◌>>◌, ask, sys, call,
  crash,
}
use computer_networks_assign.Inetd.{FdSet, fd_set}
pub mod Watching
pub mod Registry
pub mod Routing
mod Cases

-- The items at one index of `nusfd` and `pids`, below `nind`.
pub record Partner : Type 0 where
  pub nusfd : ℤ
  pub pid : ℤ

-- The items at one index of `ports` and `sfd`, below `ind`.
pub record Taken : Type 0 where
  pub port : ℕ
  pub sfd : ℤ

-- The global variables; `next_port` is `ports[ind]`, which a read may leave as it was.
pub record Iss : Type 0 where
  pub partners : List Partner
  pub taken : List Taken
  pub next_port : ℤ
  pub map : ℕ → ℕ
  pub readset : FdSet
  pub maxfp1 : ℤ

-- The size of the arrays, and that of `map`
abbrev pub max_items : ℕ
max_items = 255

abbrev pub map_size : ℕ
map_size = 65536

-- `nusfd[map[port]]` and `pids[map[port]]`: the arrays are 0 where nothing was stored.
unfoldable pub partner : Iss → ℕ → Partner
partner v port = elim (get_elem? v.partners (v.map port)) [
  | none ↦ record { nusfd = pos 0; pid = pos 0 }
  | some p ↦ p
]

-- An `int` used as an index of `map`.
unfoldable pub index : ℤ → M ℕ
index (pos n) = if ltb n map_size then pure n else crash
index (negsuc n) = crash

-- What `recv` and `read` leave in an `int` that was `old`; a part of an `int` is not modelled.
abbrev pub filled : ℤ → ℤ → ℤ → ℤ
filled ret passed old = if ltz (pos 0) ret then passed else old

abbrev pub map_to : ℕ → ℕ → (ℕ → ℕ) → ℕ → ℕ
map_to port k m x = if x == port then k else m x

-- `if(FD_ISSET(usfd,&readset))`: a new service, with its port and its process id.
unfoldable pub new_partner : ℤ → Iss → M Iss
unfolding index
new_partner usfd v = do
  nusfd ← sys (accept usfd)
  if ltb (length v.partners) max_items then pure tt else crash
  p ← ask (recv nusfd)
  portno ← index (filled p.ret p.passed (pos 0))
  i ← ask (recv nusfd)
  pure (record v {
    map = map_to portno (length v.partners) v.map;
    partners = v.partners ++ record { nusfd = nusfd; pid = filled i.ret i.passed (pos 0) } ∷ [];
  })

-- The socket that the service passes is entered as `sfd[ind]`.
abbrev pub enter : Iss → ℕ → ℤ → Iss
enter v port fd = record v {
  taken = v.taken ++ record { port = port; sfd = fd } ∷ [];
  next_port = pos 0;
  readset = fd_set fd v.readset;
  maxfp1 = if ltz v.maxfp1 fd then fd else v.maxfp1;
}

-- The service of `port` is signalled, and passes its socket.
unfoldable pub take_over : Iss → ℕ → M Iss
take_over v port = do
  call (kill (partner v port).pid sigusr1)
  m ← ask (recvmsg (partner v port).nusfd)
  if is_neg m.ret
      then (call (perror "Could not recevie file descriptor") >> pure v)
      else pure (enter v port m.passed)

-- `if(FD_ISSET(fd,&readset))`: the tracer names the port of a service that is to be replaced.
unfoldable pub from_tracer : ℤ → Iss → M Iss
unfolding index take_over
from_tracer fd v = do
  if ltb (length v.taken) max_items then pure tt else crash
  r ← ask (read fd)
  if is_neg r.ret then (call (perror "Could not read") >> pure v) else do
    let next = filled r.ret r.passed v.next_port
    port ← index next
    take_over (record v { next_port = next }) port

-- A client of a socket taken over goes to the service of the port.
unfoldable pub pass_on : Iss → Taken → M (Unit {0})
pass_on v t = do
  nsfd ← sys (accept t.sfd)
  if is_neg nsfd then call (perror "Could not accept") else do
    s ← sys (sendmsg (partner v t.port).nusfd nsfd)
    if is_neg s then call (perror "fd_send") else pure tt

abbrev pub rearm : ℤ → FdSet → FdSet
rearm fd set = if set fd then set else fd_set fd set

abbrev pub visit : Iss → Taken → FdSet → M (Unit {0})
visit v t set = if set t.sfd then pass_on v t else pure tt

-- `for(int i=0;i<sto;i++)`
unfoldable pub scan : Iss → List Taken → FdSet → M FdSet
scan v [] set = pure set
scan v (t ∷ ts) set = visit v t set >> scan v ts (rearm t.sfd set)

-- The first two tests of the round.
abbrev pub check_services : ℤ → Iss → M Iss
check_services usfd v =
    if v.readset usfd
    then new_partner usfd v
    else pure (record v { readset = fd_set usfd v.readset })

abbrev pub check_tracer : ℤ → Iss → M Iss
check_tracer fd v =
    if v.readset fd then from_tracer fd v else pure (record v { readset = fd_set fd v.readset })

abbrev pub scan_taken : ℕ → Iss → M Iss
scan_taken sto v = scan v (take sto v.taken) v.readset >>= λ set. pure (record v { readset = set })

-- One round of `while(1)`, where `select` returned `r` and left `ready`.
unfoldable pub round : ℤ → ℤ → Iss → ℤ → FdSet → M Iss
round usfd fd v r ready =
    if ltz (pos 0) r
    then (check_services usfd (record v { readset = ready }) >>= λ v1.
        check_tracer fd v1 >>= λ v2. scan_taken (length v.taken) v2)
    else pure (record v { readset = ready })
