-- ===== src/Iss/Routing.antt =====
-- Which service gets a client.
use computer_networks_assign.Prelude.{◌≡◌, Bool, true, false, ◌&&◌, ◌||◌, List, [], ◌∷◌, All, arith}
use computer_networks_assign.Prelude.Int.{ℤ, eqz, eqz_self}
use computer_networks_assign.Os.{Call, accept, sendmsg, Trace, Os, done}
use computer_networks_assign.Os.Bind.{>>-done}
use computer_networks_assign.Inetd.{FdSet}
use computer_networks_assign.Iss.{Taken, Iss, pass_on, visit, rearm, scan}
use computer_networks_assign.Iss.Registry.{
  Registration, destination, Registered, partner-destination,
}

-- Clients of the socket `fd` go out over `channel`: one of the sockets of the list is `fd`, and the
-- clients of its port go there.
unfoldable pub serves : List Registration → List Taken → ℤ → ℤ → Bool
serves rs [] fd channel = false
serves rs (t ∷ ts) fd channel =
    let rest = serves rs ts fd channel in
    (eqz t.sfd fd && eqz (destination rs t.port) channel) || rest

-- A descriptor `n` that is sent over `channel` was accepted by the call before, on a socket whose
-- clients go there.
abbrev from_socket : List Registration → List Taken → ℤ → ℤ → Call → ℤ → Bool
from_socket rs ts channel n (accept fd) ret = serves rs ts fd channel && eqz ret n
from_socket rs ts channel n c ret = false

abbrev follows : List Registration → List Taken → ℤ → ℤ → Trace → Bool
follows rs ts channel n [] = false
follows rs ts channel n (e ∷ tr) = from_socket rs ts channel n e.call e.reply.ret

abbrev routed_call : List Registration → List Taken → Call → Trace → Bool
routed_call rs ts (sendmsg channel n) tr = follows rs ts channel n tr
routed_call rs ts c tr = true

-- All descriptors that a trace sends are sent in this way.
unfoldable pub routed : List Registration → List Taken → Trace → Bool
routed rs ts [] = true
routed rs ts (e ∷ tr) = let rest = routed rs ts tr in routed_call rs ts e.call tr && rest

abbrev Serves : List Registration → List Taken → List Taken → Type 0
Serves rs ts us = All (λ t. serves rs ts t.sfd (destination rs t.port) ≡ true) us

Serves-more :
    (rs : List Registration) (t : Taken) (ts us : List Taken)
    → Serves rs ts us
    → Serves rs (t ∷ ts) us
unfolding serves
Serves-more rs t ts [] h = tt
Serves-more rs t ts (u ∷ us) h = (ground (arith, h.0), Serves-more rs t ts us h.1)

Serves-self : (rs : List Registration) (ts : List Taken) → Serves rs ts ts
unfolding serves
Serves-self rs [] = tt
Serves-self rs (t ∷ ts) = (
  ground (arith, eqz_self t.sfd, eqz_self (destination rs t.port)),
  Serves-more rs t ts ts (Serves-self rs ts),
)

routed-visit :
    (v : Iss) (rs : List Registration) (ts : List Taken) (t : Taken) (set : FdSet) (os : Os)
    (tr tr' : Trace)
    → Registered v rs
    → serves rs ts t.sfd (destination rs t.port) ≡ true
    → visit v t set os tr ≡ done tt tr'
    → routed rs ts tr ≡ true
    → routed rs ts tr' ≡ true
unfolding pass_on routed
routed-visit v rs ts t set os tr tr' g s e h =
    ground (arith, s, h, eqz_self (os tr (accept t.sfd)).ret, partner-destination v rs t.port g)

routed-scan_part :
    (v : Iss) (rs : List Registration) (ts us : List Taken) (set set' : FdSet) (os : Os)
    (tr tr' : Trace)
    → Registered v rs
    → Serves rs ts us
    → scan v us set os tr ≡ done set' tr'
    → routed rs ts tr ≡ true
    → routed rs ts tr' ≡ true
unfolding scan
routed-scan_part v rs ts [] set set' os tr tr' g s e h = ground arith
routed-scan_part v rs ts (u ∷ us) set set' os tr tr' g s e h =
    let (mid, first, rest) =
      >>-done (visit v u set) (scan v us (rearm u.sfd set)) os tr tr' set' e in
    routed-scan_part v rs ts us (rearm u.sfd set) set' os mid tr' g s.1 rest
      (routed-visit v rs ts u set os tr mid g s.0 first h)

-- With tables that hold some registrations of services, each descriptor that the loop over the sockets sends, after others sent in the same way, is that of
-- a client just accepted on one of the sockets, and goes to the service that registered last for the port
-- of that socket, or, if none has registered for it, to the one that registered first of all.
pub routed-scan :
    (v : Iss) (rs : List Registration) (ts : List Taken) (set set' : FdSet) (os : Os)
    (tr tr' : Trace)
    → Registered v rs
    → scan v ts set os tr ≡ done set' tr'
    → routed rs ts tr ≡ true
    → routed rs ts tr' ≡ true
routed-scan v rs ts set set' os tr tr' g e h =
    routed-scan_part v rs ts ts set set' os tr tr' g (Serves-self rs ts) e h
