-- ===== src/Inetd/Config.antt =====
-- What holds of the table of services after the configuration is read, or read further on SIGUSR1.
use mathlib.Core.Path.{subst}
use computer_networks_assign.Prelude.{
  ℕ, ◌≤◌, ◌<◌, ◌≡◌, ap, sym, ◌∙◌, true, false, List, [], ◌∷◌, length, length-append, All,
  All-append, if◌then◌else◌, arith, ◌⊎◌,
}
use computer_networks_assign.Prelude.Int.{ℤ, pos, negsuc, is_neg, ltz, eqz_self}
use computer_networks_assign.Os.{
  Trace, Os, done, pure, af_inet, stream, dgram, loopback_port, ◌>>=◌,
}
use computer_networks_assign.Os.Life.{SockState, bound, listening, sock_state}
use computer_networks_assign.Os.Bind.{done_injective, >>=-done}
use computer_networks_assign.Inetd.{
  Service, Server, FdSet, Text, fd_set, max_services, register, config_service, config_line,
  config_lines, sig_handler,
}

-- The state of the socket that a service needs; a TCP socket may also be left bound, since the result
-- of `listen` is not looked at.
abbrev pub IsOpen : Service → SockState → Type 0
IsOpen s st =
    ((s.is_tcp ≡ true) × (st ≡ listening af_inet stream (loopback_port s.port)))
    ⊎ ((s.is_tcp ≡ true) × (st ≡ bound af_inet stream (loopback_port s.port)))
    ⊎ ((s.is_tcp ≡ false) × (st ≡ bound af_inet dgram (loopback_port s.port)))

pub config_service_opens :
    (port_of : Text → ℕ) (used : ℕ) (buffer : Text) (s : Service) (os : Os) (tr tr' : Trace)
    → config_service port_of used buffer os tr ≡ done s tr'
    → (is_neg s.fd ≡ false) × (used < max_services) × IsOpen s (sock_state s.fd tr')
unfolding config_service sock_state
config_service_opens port_of used buffer s os tr tr' e = ground (arith, eqz_self s.fd)

-- A table in which `select(m+1, …)` waits for every service.
pub record Inv (v : Server) : Type 0 where
  pub few : length v.services ≤ max_services
  pub good : All (λ s. is_neg s.fd ≡ false) v.services
  pub watched : All (λ s. v.readset s.fd ≡ true) v.services
  pub below : All (λ s. ltz v.m s.fd ≡ false) v.services

watched_more :
    (ss : List Service) (set : FdSet) (fd : ℤ)
    → All (λ s. set s.fd ≡ true) ss
    → All (λ s. fd_set fd set s.fd ≡ true) ss
watched_more [] set fd h = tt
watched_more (s ∷ ss) set fd h = (ground (arith, h.0), watched_more ss set fd h.1)

ltz_self : (a : ℤ) → ltz a a ≡ false
ltz_self (pos n) = ground arith
ltz_self (negsuc n) = ground arith

ltz_raise : (m fd x : ℤ) → ltz m x ≡ false → ltz (if ltz m fd then fd else m) x ≡ false
ltz_raise m fd x h = ground arith

below_more :
    (ss : List Service) (m fd : ℤ)
    → All (λ s. ltz m s.fd ≡ false) ss
    → All (λ s. ltz (if ltz m fd then fd else m) s.fd ≡ false) ss
below_more [] m fd h = tt
below_more (s ∷ ss) m fd h = (ltz_raise m fd s.fd h.0, below_more ss m fd h.1)

register-Inv :
    (v : Server) (s : Service)
    → length v.services < max_services
    → is_neg s.fd ≡ false
    → Inv v
    → Inv (register v s)
register-Inv v s few good i = record {
  few = omega (arith, length-append v.services (s ∷ []));
  good = All-append _ v.services (s ∷ []) i.good (good, tt);
  watched =
      All-append _ v.services (s ∷ []) (watched_more v.services v.readset s.fd i.watched)
        (ground (arith, eqz_self s.fd), tt);
  below =
      All-append _ v.services (s ∷ []) (below_more v.services v.m s.fd i.below)
        (ground (arith, ltz_self s.fd), tt);
}

config_line-Inv :
    (port_of : Text → ℕ) (v v' : Server) (buffer : Text) (os : Os) (tr tr' : Trace)
    → config_line port_of v buffer os tr ≡ done v' tr'
    → Inv v
    → Inv v'
unfolding config_line
config_line-Inv port_of v v' buffer os tr tr' e i =
    let (s, mid, run, last) =
      >>=-done (config_service port_of (length v.services) buffer) (λ s. pure (register v s)) os tr
        tr' v' e in
    let (good, few, _) = config_service_opens port_of (length v.services) buffer s os tr mid run in
    subst Inv (done_injective (register v s) v' mid tr' last) (register-Inv v s few good i)

fp-Inv : (v : Server) (lines : List Text) → Inv v → Inv (record v { fp = lines })
fp-Inv v lines i = record { few = i.few; good = i.good; watched = i.watched; below = i.below }

config_lines-Inv :
    (port_of : Text → ℕ) (v v' : Server) (lines : List Text) (os : Os) (tr tr' : Trace)
    → config_lines port_of v lines os tr ≡ done v' tr'
    → Inv v
    → Inv v'
unfolding config_lines
config_lines-Inv port_of v v' [] os tr tr' e i =
    subst Inv (done_injective (record v { fp = [] }) v' tr tr' e) (fp-Inv v [] i)
config_lines-Inv port_of v v' ([] ∷ lines) os tr tr' e i =
    subst Inv (done_injective (record v { fp = [] ∷ lines }) v' tr tr' e) (fp-Inv v ([] ∷ lines) i)
config_lines-Inv port_of v v' ((c ∷ cs) ∷ lines) os tr tr' e i =
    let next : (config_line port_of v (c ∷ cs) >>= λ w. config_lines port_of w lines) os tr
        ≡ done v' tr' =
      ground arith in
    let (w, mid, run, rest) =
      >>=-done (config_line port_of v (c ∷ cs)) (λ w. config_lines port_of w lines) os tr tr' v'
        next in
    config_lines-Inv port_of w v' lines os mid tr' rest
      (config_line-Inv port_of v w (c ∷ cs) os tr mid run i)

-- When `sig_handler` returns, at the start or on a signal, it has kept the table in order: at most
-- 255 services, each with a good descriptor that is in the set and not above `m`.
pub sig_handler-Inv :
    (port_of : Text → ℕ) (v v' : Server) (os : Os) (tr tr' : Trace)
    → sig_handler port_of v os tr ≡ done v' tr'
    → Inv v
    → Inv v'
unfolding sig_handler
sig_handler-Inv port_of v v' os tr tr' e i = config_lines-Inv port_of v v' v.fp os tr tr' e i

-- An empty line ends the configuration for good: from then on a signal reads nothing more, whatever
-- follows the line.
sig_handler_blank :
    (port_of : Text → ℕ) (v : Server) (lines : List Text) (os : Os) (tr : Trace)
    → v.fp ≡ [] ∷ lines
    → sig_handler port_of v os tr ≡ done v tr
unfolding sig_handler config_lines
sig_handler_blank port_of v lines os tr e =
    ap (λ l. config_lines port_of v l os tr) e ∙ ap (λ l. done (record v { fp = l }) tr) (sym e)
