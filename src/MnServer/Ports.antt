-- ===== src/MnServer/Ports.antt =====
-- The listening sockets.
use mathlib.Core.Path.{subst}
use computer_networks_assign.Prelude.{
  ℕ, zero, suc, ◌+◌, ◌≤◌, ◌<◌, ◌≡◌, refl, ap, ◌∙◌, false, Option, none, some, List, [], ◌∷◌,
  Bool-cases, inl, inr, arith,
}
use computer_networks_assign.Prelude.Int.{ℤ, is_neg, eqz, eqz→eq, eqz_self}
use computer_networks_assign.Os.{af_inet, stream, loopback_port, Trace, Os, done, pure, ◌>>=◌}
use computer_networks_assign.Os.Life.{SockState, absent, listening, sock_state, Fresh}
use computer_networks_assign.Os.Bind.{done_injective, >>=-done}
use computer_networks_assign.MnServer.{open_port, open_ports, kept}

abbrev pub on_port : ℕ → SockState
on_port port = listening af_inet stream (loopback_port port)

open_port-some :
    (port : ℕ) (fd : ℤ) (os : Os) (tr tr' : Trace)
    → open_port port os tr ≡ done (some fd) tr'
    → (is_neg fd ≡ false) × (sock_state fd tr' ≡ on_port port)
unfolding open_port sock_state
open_port-some port fd os tr tr' e = ground (arith, eqz_self fd)

open_port-other :
    (port : ℕ) (fd x : ℤ) (os : Os) (tr tr' : Trace)
    → eqz x fd ≡ false
    → open_port port os tr ≡ done (some fd) tr'
    → sock_state x tr' ≡ sock_state x tr
unfolding open_port sock_state
open_port-other port fd x os tr tr' h e = ground arith

open_port-none :
    (port : ℕ) (x : ℤ) (os : Os) (tr tr' : Trace)
    → open_port port os tr ≡ done none tr'
    → sock_state x tr' ≡ sock_state x tr
unfolding open_port sock_state
open_port-none port x os tr tr' e = ground arith

open_port-Fresh :
    (port : ℕ) (fd : ℤ) (os : Os) (tr tr' : Trace)
    → Fresh os
    → open_port port os tr ≡ done (some fd) tr'
    → sock_state fd tr ≡ absent
unfolding open_port
open_port-Fresh port fd os tr tr' f e = ground (arith, f tr af_inet stream)

open_port_keeps :
    (port p : ℕ) (o : Option ℤ) (x : ℤ) (os : Os) (tr tr' : Trace)
    → Fresh os
    → open_port port os tr ≡ done o tr'
    → sock_state x tr ≡ on_port p
    → sock_state x tr' ≡ on_port p
open_port_keeps port p none x os tr tr' f e h = open_port-none port x os tr tr' e ∙ h
open_port_keeps port p (some fd) x os tr tr' f e h = elim (Bool-cases (eqz x fd)) [
  | inr differ ↦ open_port-other port fd x os tr tr' differ e ∙ h
  | inl same ↦
      let gone =
        ap (λ y. sock_state y tr) (eqz→eq x fd same) ∙ open_port-Fresh port fd os tr tr' f e in
      cc
]

open_ports_keeps :
    (port n p : ℕ) (fds : List ℤ) (x : ℤ) (os : Os) (tr tr' : Trace)
    → Fresh os
    → open_ports port n os tr ≡ done fds tr'
    → sock_state x tr ≡ on_port p
    → sock_state x tr' ≡ on_port p
unfolding open_ports
open_ports_keeps port zero p fds x os tr tr' f e h = ground arith
open_ports_keeps port (suc n) p fds x os tr tr' f e h =
    let (o, mid, first, rest) =
      >>=-done (open_port port) (λ o. open_ports (port + 1) n >>= λ fds. pure (kept o fds)) os tr
        tr' fds e in
    let (more, last, second, third) =
      >>=-done (open_ports (port + 1) n) (λ fds. pure (kept o fds)) os mid tr' fds rest in
    let kept' =
      open_ports_keeps (port + 1) n p more x os mid last f second
        (open_port_keeps port p o x os tr mid f first h) in
    ground arith

-- The sockets listen, by the trace, on ports of the range from `port`, in the order of the ports.
abbrev pub Serve : ℕ → ℕ → Trace → List ℤ → Type 0
Serve port bound tr [] = Unit {0}
Serve port bound tr (fd ∷ fds) =
    (p : ℕ) × (port ≤ p)
    × (p < bound)
    × (is_neg fd ≡ false)
    × (sock_state fd tr ≡ on_port p)
    × Serve (p + 1) bound tr fds

Serve-weaken :
    (low port bound : ℕ) (tr : Trace) (fds : List ℤ)
    → low ≤ port
    → Serve port bound tr fds
    → Serve low bound tr fds
Serve-weaken low port bound tr [] h s = tt
Serve-weaken low port bound tr (fd ∷ fds) h (p, above, below, good, state, more) =
    (p, omega (arith, h, above), below, good, state, more)

kept-Serve :
    (port bound : ℕ) (o : Option ℤ) (more : List ℤ) (tr : Trace)
    → port < bound
    → ((fd : ℤ) → o ≡ some fd → (is_neg fd ≡ false) × (sock_state fd tr ≡ on_port port))
    → Serve (port + 1) bound tr more
    → Serve port bound tr (kept o more)
kept-Serve port bound none more tr h state s =
    Serve-weaken port (port + 1) bound tr more (omega arith) s
kept-Serve port bound (some fd) more tr h state s =
    let (good, opened) = state fd refl in (port, omega arith, h, good, opened, s)

open_ports-Serve_below :
    (port n bound : ℕ) (fds : List ℤ) (os : Os) (tr tr' : Trace)
    → Fresh os
    → port + n ≤ bound
    → open_ports port n os tr ≡ done fds tr'
    → Serve port bound tr' fds
unfolding open_ports
open_ports-Serve_below port zero bound fds os tr tr' f h e =
    subst (Serve port bound tr') (done_injective [] fds tr tr' e) tt
open_ports-Serve_below port (suc n) bound fds os tr tr' f h e =
    let (o, mid, first, rest) =
      >>=-done (open_port port) (λ o. open_ports (port + 1) n >>= λ fds. pure (kept o fds)) os tr
        tr' fds e in
    let (more, last, second, third) =
      >>=-done (open_ports (port + 1) n) (λ fds. pure (kept o fds)) os mid tr' fds rest in
    let s = open_ports-Serve_below (port + 1) n bound more os mid last f (omega arith) second in
    let end : last ≡ tr' = ground (arith, third) in
    let kept_eq = done_injective (kept o more) fds last tr' third in
    let state : (fd : ℤ) → o ≡ some fd → (is_neg fd ≡ false) × (sock_state fd last ≡ on_port port) =
      λ fd same.
        let run : open_port port os tr ≡ done (some fd) mid = ground (arith, first, same) in
        let (good, opened) = open_port-some port fd os tr mid run in
        (good, open_ports_keeps (port + 1) n port more fd os mid last f second opened) in
    let served : Serve port bound last (kept o more) =
      kept-Serve port bound o more last (omega arith) state s in
    subst (Serve port bound tr') kept_eq (subst (λ t. Serve port bound t (kept o more)) end served)

-- On a kernel that does not give out open descriptors, the sockets that the loop over `n` ports leaves
-- listen on ports of the range, each on another one, in the order of the ports.
pub open_ports-Serve :
    (port n : ℕ) (fds : List ℤ) (os : Os) (tr tr' : Trace)
    → Fresh os
    → open_ports port n os tr ≡ done fds tr'
    → Serve port (port + n) tr' fds
open_ports-Serve port n fds os tr tr' f e =
    open_ports-Serve_below port n (port + n) fds os tr tr' f (omega arith) e
