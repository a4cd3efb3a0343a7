-- ===== src/IssService/Starting.antt =====
-- What a service has done when its start is over.
use computer_networks_assign.Prelude.{ℕ, ◌≡◌, false, List, [], ◌∷◌, ◌++◌, if◌then◌else◌, arith}
use computer_networks_assign.Prelude.Int.{ℤ, is_neg, eqz, eqz_self, eqz→eq}
use computer_networks_assign.Os.{
  af_unix, af_inet, stream, path, loopback_port, Call, socket, connect, send, Trace, Os, done,
}
use computer_networks_assign.Os.Life.{connected, listening, sock_state, Fresh}
use computer_networks_assign.Tracer.{int_bytes}
use computer_networks_assign.IssService.{start}

-- What was sent over `fd`, the oldest first.
abbrev sending : ℤ → Call → List (List ℕ) → List (List ℕ)
sending fd (send g bytes) ds = if eqz g fd then ds ++ bytes ∷ [] else ds
sending fd c ds = ds

unfoldable pub sent : ℤ → Trace → List (List ℕ)
sent fd [] = []
sent fd (e ∷ tr) = sending fd e.call (sent fd tr)

-- On a kernel that does not give out open descriptors, a start that returns has told iss.c, over a
-- connection to its path, first the port and then the process id, and has a socket that listens on the
-- port of the loopback interface.
pub start_lem :
    (port pid : ℕ) (usfd sfd : ℤ) (os : Os) (tr tr' : Trace)
    → Fresh os
    → start port pid os tr ≡ done (usfd, sfd) tr'
    → (is_neg usfd ≡ false)
      × (is_neg sfd ≡ false)
      × (sock_state usfd tr' ≡ connected af_unix stream (path "/tmp/file.socket"))
      × (sock_state sfd tr' ≡ listening af_inet stream (loopback_port port))
      × (sent usfd tr' ≡ (sent usfd tr ++ int_bytes port ∷ []) ++ int_bytes pid ∷ [])
unfolding start sock_state sent
start_lem port pid usfd sfd os tr tr' fresh e =
    let at : Call → Trace → Trace = λ c t. record { call = c; reply = os t c } ∷ t in
    let u = (os tr (socket af_unix stream)).ret in
    let told : Trace = at (send u (int_bytes pid)) (
      at (send u (int_bytes port))
        (at (connect u (path "/tmp/file.socket")) (at (socket af_unix stream) tr))) in
    ground (arith, eqz_self usfd, eqz_self sfd, eqz→eq usfd sfd, fresh told af_inet stream)
